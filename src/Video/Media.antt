-- ===== src/Video/Media.antt =====
-- How often the `sess_info` of a recorded medium is deleted.
use rpi_cam.Base.{ℕ, ◌+◌, ◌≤◌, ◌≡◌, true, List, [], ◌∷◌, arith, if◌then◌else◌, subst}
use rpi_cam.Base.Outcome.{ok, >>=-eq-ok, ok-injective}
use rpi_cam.Video.Recorder.{
  Medium, MediumEvent, need_data, thread_ends, media_unprepared, medium_step, medium_run,
}

-- The claims on the `sess_info` that an event makes.
abbrev pub claims : MediumEvent → ℕ
claims need_data = 1
claims thread_ends = 0
claims media_unprepared = 1

abbrev pub total_claims : List MediumEvent → ℕ
total_claims [] = 0
total_claims (e ∷ events) = claims e + total_claims events

abbrev life : Medium → ℕ
life m = if m.alive then 1 else 0

medium_step-claims :
    (e : MediumEvent) (m m' : Medium)
    → medium_step e m ≡ ok m'
    → claims e + m.holders + life m' ≤ m'.holders + life m
unfolding medium_step
medium_step-claims need_data m m' h = ground arith
medium_step-claims thread_ends m m' h = ground arith
medium_step-claims media_unprepared m m' h = ground arith

medium_run-claims :
    (events : List MediumEvent) (m m' : Medium)
    → medium_run events m ≡ ok m'
    → total_claims events + m.holders + life m' ≤ m'.holders + life m
unfolding medium_run
medium_run-claims [] m m' h =
    subst (λ x. 0 + m.holders + life x ≤ x.holders + life m) (ok-injective h) (omega arith)
medium_run-claims (e ∷ events) m m' h =
    let (m₁, s, r) = >>=-eq-ok (medium_step e m) _ h in
    omega (arith, medium_step-claims e m m₁ s, medium_run-claims events m₁ m' r)

-- A configured medium whose threads have all ended, without a use of freed memory, has either been
-- asked for data once, or been unprepared, or neither: any two of these delete it twice.
pub medium_run-once :
    (events : List MediumEvent) (m : Medium)
    → medium_run events (record { alive = true; holders = 0 }) ≡ ok m
    → m.holders ≡ 0
    → total_claims events ≤ 1
medium_run-once events m h e =
    omega (arith, e, medium_run-claims events (record { alive = true; holders = 0 }) m h)
