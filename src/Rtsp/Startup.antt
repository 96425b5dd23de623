-- ===== src/Rtsp/Startup.antt =====
-- What `VideoInitializer::start` leaves behind: the multicast stream in the queue.
use rpi_cam.Base.{
  ℕ, ◌≡◌, refl, ap, subst, Option, some, List, ◌∷◌, String, arith, inl, inr, Option-cases,
  Bool-cases, eq_refl,
}
use rpi_cam.Base.Int.{ℤ}
use rpi_cam.Base.Text.{is_empty_text}
use rpi_cam.Base.Dict.{find, find-emplace_new}
use rpi_cam.Base.Outcome.{ok, >>=-eq-ok, ok-injective}
use rpi_cam.VideoQueue.{VideoQueue, insert_event}
use rpi_cam.VideoQueue.History.{
  Call, inserts, run, step, IsValid, run-IsValid, step-IsValid, remove_event-IsValid,
}
use rpi_cam.Rtsp.Live.{
  Multicast, LiveEnv, get_instance, allocated, watch, describe_camera, make_sdp, set_stream,
  play_stream, start_video,
}
use rpi_cam.Rtsp.Broadcast.{describe_camera-Made, allocated-IsValid}

describe_camera-IsValid :
    (env : LiveEnv) (m m' : Multicast) (q q' : VideoQueue) (code : ℤ) (sdp : String)
    → IsValid q
    → describe_camera env m q ≡ ok (code, sdp, m', q')
    → IsValid q'
unfolding watch
describe_camera-IsValid env m m' q q' code sdp v e =
    let made = describe_camera-Made env m m' q q' code sdp e in
    subst IsValid made.removed (
      remove_event-IsValid "sdp" made.watched
        (run-IsValid (inserts "sdp" env.pointer ∷ env.during) q made.watched v made.watches))

make_sdp-keeps :
    (env : LiveEnv) (m m' : Multicast) (q q' : VideoQueue) (code : ℤ) (sdp : String)
    → IsValid q
    → make_sdp env m q ≡ ok (code, sdp, m', q')
    → IsValid q'
unfolding make_sdp
make_sdp-keeps env m m' q q' code sdp v e = elim (Bool-cases (is_empty_text m.sdp_str)) [
  | inr known ↦ subst IsValid (ap (λ x. x.3) (ok-injective (rw known at e))) v
  | inl new ↦ elim (Bool-cases env.links) [
    | inl links ↦
        describe_camera-IsValid env m m' (allocated env.pointer q) q' code sdp
          (allocated-IsValid env.pointer q v) (ground arith)
    | inr broken ↦
        subst IsValid (ap (λ x. x.3) (ok-injective (rw (new, broken) at e)))
          (allocated-IsValid env.pointer q v)
  ]
]

-- The stream that was set has a `ThreadInfo`, and the queue is as valid as before.
set_stream-ready :
    (env : LiveEnv) (m : Multicast) (q : VideoQueue)
    → IsValid q
    → IsValid (set_stream env m q).2 × ((p : ℕ) × ((set_stream env m q).1.thread_info ≡ some p))
unfolding set_stream
set_stream-ready env m q v = elim (Option-cases m.thread_info) [
  | inl e ↦ rw (e, set_stream) (allocated-IsValid env.pointer q v, (env.pointer, refl))
  | inr (p, e) ↦ rw (e, set_stream) (v, (p, e))
]

insert_event-known :
    (name : String) (p n : ℕ) (q q' : VideoQueue)
    → insert_event name p q ≡ ok (n, q')
    → (r : ℕ) × (find name q'.thread_info ≡ some r)
unfolding insert_event
insert_event-known name p n q q' e = elim (Option-cases (find name q.thread_info)) [
  | inr (r, k) ↦ (r, ground arith)
  | inl k ↦ (p, ground (arith, find-emplace_new name name p q.thread_info k, eq_refl name))
]

play_stream-live :
    (m : Multicast) (q q' : VideoQueue) (p : ℕ) (code : ℤ)
    → m.thread_info ≡ some p
    → IsValid q
    → play_stream m q ≡ ok (code, q')
    → IsValid q' × ((r : ℕ) × (find "live" q'.thread_info ≡ some r))
unfolding play_stream step
play_stream-live m q q' p code t v e =
    let (r, i, f) = >>=-eq-ok (insert_event "live" p q) _ (rw (t, play_stream) at e) in
    let same = ap (λ x. x.1) (ok-injective f) in
    (
      subst IsValid same (step-IsValid (inserts "live" p) q r.1 v (rw i refl)),
      subst (λ x. (n : ℕ) × (find "live" x.thread_info ≡ some n)) same
          (insert_event-known "live" p r.0 q r.1 i),
    )

-- However the description went and whatever the other threads have done before and meanwhile, once
-- `start` accepts connections the queue is valid and knows the event "live".
pub start_video-live :
    (env env' : LiveEnv) (during : List Call) (instance : Option Multicast) (m : Multicast)
    (q q' : VideoQueue)
    → IsValid q
    → start_video env env' during instance q ≡ ok (m, q')
    → IsValid q' × ((p : ℕ) × (find "live" q'.thread_info ≡ some p))
unfolding start_video play_stream
start_video-live env env' during instance m q q' v e =
    let m₀ = get_instance "239.255.1.1" 5004 instance in
    let ((code, sdp, m₁, q₁), d, f) = >>=-eq-ok (make_sdp env m₀ q) _ e in
    let (q₂, r, g) = >>=-eq-ok (run during q₁) _ f in
    let v₂ = run-IsValid during q₁ q₂ (make_sdp-keeps env m₀ m₁ q q₁ code sdp v d) r in
    let (v₃, (p, t)) = set_stream-ready env' m₁ q₂ v₂ in
    let ((n, q₄), s, h) =
      >>=-eq-ok (play_stream (set_stream env' m₁ q₂).1 (set_stream env' m₁ q₂).2) _ g in
    subst (λ x. IsValid x × ((r : ℕ) × (find "live" x.thread_info ≡ some r)))
      (ap (λ x. x.1) (ok-injective h))
      (play_stream-live (set_stream env' m₁ q₂).1 (set_stream env' m₁ q₂).2 q₄ p n t v₃ s)
