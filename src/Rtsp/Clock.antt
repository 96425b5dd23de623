-- ===== src/Rtsp/Clock.antt =====
-- The times of the frames that are pushed to a pipeline.
use Prim.Native.Nat.{zero, suc}
use rpi_cam.Base.{
  ◌⊎◌, ◌&&◌, subst, ℕ, ◌+◌, ◌*◌, ◌^◌, ◌<◌, ◌≡◌, refl, List, [], ◌∷◌, arith, length, Bool-cases, inl,
  inr,
}
use rpi_cam.Base.Outcome.{Outcome, ok, ◌>>=◌, >>=-eq-ok, ok-injective}
use rpi_cam.VideoQueue.{Popped, null, waits, frame}
use rpi_cam.Rtsp.Feed.{
  FeedEnv, Fed, nothing, waiting, pushed, frame_duration, timestamp_of, sdp_feed, play_feed,
  count_push, copied_bytes,
}

abbrev pub stamp : Fed → List ℕ → List ℕ
stamp nothing later = later
stamp waiting later = later
stamp (pushed time bytes) later = time ∷ later

-- The times that a row of calls pushes, and the count after it.
abbrev pub feed_all :
    (FeedEnv → Popped → ℕ → Outcome (Fed × ℕ)) → List (FeedEnv × Popped) → ℕ → Outcome (List ℕ × ℕ)
feed_all feed [] cnt = ok ([], cnt)
feed_all feed ((env, popped) ∷ calls) cnt = feed env popped cnt >>= λ fed.
    feed_all feed calls fed.1 >>= λ later. ok (stamp fed.0 later.0, later.1)

-- `n` times from frame `cnt` on, one frame duration apart.
abbrev pub ticks : ℕ → ℕ → List ℕ
ticks cnt zero = []
ticks cnt (suc n) = frame_duration * cnt ∷ ticks (cnt + 1) n

-- One call counts what it pushes.
abbrev Counts : ℕ → Fed × ℕ → Type 0
Counts cnt (nothing, cnt') = cnt' ≡ cnt
Counts cnt (waiting, cnt') = cnt' ≡ cnt
Counts cnt (pushed time bytes, cnt') =
    (time ≡ frame_duration * cnt) × (cnt' ≡ cnt + 1) × (cnt' < 2 ^ 31)

count_push-Counts :
    (cnt : ℕ) (bytes : List ℕ) (r : Fed × ℕ) → count_push cnt bytes ≡ ok r → Counts cnt r
unfolding timestamp_of frame_duration
count_push-Counts cnt bytes (nothing, cnt') e = ground arith
count_push-Counts cnt bytes (waiting, cnt') e = ground arith
count_push-Counts cnt bytes (pushed time b, cnt') e = ground arith

Counts-fits : (cnt : ℕ) (r : Fed × ℕ) → cnt < 2 ^ 31 → Counts cnt r → r.1 < 2 ^ 31
Counts-fits cnt (nothing, n) fits c = omega (arith, c)
Counts-fits cnt (waiting, n) fits c = omega (arith, c)
Counts-fits cnt (pushed time bytes, n) fits (_, _, f) = f

module _ (env : FeedEnv) (cnt : ℕ) (r : Fed × ℕ) where
  sdp_feed-Counts : (popped : Popped) → sdp_feed env popped cnt ≡ ok r → Counts cnt r
  unfolding sdp_feed
  sdp_feed-Counts null e = subst (Counts cnt) (ok-injective e) refl
  sdp_feed-Counts waits e = subst (Counts cnt) (ok-injective e) refl
  sdp_feed-Counts (frame b) e = elim (Bool-cases (env.allocates && env.maps)) [
    | inr g ↦ subst (Counts cnt) (ok-injective (rw g at e)) refl
    | inl g ↦
        let (bytes, c, f) = >>=-eq-ok (copied_bytes b) _ (rw g at e) in
        elim (Bool-cases env.pushes) [
          | inl p ↦ count_push-Counts cnt bytes r (rw p at f)
          | inr p ↦ subst (Counts cnt) (ok-injective (rw p at f)) refl
        ]
  ]

  play_feed-Counts : (popped : Popped) → play_feed env popped cnt ≡ ok r → Counts cnt r
  unfolding play_feed
  play_feed-Counts null e = subst (Counts cnt) (ok-injective e) refl
  play_feed-Counts waits e = subst (Counts cnt) (ok-injective e) refl
  play_feed-Counts (frame b) e = elim (Bool-cases (env.allocates && env.maps)) [
    | inr g ↦ subst (Counts cnt) (ok-injective (rw g at e)) refl
    | inl g ↦
        let (bytes, c, f) = >>=-eq-ok (copied_bytes b) _ (rw g at e) in
        elim (Bool-cases env.pushes) [
          | inl p ↦ count_push-Counts cnt bytes r (rw p at f)
          | inr p ↦ absurd (ground (arith, p))
        ]
  ]

-- A row of calls pushes consecutive times, without a wrap of the 64 bits.
abbrev pub Ticks : ℕ → List ℕ × ℕ → Type 0
Ticks cnt (times, cnt') =
    (times ≡ ticks cnt (length times)) × (cnt' ≡ cnt + length times) × (cnt' < 2 ^ 31)

Ticks-stamp :
    (cnt : ℕ) (r : Fed × ℕ) (later : List ℕ × ℕ)
    → Counts cnt r
    → Ticks r.1 later
    → Ticks cnt (stamp r.0 later.0, later.1)
Ticks-stamp cnt (nothing, n) later c t = subst (λ x. Ticks x later) c t
Ticks-stamp cnt (waiting, n) later c t = subst (λ x. Ticks x later) c t
Ticks-stamp cnt (pushed time bytes, n) later (at, up, _) t =
    let (same, count, fits) = subst (λ x. Ticks x later) up t in
    (λ i. at i ∷ same i, omega (arith, count), fits)

feed_all-Ticks :
    (feed : FeedEnv → Popped → ℕ → Outcome (Fed × ℕ)) (calls : List (FeedEnv × Popped)) (cnt : ℕ)
    (r : List ℕ × ℕ)
    → ((env : FeedEnv) (popped : Popped) (n : ℕ) (fed : Fed × ℕ)
        → feed env popped n ≡ ok fed
        → Counts n fed)
    → cnt < 2 ^ 31
    → feed_all feed calls cnt ≡ ok r
    → Ticks cnt r
feed_all-Ticks feed [] cnt r counts fits e =
    subst (Ticks cnt) (ok-injective e) (refl, omega arith, fits)
feed_all-Ticks feed ((env, popped) ∷ calls) cnt r counts fits e =
    let (fed, f, g) = >>=-eq-ok (feed env popped cnt) _ e in
    let (later, h, k) = >>=-eq-ok (feed_all feed calls fed.1) _ g in
    let c = counts env popped cnt fed f in
    subst (Ticks cnt) (ok-injective k) (
      Ticks-stamp cnt fed later c
        (feed_all-Ticks feed calls fed.1 later counts (Counts-fits cnt fed fits c) h))

-- However GStreamer answers, the frames that either callback has pushed carry consecutive times,
-- one frame duration apart, from the time of its count on: no time is skipped for a frame that was
-- not pushed, and the 64 bits never wrap.
pub feed_all-ticks :
    (calls : List (FeedEnv × Popped)) (cnt : ℕ) (r : List ℕ × ℕ)
    → cnt < 2 ^ 31
    → (feed_all sdp_feed calls cnt ≡ ok r) ⊎ (feed_all play_feed calls cnt ≡ ok r)
    → (r.0 ≡ ticks cnt (length r.0)) × (r.1 ≡ cnt + length r.0) × (r.1 < 2 ^ 31)
feed_all-ticks calls cnt r fits (inl e) =
    feed_all-Ticks sdp_feed calls cnt r (λ env popped n fed. sdp_feed-Counts env n fed popped) fits
      e
feed_all-ticks calls cnt r fits (inr e) =
    feed_all-Ticks play_feed calls cnt r (λ env popped n fed. play_feed-Counts env n fed popped)
      fits e
