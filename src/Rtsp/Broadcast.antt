-- ===== src/Rtsp/Broadcast.antt =====
-- The multicast stream and the queue that feeds it.
use rpi_cam.VideoQueue.History.{
  remove_event-IsValid, inserts, Call, turns, run, step, IsValid, run-IsValid,
}
use rpi_cam.Base.{
  subst, ℕ, ◌<◌, ◌≡◌, refl, sym, ap, ◌∙◌, true, false, none, List, ◌∷◌, String, arith, inl, inr,
  Bool-cases,
}
use rpi_cam.Rtsp.Live.{describe_camera, Multicast, LiveEnv, allocated, watch, make_sdp}
use rpi_cam.Base.Int.{ℤ, pos}
use rpi_cam.Base.Text.{is_empty_text}
use rpi_cam.Base.Dict.{find}
use rpi_cam.Base.Outcome.{ok, fault, div_by_zero, >>=-eq-ok, ok-injective}
use rpi_cam.VideoQueue.{VideoQueue, VideoBuffer, remove_event}
use rpi_cam.VideoQueue.Registry.{remove_event-find}
use rpi_cam.VideoQueue.Service.{event_rate_above}
use rpi_cam.VideoQueue.Distribution.{IsWhole}

-- What a description that was made has done.
pub record Made (env : LiveEnv) (q : VideoQueue) (sdp : String) (m' : Multicast) (q' : VideoQueue)
    : Type 0 where
  pub watched : VideoQueue
  pub watches : watch env q ≡ ok watched
  pub removed : (remove_event "sdp" watched).1 ≡ q'
  pub kept : m'.sdp_str ≡ sdp

pub describe_camera-Made :
    (env : LiveEnv) (m m' : Multicast) (q q' : VideoQueue) (code : ℤ) (sdp : String)
    → describe_camera env m q ≡ ok (code, sdp, m', q')
    → Made env q sdp m' q'
unfolding describe_camera
describe_camera-Made env m m' q q' code sdp e =
    let (q₁, w, f) = >>=-eq-ok (watch env q) _ e in
    elim (Bool-cases env.ends) [
      | inr never ↦ absurd (ground arith)
      | inl done ↦
          let same = ok-injective (rw done at f) in
          record {
            watched = q₁;
            watches = w;
            removed = ap (λ x. x.3) same;
            kept = sym (ap (λ x. x.2.sdp_str) same) ∙ ap (λ x. x.1) same;
          }
    ]

make_sdp-new :
    (env : LiveEnv) (m m' : Multicast) (q q' : VideoQueue) (sdp : String)
    → is_empty_text m.sdp_str ≡ true
    → make_sdp env m q ≡ ok (pos 0, sdp, m', q')
    → Made env (allocated env.pointer q) sdp m' q'
unfolding make_sdp
make_sdp-new env m m' q q' sdp new e = elim (Bool-cases env.links) [
  | inr broken ↦ absurd (ground arith)
  | inl links ↦
      describe_camera-Made env m m' (allocated env.pointer q) q' (pos 0) sdp (ground arith)
]

-- A description that was made is kept: it is answered again, and the queue is left alone.
pub make_sdp-again :
    (env env' : LiveEnv) (m m' : Multicast) (q q' q₁ : VideoQueue) (sdp : String)
    → make_sdp env m q ≡ ok (pos 0, sdp, m', q')
    → is_empty_text sdp ≡ false
    → make_sdp env' m' q₁ ≡ ok (pos 0, sdp, m', q₁)
unfolding make_sdp
make_sdp-again env env' m m' q q' q₁ sdp e f = elim (Bool-cases (is_empty_text m.sdp_str)) [
  | inl new ↦ let made = make_sdp-new env m m' q q' sdp new e in ground (arith, made.kept)
  | inr known ↦ ground arith
]

pub allocated-IsValid : (p : ℕ) (q : VideoQueue) → IsValid q → IsValid (allocated p q)
allocated-IsValid p q v = record {
  distinct = v.distinct;
  distinct_queues = v.distinct_queues;
  served = v.served;
  rated = v.rated;
  numbered = v.numbered;
}

-- While a description is made, and whatever the other threads do meanwhile, the queue stays valid,
-- and afterwards no event "sdp" is left in it.
pub make_sdp-IsValid :
    (env : LiveEnv) (m m' : Multicast) (q q' : VideoQueue) (sdp : String)
    → is_empty_text m.sdp_str ≡ true
    → IsValid q
    → make_sdp env m q ≡ ok (pos 0, sdp, m', q')
    → IsValid q' × (find "sdp" q'.thread_info ≡ none) × (find "sdp" q'.output ≡ none)
unfolding make_sdp watch
make_sdp-IsValid env m m' q q' sdp new v e =
    let made = make_sdp-new env m m' q q' sdp new e in
    let valid =
      run-IsValid (inserts "sdp" env.pointer ∷ env.during) (allocated env.pointer q) made.watched
        (allocated-IsValid env.pointer q v) made.watches in
    let (t, o) = remove_event-find "sdp" "sdp" made.watched in
    (
      subst IsValid made.removed (remove_event-IsValid "sdp" made.watched valid),
      subst (λ x. find "sdp" x.thread_info ≡ none) made.removed t,
      subst (λ x. find "sdp" x.output ≡ none) made.removed o,
    )

watch-slow :
    (env : LiveEnv) (q : VideoQueue) (b : VideoBuffer) (rest : List VideoBuffer) (now : ℕ)
    (later : List Call)
    → env.during ≡ turns now ∷ later
    → find "sdp" q.thread_info ≡ none
    → find "sdp" q.output ≡ none
    → q.device_fps < 30
    → q.q_enable ≡ true
    → q.input ≡ b ∷ rest
    → IsWhole b
    → watch env (allocated env.pointer q) ≡ fault div_by_zero
unfolding watch run step
watch-slow env q b rest now later during t o slow on i w =
    let (q₁, e, d) =
      event_rate_above "sdp" env.pointer (allocated env.pointer q) now b rest t o (ground arith) on
        i w in
    rw (during, e, d) refl

-- If the camera makes fewer than 30 frames a second, the first frame that is distributed while the
-- description is made divides by zero.
pub make_sdp-slow :
    (env : LiveEnv) (m : Multicast) (q : VideoQueue) (b : VideoBuffer) (rest : List VideoBuffer)
    (now : ℕ) (later : List Call)
    → is_empty_text m.sdp_str ≡ true
    → env.links ≡ true
    → env.during ≡ turns now ∷ later
    → find "sdp" q.thread_info ≡ none
    → find "sdp" q.output ≡ none
    → q.device_fps < 30
    → q.q_enable ≡ true
    → q.input ≡ b ∷ rest
    → IsWhole b
    → make_sdp env m q ≡ fault div_by_zero
unfolding make_sdp describe_camera
make_sdp-slow env m q b rest now later new links during t o slow on i w =
    let fails = watch-slow env q b rest now later during t o slow on i w in
    let fails' : describe_camera env m (allocated env.pointer q) ≡ fault div_by_zero =
      rw fails refl in
    ground (arith, fails')
