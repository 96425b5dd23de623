-- ===== src/VideoQueue/Service.antt =====
-- What the queue promises an event from `insert_event` on, and where it breaks the promise.
use rpi_cam.Base.{
  ℕ, ◌/◌, ◌≤◌, ◌<◌, ◌≡◌, ◌≢◌, List, [], ◌∷◌, ◌++◌, arith, length, ◌∙◌, ap, All, true, none, some,
  String, eq_refl,
}
use native.Mathlib.Nat.{div-eq_of_lt, le-div_iff_mul-le}
use rpi_cam.Base.Dict.{find, HasDistinctKeys, Dict}
use rpi_cam.Base.Outcome.{ok, fault, div_by_zero}
use rpi_cam.VideoQueue.{VideoQueue, VideoBuffer, ThreadInfo, insert_event, distribute_buffer}
use rpi_cam.VideoQueue.Registry.{insert_event-registers, insert_event-Inserted}
use rpi_cam.VideoQueue.Distribution.{IsWhole}
use rpi_cam.VideoQueue.Delivery.{
  due_copies, distribute_turns, distribute_turns-queue, distribute_turns_total,
  distribute_buffer_zero,
}
use rpi_cam.VideoQueue.Rates.{due_count, length-due_copies, due_count_cycle, rate_le}

-- Every registered divisor is positive, and no entry holds the pointer `p`.
abbrev pub AreApart : VideoQueue → ℕ → Type 0
AreApart q p = All (λ e. ((q.infos e.1).fps ≢ 0) × (p ≢ e.1)) q.thread_info

divisors :
    (d : Dict ℕ) (infos infos' : ℕ → ThreadInfo) (p : ℕ)
    → ((r : ℕ) → p ≢ r → infos' r ≡ infos r)
    → All (λ e. ((infos e.1).fps ≢ 0) × (p ≢ e.1)) d
    → All (λ e. (infos' e.1).fps ≢ 0) d
divisors [] infos infos' p same a = tt
divisors ((k, r) ∷ d) infos infos' p same ((nz, ne), a) =
    (rw (same r ne) nz, divisors d infos infos' p same a)

divisor_pos : (fps f : ℕ) → 0 < f → f ≤ fps → 0 < fps / f
divisor_pos fps f h l = (le-div_iff_mul-le {k = f} {x = 1} {y = fps} h).1 (omega arith)

-- An event that asks for `f` frames a second, no more than the camera makes, gets at least `f` of
-- the next `device_fps` frames: exactly `device_fps / (device_fps / f)`, all turns succeeding.
pub event_rate :
    (name : String) (p : ℕ) (q q₁ : VideoQueue) (times : List ℕ) (bs rest : List VideoBuffer)
    → find name q.thread_info ≡ none
    → find name q.output ≡ none
    → HasDistinctKeys q.thread_info
    → AreApart q p
    → 0 < (q.infos p).fps
    → (q.infos p).fps ≤ q.device_fps
    → insert_event name p q ≡ ok (0, q₁)
    → q.q_enable ≡ true
    → q.input ≡ bs ++ rest
    → length bs ≡ q.device_fps
    → length times ≡ q.device_fps
    → q.current_frame_no ≤ q.device_fps
    → All IsWhole bs
    → (q₂ : VideoQueue) × (frames : List VideoBuffer) × (distribute_turns times q₁ ≡ ok q₂)
      × (find name q₂.output ≡ some frames)
      × (length frames ≡ q.device_fps / (q.device_fps / (q.infos p).fps))
      × ((q.infos p).fps ≤ length frames)
event_rate name p q q₁ times bs rest hi ho dk ap' pos le e on i lb lt cn w =
    let s = insert_event-registers name p q q₁ hi ho e in
    let d = q.device_fps / (q.infos p).fps in
    let dpos = divisor_pos q.device_fps (q.infos p).fps pos le in
    let nz : (q₁.infos p).fps ≢ 0 = omega (arith, s.divisor) in
    let on₁ = s.q_enable ∙ on in
    let i₁ = s.input ∙ i in
    let dk₁ : HasDistinctKeys q₁.thread_info = rw s.entries (hi, dk) in
    let all : All (λ e. (q₁.infos e.1).fps ≢ 0) q₁.thread_info =
      rw s.entries (nz, divisors q.thread_info q.infos q₁.infos p s.others ap') in
    let (q₂, run) = distribute_turns_total times bs rest q₁ (omega arith) on₁ i₁ dk₁ w all in
    let t : find name q₁.thread_info ≡ some p = ground (arith, s.registered name, eq_refl name) in
    let o : find name q₁.output ≡ some [] = ground (arith, s.queued name, eq_refl name) in
    let (found, _) =
      distribute_turns-queue times bs rest q₁ q₂ name p [] (omega arith) on₁ i₁ dk₁ t o run in
    let copies = due_copies q₁.device_fps (q₁.infos p).fps q₁.current_frame_no times bs in
    let count : length copies ≡ q.device_fps / d =
      rw (s.device_fps, s.divisor, s.frame_no)
        (length-due_copies q.device_fps d q.current_frame_no times bs (omega arith)
          ∙ ap (due_count q.device_fps d q.current_frame_no) lt
          ∙ due_count_cycle q.device_fps d q.current_frame_no dpos (omega arith) cn) in
    (q₂, copies, run, found, count, rw count (rate_le q.device_fps (q.infos p).fps pos le))

-- An event that asks for more frames than the camera makes is accepted, and from then on every
-- frame makes the distributing thread divide by zero.
pub event_rate_above :
    (name : String) (p : ℕ) (q : VideoQueue) (now : ℕ) (b : VideoBuffer) (rest : List VideoBuffer)
    → find name q.thread_info ≡ none
    → find name q.output ≡ none
    → q.device_fps < (q.infos p).fps
    → q.q_enable ≡ true
    → q.input ≡ b ∷ rest
    → IsWhole b
    → (q₁ : VideoQueue) × (insert_event name p q ≡ ok (0, q₁))
      × (distribute_buffer now q₁ ≡ fault div_by_zero)
event_rate_above name p q now b rest hi ho above on i w =
    let (q₁, e, s) = insert_event-Inserted name p q hi ho (omega arith) in
    (
      q₁,
      e,
      distribute_buffer_zero now b rest q₁ name p (s.q_enable ∙ on) (s.input ∙ i) w
          (ground (arith, s.registered name, eq_refl name)) (s.divisor ∙ div-eq_of_lt above),
    )
