-- ===== src/VideoQueue/Delivery.antt =====
-- `distribute_buffer` turn by turn: what an event has received after a row of frames.
use rpi_cam.Base.{
  ℕ, ◌+◌, ◌%◌, ◌≡◌, refl, ◌≢◌, true, some, List, [], ◌∷◌, ◌++◌, String, arith, if◌then◌else◌, ◌==◌,
  ltb, length, All, append_assoc, append-nil, ◌∙◌, ap,
}
use rpi_cam.Base.Dict.{Dict, find, HasDistinctKeys}
use rpi_cam.Base.Outcome.{Outcome, ok, fault, div_by_zero, ◌>>=◌, >>=-eq-ok}
use rpi_cam.VideoQueue.{
  VideoQueue, VideoBuffer, Turn, distributed, next_frame_no, distribute_to, distribute_front,
  distribute_buffer,
}
use rpi_cam.VideoQueue.Distribution.{
  IsWhole, copied, after_frame, find-distribute_to, distribute_to_total, distribute_to_zero,
}

-- The number of the frame after frame `n`, at `fps` frames a second: 1, …, fps, 1, …
abbrev pub advance : ℕ → ℕ → ℕ
advance fps n = if ltb fps (n + 1) then 1 else n + 1

-- What a turn that distributes a frame has done.
pub record Distributed (now : ℕ) (b : VideoBuffer) (rest : List VideoBuffer) (q q' : VideoQueue)
    : Type 0 where
  pub input : q'.input ≡ rest
  pub frame_no : q'.current_frame_no ≡ advance q.device_fps q.current_frame_no
  pub queues :
      (j : String)
      → find j q'.output
        ≡ after_frame q.infos
            (advance q.device_fps q.current_frame_no)
            (copied now b)
            (find j q.thread_info)
            (find j q.output)
  pub device_fps : q'.device_fps ≡ q.device_fps
  pub thread_info : q'.thread_info ≡ q.thread_info
  pub infos : q'.infos ≡ q.infos
  pub q_enable : q'.q_enable ≡ q.q_enable

-- The state after a turn that left the queues `out`.
abbrev pub after_turn : List VideoBuffer → Dict (List VideoBuffer) → VideoQueue → VideoQueue
after_turn rest out q = record q {
  input = rest;
  current_frame_no = advance q.device_fps q.current_frame_no;
  output = out;
}

pub distribute_buffer-eq-ok :
    (now : ℕ) (b : VideoBuffer) (rest : List VideoBuffer) (q q' : VideoQueue) (t : Turn)
    → q.q_enable ≡ true
    → q.input ≡ b ∷ rest
    → distribute_buffer now q ≡ ok (t, q')
    → (out : Dict (List VideoBuffer)) × (distribute_to q.infos
          (advance q.device_fps q.current_frame_no)
          now
          b
          q.thread_info
          q.output
        ≡ ok out)
      × (q' ≡ after_turn rest out q)
unfolding distribute_buffer next_frame_no
distribute_buffer-eq-ok now b rest q q' t on i h =
    let (out, e, f) = >>=-eq-ok _ _ (rw (on, i, distribute_front, ◌>>=◌) at h) in (out, e, cc)

-- A turn that returns has distributed the oldest frame as specified.
pub distribute_buffer-Distributed :
    (now : ℕ) (b : VideoBuffer) (rest : List VideoBuffer) (q q' : VideoQueue) (t : Turn)
    → q.q_enable ≡ true
    → q.input ≡ b ∷ rest
    → HasDistinctKeys q.thread_info
    → distribute_buffer now q ≡ ok (t, q')
    → Distributed now b rest q q'
distribute_buffer-Distributed now b rest q q' t on i d h =
    let (out, e, f) = distribute_buffer-eq-ok now b rest q q' t on i h in
    rw f (record {
      input = refl;
      frame_no = refl;
      queues = λ j.
          find-distribute_to q.infos (advance q.device_fps q.current_frame_no) now b q.thread_info
            q.output out j d e;
      device_fps = refl;
      thread_info = refl;
      infos = refl;
      q_enable = refl;
    })

-- With a divisor for each event and a whole frame the turn does not fail.
pub distribute_buffer_total :
    (now : ℕ) (b : VideoBuffer) (rest : List VideoBuffer) (q : VideoQueue)
    → q.q_enable ≡ true
    → q.input ≡ b ∷ rest
    → IsWhole b
    → All (λ e. (q.infos e.1).fps ≢ 0) q.thread_info
    → (q' : VideoQueue) × (distribute_buffer now q ≡ ok (distributed, q'))
unfolding distribute_buffer next_frame_no
distribute_buffer_total now b rest q on i w nz =
    let (out, e) =
      distribute_to_total q.infos (advance q.device_fps q.current_frame_no) now b q.thread_info
        q.output w nz in
    (after_turn rest out q, ground (arith, e))

-- An event whose divisor is zero makes every turn that has a frame divide by zero.
pub distribute_buffer_zero :
    (now : ℕ) (b : VideoBuffer) (rest : List VideoBuffer) (q : VideoQueue) (name : String) (p : ℕ)
    → q.q_enable ≡ true
    → q.input ≡ b ∷ rest
    → IsWhole b
    → find name q.thread_info ≡ some p
    → (q.infos p).fps ≡ 0
    → distribute_buffer now q ≡ fault div_by_zero
unfolding distribute_buffer next_frame_no
distribute_buffer_zero now b rest q name p on i w h z =
    rw
      (
        on,
        i,
        distribute_front,
        distribute_to_zero q.infos (advance q.device_fps q.current_frame_no) now b q.thread_info
            q.output name p w h z,
        ◌>>=◌,
      )
      refl

-- The loop of a distributing thread, one turn at each of the given times.
unfoldable pub distribute_turns : List ℕ → VideoQueue → Outcome VideoQueue
unfolding distribute_buffer
distribute_turns [] q = ok q
distribute_turns (now ∷ times) q = distribute_buffer now q >>= λ r. distribute_turns times r.1

-- The copies that an event with divisor `d` gets from the frames `bs` at these times, when `n` was
-- the last frame number.
abbrev pub due_copies : ℕ → ℕ → ℕ → List ℕ → List VideoBuffer → List VideoBuffer
due_copies fps d n [] bs = []
due_copies fps d n (now ∷ times) [] = []
due_copies fps d n (now ∷ times) (b ∷ bs) =
    let later = due_copies fps d (advance fps n) times bs in
    if advance fps n % d == 0 then copied now b ∷ later else later

turns-queue :
    (times : List ℕ) (bs rest : List VideoBuffer) (q q' : VideoQueue) (name : String)
    (p fps d n : ℕ) (frames : List VideoBuffer)
    → length bs ≡ length times
    → q.q_enable ≡ true
    → q.input ≡ bs ++ rest
    → HasDistinctKeys q.thread_info
    → find name q.thread_info ≡ some p
    → find name q.output ≡ some frames
    → q.device_fps ≡ fps
    → (q.infos p).fps ≡ d
    → q.current_frame_no ≡ n
    → distribute_turns times q ≡ ok q'
    → (find name q'.output ≡ some (frames ++ due_copies fps d n times bs)) × (q'.input ≡ rest)
unfolding distribute_turns
turns-queue [] [] rest q q' name p fps d n frames l on i dk t o ef ed en h =
    ground (arith, append-nil frames)
turns-queue [] (b ∷ bs) rest q q' name p fps d n frames l on i dk t o ef ed en h =
    absurd (omega arith)
turns-queue (now ∷ times) [] rest q q' name p fps d n frames l on i dk t o ef ed en h =
    absurd (omega arith)
turns-queue (now ∷ times) (b ∷ bs) rest q q' name p fps d n frames l on i dk t o ef ed en h =
    let (r, e, f) = >>=-eq-ok _ _ h in
    let s = distribute_buffer-Distributed now b (bs ++ rest) q r.1 r.0 on i dk e in
    let frames' : List VideoBuffer =
      if advance fps n % d == 0 then frames ++ copied now b ∷ [] else frames in
    let ih =
      turns-queue times bs rest r.1 q' name p fps d (advance fps n) frames' (omega arith)
        (s.q_enable ∙ on) s.input (rw s.thread_info dk) (ap (find name) s.thread_info ∙ t)
        (ground (arith, s.queues name)) (s.device_fps ∙ ef) (ap (λ m. (m p).fps) s.infos ∙ ed)
        (ground (arith, s.frame_no)) f in
    ground
      (arith, append_assoc frames (copied now b ∷ []) (due_copies fps d (advance fps n) times bs))

-- An event's queue grows by the copies that are due, oldest first.
pub distribute_turns-queue :
    (times : List ℕ) (bs rest : List VideoBuffer) (q q' : VideoQueue) (name : String) (p : ℕ)
    (frames : List VideoBuffer)
    → length bs ≡ length times
    → q.q_enable ≡ true
    → q.input ≡ bs ++ rest
    → HasDistinctKeys q.thread_info
    → find name q.thread_info ≡ some p
    → find name q.output ≡ some frames
    → distribute_turns times q ≡ ok q'
    → (find name q'.output
        ≡ some (frames ++ due_copies q.device_fps (q.infos p).fps q.current_frame_no times bs))
      × (q'.input ≡ rest)
distribute_turns-queue times bs rest q q' name p frames l on i d t o h =
    turns-queue times bs rest q q' name p q.device_fps (q.infos p).fps q.current_frame_no frames l
      on i d t o refl refl refl h

-- With a divisor for each event and whole frames the turns do not fail.
pub distribute_turns_total :
    (times : List ℕ) (bs rest : List VideoBuffer) (q : VideoQueue)
    → length bs ≡ length times
    → q.q_enable ≡ true
    → q.input ≡ bs ++ rest
    → HasDistinctKeys q.thread_info
    → All IsWhole bs
    → All (λ e. (q.infos e.1).fps ≢ 0) q.thread_info
    → (q' : VideoQueue) × (distribute_turns times q ≡ ok q')
unfolding distribute_turns
distribute_turns_total [] [] rest q l on i dk w nz = (q, refl)
distribute_turns_total [] (b ∷ bs) rest q l on i dk w nz = absurd (omega arith)
distribute_turns_total (now ∷ times) [] rest q l on i dk w nz = absurd (omega arith)
distribute_turns_total (now ∷ times) (b ∷ bs) rest q l on i dk (w, ws) nz =
    let (q₁, e) = distribute_buffer_total now b (bs ++ rest) q on i w nz in
    let s = distribute_buffer-Distributed now b (bs ++ rest) q q₁ distributed on i dk e in
    let (q₂, f) =
      distribute_turns_total times bs rest q₁ (omega arith) (s.q_enable ∙ on) s.input
        (rw s.thread_info dk) ws (rw (s.thread_info, s.infos) nz) in
    (q₂, rw (e, ◌>>=◌) f)
