-- ===== src/Program/Frames.antt =====
-- The way of a frame from the camera's thread in main.cpp to the queue of an event.
use rpi_cam.Base.{
  ℕ, zero, suc, ◌+◌, ◌≡◌, ◌≢◌, refl, sym, ap, ◌∙◌, arith, Bool, true, some, List, [], ◌++◌,
  append-nil, String, length, All, Bool-cases, inl, inr, ◌<◌, ◌≤◌, ltb, ◌==◌, Option, none, ◌∷◌,
  lt→ltb, leb,
}
use rpi_cam.Base.Dict.{find, HasDistinctKeys}
use rpi_cam.Base.Outcome.{ok}
use rpi_cam.Config.Camera.{VideoMeta}
use rpi_cam.VideoQueue.{VideoQueue, VideoBuffer}
use rpi_cam.VideoQueue.Delivery.{
  due_copies, distribute_turns, distribute_turns-queue, distribute_turns_total,
}
use rpi_cam.Camera.{
  map_buffers, map_buffer, map_granted, mapping, queue_mapped, set_v4l2_format, set_v4l2_buffer,
  Device, Round, Capture, n_cam_buf, queue_all, queue_v4l2_buffer, init as init_camera,
  start as start_camera,
}
use rpi_cam.Camera.Frames.{CanCopy, captured, extended, loop-captured, captured-All}
use rpi_cam.Program.{camera_thread}

-- Buffers given to the driver are no frames.
queue_all-queue :
    (granted : ℕ → Bool) (i n : ℕ) (s : Capture) → (queue_all granted i n s).queue ≡ s.queue
unfolding queue_v4l2_buffer
queue_all-queue granted i zero s = refl
queue_all-queue granted i (suc n) s =
    queue_all-queue granted (i + 1) n (queue_v4l2_buffer (granted i) i s)
    ∙ elim (Bool-cases (granted i)) [ inl y ↦ rw y refl | inr n ↦ rw n refl ]

queue_all-buffers :
    (granted : ℕ → Bool) (i n : ℕ) (s : Capture)
    → (queue_all granted i n s).camera_buffers ≡ s.camera_buffers
unfolding queue_v4l2_buffer
queue_all-buffers granted i zero s = refl
queue_all-buffers granted i (suc n) s =
    queue_all-buffers granted (i + 1) n (queue_v4l2_buffer (granted i) i s)
    ∙ elim (Bool-cases (granted i)) [ inl y ↦ rw y refl | inr n ↦ rw n refl ]

-- The loop over the buffers leaves those before it.
map_buffers-before :
    (d : Device) (i n j : ℕ) (s : Capture)
    → j < i
    → (map_buffers d i n s).1.camera_buffers j ≡ s.camera_buffers j
unfolding map_buffers
map_buffers-before d i zero j s lt = refl
map_buffers-before d i (suc n) j s lt = elim (Bool-cases (d.buffer_queries i)) [
  | inr k ↦ rw k refl
  | inl k ↦
      rw k (map_buffers-before d (i + 1) n j (map_buffer d i s) (omega (arith, lt)) ∙ ground arith)
]

-- If the loop over the buffers succeeds, each of them is what `mmap` answered.
map_buffers-mapping :
    (d : Device) (i n j : ℕ) (s : Capture)
    → (map_buffers d i n s).0 ≡ 0
    → i ≤ j
    → j < i + n
    → (map_buffers d i n s).1.camera_buffers j ≡ mapping (d.mmaps j)
unfolding map_buffers
map_buffers-mapping d i zero j s e le lt = absurd (omega (arith, le, lt))
map_buffers-mapping d i (suc n) j s e le lt = elim (Bool-cases (d.buffer_queries i)) [
  | inr k ↦ absurd (ground (arith, (rw k at e)))
  | inl k ↦ elim (Bool-cases (i == j)) [
    | inl same ↦
        let eq : i ≡ j = ground (arith, same) in
        rw k (
          map_buffers-before d (i + 1) n j (map_buffer d i s) (omega (arith, eq))
          ∙ rw eq (ground arith))
    | inr other ↦
        let ne : i ≢ j = ground (arith, other) in
        rw k (
          map_buffers-mapping d (i + 1) n j (map_buffer d i s) (rw k at e) (omega (arith, le, ne))
            (omega (arith, lt)))
  ]
]

map_buffers-queue : (d : Device) (i n : ℕ) (s : Capture) → (map_buffers d i n s).1.queue ≡ s.queue
unfolding map_buffers
map_buffers-queue d i zero s = refl
map_buffers-queue d i (suc n) s = elim (Bool-cases (d.buffer_queries i)) [
  | inr k ↦ rw k refl
  | inl k ↦ rw k (map_buffers-queue d (i + 1) n (map_buffer d i s))
]

-- What `init` leaves when it answers 0.
record Mapped (d : Device) (s left : Capture) : Type 0 where
  queue : left.queue ≡ s.queue
  buffers : (j : ℕ) → j < n_cam_buf → left.camera_buffers j ≡ mapping (d.mmaps j)

queue_mapped-Mapped :
    (d : Device) (granted : ℕ → Bool) (s : Capture) (t : ℕ × Capture)
    → (queue_mapped granted t).0 ≡ 0
    → (t.0 ≡ 0 → Mapped d s t.1)
    → Mapped d s (queue_mapped granted t).1
queue_mapped-Mapped d granted s (zero, left) e m = record {
  queue = queue_all-queue granted 0 n_cam_buf left ∙ (m refl).queue;
  buffers = λ j lt.
      ap (λ bufs. bufs j) (queue_all-buffers granted 0 n_cam_buf left) ∙ (m refl).buffers j lt;
}
queue_mapped-Mapped d granted s (suc code, left) e m = absurd (ground arith)

map_granted-Mapped :
    (d : Device) (o : Option ℕ) (s : Capture)
    → (map_granted d o s).0 ≡ 0
    → Mapped d s (map_granted d o s).1
map_granted-Mapped d none s e = absurd (ground arith)
map_granted-Mapped d (some count) s e = elim (Bool-cases (ltb n_cam_buf count)) [
  | inl over ↦ absurd (ground (arith, (rw over at e)))
  | inr fits ↦ rw fits (record {
    queue = map_buffers-queue d 0 n_cam_buf s;
    buffers = λ j lt.
        map_buffers-mapping d 0 n_cam_buf j s (rw fits at e) (omega arith) (omega (arith, lt));
  })
]

init_formatted :
    (d : Device) (granted : ℕ → Bool) (s : Capture) (code : ℕ)
    → set_v4l2_format d ≡ code
    → (init_camera d granted s).0 ≡ 0
    → Mapped d s (init_camera d granted s).1
unfolding init_camera set_v4l2_buffer
init_formatted d granted s zero f e =
    rw (init_camera, f)
      (queue_mapped-Mapped d granted s (map_granted d d.grants s) (rw (init_camera, f) at e)
        (map_granted-Mapped d d.grants s))
init_formatted d granted s (suc code) f e = absurd (ground (arith, (rw (init_camera, f) at e)))

-- What the kernel hands out: one of the eight buffers, with no more bytes than its mapping has,
-- which `mmap` has made.
abbrev pub Delivers : Device → Option (ℕ × List ℕ) → Type 0
Delivers d none = Unit {0}
Delivers d (some (index, bytes)) =
    (index < n_cam_buf) × ((n : ℕ) × (d.mmaps index ≡ some n) × (length bytes ≤ n))

Delivers-CanCopy :
    (d : Device) (s left : Capture) (o : Option (ℕ × List ℕ))
    → Mapped d s left
    → Delivers d o
    → CanCopy left.camera_buffers o
Delivers-CanCopy d s left none m v = tt
Delivers-CanCopy d s left (some (index, bytes)) m (lt, (n, e, le)) =
    let fits : leb (length bytes) n ≡ true = ground (arith, le) in
    rw (lt→ltb index n_cam_buf lt, m.buffers index lt, e, fits) refl

Delivers-All :
    (d : Device) (s left : Capture) (rounds : List Round)
    → Mapped d s left
    → All (λ r. Delivers d r.dequeued) rounds
    → All (λ r. CanCopy left.camera_buffers r.dequeued) rounds
Delivers-All d s left [] m v = tt
Delivers-All d s left (r ∷ rounds) m (v, vs) =
    (Delivers-CanCopy d s left r.dequeued m v, Delivers-All d s left rounds m vs)

-- After an `init` that answers 0 the thread of the camera hands exactly the captured frames to the
-- queue.
camera_thread-captured :
    (d : Device) (granted : ℕ → Bool) (metadata : VideoMeta) (rounds : List Round) (s : Capture)
    → (init_camera d granted s).0 ≡ 0
    → All (λ r. Delivers d r.dequeued) rounds
    → (code : Option ℕ) × (left : Capture) × (camera_thread d granted true metadata rounds s
        ≡ ok (code, left))
      × (left.queue ≡ extended s.queue (captured metadata rounds))
unfolding camera_thread start_camera
camera_thread-captured d granted metadata rounds s e v =
    let m = init_formatted d granted s (set_v4l2_format d) refl e in
    let ready = (init_camera d granted s).1 in
    let (code, left, l, q) =
      loop-captured metadata rounds (record ready { streaming = true })
        (Delivers-All d s ready rounds m v) in
    (code, left, l, q ∙ ap (λ x. extended x (captured metadata rounds)) m.queue)

-- The frames that the kernel hands out before the first time-out or failed dequeue reach a
-- registered event: if `init` of the camera answers 0, each buffer that is handed out is one of the
-- eight, was mapped and holds the frame, the stream is switched on, the queue had no frame
-- waiting, each event has a divisor and each captured frame gets a turn, then the thread does not
-- fault, all turns succeed and the event's queue has grown by exactly the copies that are due for
-- it, oldest first.
pub camera_thread-due_copies :
    (d : Device) (granted : ℕ → Bool) (metadata : VideoMeta) (rounds : List Round) (s : Capture)
    (times : List ℕ) (name : String) (p : ℕ) (frames : List VideoBuffer)
    → (init_camera d granted s).0 ≡ 0
    → All (λ r. Delivers d r.dequeued) rounds
    → s.queue.input ≡ []
    → s.queue.q_enable ≡ true
    → HasDistinctKeys s.queue.thread_info
    → All (λ e. (s.queue.infos e.1).fps ≢ 0) s.queue.thread_info
    → find name s.queue.thread_info ≡ some p
    → find name s.queue.output ≡ some frames
    → length (captured metadata rounds) ≡ length times
    → (code : Option ℕ) × (left : Capture) × (q : VideoQueue) × (camera_thread d granted true
          metadata rounds s
        ≡ ok (code, left))
      × (distribute_turns times left.queue ≡ ok q)
      × (find name q.output
          ≡ some (
              frames
              ++ due_copies s.queue.device_fps
                  (s.queue.infos p).fps
                  s.queue.current_frame_no
                  times
                  (captured metadata rounds)))
      × (q.input ≡ [])
camera_thread-due_copies d granted metadata rounds s times name p frames z v i on dk nz t o l =
    let bs = captured metadata rounds in
    let q₁ = extended s.queue bs in
    let i₁ : q₁.input ≡ bs ++ [] = ap (λ xs. xs ++ bs) i ∙ sym (append-nil bs) in
    let (q, e) =
      distribute_turns_total times bs [] q₁ l on i₁ dk (captured-All metadata rounds) nz in
    let (found, rest) = distribute_turns-queue times bs [] q₁ q name p frames l on i₁ dk t o e in
    let (code, left, run, same) = camera_thread-captured d granted metadata rounds s z v in
    (code, left, q, run, ap (distribute_turns times) same ∙ e, found, rest)
