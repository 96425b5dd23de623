-- ===== src/Camera/Frames.antt =====
-- The frames that the capture loop hands to the video queue.
use rpi_cam.Base.Outcome.{ok, ok-injective, ◌>>=◌}
use rpi_cam.VideoQueue.{push, VideoQueue, VideoBuffer}
use rpi_cam.Base.{
  subst, Bool-cases, All-append, Option-cases, inl, inr, ℕ, ◌≡◌, refl, Option, none, some, List, [],
  ◌∷◌, ◌++◌, All, length, arith, append-nil, append_assoc, sym, ap, ◌∙◌,
}
use rpi_cam.Camera.{
  hand_over, without, queue_v4l2_buffer, copy_mapped, stop, CameraBuffer, deque_v4l2_buffer,
  Capture, Round, Readiness, failed, timeout, ready, capture_round, loop,
}
use rpi_cam.Config.Camera.{VideoMeta}
use rpi_cam.VideoQueue.Distribution.{IsWhole}

-- The frame of a round that goes on: one that did not time out and took a buffer.
abbrev pub frame_of : VideoMeta → Readiness → Option (ℕ × List ℕ) → ℕ → Option VideoBuffer
frame_of metadata timeout o now = none
frame_of metadata failed none now = none
frame_of metadata ready none now = none
frame_of metadata failed (some (index, bytes)) now =
    some (record { metadata = metadata; timestamp = now; buffer = bytes; size = length bytes })
frame_of metadata ready (some (index, bytes)) now =
    some (record { metadata = metadata; timestamp = now; buffer = bytes; size = length bytes })

-- The frames of the rounds before the first one that ends the loop.
abbrev pub captured : VideoMeta → List Round → List VideoBuffer
captured metadata [] = []
captured metadata (r ∷ rounds) = elim (frame_of metadata r.readiness r.dequeued r.now) [
  | none ↦ []
  | some b ↦ b ∷ captured metadata rounds
]

-- A queue that has been given more frames.
abbrev pub extended : VideoQueue → List VideoBuffer → VideoQueue
extended q frames = record q { input = q.input ++ frames }

-- The buffer that a round takes can be copied.
abbrev pub CanCopy : (ℕ → CameraBuffer) → Option (ℕ × List ℕ) → Type 0
CanCopy buffers none = Unit {0}
CanCopy buffers (some (index, bytes)) = copy_mapped buffers index (length bytes) ≡ ok tt

extended_none : (q : VideoQueue) → q ≡ extended q []
extended_none q = ap (λ xs. record q { input = xs }) (sym (append-nil q.input))

-- A round that takes no frame ends the loop, and leaves the queue.
record Ended (metadata : VideoMeta) (r : Round) (s : Capture) : Type 0 where
  code : ℕ
  left : Capture
  went : capture_round metadata r s ≡ ok (some code, left)
  queue : left.queue ≡ s.queue

capture_round-Ended :
    (metadata : VideoMeta) (r : Round) (s : Capture) (ρ : Readiness) (o : Option (ℕ × List ℕ))
    → r.readiness ≡ ρ
    → r.dequeued ≡ o
    → frame_of metadata ρ o r.now ≡ none
    → Ended metadata r s
unfolding capture_round deque_v4l2_buffer stop
capture_round-Ended metadata r s timeout o e d h = record {
  code = 1;
  left = s;
  went = rw e refl;
  queue = refl;
}
capture_round-Ended metadata r s failed none e d h = record {
  code = 0;
  left = (stop r.stops s).1;
  went = rw (e, d) refl;
  queue = ground arith;
}
capture_round-Ended metadata r s ready none e d h = record {
  code = 0;
  left = (stop r.stops s).1;
  went = rw (e, d) refl;
  queue = ground arith;
}
capture_round-Ended metadata r s failed (some (index, bytes)) e d h = absurd (cc)
capture_round-Ended metadata r s ready (some (index, bytes)) e d h = absurd (cc)

-- A round that takes the frame `b` goes on, and the queue has the frame.
record Handed (metadata : VideoMeta) (r : Round) (s : Capture) (b : VideoBuffer) : Type 0 where
  left : Capture
  went : capture_round metadata r s ≡ ok (none, left)
  buffers : left.camera_buffers ≡ s.camera_buffers
  queue : left.queue ≡ extended s.queue (b ∷ [])

-- What a round leaves after the frame `b` in the buffer `index`.
abbrev handing : Round → Capture → ℕ → VideoBuffer → Option ℕ × Capture
handing r s index b = hand_over r (some (index, b), record s { queued = without index s.queued })

handing-code :
    (r : Round) (s : Capture) (index : ℕ) (b : VideoBuffer)
    → handing r s index b ≡ (none, (handing r s index b).1)
unfolding queue_v4l2_buffer push
handing-code r s index b = refl

handing-kept :
    (r : Round) (s : Capture) (index : ℕ) (b : VideoBuffer)
    → ((handing r s index b).1.camera_buffers ≡ s.camera_buffers)
      × ((handing r s index b).1.queue ≡ extended s.queue (b ∷ []))
unfolding queue_v4l2_buffer push
handing-kept r s index b = elim (Bool-cases r.accepted) [
  | inl y ↦ (rw y refl, rw y refl)
  | inr n ↦ (rw n refl, rw n refl)
]

taken_frame : {b c : VideoBuffer} → ◌≡◌ {A = Option VideoBuffer} (some b) (some c) → b ≡ c
taken_frame h = cc

capture_round-Handed :
    (metadata : VideoMeta) (r : Round) (s : Capture) (b : VideoBuffer) (ρ : Readiness)
    (o : Option (ℕ × List ℕ))
    → r.readiness ≡ ρ
    → r.dequeued ≡ o
    → CanCopy s.camera_buffers o
    → frame_of metadata ρ o r.now ≡ some b
    → Handed metadata r s b
unfolding capture_round deque_v4l2_buffer
capture_round-Handed metadata r s b timeout o e d c h = absurd (cc)
capture_round-Handed metadata r s b failed none e d c h = absurd (cc)
capture_round-Handed metadata r s b ready none e d c h = absurd (cc)
capture_round-Handed metadata r s b failed (some (index, bytes)) e d c h =
    let (kept, queue) = handing-kept r s index b in
    record {
      left = (handing r s index b).1;
      went = rw (e, d, c, ◌>>=◌) (ap (λ x. ok (handing r s index x)) (taken_frame h));
      buffers = kept;
      queue = queue;
    }
capture_round-Handed metadata r s b ready (some (index, bytes)) e d c h =
    let (kept, queue) = handing-kept r s index b in
    record {
      left = (handing r s index b).1;
      went = rw (e, d, c, ◌>>=◌) (ap (λ x. ok (handing r s index x)) (taken_frame h));
      buffers = kept;
      queue = queue;
    }

-- If the buffers that the kernel hands out can be copied, the loop does not fault; it hands exactly
-- the captured frames to the queue, in their order, and changes nothing else of the queue.
pub loop-captured :
    (metadata : VideoMeta) (rounds : List Round) (s : Capture)
    → All (λ r. CanCopy s.camera_buffers r.dequeued) rounds
    → (code : Option ℕ) × (left : Capture) × (loop metadata rounds s ≡ ok (code, left))
      × (left.queue ≡ extended s.queue (captured metadata rounds))
unfolding loop
loop-captured metadata [] s can = (none, s, refl, extended_none s.queue)
loop-captured metadata (r ∷ rounds) s (can, later) =
    elim (Option-cases (frame_of metadata r.readiness r.dequeued r.now)) [
      | inl e ↦
          let t = capture_round-Ended metadata r s r.readiness r.dequeued refl refl e in
          (
            some t.code,
            t.left,
            rw (t.went, ◌>>=◌) refl,
            rw (captured, e) (t.queue ∙ extended_none s.queue),
          )
      | inr (b, e) ↦
          let t = capture_round-Handed metadata r s b r.readiness r.dequeued refl refl can e in
          let still =
            subst (λ bufs. All (λ r. CanCopy bufs r.dequeued) rounds) (sym t.buffers) later in
          let (code, left, l, q) = loop-captured metadata rounds t.left still in
          (
            code,
            left,
            rw (t.went, ◌>>=◌) l,
            rw (captured, e)
                (q
                  ∙ ap (λ x. extended x (captured metadata rounds)) t.queue
                  ∙ ap (λ xs. record s.queue { input = xs })
                      (append_assoc s.queue.input (b ∷ []) (captured metadata rounds))),
          )
    ]

frame-All :
    (metadata : VideoMeta) (ρ : Readiness) (o : Option (ℕ × List ℕ)) (now : ℕ)
    (rest : List VideoBuffer)
    → All IsWhole rest
    → All IsWhole (elim (frame_of metadata ρ o now) [ none ↦ [] | some b ↦ b ∷ rest ])
frame-All metadata timeout o now rest h = tt
frame-All metadata failed none now rest h = tt
frame-All metadata ready none now rest h = tt
frame-All metadata failed (some (index, bytes)) now rest h = (omega arith, h)
frame-All metadata ready (some (index, bytes)) now rest h = (omega arith, h)

-- Every captured frame is whole: its buffer is as long as its size says.
pub captured-All :
    (metadata : VideoMeta) (rounds : List Round) → All IsWhole (captured metadata rounds)
captured-All metadata [] = tt
captured-All metadata (r ∷ rounds) =
    frame-All metadata r.readiness r.dequeued r.now (captured metadata rounds)
      (captured-All metadata rounds)

-- If the input of the queue holds whole frames only, it does so after any number of rounds.
pub loop-All :
    (metadata : VideoMeta) (rounds : List Round) (s left : Capture) (code : Option ℕ)
    → All (λ r. CanCopy s.camera_buffers r.dequeued) rounds
    → loop metadata rounds s ≡ ok (code, left)
    → All IsWhole s.queue.input
    → All IsWhole left.queue.input
loop-All metadata rounds s left code can run h =
    let (code', left', l, q) = loop-captured metadata rounds s can in
    let same : left' ≡ left = ap (λ t. t.1) (ok-injective (sym l ∙ run)) in
    rw (sym same, q)
      (All-append IsWhole s.queue.input (captured metadata rounds) h (captured-All metadata rounds))
