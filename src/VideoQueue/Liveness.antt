-- ===== src/VideoQueue/Liveness.antt =====
-- A waiting event gets its frame, whatever the other threads do meanwhile.
use rpi_cam.Base.{
  ℕ, zero, suc, ◌+◌, ◌-◌, ◌%◌, ◌/◌, ◌≤◌, ◌<◌, ◌≡◌, refl, sym, ap, subst, ◌⊎◌, inl, inr, List, [],
  ◌∷◌, arith, Bool, true, false, some, String, length, length-append, if◌then◌else◌, ◌==◌,
}
use native.Mathlib.Nat.{le-div_iff_mul-le, suc-add, zero-add}
use rpi_cam.Base.Dict.{find, assign}
use rpi_cam.Base.Outcome.{ok, >>=-eq-ok, ok-injective}
use rpi_cam.VideoQueue.{VideoQueue, VideoBuffer, frame, pop_wake}
use rpi_cam.VideoQueue.Delivery.{advance}
use rpi_cam.VideoQueue.Rates.{due_count, due_count_cycle}
use rpi_cam.VideoQueue.History.{
  Call, inserts, removes, pushes, turns, pops, wakes, closes, run, IsValid,
}
use rpi_cam.VideoQueue.Fifo.{run-Balance}
use rpi_cam.VideoQueue.Traffic.{queued, queued_in, handed_in, Keeps}
use rpi_cam.VideoQueue.Progress.{Leaves, passes, passed_in, step-Goes}
use rpi_cam.VideoQueue.Serving.{Serves}

pub Leaves-cons :
    (name : String) (p : ℕ) (c : Call) (cs : List Call)
    → Leaves name p (c ∷ cs)
    → Leaves name p (c ∷ []) × Leaves name p cs
Leaves-cons name p (removes k) cs h = ((h.0, tt), h.1)
Leaves-cons name p (inserts k r) cs h = ((h.0, tt), h.1)
Leaves-cons name p (pushes b) cs h = (tt, h)
Leaves-cons name p (turns now) cs h = (tt, h)
Leaves-cons name p (pops k) cs h = (tt, h)
Leaves-cons name p (wakes k) cs h = (tt, h)
Leaves-cons name p closes cs h = (tt, h)

pub Leaves-Keeps : (name : String) (p : ℕ) (cs : List Call) → Leaves name p cs → Keeps name cs
Leaves-Keeps name p [] h = tt
Leaves-Keeps name p (removes k ∷ cs) h = (h.0, Leaves-Keeps name p cs h.1)
Leaves-Keeps name p (inserts k r ∷ cs) h = Leaves-Keeps name p cs h.1
Leaves-Keeps name p (pushes b ∷ cs) h = Leaves-Keeps name p cs h
Leaves-Keeps name p (turns now ∷ cs) h = Leaves-Keeps name p cs h
Leaves-Keeps name p (pops k ∷ cs) h = Leaves-Keeps name p cs h
Leaves-Keeps name p (wakes k ∷ cs) h = Leaves-Keeps name p cs h
Leaves-Keeps name p (closes ∷ cs) h = Leaves-Keeps name p cs h

due_count-next :
    (fps d n m : ℕ) (goes : Bool)
    → (if goes then (if advance fps n % d == 0 then 1 else 0) else 0)
        + due_count fps d (if goes then advance fps n else n) m
      ≡ due_count fps d n ((if goes then 1 else 0) + m)
due_count-next fps d n m true = rw (suc-add 0 m, zero-add m) refl
due_count-next fps d n m false = rw (zero-add m) (omega arith)

-- The copies made for an event over any history are those due among the frames distributed.
run-count :
    (name : String) (p d fps : ℕ) (cs : List Call) (q q' : VideoQueue)
    → Leaves name p cs
    → Serves name p d fps q
    → run cs q ≡ ok q'
    → (length (queued_in name cs q) ≡ due_count fps d q.current_frame_no (passed_in cs q))
      × Serves name p d fps q'
unfolding run
run-count name p d fps [] q q' keep s h = (refl, subst (Serves name p d fps) (ok-injective h) s)
run-count name p d fps (c ∷ cs) q q' keep s h =
    let (q₁, e, f) = >>=-eq-ok _ _ h in
    let (keep₁, keeps) = Leaves-cons name p c cs keep in
    let g = step-Goes name p d fps c q q₁ keep₁ s e in
    let (rest, s') = run-count name p d fps cs q₁ q' keeps g.serves f in
    (
      rw (e, length-append (queued name c q) (queued_in name cs q₁), rest, g.count, g.frame_no)
          (due_count-next fps d q.current_frame_no (passed_in cs q₁) (passes c q)),
      s',
    )

due_count_mono : (fps d n k j : ℕ) → due_count fps d n k ≤ due_count fps d n (k + j)
due_count_mono fps d n zero j = omega arith
due_count_mono fps d n (suc k) j =
    rw (suc-add k j) (omega (arith, due_count_mono fps d (advance fps n) k j))

-- With divisor `d` an event is due at least `fps / d` times among `fps` frames or more.
due_count_least :
    (fps d n k : ℕ) → 0 < d → 0 < fps → n ≤ fps → fps ≤ k → fps / d ≤ due_count fps d n k
due_count_least fps d n k hd hf hn hk =
    let whole : fps + (k - fps) ≡ k = omega arith in
    subst (λ m. fps / d ≤ due_count fps d n m) whole
      (rw (sym (due_count_cycle fps d n hd hf hn)) (due_count_mono fps d n fps (k - fps)))

pop_wake-front :
    (name : String) (p : ℕ) (q : VideoQueue) (b : VideoBuffer) (rest : List VideoBuffer)
    → find name q.thread_info ≡ some p
    → (q.infos p).is_run ≡ true
    → find name q.output ≡ some (b ∷ rest)
    → (q' : VideoQueue) × (pop_wake name q ≡ ok (frame b, q'))
unfolding pop_wake
pop_wake-front name p q b rest t on o =
    (record q { output = assign name rest q.output }, ground arith)

handed_or_left :
    (name : String) (p : ℕ) (q : VideoQueue) (handed left : List VideoBuffer)
    → find name q.thread_info ≡ some p
    → (q.infos p).is_run ≡ true
    → find name q.output ≡ some left
    → 0 < length handed + length left
    → (0 < length handed)
      ⊎ ((b : VideoBuffer) × (q' : VideoQueue) × (pop_wake name q ≡ ok (frame b, q')))
handed_or_left name p q handed [] t on o h = inl (omega (arith, h))
handed_or_left name p q handed (b ∷ rest) t on o h =
    let (q', e) = pop_wake-front name p q b rest t on o in inr (b, q', e)

-- In any history of a valid queue that succeeds, in which nobody removes a running event whose
-- divisor is between 1 and the camera's rate and nobody takes its pointer, and in which at least as
-- many frames are distributed as the camera makes in a second: the thread of the event has been
-- handed a frame in the meantime, or its next wake-up hands it one.
pub run-wakes :
    (name : String) (p d : ℕ) (cs : List Call) (q q' : VideoQueue) (frames : List VideoBuffer)
    → IsValid q
    → Serves name p d q.device_fps q
    → 0 < d
    → d ≤ q.device_fps
    → Leaves name p cs
    → find name q.output ≡ some frames
    → q.device_fps ≤ passed_in cs q
    → run cs q ≡ ok q'
    → (0 < length (handed_in name cs q))
      ⊎ ((b : VideoBuffer) × (q'' : VideoQueue) × (pop_wake name q' ≡ ok (frame b, q'')))
run-wakes name p d cs q q' frames v s pos le keep o enough h =
    let (left, l, same) = run-Balance name cs q q' frames v (Leaves-Keeps name p cs keep) o h in
    let (count, s') = run-count name p d q.device_fps cs q q' keep s h in
    let least =
      due_count_least q.device_fps d q.current_frame_no (passed_in cs q) pos v.rated v.numbered
        enough in
    let one : 1 ≤ q.device_fps / d =
      (le-div_iff_mul-le {k = d} {x = 1} {y = q.device_fps} pos).1 (omega arith) in
    handed_or_left name p q' (handed_in name cs q) left s'.registered s'.running l (
      omega (
        arith,
        count,
        least,
        one,
        ap length same,
        length-append frames (queued_in name cs q),
        length-append (handed_in name cs q) left,
      ))
