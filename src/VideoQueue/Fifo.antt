-- ===== src/VideoQueue/Fifo.antt =====
-- First in, first out for each event, over any history that does not remove it.
use rpi_cam.Base.{
  append_assoc, ℕ, ◌≡◌, refl, List, [], ◌∷◌, ◌++◌, arith, if◌then◌else◌, Option, none, some, String,
  str_eq, eq_iff, append-nil, Option-cases, inl, inr, ◌∙◌, sym, ap,
}
use rpi_cam.VideoQueue.History.{
  step-IsValid, run, Call, inserts, removes, pushes, turns, pops, wakes, closes, step, IsValid,
}
use rpi_cam.VideoQueue.Cases.{
  InsertCase, kept, added, insert_event-InsertCase, TurnCase, halted, starved, passed,
  distribute_buffer-TurnCase,
}
use rpi_cam.Base.Dict.{Dict, find, find-assign, find-emplace_new, emplace_old}
use rpi_cam.Base.Outcome.{ok, >>=-eq-ok, ok-injective}
use rpi_cam.VideoQueue.{VideoQueue, VideoBuffer, Popped, push, close}
use rpi_cam.VideoQueue.Registry.{remove_event-find}
use rpi_cam.VideoQueue.Waiting.{
  PopCase, refused, waiting, ended, taken, pop-PopCase, pop_wake-PopCase,
}
use rpi_cam.VideoQueue.Distribution.{copied, is_due, after_frame, find-distribute_to}
use rpi_cam.VideoQueue.Delivery.{after_turn, advance}
use rpi_cam.VideoQueue.Traffic.{
  due_copy, queued, frame_of, handed, queued_in, handed_in, Keeps, Keeps-cons,
}

-- What stood in the queue and what came in is what went out and what is left.
abbrev Balance :
    String
    → VideoQueue
    → VideoQueue
    → List VideoBuffer
    → List VideoBuffer
    → List VideoBuffer
    → Type 0
Balance name q q' frames came went =
    (left : List VideoBuffer) × (find name q'.output ≡ some left) × (frames ++ came ≡ went ++ left)

PopCase-Balance :
    (k name : String) (q : VideoQueue) (r : Popped) (q' : VideoQueue) (frames : List VideoBuffer)
    → find name q.output ≡ some frames
    → PopCase k q r q'
    → Balance name q q' frames [] (if str_eq k name then frame_of (ok (r, q')) else [])
PopCase-Balance k name q r q' frames o refused = (frames, o, ground (arith, append-nil frames))
PopCase-Balance k name q r q' frames o waiting = (frames, o, ground (arith, append-nil frames))
PopCase-Balance k name q r q' frames o ended = (frames, o, ground (arith, append-nil frames))
PopCase-Balance k name q r q' frames o (taken b rest e) = (
  if str_eq k name then rest else frames,
  ground (arith, find-assign k name rest (b ∷ rest) q.output e),
  ground (arith, append-nil frames, eq_iff k name),
)

InsertCase-Balance :
    (k name : String) (p : ℕ) (q q' : VideoQueue) (frames : List VideoBuffer)
    → find name q.output ≡ some frames
    → InsertCase k p q q'
    → Balance name q q' frames [] []
InsertCase-Balance k name p q q' frames o kept = (frames, o, append-nil frames)
InsertCase-Balance k name p q q' frames o (added infos fresh) =
    elim (Option-cases (find k q.output)) [
      | inl e ↦ (
        frames,
        find-emplace_new k name [] q.output e ∙ ground (arith, eq_iff k name),
        append-nil frames,
      )
      | inr (old, e) ↦
          (frames, ap (find name) (emplace_old k [] old q.output e) ∙ o, append-nil frames)
    ]

due_copy-Balance :
    (name : String) (now : ℕ) (q : VideoQueue) (b : VideoBuffer) (rest frames : List VideoBuffer)
    (out : Dict (List VideoBuffer)) (t : Option ℕ)
    → find name q.thread_info ≡ t
    → find name q.output ≡ some frames
    → find name out
      ≡ after_frame q.infos
          (advance q.device_fps q.current_frame_no)
          (copied now b)
          (find name q.thread_info)
          (find name q.output)
    → Balance name q (after_turn rest out q) frames (due_copy name now q (b ∷ rest) t) []
due_copy-Balance name now q b rest frames out none e o h = (frames, ground arith, append-nil frames)
due_copy-Balance name now q b rest frames out (some p) e o h = (
  frames
      ++ (if is_due (advance q.device_fps q.current_frame_no) (q.infos p)
          then copied now b ∷ []
          else []),
  ground (arith, append-nil frames),
  refl,
)

TurnCase-Balance :
    (name : String) (now : ℕ) (q q' : VideoQueue) (frames : List VideoBuffer)
    → IsValid q
    → find name q.output ≡ some frames
    → TurnCase now q q'
    → Balance name q q' frames (queued name (turns now) q) []
TurnCase-Balance name now q q' frames v o (halted off) =
    (frames, o, ground (arith, append-nil frames))
TurnCase-Balance name now q q' frames v o (starved i) =
    (frames, o, ground (arith, append-nil frames))
TurnCase-Balance name now q q' frames v o (passed b rest out on i e) =
    let (left, l, same) =
      due_copy-Balance name now q b rest frames out (find name q.thread_info) refl o (
        find-distribute_to q.infos (advance q.device_fps q.current_frame_no) now b q.thread_info
          q.output out name v.distinct e) in
    (left, l, ground (arith, same))

step-Balance :
    (name : String) (c : Call) (q q' : VideoQueue) (frames : List VideoBuffer)
    → IsValid q
    → Keeps name (c ∷ [])
    → find name q.output ≡ some frames
    → step c q ≡ ok q'
    → Balance name q q' frames (queued name c q) (handed name c q)
unfolding step push close
step-Balance name (inserts k p) q q' frames v keep o h =
    let (r, e, f) = >>=-eq-ok _ _ h in
    let (left, l, same) =
      InsertCase-Balance k name p q r.1 frames o (insert_event-InsertCase k p r.0 q r.1 e) in
    (left, ap (λ s. find name s.output) (sym (ok-injective f)) ∙ l, same)
step-Balance name (removes k) q q' frames v keep o h = (
  frames,
  ap (λ s. find name s.output) (sym (ok-injective h))
      ∙ (remove_event-find k name q).1
      ∙ rw keep.0 o,
  append-nil frames,
)
step-Balance name (pushes b) q q' frames v keep o h =
    (frames, ap (λ s. find name s.output) (sym (ok-injective h)) ∙ o, append-nil frames)
step-Balance name (turns now) q q' frames v keep o h =
    let (r, e, f) = >>=-eq-ok _ _ h in
    let (left, l, same) =
      TurnCase-Balance name now q r.1 frames v o (distribute_buffer-TurnCase now q r.1 r.0 e) in
    (left, ap (λ s. find name s.output) (sym (ok-injective f)) ∙ l, same)
step-Balance name (pops k) q q' frames v keep o h =
    let (r, e, f) = >>=-eq-ok _ _ h in
    let (left, l, same) = PopCase-Balance k name q r.0 r.1 frames o (pop-PopCase k q r.0 r.1 e) in
    (left, ap (λ s. find name s.output) (sym (ok-injective f)) ∙ l, rw e same)
step-Balance name (wakes k) q q' frames v keep o h =
    let (r, e, f) = >>=-eq-ok _ _ h in
    let (left, l, same) =
      PopCase-Balance k name q r.0 r.1 frames o (pop_wake-PopCase k q r.0 r.1 e) in
    (left, ap (λ s. find name s.output) (sym (ok-injective f)) ∙ l, rw e same)
step-Balance name closes q q' frames v keep o h =
    (frames, ap (λ s. find name s.output) (sym (ok-injective h)) ∙ o, append-nil frames)

-- For an event that nobody removes in the meantime, over any interleaving of all threads: the
-- frames that stood in its queue, followed by the copies made for it, are the frames handed to its
-- thread followed by those left. None is lost, doubled or overtaken.
pub run-Balance :
    (name : String) (cs : List Call) (q q' : VideoQueue) (frames : List VideoBuffer)
    → IsValid q
    → Keeps name cs
    → find name q.output ≡ some frames
    → run cs q ≡ ok q'
    → (left : List VideoBuffer) × (find name q'.output ≡ some left)
      × (frames ++ queued_in name cs q ≡ handed_in name cs q ++ left)
unfolding run
run-Balance name [] q q' frames v keep o h =
    (frames, ap (λ s. find name s.output) (sym (ok-injective h)) ∙ o, append-nil frames)
run-Balance name (c ∷ cs) q q' frames v keep o h =
    let (q₁, e, f) = >>=-eq-ok _ _ h in
    let (keep₁, keeps) = Keeps-cons name c cs keep in
    let (mid, m, same) = step-Balance name c q q₁ frames v keep₁ o e in
    let (left, l, rest) = run-Balance name cs q₁ q' mid (step-IsValid c q q₁ v e) keeps m f in
    (
      left,
      l,
      rw e (
          sym (append_assoc frames (queued name c q) (queued_in name cs q₁))
          ∙ ap (λ xs. xs ++ queued_in name cs q₁) same
          ∙ append_assoc (handed name c q) mid (queued_in name cs q₁)
          ∙ ap (λ xs. handed name c q ++ xs) rest
          ∙ sym (append_assoc (handed name c q) (handed_in name cs q₁) left)),
    )
