-- ===== src/Event/Thread.antt =====
-- The thread of an event in EventProcessor.cpp against the queue in VideoQueue.cpp, while the other
-- threads use the queue.
use rpi_cam.Base.{
  ℕ, ◌≡◌, ◌≢◌, refl, ap, subst, ◌∙◌, arith, true, some, List, [], ◌∷◌, ◌++◌, String, str_eq, eq_iff,
  if◌then◌else◌, All, All-append, Bool-cases, Option-cases, inl, inr, suc,
}
use rpi_cam.Base.Dict.{find}
use rpi_cam.Base.Outcome.{Outcome, ok, fault, >>=-eq-ok, ◌>>=◌}
use rpi_cam.VideoQueue.{VideoQueue, VideoBuffer, Popped, null, waits, frame, pop, pop_wake}
use rpi_cam.VideoQueue.History.{
  Call, inserts, removes, pushes, turns, pops, wakes, closes, step, run, IsValid, step-IsValid,
}
use rpi_cam.VideoQueue.Traffic.{frame_of, handed, handed_in, queued_in}
use rpi_cam.VideoQueue.Fifo.{run-Balance}
use rpi_cam.VideoQueue.Serving.{Serves}
use rpi_cam.VideoQueue.Progress.{Leaves, step-Goes}
use rpi_cam.VideoQueue.Liveness.{Leaves-cons, Leaves-Keeps}
use rpi_cam.Http.Sender.{Sent, Readable, event_report}
use rpi_cam.Base.Int.{pos}
use rpi_cam.Event.Processor.{Reports, EventProcessor, EventFunction}
use rpi_cam.Event.Loop.{event_loop, event_exec-reports, detected, reports, calls_after, scores}

abbrev answer_of : Outcome (Popped × VideoQueue) → List Popped
answer_of (fault e) = []
answer_of (ok (r, q)) = r ∷ []

-- What a call answers to the thread of `name`.
abbrev answered : String → Call → VideoQueue → List Popped
answered name (pops k) q = if str_eq k name then answer_of (pop k q) else []
answered name (wakes k) q = if str_eq k name then answer_of (pop_wake k q) else []
answered name _ q = []

-- The same over a history.
abbrev pub answers_in : String → List Call → VideoQueue → List Popped
answers_in name [] q = []
answers_in name (c ∷ cs) q =
    answered name c q ++ (elim (step c q) [ fault e ↦ [] | ok q' ↦ answers_in name cs q' ])

abbrev frames_in : List Popped → List VideoBuffer
frames_in [] = []
frames_in (null ∷ rs) = frames_in rs
frames_in (waits ∷ rs) = frames_in rs
frames_in (frame b ∷ rs) = b ∷ frames_in rs

frames_in-append : (rs ss : List Popped) → frames_in (rs ++ ss) ≡ frames_in rs ++ frames_in ss
frames_in-append [] ss = refl
frames_in-append (null ∷ rs) ss = frames_in-append rs ss
frames_in-append (waits ∷ rs) ss = frames_in-append rs ss
frames_in-append (frame b ∷ rs) ss = ap (λ bs. b ∷ bs) (frames_in-append rs ss)

frames_in-answer_of : (o : Outcome (Popped × VideoQueue)) → frames_in (answer_of o) ≡ frame_of o
frames_in-answer_of (fault e) = refl
frames_in-answer_of (ok (null, q)) = refl
frames_in-answer_of (ok (waits, q)) = refl
frames_in-answer_of (ok (frame b, q)) = refl

frames_in-answered :
    (name : String) (c : Call) (q : VideoQueue) → frames_in (answered name c q) ≡ handed name c q
frames_in-answered name (pops k) q = elim (Bool-cases (str_eq k name)) [
  | inl y ↦ rw y (frames_in-answer_of (pop k q))
  | inr n ↦ rw n refl
]
frames_in-answered name (wakes k) q = elim (Bool-cases (str_eq k name)) [
  | inl y ↦ rw y (frames_in-answer_of (pop_wake k q))
  | inr n ↦ rw n refl
]
frames_in-answered name (inserts k p) q = refl
frames_in-answered name (removes k) q = refl
frames_in-answered name (pushes b) q = refl
frames_in-answered name (turns now) q = refl
frames_in-answered name closes q = refl

-- A thread that is never told to end reports the events of the frames that it gets.
event_loop-frames_in :
    (env : Reports) (e : EventProcessor) (f : EventFunction) (calls : ℕ) (rs : List Popped)
    → e.event_program ≡ some f
    → ((k : ℕ) → Readable (env.curl k))
    → All (λ r. r ≢ null) rs
    → event_loop env e calls rs ≡ ok (reports env (detected f calls (frames_in rs)))
unfolding event_loop
event_loop-frames_in env e f calls [] h w a = refl
event_loop-frames_in env e f calls (null ∷ rs) h w (n, a) = absurd (n refl)
event_loop-frames_in env e f calls (waits ∷ rs) h w (n, a) =
    event_loop-frames_in env e f calls rs h w a
event_loop-frames_in env e f calls (frame b ∷ rs) h w (n, a) =
    let later = detected f (suc calls) (frames_in rs) in
    let (r, x, same) = event_exec-reports env e f calls b later h (w calls) in
    rw (x, event_loop-frames_in env e f (suc calls) rs h w a, ◌>>=◌) (ap ok same)

pop-running_answers :
    (name : String) (p : ℕ) (frames : List VideoBuffer) (q q' : VideoQueue) (r : Popped)
    → find name q.thread_info ≡ some p
    → (q.infos p).is_run ≡ true
    → find name q.output ≡ some frames
    → pop name q ≡ ok (r, q')
    → r ≢ null
unfolding pop
pop-running_answers name p [] q q' r t on o h = ground arith
pop-running_answers name p (b ∷ rest) q q' r t on o h = ground arith

pop_wake-running_answers :
    (name : String) (p : ℕ) (frames : List VideoBuffer) (q q' : VideoQueue) (r : Popped)
    → find name q.thread_info ≡ some p
    → (q.infos p).is_run ≡ true
    → find name q.output ≡ some frames
    → pop_wake name q ≡ ok (r, q')
    → r ≢ null
unfolding pop_wake
pop_wake-running_answers name p [] q q' r t on o h = ground arith
pop_wake-running_answers name p (b ∷ rest) q q' r t on o h = ground arith

-- The queue of an event that is registered.
queue_of :
    (name : String) (p d fps : ℕ) (q : VideoQueue)
    → IsValid q
    → Serves name p d fps q
    → (frames : List VideoBuffer) × (find name q.output ≡ some frames)
queue_of name p d fps q v s = elim (Option-cases (find name q.output)) [
  | inl e ↦ absurd (ground (arith, v.served name e, s.registered))
  | inr found ↦ found
]

answered-runs :
    (name : String) (p d fps : ℕ) (c : Call) (q q' : VideoQueue)
    → IsValid q
    → Serves name p d fps q
    → step c q ≡ ok q'
    → All (λ r. r ≢ null) (answered name c q)
unfolding step
answered-runs name p d fps (pops k) q q' v s h = elim (Bool-cases (str_eq k name)) [
  | inr n ↦ rw n tt
  | inl y ↦
      let (t, e, _) = >>=-eq-ok _ _ h in
      let (frames, o) = queue_of name p d fps q v s in
      let e' = subst (λ x. pop x q ≡ ok t) ((eq_iff k name).0 y) e in
      rw (y, e) (pop-running_answers name p frames q t.1 t.0 s.registered s.running o e', tt)
]
answered-runs name p d fps (wakes k) q q' v s h = elim (Bool-cases (str_eq k name)) [
  | inr n ↦ rw n tt
  | inl y ↦
      let (t, e, _) = >>=-eq-ok _ _ h in
      let (frames, o) = queue_of name p d fps q v s in
      let e' = subst (λ x. pop_wake x q ≡ ok t) ((eq_iff k name).0 y) e in
      rw (y, e) (pop_wake-running_answers name p frames q t.1 t.0 s.registered s.running o e', tt)
]
answered-runs name p d fps (inserts k r) q q' v s h = tt
answered-runs name p d fps (removes k) q q' v s h = tt
answered-runs name p d fps (pushes b) q q' v s h = tt
answered-runs name p d fps (turns now) q q' v s h = tt
answered-runs name p d fps closes q q' v s h = tt

answers_in-handed_in :
    (name : String) (p d fps : ℕ) (cs : List Call) (q q' : VideoQueue)
    → IsValid q
    → Serves name p d fps q
    → Leaves name p cs
    → run cs q ≡ ok q'
    → All (λ r. r ≢ null) (answers_in name cs q)
      × (frames_in (answers_in name cs q) ≡ handed_in name cs q)
unfolding run
answers_in-handed_in name p d fps [] q q' v s keep h = (tt, refl)
answers_in-handed_in name p d fps (c ∷ cs) q q' v s keep h =
    let (q₁, e, f) = >>=-eq-ok _ _ h in
    let (keep₁, keeps) = Leaves-cons name p c cs keep in
    let g = step-Goes name p d fps c q q₁ keep₁ s e in
    let (runs, same) =
      answers_in-handed_in name p d fps cs q₁ q' (step-IsValid c q q₁ v e) g.serves keeps f in
    (
      rw e (
          All-append (λ r. r ≢ null) (answered name c q) (answers_in name cs q₁)
            (answered-runs name p d fps c q q₁ v s e) runs),
      rw e (
          frames_in-append (answered name c q) (answers_in name cs q₁)
          ∙ ap (λ bs. bs ++ frames_in (answers_in name cs q₁)) (frames_in-answered name c q)
          ∙ ap (λ bs. handed name c q ++ bs) same),
    )

detected-append :
    (f : EventFunction) (calls : ℕ) (bs cs : List VideoBuffer)
    → detected f calls (bs ++ cs) ≡ detected f calls bs ++ detected f (calls_after calls bs) cs
detected-append f calls [] cs = refl
detected-append f calls (b ∷ bs) cs = elim (Bool-cases (scores (f calls b))) [
  | inl y ↦ rw y (ap (λ ts. b.timestamp ∷ ts) (detected-append f (suc calls) bs cs))
  | inr n ↦ rw n (detected-append f (suc calls) bs cs)
]

reports-append :
    (env : Reports) (ts us : List ℕ) → reports env (ts ++ us) ≡ reports env ts ++ reports env us
reports-append env [] us = refl
reports-append env (t ∷ ts) us =
    ap (λ rs. event_report env.print env.handler (pos t) ∷ rs) (reports-append env ts us)

-- Over any history that succeeds from a valid queue, in which nobody removes a running event or takes
-- its pointer, the thread of the event, whose program is loaded, which gets what its calls of pop
-- answer, and whose transfers to the server get a handle and an answer that can be read, runs without
-- a fault; the reports that it sends, followed by those of the events that its program would find in
-- the frames that are left, are those of the events that it finds in the frames that stood in the
-- queue and in the copies made for it meanwhile, in order. What the program answers may depend on
-- its earlier calls.
pub event_loop-run :
    (name : String) (p d fps calls : ℕ) (env : Reports) (e : EventProcessor) (f : EventFunction)
    (cs : List Call) (q q' : VideoQueue) (frames : List VideoBuffer)
    → IsValid q
    → Serves name p d fps q
    → Leaves name p cs
    → find name q.output ≡ some frames
    → e.event_program ≡ some f
    → ((k : ℕ) → Readable (env.curl k))
    → run cs q ≡ ok q'
    → (sent : List Sent) × (left : List VideoBuffer) × (event_loop env e calls
          (answers_in name cs q)
        ≡ ok sent)
      × (find name q'.output ≡ some left)
      × (reports env (detected f calls (frames ++ queued_in name cs q))
          ≡ sent ++ reports env (detected f (calls_after calls (handed_in name cs q)) left))
event_loop-run name p d fps calls env e f cs q q' frames v s keep o loaded w h =
    let (runs, got) = answers_in-handed_in name p d fps cs q q' v s keep h in
    let (left, l, same) = run-Balance name cs q q' frames v (Leaves-Keeps name p cs keep) o h in
    let found = λ (bs : List VideoBuffer). reports env (detected f calls bs) in
    let taken = handed_in name cs q in
    (
      found taken,
      left,
      event_loop-frames_in env e f calls (answers_in name cs q) loaded w runs
          ∙ ap (λ bs. ok (found bs)) got,
      l,
      ap found same
          ∙ ap (reports env) (detected-append f calls taken left)
          ∙ reports-append env (detected f calls taken) (detected f (calls_after calls taken) left),
    )
