-- ===== src/Event/Loop.antt =====
-- EventProcessor.cpp: `event_loop`, the body of an event's thread.
use rpi_cam.Base.{
  suc, ap, Bool-cases, inl, inr, ℕ, Bool, true, false, none, some, List, [], ◌∷◌, ◌++◌, String, ◌≡◌,
  refl, map, arith, ◌==◌, if◌then◌else◌, str_eq,
}
use rpi_cam.Event.Processor.{
  Reports, EventProcessor, EventFunction, event_exec, read_directory, uploaded_files, is_positive,
  verdict, read_directory-uploaded_files,
}
use rpi_cam.Base.Int.{ℤ, pos, negsuc}
use rpi_cam.Base.Dict.{find}
use rpi_cam.Base.Text.{stoi, number}
use rpi_cam.Base.Outcome.{Outcome, ok, fault, uninitialised, div_by_zero, deref, ◌>>=◌}
use rpi_cam.Http.Sender.{Sent, Readable, event_report, event_send-Readable, event_send_unanswered}
use rpi_cam.VideoQueue.{VideoQueue, VideoBuffer, Popped, null, waits, frame, update, insert_event}

-- The rate as the queue's model takes it; `is_positive` lets no negative one through.
abbrev pub to_rate : ℤ → ℕ
to_rate (pos n) = n
to_rate (negsuc n) = 0

-- The part before the loop: a `ThreadInfo` at the free address `p` is filled and registered.
unfoldable pub event_start : EventProcessor → ℕ → VideoQueue → Outcome VideoQueue
event_start e p q = do
  fps ← deref uninitialised e.fps
  enable ← deref uninitialised e.enable
  r ←
      insert_event e.event_name p
        (record q { infos = update q.infos p (record { is_run = enable; fps = to_rate fps }) })
  ok r.1

-- The loop, over what its calls of `pop` answer, after `calls` frames; the result is the requests
-- sent. A thread that waits goes on with the next answer.
unfoldable pub event_loop :
    Reports → EventProcessor → (calls : ℕ) → List Popped → Outcome (List Sent)
unfolding event_exec
event_loop env e calls [] = ok []
event_loop env e calls (null ∷ pops) = ok []
event_loop env e calls (waits ∷ pops) = event_loop env e calls pops
event_loop env e calls (frame buffer ∷ pops) = do
  r ← event_exec env e calls buffer
  sent ← event_loop env e (suc calls) pops
  ok (r.1 ++ sent)

abbrev pub scores : ℤ → Bool
scores (pos n) = if n == 0 then false else true
scores (negsuc n) = false

-- The times of the frames that the program scores above zero, after `calls` frames.
abbrev pub detected : EventFunction → (calls : ℕ) → List VideoBuffer → List ℕ
detected f calls [] = []
detected f calls (b ∷ bs) =
    let later = detected f (suc calls) bs in
    if scores (f calls b) then b.timestamp ∷ later else later

-- The reports of events at some times.
abbrev pub reports : Reports → List ℕ → List Sent
reports env [] = []
reports env (t ∷ ts) = event_report env.print env.handler (pos t) ∷ reports env ts

verdict-reports :
    (env : Reports) (calls : ℕ) (z : ℤ) (b : VideoBuffer) (later : List ℕ)
    → Readable (env.curl calls)
    → (r : ℕ × List Sent) × (verdict env calls z b ≡ ok r)
      × (r.1 ++ reports env later ≡ reports env (if scores z then b.timestamp ∷ later else later))
verdict-reports env calls (negsuc n) b later w = ((1, []), refl, refl)
verdict-reports env calls (pos n) b later w = elim (Bool-cases (n == 0)) [
  | inl e ↦ ((0, []), rw e refl, rw e refl)
  | inr e ↦ (
    (0, event_report env.print env.handler (pos b.timestamp) ∷ []),
    rw (e, event_send-Readable (env.curl calls) env.print env.handler (pos b.timestamp) w, ◌>>=◌)
        refl,
    rw e refl,
  )
]

pub event_exec-reports :
    (env : Reports) (e : EventProcessor) (f : EventFunction) (calls : ℕ) (b : VideoBuffer)
    (later : List ℕ)
    → e.event_program ≡ some f
    → Readable (env.curl calls)
    → (r : ℕ × List Sent) × (event_exec env e calls b ≡ ok r)
      × (r.1 ++ reports env later
          ≡ reports env (if scores (f calls b) then b.timestamp ∷ later else later))
unfolding event_exec
event_exec-reports env e f calls b later h w =
    rw h (verdict-reports env calls (f calls b) b later w)

-- The thread sends one report for each frame that its program scores above zero, in order, and ends
-- at the first `nullptr`.
pub event_loop-detected :
    (env : Reports) (e : EventProcessor) (f : EventFunction) (calls : ℕ) (bs : List VideoBuffer)
    (later : List Popped)
    → e.event_program ≡ some f
    → ((k : ℕ) → Readable (env.curl k))
    → event_loop env e calls (map frame bs ++ null ∷ later) ≡ ok (reports env (detected f calls bs))
unfolding event_loop
event_loop-detected env e f calls [] later h w = refl
event_loop-detected env e f calls (b ∷ bs) later h w =
    let (r, x, same) = event_exec-reports env e f calls b (detected f (suc calls) bs) h (w calls) in
    rw (x, event_loop-detected env e f (suc calls) bs later h w, ◌>>=◌) (ap ok same)

verdict_unanswered :
    (env : Reports) (calls : ℕ) (z : ℤ) (b : VideoBuffer)
    → scores z ≡ true
    → (env.curl calls).creates ≡ true
    → (env.curl calls).pieces ≡ []
    → verdict env calls z b ≡ fault uninitialised
verdict_unanswered env calls (negsuc n) b s c p = absurd (ground arith)
verdict_unanswered env calls (pos n) b s c p = elim (Bool-cases (n == 0)) [
  | inl e ↦ absurd (ground (arith, e, s))
  | inr e ↦
      rw
        (
          e,
          event_send_unanswered (env.curl calls) env.print env.handler (pos b.timestamp) c p,
          ◌>>=◌,
        )
        refl
]

event_exec_unanswered :
    (env : Reports) (e : EventProcessor) (f : EventFunction) (calls : ℕ) (b : VideoBuffer)
    → e.event_program ≡ some f
    → scores (f calls b) ≡ true
    → (env.curl calls).creates ≡ true
    → (env.curl calls).pieces ≡ []
    → event_exec env e calls b ≡ fault uninitialised
unfolding event_exec
event_exec_unanswered env e f calls b h s c p =
    rw h (verdict_unanswered env calls (f calls b) b s c p)

verdict_quiet :
    (env : Reports) (calls : ℕ) (z : ℤ) (b : VideoBuffer)
    → scores z ≡ false
    → (code : ℕ) × (verdict env calls z b ≡ ok (code, []))
verdict_quiet env calls (negsuc n) b s = (1, refl)
verdict_quiet env calls (pos n) b s = elim (Bool-cases (n == 0)) [
  | inl e ↦ (0, rw e refl)
  | inr e ↦ absurd (ground (arith, e, s))
]

event_exec_quiet :
    (env : Reports) (e : EventProcessor) (f : EventFunction) (calls : ℕ) (b : VideoBuffer)
    → e.event_program ≡ some f
    → scores (f calls b) ≡ false
    → (code : ℕ) × (event_exec env e calls b ≡ ok (code, []))
unfolding event_exec
event_exec_quiet env e f calls b h s = rw h (verdict_quiet env calls (f calls b) b s)

-- The number of calls after some more frames.
abbrev pub calls_after : ℕ → List VideoBuffer → ℕ
calls_after calls [] = calls
calls_after calls (b ∷ bs) = calls_after (suc calls) bs

-- The first event of a thread whose report gets no body in answer is the end of the program: after
-- any frames in which its loaded program finds nothing, the frame in which it finds something makes
-- the thread read an array that has not been written, if libcurl makes a handle.
pub event_loop_unanswered :
    (env : Reports) (e : EventProcessor) (f : EventFunction) (calls : ℕ) (bs : List VideoBuffer)
    (b : VideoBuffer) (later : List Popped)
    → e.event_program ≡ some f
    → detected f calls bs ≡ []
    → scores (f (calls_after calls bs) b) ≡ true
    → (env.curl (calls_after calls bs)).creates ≡ true
    → (env.curl (calls_after calls bs)).pieces ≡ []
    → event_loop env e calls (map frame bs ++ frame b ∷ later) ≡ fault uninitialised
unfolding event_loop
event_loop_unanswered env e f calls [] b later h none_found s c p =
    rw (event_exec_unanswered env e f calls b h s c p, ◌>>=◌) refl
event_loop_unanswered env e f calls (b' ∷ bs) b later h none_found s c p =
    elim (Bool-cases (scores (f calls b'))) [
      | inl y ↦ absurd (ground (arith, (rw y at none_found)))
      | inr n ↦
          let (code, x) = event_exec_quiet env e f calls b' h n in
          rw
            (
              x,
              event_loop_unanswered env e f (suc calls) bs b later h (rw n at none_found) s c p,
              ◌>>=◌,
            )
            refl
    ]

-- An upload whose rate is 0 passes every check, and its thread divides by zero.
pub event_start_zero :
    (name fps : String) (e : EventProcessor) (p : ℕ) (q : VideoQueue)
    → str_eq name "enable" ≡ false
    → is_positive name ≡ false
    → str_eq fps "enable" ≡ false
    → stoi fps ≡ number (pos 0)
    → find e.event_name q.thread_info ≡ none
    → event_start (read_directory (uploaded_files name fps) e) p q ≡ fault div_by_zero
unfolding event_start insert_event
event_start_zero name fps e p q ne np fe is_zero fresh =
    rw (read_directory-uploaded_files name fps 0 e ne np fe is_zero) (ground arith)
