-- ===== src/VideoQueue/Progress.antt =====
-- What an event can count on while other threads use the queue: frames that are distributed reach
-- its thread.
use rpi_cam.Base.{
  ℕ, ◌+◌, ◌%◌, ◌≡◌, ◌≢◌, refl, sym, subst, List, [], ◌∷◌, arith, Bool, true, false, some, String,
  str_eq, length, if◌then◌else◌, ◌==◌,
}
use rpi_cam.Base.Dict.{find}
use rpi_cam.Base.Outcome.{ok, fault, >>=-eq-ok, ok-injective}
use rpi_cam.VideoQueue.{VideoQueue, push, close}
use rpi_cam.VideoQueue.Delivery.{advance}
use rpi_cam.VideoQueue.Waiting.{pop-PopCase, pop_wake-PopCase}
use rpi_cam.VideoQueue.Cases.{TurnCase, halted, starved, passed, distribute_buffer-TurnCase}
use rpi_cam.VideoQueue.History.{Call, inserts, removes, pushes, turns, pops, wakes, closes, step}
use rpi_cam.VideoQueue.Traffic.{queued}
use rpi_cam.VideoQueue.Serving.{
  Serves, again, insert_event-Serves, remove_event-Serves, pop_wake-running, pop-running,
  PopCase-Serves,
}

-- Nobody removes `name`, and nobody registers its pointer under another name.
abbrev pub Leaves : String → ℕ → List Call → Type 0
Leaves name p [] = Unit {0}
Leaves name p (removes k ∷ cs) = (str_eq k name ≡ false) × Leaves name p cs
Leaves name p (inserts k r ∷ cs) = (r ≢ p) × Leaves name p cs
Leaves name p (_ ∷ cs) = Leaves name p cs

-- Whether a call distributes a frame.
abbrev pub passes : Call → VideoQueue → Bool
passes (turns now) q = if q.q_enable then (elim q.input [ [] ↦ false | b ∷ rest ↦ true ]) else false
passes _ q = false

-- The frames that a history distributes.
abbrev pub passed_in : List Call → VideoQueue → ℕ
passed_in [] q = 0
passed_in (c ∷ cs) q =
    (if passes c q then 1 else 0) + (elim (step c q) [ fault e ↦ 0 | ok q' ↦ passed_in cs q' ])

-- What a call does to the event: it goes on, and a frame that is distributed is the next one of the
-- camera and is queued if it is due.
pub record Goes (name : String) (p d fps : ℕ) (c : Call) (q q' : VideoQueue) : Type 0 where
  pub serves : Serves name p d fps q'
  pub frame_no :
      q'.current_frame_no
      ≡ (if passes c q then advance fps q.current_frame_no else q.current_frame_no)
  pub count :
      length (queued name c q)
      ≡ (if passes c q then (if advance fps q.current_frame_no % d == 0 then 1 else 0) else 0)

TurnCase-Goes :
    (name : String) (p d fps now : ℕ) (q q' : VideoQueue)
    → Serves name p d fps q
    → TurnCase now q q'
    → Goes name p d fps (turns now) q q'
TurnCase-Goes name p d fps now q q' s (halted off) = record {
  serves = s;
  frame_no = ground (arith, off);
  count = ground (arith, off);
}
TurnCase-Goes name p d fps now q q' s (starved i) = record {
  serves = s;
  frame_no = ground (arith, i);
  count = ground (arith, i);
}
TurnCase-Goes name p d fps now q q' s (passed b rest out on i e) = record {
  serves = again name p d fps q _ s refl refl refl;
  frame_no = ground (arith, on, i, s.device_fps);
  count = rw (on, i, s.registered, s.device_fps, s.divisor) (ground arith);
}

pub step-Goes :
    (name : String) (p d fps : ℕ) (c : Call) (q q' : VideoQueue)
    → Leaves name p (c ∷ [])
    → Serves name p d fps q
    → step c q ≡ ok q'
    → Goes name p d fps c q q'
unfolding step push close
step-Goes name p d fps (inserts k r) q q' keep s h =
    let (t, e, f) = >>=-eq-ok _ _ h in
    let (s', n) = insert_event-Serves name k p d fps r t.0 q t.1 keep.0 s e in
    subst (Goes name p d fps (inserts k r) q) (ok-injective f)
      (record { serves = s'; frame_no = n; count = refl })
step-Goes name p d fps (removes k) q q' keep s h =
    subst (Goes name p d fps (removes k) q) (ok-injective h) (record {
      serves = remove_event-Serves name k p d fps q keep.0 s;
      frame_no = refl;
      count = refl;
    })
step-Goes name p d fps (pushes b) q q' keep s h =
    subst (Goes name p d fps (pushes b) q) (ok-injective h)
      (record { serves = again name p d fps q _ s refl refl refl; frame_no = refl; count = refl })
step-Goes name p d fps (turns now) q q' keep s h =
    let (t, e, f) = >>=-eq-ok _ _ h in
    subst (Goes name p d fps (turns now) q) (ok-injective f)
      (TurnCase-Goes name p d fps now q t.1 s (distribute_buffer-TurnCase now q t.1 t.0 e))
step-Goes name p d fps (pops k) q q' keep s h =
    let (t, e, f) = >>=-eq-ok _ _ h in
    let (s', n) =
      PopCase-Serves name k p d fps q t.1 t.0 s
        (λ same.
          pop-running k p q t.1 t.0
            (subst (λ x. find x q.thread_info ≡ some p) (sym same) s.registered) s.running e)
        (pop-PopCase k q t.0 t.1 e) in
    subst (Goes name p d fps (pops k) q) (ok-injective f)
      (record { serves = s'; frame_no = n; count = refl })
step-Goes name p d fps (wakes k) q q' keep s h =
    let (t, e, f) = >>=-eq-ok _ _ h in
    let (s', n) =
      PopCase-Serves name k p d fps q t.1 t.0 s
        (λ same.
          pop_wake-running k p q t.1 t.0
            (subst (λ x. find x q.thread_info ≡ some p) (sym same) s.registered) s.running e)
        (pop_wake-PopCase k q t.0 t.1 e) in
    subst (Goes name p d fps (wakes k) q) (ok-injective f)
      (record { serves = s'; frame_no = n; count = refl })
step-Goes name p d fps closes q q' keep s h =
    subst (Goes name p d fps closes q) (ok-injective h)
      (record { serves = again name p d fps q _ s refl refl refl; frame_no = refl; count = refl })
