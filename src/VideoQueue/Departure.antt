-- ===== src/VideoQueue/Departure.antt =====
-- VideoQueue.cpp: a thread that waits in `pop` while its event is removed.
use rpi_cam.VideoQueue.{close, push, VideoQueue, Popped, pop_wake, remove_event}
use rpi_cam.Base.{
  ℕ, Bool, false, ◌≡◌, List, [], ◌∷◌, none, String, str_eq, eq_refl, arith, All, subst,
}
use rpi_cam.Base.Dict.{find, find-erase, find-emplace_new}
use rpi_cam.Base.Outcome.{ok, fault, end_iterator, >>=-eq-ok, ok-injective}
use rpi_cam.VideoQueue.Registry.{remove_event-find}
use rpi_cam.VideoQueue.Cases.{
  InsertCase, kept, added, insert_event-InsertCase, TurnCase, halted, starved, passed,
  distribute_buffer-TurnCase,
}
use rpi_cam.VideoQueue.Waiting.{
  PopCase, refused, waiting, ended, taken, pop-PopCase, pop_wake-PopCase,
}
use rpi_cam.VideoQueue.History.{
  Call, inserts, removes, pushes, turns, pops, wakes, closes, step, run,
}

-- A call that registers `name`.
abbrev pub registers : String → Call → Bool
registers name (inserts k p) = str_eq k name
registers name _ = false

abbrev pub IsAbsent : String → VideoQueue → Type 0
IsAbsent name q = find name q.thread_info ≡ none

erase-IsAbsent :
    (name k : String) (q : VideoQueue) → IsAbsent name q → IsAbsent name (remove_event k q).1
unfolding remove_event
erase-IsAbsent name k q a = ground (arith, find-erase k name q.thread_info, a)

InsertCase-IsAbsent :
    (name k : String) (p : ℕ) (q q' : VideoQueue)
    → str_eq k name ≡ false
    → IsAbsent name q
    → InsertCase k p q q'
    → IsAbsent name q'
InsertCase-IsAbsent name k p q q' n a kept = a
InsertCase-IsAbsent name k p q q' n a (added infos e) =
    ground (arith, find-emplace_new k name p q.thread_info e, n, a)

TurnCase-IsAbsent :
    (name : String) (now : ℕ) (q q' : VideoQueue)
    → IsAbsent name q
    → TurnCase now q q'
    → IsAbsent name q'
TurnCase-IsAbsent name now q q' a (halted e) = a
TurnCase-IsAbsent name now q q' a (starved e) = a
TurnCase-IsAbsent name now q q' a (passed b rest out on i e) = a

PopCase-IsAbsent :
    (name k : String) (q q' : VideoQueue) (r : Popped)
    → IsAbsent name q
    → PopCase k q r q'
    → IsAbsent name q'
PopCase-IsAbsent name k q q' r a refused = a
PopCase-IsAbsent name k q q' r a waiting = a
PopCase-IsAbsent name k q q' r a ended = ground (arith, find-erase k name q.thread_info, a)
PopCase-IsAbsent name k q q' r a (taken b rest o) = a

step-IsAbsent :
    (name : String) (c : Call) (q q' : VideoQueue)
    → registers name c ≡ false
    → IsAbsent name q
    → step c q ≡ ok q'
    → IsAbsent name q'
unfolding step push close
step-IsAbsent name (inserts k p) q q' n a h =
    let (t, e, f) = >>=-eq-ok _ _ h in
    subst (IsAbsent name) (ok-injective f)
      (InsertCase-IsAbsent name k p q t.1 n a (insert_event-InsertCase k p t.0 q t.1 e))
step-IsAbsent name (removes k) q q' n a h =
    subst (IsAbsent name) (ok-injective h) (erase-IsAbsent name k q a)
step-IsAbsent name (pushes b) q q' n a h = subst (IsAbsent name) (ok-injective h) a
step-IsAbsent name (turns now) q q' n a h =
    let (t, e, f) = >>=-eq-ok _ _ h in
    subst (IsAbsent name) (ok-injective f)
      (TurnCase-IsAbsent name now q t.1 a (distribute_buffer-TurnCase now q t.1 t.0 e))
step-IsAbsent name (pops k) q q' n a h =
    let (t, e, f) = >>=-eq-ok _ _ h in
    subst (IsAbsent name) (ok-injective f)
      (PopCase-IsAbsent name k q t.1 t.0 a (pop-PopCase k q t.0 t.1 e))
step-IsAbsent name (wakes k) q q' n a h =
    let (t, e, f) = >>=-eq-ok _ _ h in
    subst (IsAbsent name) (ok-injective f)
      (PopCase-IsAbsent name k q t.1 t.0 a (pop_wake-PopCase k q t.0 t.1 e))
step-IsAbsent name closes q q' n a h = subst (IsAbsent name) (ok-injective h) a

run-IsAbsent :
    (name : String) (cs : List Call) (q q' : VideoQueue)
    → All (λ c. registers name c ≡ false) cs
    → IsAbsent name q
    → run cs q ≡ ok q'
    → IsAbsent name q'
unfolding run
run-IsAbsent name [] q q' n a h = subst (IsAbsent name) (ok-injective h) a
run-IsAbsent name (c ∷ cs) q q' (n, ns) a h =
    let (q₁, e, f) = >>=-eq-ok _ _ h in
    run-IsAbsent name cs q₁ q' ns (step-IsAbsent name c q q₁ n a e) f

-- A wake-up of a thread in pop reads through the end iterator if its event has been removed and,
-- over any history that succeeds since, has not been inserted again.
pub pop_wake-run :
    (name : String) (cs : List Call) (q q' : VideoQueue)
    → All (λ c. registers name c ≡ false) cs
    → run cs (remove_event name q).1 ≡ ok q'
    → pop_wake name q' ≡ fault end_iterator
unfolding pop_wake
pop_wake-run name cs q q' n h =
    let gone : IsAbsent name (remove_event name q).1 =
      ground (arith, remove_event-find name name q, eq_refl name) in
    let a = run-IsAbsent name cs (remove_event name q).1 q' n gone h in ground (arith, a)
