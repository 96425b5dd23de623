-- ===== src/VideoQueue/History.antt =====
-- Any interleaving of the threads, as a row of calls: the invariant, and first in, first out.
use rpi_cam.Base.{ℕ, ◌≤◌, ◌<◌, ◌≡◌, refl, List, [], ◌∷◌, arith, none, String, eq_iff, ◌∙◌, subst}
use rpi_cam.Base.Dict.{
  find, find-assign, find-erase, find-emplace_new, find-emplace-none, HasDistinctKeys,
  emplace-HasDistinctKeys, erase-HasDistinctKeys, assign-HasDistinctKeys,
}
use rpi_cam.Base.Outcome.{Outcome, ok, ◌>>=◌, >>=-eq-ok, ok-injective}
use rpi_cam.VideoQueue.{
  VideoQueue, VideoBuffer, ThreadInfo, Popped, pop, pop_wake, remove_event, insert_event, push,
  distribute_buffer, init, close,
}
use rpi_cam.VideoQueue.Cases.{
  InsertCase, kept, added, insert_event-InsertCase, TurnCase, halted, starved, passed,
  distribute_buffer-TurnCase,
}
use rpi_cam.VideoQueue.Waiting.{
  PopCase, refused, waiting, ended, taken, pop-PopCase, pop_wake-PopCase,
}
use rpi_cam.VideoQueue.Distribution.{find-distribute_to, distribute_to-HasDistinctKeys}
use rpi_cam.VideoQueue.Delivery.{advance}

-- One critical section of some thread.
pub data Call : Type 0 where
  inserts : String → ℕ → Call
  removes : String → Call
  pushes : VideoBuffer → Call
  turns : ℕ → Call
  pops : String → Call
  wakes : String → Call
  closes : Call

unfoldable pub step : Call → VideoQueue → Outcome VideoQueue
unfolding insert_event remove_event push distribute_buffer pop pop_wake close
step (inserts name p) q = insert_event name p q >>= λ r. ok r.1
step (removes name) q = ok (remove_event name q).1
step (pushes b) q = ok (push b q).1
step (turns now) q = distribute_buffer now q >>= λ r. ok r.1
step (pops name) q = pop name q >>= λ r. ok r.1
step (wakes name) q = pop_wake name q >>= λ r. ok r.1
step closes q = ok (close q)

unfoldable pub run : List Call → VideoQueue → Outcome VideoQueue
unfolding step
run [] q = ok q
run (c ∷ cs) q = step c q >>= run cs

-- What every history keeps: no key twice, a queue for each registered event, and the frame number
-- within the camera's rate.
pub record IsValid (q : VideoQueue) : Type 0 where
  pub distinct : HasDistinctKeys q.thread_info
  pub distinct_queues : HasDistinctKeys q.output
  pub served : (k : String) → find k q.output ≡ none → find k q.thread_info ≡ none
  pub rated : 0 < q.device_fps
  pub numbered : q.current_frame_no ≤ q.device_fps

pub init-IsValid : (fps : ℕ) (infos : ℕ → ThreadInfo) → 0 < fps → IsValid (init fps infos)
unfolding init find
init-IsValid fps infos h = record {
  distinct = tt;
  distinct_queues = tt;
  served = λ k e. refl;
  rated = h;
  numbered = omega arith;
}

pub remove_event-IsValid :
    (name : String) (q : VideoQueue) → IsValid q → IsValid (remove_event name q).1
unfolding remove_event
remove_event-IsValid name q v = record {
  distinct = erase-HasDistinctKeys name q.thread_info v.distinct;
  distinct_queues = erase-HasDistinctKeys name q.output v.distinct_queues;
  served = λ k e.
      ground (arith, v.served k, find-erase name k q.output, find-erase name k q.thread_info);
  rated = v.rated;
  numbered = v.numbered;
}

PopCase-IsValid :
    {name : String} {q : VideoQueue} {r : Popped} {q' : VideoQueue}
    → PopCase name q r q'
    → IsValid q
    → IsValid q'
PopCase-IsValid refused v = v
PopCase-IsValid waiting v = v
PopCase-IsValid {name} {q} ended v = record {
  distinct = erase-HasDistinctKeys name q.thread_info v.distinct;
  distinct_queues = v.distinct_queues;
  served = λ k e. ground (arith, v.served k, find-erase name k q.thread_info);
  rated = v.rated;
  numbered = v.numbered;
}
PopCase-IsValid {name} {q} (taken b rest o) v = record {
  distinct = v.distinct;
  distinct_queues = assign-HasDistinctKeys name rest q.output v.distinct_queues;
  served = λ k e.
      ground (arith, v.served k, find-assign name k rest (b ∷ rest) q.output o, eq_iff name k);
  rated = v.rated;
  numbered = v.numbered;
}

InsertCase-IsValid :
    {name : String} {p : ℕ} {q q' : VideoQueue} → InsertCase name p q q' → IsValid q → IsValid q'
InsertCase-IsValid kept v = v
InsertCase-IsValid {name} {p} {q} (added infos fresh) v = record {
  distinct = emplace-HasDistinctKeys name p q.thread_info v.distinct;
  distinct_queues = emplace-HasDistinctKeys name [] q.output v.distinct_queues;
  served = λ k e.
      let (other, none_there) = find-emplace-none name k [] q.output e in
      find-emplace_new name k p q.thread_info fresh ∙ ground (arith, v.served k);
  rated = v.rated;
  numbered = v.numbered;
}

TurnCase-IsValid : {now : ℕ} {q q' : VideoQueue} → TurnCase now q q' → IsValid q → IsValid q'
TurnCase-IsValid (halted off) v = v
TurnCase-IsValid (starved i) v = v
TurnCase-IsValid {now} {q} (passed b rest out on i e) v = record {
  distinct = v.distinct;
  distinct_queues =
      distribute_to-HasDistinctKeys q.infos _ now b q.thread_info q.output out e v.distinct_queues;
  served = λ k e₁. ground (
    arith,
    find-distribute_to q.infos (advance q.device_fps q.current_frame_no) now b q.thread_info
        q.output out k v.distinct e,
    v.served k,
  );
  rated = v.rated;
  numbered = ground (arith, v.rated, v.numbered);
}

push-IsValid : (b : VideoBuffer) (q : VideoQueue) → IsValid q → IsValid (push b q).1
unfolding push
push-IsValid b q v = record {
  distinct = v.distinct;
  distinct_queues = v.distinct_queues;
  served = v.served;
  rated = v.rated;
  numbered = v.numbered;
}

close-IsValid : (q : VideoQueue) → IsValid q → IsValid (close q)
unfolding close
close-IsValid q v = record {
  distinct = v.distinct;
  distinct_queues = v.distinct_queues;
  served = v.served;
  rated = v.rated;
  numbered = v.numbered;
}

-- One call keeps the invariant.
pub step-IsValid : (c : Call) (q q' : VideoQueue) → IsValid q → step c q ≡ ok q' → IsValid q'
unfolding step push close
step-IsValid (inserts name p) q q' v h =
    let (r, e, f) = >>=-eq-ok _ _ h in
    subst IsValid (ok-injective f)
      (InsertCase-IsValid (insert_event-InsertCase name p r.0 q r.1 e) v)
step-IsValid (removes name) q q' v h =
    subst IsValid (ok-injective h) (remove_event-IsValid name q v)
step-IsValid (pushes b) q q' v h = subst IsValid (ok-injective h) (push-IsValid b q v)
step-IsValid (turns now) q q' v h =
    let (r, e, f) = >>=-eq-ok _ _ h in
    subst IsValid (ok-injective f) (TurnCase-IsValid (distribute_buffer-TurnCase now q r.1 r.0 e) v)
step-IsValid (pops name) q q' v h =
    let (r, e, f) = >>=-eq-ok _ _ h in
    subst IsValid (ok-injective f) (PopCase-IsValid (pop-PopCase name q r.0 r.1 e) v)
step-IsValid (wakes name) q q' v h =
    let (r, e, f) = >>=-eq-ok _ _ h in
    subst IsValid (ok-injective f) (PopCase-IsValid (pop_wake-PopCase name q r.0 r.1 e) v)
step-IsValid closes q q' v h = subst IsValid (ok-injective h) (close-IsValid q v)

-- Whatever the threads do, in whatever order, a queue that was built with a positive rate keeps
-- its invariant, unless the run has faulted.
pub run-IsValid : (cs : List Call) (q q' : VideoQueue) → IsValid q → run cs q ≡ ok q' → IsValid q'
unfolding run
run-IsValid [] q q' v h = subst IsValid (ok-injective h) v
run-IsValid (c ∷ cs) q q' v h =
    let (q₁, e, f) = >>=-eq-ok _ _ h in run-IsValid cs q₁ q' (step-IsValid c q q₁ v e) f
