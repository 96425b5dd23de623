-- ===== src/VideoQueue/Refinement.antt =====
-- The queue is an implementation of its abstract view.
use rpi_cam.Base.{
  ℕ, true, List, [], ◌∷◌, ◌≡◌, refl, sym, ap, ◌∙◌, arith, inl, inr, Bool-cases, if◌then◌else◌,
}
use rpi_cam.Base.Outcome.{ok, >>=-eq-ok, ok-injective}
use rpi_cam.VideoQueue.{
  VideoQueue, VideoBuffer, insert_event, push, close, pop_wake, pop, distribute_buffer,
}
use rpi_cam.VideoQueue.Distribution.{find-distribute_to}
use rpi_cam.VideoQueue.Delivery.{advance, after_turn}
use rpi_cam.VideoQueue.History.{
  Call, inserts, removes, pushes, turns, pops, wakes, closes, step, run, IsValid, step-IsValid,
}
use rpi_cam.VideoQueue.Cases.{TurnCase, halted, starved, passed, distribute_buffer-TurnCase}
use rpi_cam.VideoQueue.Abstract.{view, turned, passed_on, View, seen_step, seen_run}
use rpi_cam.VideoQueue.PopRefines.{pop-view, pop_wake-view}
use rpi_cam.VideoQueue.EventRefines.{insert_event-view, remove_event-view}

passed_on-nothing : (now : ℕ) (v : View) (bs : List VideoBuffer) → bs ≡ [] → passed_on now v bs ≡ v
passed_on-nothing now v [] h = refl
passed_on-nothing now v (b ∷ bs) h = cc

turned-nothing : (now : ℕ) (v : View) → v.source ≡ [] → turned now v ≡ v
unfolding turned
turned-nothing now v h = elim (Bool-cases v.enabled) [
  | inl on ↦ ground (arith, passed_on-nothing now v v.source h)
  | inr off ↦ ground arith
]

turned-cons :
    (now : ℕ) (v : View) (b : VideoBuffer) (rest : List VideoBuffer)
    → v.enabled ≡ true
    → v.source ≡ b ∷ rest
    → turned now v ≡ passed_on now v (b ∷ rest)
unfolding turned
turned-cons now v b rest on h =
    ap (λ x. if x then passed_on now v v.source else v) on ∙ ap (passed_on now v) h

TurnCase-view :
    {now : ℕ} {q q' : VideoQueue} → IsValid q → TurnCase now q q' → view q' ≡ turned now (view q)
unfolding view turned
TurnCase-view {now} {q} v (halted off) = rw off refl
TurnCase-view {now} {q} v (starved i) = sym (turned-nothing now (view q) i)
TurnCase-view {now} {q} v (passed b rest out on i e) =
    (λ j. record (view (after_turn rest out q)) {
      queues = λ k.
          find-distribute_to q.infos (advance q.device_fps q.current_frame_no) now b q.thread_info
            q.output out k v.distinct e j;
    })
    ∙ sym (turned-cons now (view q) b rest on i)

step-view :
    (c : Call) (q q' : VideoQueue) → IsValid q → step c q ≡ ok q' → view q' ≡ seen_step c (view q)
unfolding step seen_step push close view
step-view (inserts name p) q q' v h =
    let (r, e, f) = >>=-eq-ok (insert_event name p q) _ h in
    sym (ap view (ok-injective f)) ∙ insert_event-view name q p r.0 r.1 e
step-view (removes name) q q' v h = sym (ap view (ok-injective h)) ∙ remove_event-view name q
step-view (pushes b) q q' v h = sym (ap view (ok-injective h))
step-view (turns now) q q' v h =
    let (r, e, f) = >>=-eq-ok (distribute_buffer now q) _ h in
    sym (ap view (ok-injective f)) ∙ TurnCase-view v (distribute_buffer-TurnCase now q r.1 r.0 e)
step-view (pops name) q q' v h =
    let (r, e, f) = >>=-eq-ok (pop name q) _ h in
    sym (ap view (ok-injective f)) ∙ pop-view name q r.0 r.1 v e
step-view (wakes name) q q' v h =
    let (r, e, f) = >>=-eq-ok (pop_wake name q) _ h in
    sym (ap view (ok-injective f)) ∙ pop_wake-view name q r.0 r.1 e
step-view closes q q' v h = sym (ap view (ok-injective h))

-- Whatever the threads do, in whatever order, a run that succeeds from a valid queue is a run of the
-- abstract view: names with their events and queues, the order in the dictionaries forgotten.
pub run-view :
    (cs : List Call) (q q' : VideoQueue)
    → IsValid q
    → run cs q ≡ ok q'
    → view q' ≡ seen_run cs (view q)
unfolding run seen_run
run-view [] q q' v h = sym (ap view (ok-injective h))
run-view (c ∷ cs) q q' v h =
    let (q₁, e, f) = >>=-eq-ok (step c q) _ h in
    run-view cs q₁ q' (step-IsValid c q q₁ v e) f ∙ ap (seen_run cs) (step-view c q q₁ v e)
