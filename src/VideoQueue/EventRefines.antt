-- ===== src/VideoQueue/EventRefines.antt =====
-- The registration and the removal of events refine the abstract ones.
use rpi_cam.Base.{
  ℕ, false, none, some, [], String, ◌==◌, ◌/◌, ◌≡◌, refl, sym, ap, ◌∙◌, subst, eq_iff, arith, inl,
  inr, Option-cases, Bool-cases,
}
use rpi_cam.Base.Dict.{find, emplace, find-emplace_new, emplace_old}
use rpi_cam.Base.Outcome.{ok, ok-injective}
use rpi_cam.VideoQueue.{VideoQueue, update, insert_event, remove_event}
use rpi_cam.VideoQueue.Registry.{remove_event-find, insert_event_taken}
use rpi_cam.VideoQueue.Abstract.{view, put, frames_or_none, inserted, removed}

module _ (name : String) (q : VideoQueue) where
  find-emplace :
      (j : String)
      → find j (emplace name [] q.output)
        ≡ put name (some (frames_or_none (find name q.output))) (λ k. find k q.output) j
  find-emplace j = elim (Option-cases (find name q.output)) [
    | inl o ↦ ground (arith, find-emplace_new name j [] q.output o)
    | inr (frames, o) ↦ ground (arith, emplace_old name [] frames q.output o, eq_iff name j)
  ]

  insert_new :
      (p : ℕ)
      → find name q.thread_info ≡ none
      → ((q.infos p).fps == 0) ≡ false
      → insert_event name p q
        ≡ ok (
          0,
          record q {
            infos = update q.infos p (record (q.infos p) { fps = q.device_fps / (q.infos p).fps });
            thread_info = emplace name p q.thread_info;
            output = emplace name [] q.output;
          },
        )
  unfolding insert_event
  insert_new p e nz = ground arith

  inserted-view :
      (p : ℕ)
      → find name q.thread_info ≡ none
      → view (record q {
        infos = update q.infos p (record (q.infos p) { fps = q.device_fps / (q.infos p).fps });
        thread_info = emplace name p q.thread_info;
        output = emplace name [] q.output;
      })
        ≡ inserted name p (view q)
  unfolding view inserted
  inserted-view p e =
      rw (e, inserted)
        (λ i. record (view q) {
          events = λ k. find-emplace_new name k p q.thread_info e i;
          queues = λ k. find-emplace k i;
          infos = update q.infos p (record (q.infos p) { fps = q.device_fps / (q.infos p).fps });
        })

  taken-view : (p r : ℕ) → find name q.thread_info ≡ some r → view q ≡ inserted name p (view q)
  unfolding view inserted
  taken-view p r e = rw (e, inserted) refl

  pub insert_event-view :
      (p n : ℕ) (q' : VideoQueue)
      → insert_event name p q ≡ ok (n, q')
      → view q' ≡ inserted name p (view q)
  unfolding insert_event
  insert_event-view p n q' h = elim (Option-cases (find name q.thread_info)) [
    | inr (r, e) ↦
        subst (λ x. view x ≡ inserted name p (view q))
          (ap (λ x. x.1) (ok-injective (sym (insert_event_taken name p r q e) ∙ h)))
          (taken-view p r e)
    | inl e ↦ elim (Bool-cases ((q.infos p).fps == 0)) [
      | inl z ↦ absurd (ground arith)
      | inr nz ↦
          subst (λ x. view x ≡ inserted name p (view q))
            (ap (λ x. x.1) (ok-injective (sym (insert_new p e nz) ∙ h))) (inserted-view p e)
    ]
  ]

  pub remove_event-view : view (remove_event name q).1 ≡ removed name (view q)
  unfolding remove_event view removed
  remove_event-view = λ i. record (view (remove_event name q).1) {
    events = λ k. (remove_event-find name k q).0 i;
    queues = λ k. (remove_event-find name k q).1 i;
  }
