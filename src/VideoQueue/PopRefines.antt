-- ===== src/VideoQueue/PopRefines.antt =====
-- `pop` and the wake-ups refine the abstract `pop`.
use rpi_cam.Base.{
  ℕ, true, false, Option, none, some, List, [], ◌∷◌, String, ◌≡◌, refl, sym, ap, ◌∙◌, subst, arith,
  inl, inr, Option-cases, Bool-cases,
}
use rpi_cam.Base.Dict.{find, erase, assign, find-erase, find-assign}
use rpi_cam.Base.Outcome.{Outcome, ok, fault, end_iterator, ok-injective}
use rpi_cam.VideoQueue.{
  VideoQueue, VideoBuffer, Popped, null, waits, frame, pop_enter, pop_ready, pop_finish, pop_wake,
  pop,
}
use rpi_cam.VideoQueue.History.{IsValid}
use rpi_cam.VideoQueue.Abstract.{view, popped}

module _ (name : String) (q : VideoQueue) where
  wake_stopped :
      (p : ℕ)
      → find name q.thread_info ≡ some p
      → (q.infos p).is_run ≡ false
      → pop_wake name q ≡ ok (null, record q { thread_info = erase name q.thread_info })
  unfolding pop_wake pop_ready pop_finish
  wake_stopped p e off = ground arith

  wake_empty :
      (p : ℕ)
      → find name q.thread_info ≡ some p
      → (q.infos p).is_run ≡ true
      → find name q.output ≡ some []
      → pop_wake name q ≡ ok (waits, q)
  unfolding pop_wake pop_ready pop_finish
  wake_empty p e on o = ground arith

  wake_front :
      (p : ℕ) (b : VideoBuffer) (rest : List VideoBuffer)
      → find name q.thread_info ≡ some p
      → (q.infos p).is_run ≡ true
      → find name q.output ≡ some (b ∷ rest)
      → pop_wake name q ≡ ok (frame b, record q { output = assign name rest q.output })
  unfolding pop_wake pop_ready pop_finish
  wake_front p b rest e on o = ground arith

  wake_unknown : find name q.thread_info ≡ none → pop_wake name q ≡ fault end_iterator
  unfolding pop_wake pop_ready
  wake_unknown e = ground arith

  wake_unqueued :
      (p : ℕ)
      → find name q.thread_info ≡ some p
      → (q.infos p).is_run ≡ true
      → find name q.output ≡ none
      → pop_wake name q ≡ fault end_iterator
  unfolding pop_wake pop_ready
  wake_unqueued p e on o = ground arith

  stopped-view :
      (p : ℕ)
      → find name q.thread_info ≡ some p
      → (q.infos p).is_run ≡ false
      → view (record q { thread_info = erase name q.thread_info }) ≡ popped name (view q)
  unfolding view popped
  stopped-view p e off =
      rw (e, popped, off) (λ i. record (view q) { events = λ k. find-erase name k q.thread_info i })

  front-view :
      (p : ℕ) (b : VideoBuffer) (rest : List VideoBuffer)
      → find name q.thread_info ≡ some p
      → (q.infos p).is_run ≡ true
      → find name q.output ≡ some (b ∷ rest)
      → view (record q { output = assign name rest q.output }) ≡ popped name (view q)
  unfolding view popped
  front-view p b rest e on o =
      rw (e, popped, on, o)
        (λ i. record (view q) { queues = λ k. find-assign name k rest (b ∷ rest) q.output o i })

  unchanged-view :
      (p : ℕ)
      → find name q.thread_info ≡ some p
      → (q.infos p).is_run ≡ true
      → find name q.output ≡ some []
      → view q ≡ popped name (view q)
  unfolding view popped
  unchanged-view p e on o = rw (e, popped, on, o) refl

  -- The state that a run with a known result has left.
  left :
      {r r' : Popped} {q₁ q₂ : VideoQueue} {run : Outcome (Popped × VideoQueue)}
      → run ≡ ok (r, q₁)
      → run ≡ ok (r', q₂)
      → q₁ ≡ q₂
  left e f = ap (λ x. x.1) (ok-injective (sym e ∙ f))

  running-view :
      (p : ℕ) (r : Popped) (q' : VideoQueue) (queue : Option (List VideoBuffer))
      → find name q.thread_info ≡ some p
      → (q.infos p).is_run ≡ true
      → find name q.output ≡ queue
      → pop_wake name q ≡ ok (r, q')
      → view q' ≡ popped name (view q)
  running-view p r q' none e on o h = absurd (cc (wake_unqueued p e on o))
  running-view p r q' (some []) e on o h =
      subst (λ x. view x ≡ popped name (view q)) (left (wake_empty p e on o) h)
        (unchanged-view p e on o)
  running-view p r q' (some (b ∷ rest)) e on o h =
      subst (λ x. view x ≡ popped name (view q)) (left (wake_front p b rest e on o) h)
        (front-view p b rest e on o)

  pub pop_wake-view :
      (r : Popped) (q' : VideoQueue) → pop_wake name q ≡ ok (r, q') → view q' ≡ popped name (view q)
  pop_wake-view r q' h = elim (Option-cases (find name q.thread_info)) [
    | inl e ↦ absurd (cc (wake_unknown e))
    | inr (p, e) ↦ elim (Bool-cases (q.infos p).is_run) [
      | inl on ↦ running-view p r q' (find name q.output) e on refl h
      | inr off ↦
          subst (λ x. view x ≡ popped name (view q)) (left (wake_stopped p e off) h)
            (stopped-view p e off)
    ]
  ]

  pop_unknown : find name q.thread_info ≡ none → pop name q ≡ ok (null, q)
  unfolding pop pop_enter
  pop_unknown e = ground arith

  pop_known :
      (p : ℕ) (frames : List VideoBuffer)
      → find name q.thread_info ≡ some p
      → find name q.output ≡ some frames
      → pop name q ≡ pop_wake name q
  unfolding pop pop_enter
  pop_known p frames e o = ground arith

  unknown-view : find name q.thread_info ≡ none → view q ≡ popped name (view q)
  unfolding view popped
  unknown-view e = rw (e, popped) refl

  pub pop-view :
      (r : Popped) (q' : VideoQueue)
      → IsValid q
      → pop name q ≡ ok (r, q')
      → view q' ≡ popped name (view q)
  pop-view r q' v h = elim (Option-cases (find name q.thread_info)) [
    | inl e ↦ subst (λ x. view x ≡ popped name (view q)) (left (pop_unknown e) h) (unknown-view e)
    | inr (p, e) ↦ elim (Option-cases (find name q.output)) [
      | inl o ↦ absurd (cc (v.served name o))
      | inr (frames, o) ↦ pop_wake-view r q' (sym (pop_known p frames e o) ∙ h)
    ]
  ]
