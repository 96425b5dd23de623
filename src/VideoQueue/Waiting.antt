-- ===== src/VideoQueue/Waiting.antt =====
-- `pop`: what an event thread gets, and what happens when its event goes away while it waits.
use rpi_cam.Base.{
  Bool, subst, Option-cases, Bool-cases, inl, inr, ◌/◌, ℕ, ◌≡◌, ◌≢◌, refl, List, [], ◌∷◌, arith,
  if◌then◌else◌, true, false, none, some, String, str_eq, eq_refl, ◌/◌,
}
use rpi_cam.Base.Dict.{find, find-assign, find-erase, assign, erase, emplace, emplace_old}
use rpi_cam.Base.Outcome.{◌>>=◌, >>=-eq-ok, ok-injective, deref-eq-ok, ok}
use rpi_cam.VideoQueue.{
  pop_enter, pop_ready, take_front, pop_finish, Popped, update, VideoQueue, VideoBuffer, null,
  waits, frame, pop, pop_wake, insert_event,
}

-- What a `pop` that returns the oldest frame of `name` leaves.
pub record Took (name : String) (rest : List VideoBuffer) (q q' : VideoQueue) : Type 0 where
  pub queues :
      (j : String) → find j q'.output ≡ (if str_eq name j then some rest else find j q.output)
  pub thread_info : q'.thread_info ≡ q.thread_info
  pub input : q'.input ≡ q.input
  pub infos : q'.infos ≡ q.infos

-- A running event takes its oldest frame; the other queues stay.
pub pop-front :
    (name : String) (p : ℕ) (b : VideoBuffer) (rest : List VideoBuffer) (q : VideoQueue)
    → find name q.thread_info ≡ some p
    → (q.infos p).is_run ≡ true
    → find name q.output ≡ some (b ∷ rest)
    → (q' : VideoQueue) × (pop name q ≡ ok (frame b, q')) × Took name rest q q'
unfolding pop
pop-front name p b rest q t r o = (
  record q { output = assign name rest q.output },
  ground arith,
  record {
    queues = λ j. find-assign name j rest (b ∷ rest) q.output o;
    thread_info = refl;
    input = refl;
    infos = refl;
  },
)

-- With no frame a running event waits, and nothing changes.
pub pop-waits :
    (name : String) (p : ℕ) (q : VideoQueue)
    → find name q.thread_info ≡ some p
    → (q.infos p).is_run ≡ true
    → find name q.output ≡ some []
    → pop name q ≡ ok (waits, q)
unfolding pop
pop-waits name p q t r o = ground arith

-- A name that is not registered gets `nullptr`, and nothing changes.
pub pop-unknown :
    (name : String) (q : VideoQueue) → find name q.thread_info ≡ none → pop name q ≡ ok (null, q)
unfolding pop
pop-unknown name q t = ground arith

-- A stopped event gets `nullptr` and loses its thread information, but its queue stays: when the
-- name is inserted again the new event starts with the frames of the old one.
pub pop-insert_event_stale :
    (name : String) (p r : ℕ) (frames : List VideoBuffer) (q : VideoQueue)
    → find name q.thread_info ≡ some p
    → (q.infos p).is_run ≡ false
    → find name q.output ≡ some frames
    → (q.infos r).fps ≢ 0
    → (q₁ q₂ : VideoQueue) × (pop name q ≡ ok (null, q₁))
      × (insert_event name r q₁ ≡ ok (0, q₂))
      × (find name q₂.output ≡ some frames)
unfolding pop insert_event
pop-insert_event_stale name p r frames q t s o nz = (
  record q { thread_info = erase name q.thread_info },
  record q {
    infos = update q.infos r (record (q.infos r) { fps = q.device_fps / (q.infos r).fps });
    thread_info = emplace name r (erase name q.thread_info);
    output = q.output;
  },
  ground arith,
  ground (
    arith,
    find-erase name name q.thread_info,
    eq_refl name,
    emplace_old name [] frames q.output o,
  ),
  o,
)

-- The ways in which a `pop` that does not fail changes the queue.
pub data PopCase (name : String) (q : VideoQueue) : Popped → VideoQueue → Type 0 where
  refused : PopCase name q null q
  waiting : PopCase name q waits q
  ended : PopCase name q null (record q { thread_info = erase name q.thread_info })
  taken :
      (b : VideoBuffer) (rest : List VideoBuffer)
      → find name q.output ≡ some (b ∷ rest)
      → PopCase name q (frame b) (record q { output = assign name rest q.output })

take_front-PopCase :
    (name : String) (q : VideoQueue) (frames : List VideoBuffer) (r : Popped) (q' : VideoQueue)
    → find name q.output ≡ some frames
    → take_front name q frames ≡ ok (r, q')
    → PopCase name q r q'
take_front-PopCase name q [] r q' o h = cc
take_front-PopCase name q (b ∷ rest) r q' o h =
    subst (λ x. PopCase name q x.0 x.1) (ok-injective h) (taken b rest o)

pop_finish-PopCase :
    (name : String) (q : VideoQueue) (r : Popped) (q' : VideoQueue)
    → pop_finish name q ≡ ok (r, q')
    → PopCase name q r q'
unfolding pop_finish
pop_finish-PopCase name q r q' h = elim (Option-cases (find name q.thread_info)) [
  | inl e ↦ cc (rw (e, ◌>>=◌) at h)
  | inr (p, e) ↦ elim (Bool-cases (q.infos p).is_run) [
    | inl on ↦
        let h₁ = rw (e, ◌>>=◌, on) at h in
        let (frames, o, f) = >>=-eq-ok _ _ h₁ in
        take_front-PopCase name q frames r q' (deref-eq-ok _ _ o) f
    | inr off ↦
        let h₁ : ok (null, record q { thread_info = erase name q.thread_info }) ≡ ok (r, q') =
          rw (e, ◌>>=◌, off) at h in
        subst (λ x. PopCase name q x.0 x.1) (ok-injective h₁) ended
  ]
]

woken-PopCase :
    (ready : Bool) (name : String) (q : VideoQueue) (r : Popped) (q' : VideoQueue)
    → (if ready then pop_finish name q else ok (waits, q)) ≡ ok (r, q')
    → PopCase name q r q'
woken-PopCase true name q r q' h = pop_finish-PopCase name q r q' h
woken-PopCase false name q r q' h = subst (λ x. PopCase name q x.0 x.1) (ok-injective h) waiting

-- `pop_wake` and `pop` change the queue in one of these ways only.
pub pop_wake-PopCase :
    (name : String) (q : VideoQueue) (r : Popped) (q' : VideoQueue)
    → pop_wake name q ≡ ok (r, q')
    → PopCase name q r q'
unfolding pop_wake
pop_wake-PopCase name q r q' h =
    let (ready, e, f) =
      >>=-eq-ok (pop_ready name q) (λ b. if b then pop_finish name q else ok (waits, q)) h in
    woken-PopCase ready name q r q' f

entered-PopCase :
    (entered : Bool) (name : String) (q : VideoQueue) (r : Popped) (q' : VideoQueue)
    → (if entered then pop_wake name q else ok (null, q)) ≡ ok (r, q')
    → PopCase name q r q'
entered-PopCase true name q r q' h = pop_wake-PopCase name q r q' h
entered-PopCase false name q r q' h = subst (λ x. PopCase name q x.0 x.1) (ok-injective h) refused

pub pop-PopCase :
    (name : String) (q : VideoQueue) (r : Popped) (q' : VideoQueue)
    → pop name q ≡ ok (r, q')
    → PopCase name q r q'
unfolding pop
pop-PopCase name q r q' h = entered-PopCase (pop_enter name q) name q r q' h
