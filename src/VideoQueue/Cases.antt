-- ===== src/VideoQueue/Cases.antt =====
-- The ways in which a registration and a turn of the distribution change the queue.
use rpi_cam.Base.{
  false, ◌/◌, ℕ, ◌≡◌, refl, List, [], ◌∷◌, arith, true, none, String, Option-cases, Bool-cases, inl,
  inr, subst, ◌==◌,
}
use rpi_cam.Base.Dict.{Dict, find, emplace}
use rpi_cam.Base.Outcome.{Outcome, ok, ok-injective}
use rpi_cam.VideoQueue.{
  update, stopped, VideoQueue, VideoBuffer, ThreadInfo, insert_event, distribute_buffer,
  distribute_to, distribute_front, Turn,
}
use rpi_cam.VideoQueue.Delivery.{after_turn, advance, distribute_buffer-eq-ok}

-- The state after an insertion.
abbrev pub added_to : String → ℕ → (ℕ → ThreadInfo) → VideoQueue → VideoQueue
added_to name p infos q = record q {
  infos = infos;
  thread_info = emplace name p q.thread_info;
  output = emplace name [] q.output;
}

-- The two ways in which `insert_event` returns.
pub data InsertCase (name : String) (p : ℕ) (q : VideoQueue) : VideoQueue → Type 0 where
  kept : InsertCase name p q q
  added :
      (infos : ℕ → ThreadInfo)
      → find name q.thread_info ≡ none
      → InsertCase name p q (added_to name p infos q)

pub insert_event-InsertCase :
    (name : String) (p n : ℕ) (q q' : VideoQueue)
    → insert_event name p q ≡ ok (n, q')
    → InsertCase name p q q'
unfolding insert_event
insert_event-InsertCase name p n q q' h = elim (Option-cases (find name q.thread_info)) [
  | inr (r, e) ↦
      let h₁ : ◌≡◌ {A = Outcome (ℕ × VideoQueue)} (ok (1, q)) (ok (n, q')) = ground arith in
      subst (λ x. InsertCase name p q x.1) (ok-injective h₁) kept
  | inl e ↦ elim (Bool-cases ((q.infos p).fps == 0)) [
    | inl z ↦ absurd (ground arith)
    | inr nz ↦
        let infos : ℕ → ThreadInfo =
          update q.infos p (record (q.infos p) { fps = q.device_fps / (q.infos p).fps }) in
        let h₁ : ◌≡◌ {A = Outcome (ℕ × VideoQueue)} (ok (0, added_to name p infos q)) (ok (n, q')) =
          ground arith in
        subst (λ x. InsertCase name p q x.1) (ok-injective h₁) (added infos e)
  ]
]

-- A turn that returns has waited, stopped or distributed the oldest frame.
pub data TurnCase (now : ℕ) (q : VideoQueue) : VideoQueue → Type 0 where
  halted : q.q_enable ≡ false → TurnCase now q q
  starved : q.input ≡ [] → TurnCase now q q
  passed :
      (b : VideoBuffer) (rest : List VideoBuffer) (out : Dict (List VideoBuffer))
      → q.q_enable ≡ true
      → q.input ≡ b ∷ rest
      → distribute_to q.infos (advance q.device_fps q.current_frame_no) now b q.thread_info q.output
        ≡ ok out
      → TurnCase now q (after_turn rest out q)

distribute_front-TurnCase :
    (now : ℕ) (q q' : VideoQueue) (t : Turn) (bs : List VideoBuffer)
    → q.q_enable ≡ true
    → q.input ≡ bs
    → distribute_buffer now q ≡ ok (t, q')
    → TurnCase now q q'
unfolding distribute_buffer
distribute_front-TurnCase now q q' t [] on i h =
    subst (λ x. TurnCase now q x.1) (ok-injective (rw (on, i, distribute_front) at h)) (starved i)
distribute_front-TurnCase now q q' t (b ∷ rest) on i h =
    let (out, e, f) = distribute_buffer-eq-ok now b rest q q' t on i h in
    rw f (passed b rest out on i e)

pub distribute_buffer-TurnCase :
    (now : ℕ) (q q' : VideoQueue) (t : Turn)
    → distribute_buffer now q ≡ ok (t, q')
    → TurnCase now q q'
unfolding distribute_buffer
distribute_buffer-TurnCase now q q' t h = elim (Bool-cases q.q_enable) [
  | inl on ↦ distribute_front-TurnCase now q q' t q.input on refl h
  | inr off ↦
      let h₁ : ◌≡◌ {A = Outcome (Turn × VideoQueue)} (ok (stopped, q)) (ok (t, q')) =
        ground arith in
      subst (λ x. TurnCase now q x.1) (ok-injective h₁) (halted off)
]
