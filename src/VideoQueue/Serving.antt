-- ===== src/VideoQueue/Serving.antt =====
-- An event that is served: which calls of other threads leave it so.
use rpi_cam.Base.{
  ℕ, ◌/◌, ◌≡◌, ◌≢◌, refl, sym, ap, subst, ◌∙◌, inl, inr, [], ◌∷◌, arith, true, false, Option, none,
  some, String, str_eq, eq_iff, ◌==◌, Bool-cases, Option-cases,
}
use rpi_cam.Base.Dict.{find, find-erase, find-emplace_new}
use rpi_cam.Base.Outcome.{Outcome, ok, ok-injective}
use rpi_cam.VideoQueue.{
  VideoQueue, ThreadInfo, Popped, insert_event, remove_event, pop, pop_wake, update, halt,
}
use rpi_cam.VideoQueue.Waiting.{PopCase, refused, waiting, ended, taken}
use rpi_cam.VideoQueue.Cases.{added_to}

-- The event `name` runs with the pointer `p`, which no other event has, and the divisor `d`, at
-- `fps` frames a second.
pub record Serves (name : String) (p d fps : ℕ) (q : VideoQueue) : Type 0 where
  pub registered : find name q.thread_info ≡ some p
  pub own : (k : String) → find k q.thread_info ≡ some p → k ≡ name
  pub running : (q.infos p).is_run ≡ true
  pub divisor : (q.infos p).fps ≡ d
  pub device_fps : q.device_fps ≡ fps

-- A change of the rest of the queue.
pub again :
    (name : String) (p d fps : ℕ) (q q' : VideoQueue)
    → Serves name p d fps q
    → q'.thread_info ≡ q.thread_info
    → q'.infos ≡ q.infos
    → q'.device_fps ≡ q.device_fps
    → Serves name p d fps q'
again name p d fps q q' s t i f = record {
  registered = ap (find name) t ∙ s.registered;
  own = λ k e. s.own k (ap (find k) (sym t) ∙ e);
  running = ap (λ m. (m p).is_run) i ∙ s.running;
  divisor = ap (λ m. (m p).fps) i ∙ s.divisor;
  device_fps = f ∙ s.device_fps;
}

added_to-Serves :
    (name k : String) (p d fps r : ℕ) (q : VideoQueue)
    → r ≢ p
    → Serves name p d fps q
    → find k q.thread_info ≡ none
    → Serves name p d fps (
        added_to k r
          (update q.infos r (record (q.infos r) { fps = q.device_fps / (q.infos r).fps }))
          q)
added_to-Serves name k p d fps r q ne s e = record {
  registered =
      find-emplace_new k name r q.thread_info e ∙ ground (arith, s.registered, eq_iff k name);
  own = λ j h. s.own j (ground (arith, find-emplace_new k j r q.thread_info e, h, ne));
  running = ground (arith, s.running, ne);
  divisor = ground (arith, s.divisor, ne);
  device_fps = s.device_fps;
}

pub insert_event-Serves :
    (name k : String) (p d fps r n : ℕ) (q q' : VideoQueue)
    → r ≢ p
    → Serves name p d fps q
    → insert_event k r q ≡ ok (n, q')
    → Serves name p d fps q' × (q'.current_frame_no ≡ q.current_frame_no)
unfolding insert_event
insert_event-Serves name k p d fps r n q q' ne s h = elim (Option-cases (find k q.thread_info)) [
  | inr (t, e) ↦
      let same : ◌≡◌ {A = Outcome (ℕ × VideoQueue)} (ok (1, q)) (ok (n, q')) = ground arith in
      subst (λ x. Serves name p d fps x.1 × (x.1.current_frame_no ≡ q.current_frame_no))
        (ok-injective same) (s, refl)
  | inl e ↦ elim (Bool-cases ((q.infos r).fps == 0)) [
    | inl z ↦ absurd (ground arith)
    | inr nz ↦
        let infos : ℕ → ThreadInfo =
          update q.infos r (record (q.infos r) { fps = q.device_fps / (q.infos r).fps }) in
        let same : ◌≡◌ {A = Outcome (ℕ × VideoQueue)} (ok (0, added_to k r infos q)) (ok (n, q')) =
          ground arith in
        subst (λ x. Serves name p d fps x.1 × (x.1.current_frame_no ≡ q.current_frame_no))
          (ok-injective same) (added_to-Serves name k p d fps r q ne s e, refl)
  ]
]

-- To stop another event leaves the pointer alone.
halt-own :
    (name k : String) (p d fps : ℕ) (q : VideoQueue) (t : Option ℕ)
    → str_eq k name ≡ false
    → Serves name p d fps q
    → find k q.thread_info ≡ t
    → halt t q.infos p ≡ q.infos p
halt-own name k p d fps q none ne s e = refl
halt-own name k p d fps q (some r) ne s e =
    let other : r ≢ p = λ same. ground (arith, ne, eq_iff k name, s.own k (e ∙ ap some same)) in
    ground (arith, other)

pub remove_event-Serves :
    (name k : String) (p d fps : ℕ) (q : VideoQueue)
    → str_eq k name ≡ false
    → Serves name p d fps q
    → Serves name p d fps (remove_event k q).1
unfolding remove_event
remove_event-Serves name k p d fps q ne s =
    let same = halt-own name k p d fps q (find k q.thread_info) ne s refl in
    record {
      registered = find-erase k name q.thread_info ∙ ground (arith, s.registered, ne);
      own = λ j h. s.own j (ground (arith, find-erase k j q.thread_info, h));
      running = ap (λ i. i.is_run) same ∙ s.running;
      divisor = ap (λ i. i.fps) same ∙ s.divisor;
      device_fps = s.device_fps;
    }

pub pop_wake-running :
    (name : String) (p : ℕ) (q q' : VideoQueue) (r : Popped)
    → find name q.thread_info ≡ some p
    → (q.infos p).is_run ≡ true
    → pop_wake name q ≡ ok (r, q')
    → q'.thread_info ≡ q.thread_info
unfolding pop_wake
pop_wake-running name p q q' r t on h = elim (Option-cases (find name q.output)) [
  | inl e ↦ ground arith
  | inr ([], e) ↦ ground arith
  | inr (b ∷ rest, e) ↦ ground arith
]

pub pop-running :
    (name : String) (p : ℕ) (q q' : VideoQueue) (r : Popped)
    → find name q.thread_info ≡ some p
    → (q.infos p).is_run ≡ true
    → pop name q ≡ ok (r, q')
    → q'.thread_info ≡ q.thread_info
unfolding pop
pop-running name p q q' r t on h = elim (Option-cases (find name q.output)) [
  | inl e ↦ ground arith
  | inr ([], e) ↦ ground arith
  | inr (b ∷ rest, e) ↦ ground arith
]

-- What a thread that pops leaves: the entries but for its own.
pub PopCase-Serves :
    (name k : String) (p d fps : ℕ) (q q' : VideoQueue) (r : Popped)
    → Serves name p d fps q
    → (k ≡ name → q'.thread_info ≡ q.thread_info)
    → PopCase k q r q'
    → Serves name p d fps q' × (q'.current_frame_no ≡ q.current_frame_no)
PopCase-Serves name k p d fps q q' r s stay refused = (s, refl)
PopCase-Serves name k p d fps q q' r s stay waiting = (s, refl)
PopCase-Serves name k p d fps q q' r s stay (taken b rest o) =
    (again name p d fps q _ s refl refl refl, refl)
PopCase-Serves name k p d fps q q' r s stay ended = (
  record {
    registered = elim (Bool-cases (str_eq k name)) [
      | inl e ↦ ap (find name) (stay ((eq_iff k name).0 e)) ∙ s.registered
      | inr e ↦ find-erase k name q.thread_info ∙ ground (arith, s.registered, e)
    ];
    own = λ j h. s.own j (ground (arith, find-erase k j q.thread_info, h));
    running = s.running;
    divisor = s.divisor;
    device_fps = s.device_fps;
  },
  refl,
)
