-- ===== src/VideoQueue/Registry.antt =====
-- Which events the queue knows: what `insert_event` and `remove_event` do to the two maps.
use rpi_cam.Base.{
  refl, ◌∷◌, subst, ℕ, ◌/◌, ◌≡◌, ◌≢◌, false, none, some, String, [], arith, str_eq, eq_refl,
  if◌then◌else◌,
}
use rpi_cam.Base.Dict.{find, emplace, find-emplace_new, find-erase, erase-emplace_new}
use rpi_cam.Base.Outcome.{ok, fault, div_by_zero}
use rpi_cam.VideoQueue.{VideoQueue, insert_event, remove_event, update}

-- A name that is taken is refused with 1, and nothing changes.
pub insert_event_taken :
    (name : String) (p r : ℕ) (q : VideoQueue)
    → find name q.thread_info ≡ some r
    → insert_event name p q ≡ ok (1, q)
unfolding insert_event
insert_event_taken name p r q h = ground arith

-- The entry of a new name, and the other entries, after a successful insertion.
pub record Inserted (name : String) (p : ℕ) (q q' : VideoQueue) : Type 0 where
  pub divisor : (q'.infos p).fps ≡ q.device_fps / (q.infos p).fps
  pub running : (q'.infos p).is_run ≡ (q.infos p).is_run
  pub registered :
      (j : String)
      → find j q'.thread_info ≡ (if str_eq name j then some p else find j q.thread_info)
  pub queued :
      (j : String) → find j q'.output ≡ (if str_eq name j then some [] else find j q.output)
  pub others : (r : ℕ) → p ≢ r → q'.infos r ≡ q.infos r
  pub entries : q'.thread_info ≡ (name, p) ∷ q.thread_info
  pub device_fps : q'.device_fps ≡ q.device_fps
  pub input : q'.input ≡ q.input
  pub frame_no : q'.current_frame_no ≡ q.current_frame_no
  pub q_enable : q'.q_enable ≡ q.q_enable

pub insert_event-Inserted :
    (name : String) (p : ℕ) (q : VideoQueue)
    → find name q.thread_info ≡ none
    → find name q.output ≡ none
    → (q.infos p).fps ≢ 0
    → (q' : VideoQueue) × (insert_event name p q ≡ ok (0, q')) × Inserted name p q q'
unfolding insert_event emplace
insert_event-Inserted name p q h k nz = (
  record q {
    infos = update q.infos p (record (q.infos p) { fps = q.device_fps / (q.infos p).fps });
    thread_info = emplace name p q.thread_info;
    output = emplace name [] q.output;
  },
  ground arith,
  record {
    divisor = ground arith;
    running = ground arith;
    registered = λ j. find-emplace_new name j p q.thread_info h;
    queued = λ j. find-emplace_new name j [] q.output k;
    others = λ r ne. ground arith;
    entries = rw (h, emplace) refl;
    device_fps = refl;
    input = refl;
    frame_no = refl;
    q_enable = refl;
  },
)

-- A rate of zero is divided by.
pub insert_event_zero :
    (name : String) (p : ℕ) (q : VideoQueue)
    → find name q.thread_info ≡ none
    → (q.infos p).fps ≡ 0
    → insert_event name p q ≡ fault div_by_zero
unfolding insert_event
insert_event_zero name p q h z = ground arith

insert_event-ne-zero :
    (name : String) (p : ℕ) (q q' : VideoQueue)
    → find name q.thread_info ≡ none
    → insert_event name p q ≡ ok (0, q')
    → (q.infos p).fps ≢ 0
insert_event-ne-zero name p q q' h e z = cc (insert_event_zero name p q h z)

-- So every insertion that answers 0 has done that.
pub insert_event-registers :
    (name : String) (p : ℕ) (q q' : VideoQueue)
    → find name q.thread_info ≡ none
    → find name q.output ≡ none
    → insert_event name p q ≡ ok (0, q')
    → Inserted name p q q'
insert_event-registers name p q q' h k e =
    let (q₁, f, i) = insert_event-Inserted name p q h k (insert_event-ne-zero name p q q' h e) in
    let same : q₁ ≡ q' = cc in subst (Inserted name p q) same i

-- Removing a name takes it out of both maps and out of nothing else, whatever the code.
pub remove_event-find :
    (name j : String) (q : VideoQueue)
    → (find j (remove_event name q).1.thread_info
        ≡ (if str_eq name j then none else find j q.thread_info))
      × (find j (remove_event name q).1.output ≡ (if str_eq name j then none else find j q.output))
unfolding remove_event
remove_event-find name j q = (find-erase name j q.thread_info, find-erase name j q.output)

-- The pointer of the removed entry is marked as stopped.
pub remove_event_halts :
    (name : String) (p : ℕ) (q : VideoQueue)
    → find name q.thread_info ≡ some p
    → ((remove_event name q).1.infos p).is_run ≡ false
unfolding remove_event
remove_event_halts name p q h = rw h (ground arith)

-- Removing a name that was just inserted restores both maps.
pub remove_event-insert_event :
    (name : String) (p : ℕ) (q q' : VideoQueue)
    → find name q.thread_info ≡ none
    → find name q.output ≡ none
    → insert_event name p q ≡ ok (0, q')
    → ((remove_event name q').0 ≡ 0)
      × ((remove_event name q').1.thread_info ≡ q.thread_info)
      × ((remove_event name q').1.output ≡ q.output)
unfolding insert_event remove_event
remove_event-insert_event name p q q' h k e = ground (
  arith,
  eq_refl name,
  find-emplace_new name name p q.thread_info h,
  find-emplace_new name name [] q.output k,
  erase-emplace_new name p q.thread_info h,
  erase-emplace_new name [] q.output k,
)
