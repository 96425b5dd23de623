-- ===== src/VideoQueue.antt =====
-- rpi_cam_app/src/camera_device/VideoQueue.cpp and VideoQueue.hpp: the queue that hands a copy of
-- each camera frame to the events that are due for it.
-- A `ThreadInfo*` is a number, and `infos` is the memory behind these pointers, which the callers
-- share. Rates are natural numbers. Each critical section is one function; the interleavings of
-- the threads are the sequences of `Call`s.
pub mod Registry
pub mod Distribution
pub mod Delivery
pub mod Rates
pub mod Service
pub mod Waiting
pub mod Departure
pub mod Cases
pub mod History
pub mod Traffic
pub mod Fifo
pub mod Abstract
pub mod PopRefines
pub mod EventRefines
pub mod Refinement
pub mod Serving
pub mod Progress
pub mod Liveness
pub mod Tests
pub mod LivenessTests
use rpi_cam.Base.{
  ℕ, suc, ◌+◌, ◌/◌, ◌%◌, ◌≤◌, ◌<◌, ◌≡◌, Bool, true, false, not, ◌||◌, Option, none, some, List, [],
  ◌∷◌, ◌++◌, String, ltb, leb, ◌==◌, if◌then◌else◌, length, take,
}
use rpi_cam.Base.Dict.{Dict, find, has_key, emplace, erase, assign}
use rpi_cam.Base.Outcome.{
  Fault, div_by_zero, end_iterator, out_of_bounds, Outcome, ok, fault, ◌>>=◌, deref,
}
use rpi_cam.Config.Camera.{VideoMeta}

-- `struct VideoBuffer`; `buffer` is the allocation, `size` the length that the struct states.
pub record VideoBuffer : Type 0 where
  pub metadata : VideoMeta
  pub timestamp : ℕ
  pub buffer : List ℕ
  pub size : ℕ

-- `class ThreadInfo`, less the mutex and the condition variable.
pub record ThreadInfo : Type 0 where
  pub is_run : Bool
  pub fps : ℕ

-- `class VideoQueue`
pub record VideoQueue : Type 0 where
  pub device_fps : ℕ
  pub input : List VideoBuffer
  pub current_frame_no : ℕ
  pub output : Dict (List VideoBuffer)
  pub thread_info : Dict ℕ
  pub infos : ℕ → ThreadInfo
  pub q_enable : Bool

-- The constructor: `device_fps` is the configured rate of the camera.
unfoldable pub init : ℕ → (ℕ → ThreadInfo) → VideoQueue
init device_fps infos = record {
  device_fps = device_fps;
  input = [];
  current_frame_no = 0;
  output = [];
  thread_info = [];
  infos = infos;
  q_enable = true;
}

-- The destructor stops the distributing threads.
unfoldable pub close : VideoQueue → VideoQueue
close q = record q { q_enable = false }

-- A write through the pointer `p`.
abbrev pub update : (ℕ → ThreadInfo) → ℕ → ThreadInfo → ℕ → ThreadInfo
update infos p info r = if p == r then info else infos r

-- `insert_event`: 1 for a name that is taken; otherwise the rate behind the caller's pointer is
-- replaced by the divisor.
unfoldable pub insert_event : String → ℕ → VideoQueue → Outcome (ℕ × VideoQueue)
insert_event name p q =
    if has_key name q.thread_info
    then ok (1, q)
    else if (q.infos p).fps == 0
    then fault div_by_zero
    else ok (
      0,
      record q {
        infos = update q.infos p (record (q.infos p) { fps = q.device_fps / (q.infos p).fps });
        thread_info = emplace name p q.thread_info;
        output = emplace name [] q.output;
      },
    )

-- `info->_is_run = false` for the pointer of an entry.
abbrev pub halt : Option ℕ → (ℕ → ThreadInfo) → ℕ → ThreadInfo
halt none infos = infos
halt (some p) infos = update infos p (record (infos p) { is_run = false })

-- `remove_event`: 1 if the name has no thread information, 2 if it only lacks a queue. What there
-- is is removed in every case.
unfoldable pub remove_event : String → VideoQueue → ℕ × VideoQueue
remove_event name q = (
  if not (has_key name q.thread_info) then 1 else if not (has_key name q.output) then 2 else 0,
  record q {
    output = erase name q.output;
    infos = halt (find name q.thread_info) q.infos;
    thread_info = erase name q.thread_info;
  },
)

-- `push`
unfoldable pub push : VideoBuffer → VideoQueue → ℕ × VideoQueue
push buffer q = (0, record q { input = q.input ++ buffer ∷ [] })

-- What `pop` answers: `nullptr`, a frame, or that the thread waits on the condition variable.
pub data Popped : Type 0 where
  null waits : Popped
  frame : VideoBuffer → Popped

-- The first part of `pop`: both look-ups must succeed, or the caller gets `nullptr` at once.
unfoldable pub pop_enter : String → VideoQueue → Bool
pop_enter name q = if has_key name q.thread_info then has_key name q.output else false

abbrev pub is_empty {ℓ} : {A : Type ℓ} → List A → Bool
is_empty [] = true
is_empty (x ∷ xs) = false

-- The predicate of the wait, which looks both entries up anew each time.
unfoldable pub pop_ready : String → VideoQueue → Outcome Bool
pop_ready name q = do
  p ← deref end_iterator (find name q.thread_info)
  if not (q.infos p).is_run
      then ok true
      else (deref end_iterator (find name q.output) >>= λ frames. ok (not (is_empty frames)))

abbrev pub take_front : String → VideoQueue → List VideoBuffer → Outcome (Popped × VideoQueue)
take_front name q [] = fault out_of_bounds
take_front name q (b ∷ rest) = ok (frame b, record q { output = assign name rest q.output })

-- What follows the wait: a stopped event loses its thread information and gets `nullptr`.
unfoldable pub pop_finish : String → VideoQueue → Outcome (Popped × VideoQueue)
pop_finish name q = do
  p ← deref end_iterator (find name q.thread_info)
  if not (q.infos p).is_run
      then ok (null, record q { thread_info = erase name q.thread_info })
      else (deref end_iterator (find name q.output) >>= take_front name q)

-- One evaluation of the predicate under the event's mutex, and the rest of `pop` if it holds. A
-- waiting thread runs this at each wake-up.
unfoldable pub pop_wake : String → VideoQueue → Outcome (Popped × VideoQueue)
unfolding pop_ready pop_finish
pop_wake name q = pop_ready name q >>= λ ready. if ready then pop_finish name q else ok (waits, q)

-- `pop` up to its return or its first wait.
unfoldable pub pop : String → VideoQueue → Outcome (Popped × VideoQueue)
unfolding pop_enter pop_wake
pop name q = if pop_enter name q then pop_wake name q else ok (null, q)

-- The deep copy of a frame: `new uint8_t[size]` and `memcpy` of `size` bytes.
unfoldable pub copy_buffer : ℕ → VideoBuffer → Outcome VideoBuffer
copy_buffer now b =
    if leb b.size (length b.buffer)
    then ok (record b { buffer = take b.size b.buffer; timestamp = now })
    else fault out_of_bounds

-- `_output.find(name)->second->push(copy_to)`, if there is such a queue.
unfoldable pub enqueue : String → VideoBuffer → Dict (List VideoBuffer) → Dict (List VideoBuffer)
enqueue name b output = elim (find name output) [
  | none ↦ output
  | some frames ↦ assign name (frames ++ b ∷ []) output
]

-- One round of the loop over `_thread_info` in `distribute_buffer`, for the frame numbered `n`.
unfoldable pub deliver :
    (ℕ → ThreadInfo)
    → ℕ
    → ℕ
    → VideoBuffer
    → String
    → ℕ
    → Dict (List VideoBuffer)
    → Outcome (Dict (List VideoBuffer))
unfolding copy_buffer enqueue
deliver infos n now b name p output =
    if (infos p).fps == 0
    then fault div_by_zero
    else if n % (infos p).fps == 0
    then (copy_buffer now b >>= λ copy. ok (enqueue name copy output))
    else ok output

-- The loop.
unfoldable pub distribute_to :
    (ℕ → ThreadInfo)
    → ℕ
    → ℕ
    → VideoBuffer
    → Dict ℕ
    → Dict (List VideoBuffer)
    → Outcome (Dict (List VideoBuffer))
unfolding deliver
distribute_to infos n now b [] output = ok output
distribute_to infos n now b ((name, p) ∷ events) output =
    deliver infos n now b name p output >>= λ out. distribute_to infos n now b events out

-- `if((++_current_frame_no) > _device_fps) _current_frame_no = 1;`
unfoldable pub next_frame_no : VideoQueue → ℕ
next_frame_no q = if ltb q.device_fps (q.current_frame_no + 1) then 1 else q.current_frame_no + 1

-- What one turn of the loop of `distribute_buffer` does.
pub data Turn : Type 0 where
  stopped idle distributed : Turn

abbrev pub distribute_front : ℕ → VideoQueue → List VideoBuffer → Outcome (Turn × VideoQueue)
distribute_front now q [] = ok (idle, q)
distribute_front now q (b ∷ rest) =
    distribute_to q.infos (next_frame_no q) now b q.thread_info q.output >>= λ output.
    ok (distributed, record q { input = rest; current_frame_no = next_frame_no q; output = output })

-- One turn at time `now`: the end of the loop, a wait for input, or one frame distributed.
unfoldable pub distribute_buffer : ℕ → VideoQueue → Outcome (Turn × VideoQueue)
unfolding distribute_to next_frame_no
distribute_buffer now q = if q.q_enable then distribute_front now q q.input else ok (stopped, q)
