-- ===== src/VideoQueue/Traffic.antt =====
-- What goes into the queue of an event and what comes out of it, over a history.
use rpi_cam.Base.{
  ℕ, ◌≡◌, List, [], ◌∷◌, ◌++◌, if◌then◌else◌, false, Option, none, some, String, str_eq,
}
use rpi_cam.VideoQueue.History.{Call, inserts, removes, pushes, turns, pops, wakes, closes, step}
use rpi_cam.Base.Dict.{find}
use rpi_cam.Base.Outcome.{Outcome, ok, fault}
use rpi_cam.VideoQueue.{VideoQueue, VideoBuffer, Popped, null, waits, frame, pop, pop_wake}
use rpi_cam.VideoQueue.Distribution.{copied, is_due}
use rpi_cam.VideoQueue.Delivery.{advance}

-- The copy that a turn makes for `name`, if it finds a frame that is due for it.
abbrev pub due_copy : String → ℕ → VideoQueue → List VideoBuffer → Option ℕ → List VideoBuffer
due_copy name now q [] p = []
due_copy name now q (b ∷ rest) none = []
due_copy name now q (b ∷ rest) (some p) =
    if is_due (advance q.device_fps q.current_frame_no) (q.infos p) then copied now b ∷ [] else []

-- The copies that a call queues for `name`.
abbrev pub queued : String → Call → VideoQueue → List VideoBuffer
queued name (turns now) q =
    if q.q_enable then due_copy name now q q.input (find name q.thread_info) else []
queued name _ q = []

abbrev pub frame_of : Outcome (Popped × VideoQueue) → List VideoBuffer
frame_of (fault e) = []
frame_of (ok (null, q)) = []
frame_of (ok (waits, q)) = []
frame_of (ok (frame b, q)) = b ∷ []

-- The frames that a call hands to the thread of `name`.
abbrev pub handed : String → Call → VideoQueue → List VideoBuffer
handed name (pops k) q = if str_eq k name then frame_of (pop k q) else []
handed name (wakes k) q = if str_eq k name then frame_of (pop_wake k q) else []
handed name _ q = []

-- The same over a history.
abbrev pub queued_in : String → List Call → VideoQueue → List VideoBuffer
queued_in name [] q = []
queued_in name (c ∷ cs) q =
    queued name c q ++ (elim (step c q) [ fault e ↦ [] | ok q' ↦ queued_in name cs q' ])

abbrev pub handed_in : String → List Call → VideoQueue → List VideoBuffer
handed_in name [] q = []
handed_in name (c ∷ cs) q =
    handed name c q ++ (elim (step c q) [ fault e ↦ [] | ok q' ↦ handed_in name cs q' ])

-- A history in which nobody removes `name`.
abbrev pub Keeps : String → List Call → Type 0
Keeps name [] = Unit {0}
Keeps name (removes k ∷ cs) = (str_eq k name ≡ false) × Keeps name cs
Keeps name (_ ∷ cs) = Keeps name cs

pub Keeps-cons :
    (name : String) (c : Call) (cs : List Call)
    → Keeps name (c ∷ cs)
    → Keeps name (c ∷ []) × Keeps name cs
Keeps-cons name (removes k) cs h = ((h.0, tt), h.1)
Keeps-cons name (inserts k p) cs h = (tt, h)
Keeps-cons name (pushes b) cs h = (tt, h)
Keeps-cons name (turns now) cs h = (tt, h)
Keeps-cons name (pops k) cs h = (tt, h)
Keeps-cons name (wakes k) cs h = (tt, h)
Keeps-cons name closes cs h = (tt, h)
