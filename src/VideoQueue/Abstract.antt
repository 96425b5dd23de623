-- ===== src/VideoQueue/Abstract.antt =====
-- What the users of the queue rely on: for each name an event and a queue, as functions, without the
-- dictionaries that keep them.
use rpi_cam.Base.{
  ℕ, Bool, false, Option, none, some, List, [], ◌∷◌, ◌++◌, String, ◌/◌, str_eq, if◌then◌else◌,
}
use rpi_cam.Base.Dict.{find}
use rpi_cam.VideoQueue.{VideoQueue, VideoBuffer, ThreadInfo, update, halt}
use rpi_cam.VideoQueue.Distribution.{after_frame, copied}
use rpi_cam.VideoQueue.Delivery.{advance}
use rpi_cam.VideoQueue.History.{Call, inserts, removes, pushes, turns, pops, wakes, closes}

pub record View : Type 0 where
  pub events : String → Option ℕ
  pub queues : String → Option (List VideoBuffer)
  pub infos : ℕ → ThreadInfo
  pub source : List VideoBuffer
  pub device_fps : ℕ
  pub frame_no : ℕ
  pub enabled : Bool

unfoldable pub view : VideoQueue → View
view q = record {
  events = λ k. find k q.thread_info;
  queues = λ k. find k q.output;
  infos = q.infos;
  source = q.input;
  device_fps = q.device_fps;
  frame_no = q.current_frame_no;
  enabled = q.q_enable;
}

-- A function with another value at one name.
abbrev pub put {ℓ} : {A : Type ℓ} → String → A → (String → A) → String → A
put name a f k = if str_eq name k then a else f k

-- The queue of a name that is registered: the one it has, or an empty one.
abbrev pub frames_or_none : Option (List VideoBuffer) → List VideoBuffer
frames_or_none none = []
frames_or_none (some frames) = frames

unfoldable pub inserted : String → ℕ → View → View
inserted name p v = elim (v.events name) [
  | some r ↦ v
  | none ↦ record v {
    events = put name (some p) v.events;
    queues = put name (some (frames_or_none (v.queues name))) v.queues;
    infos = update v.infos p (record (v.infos p) { fps = v.device_fps / (v.infos p).fps });
  }
]

unfoldable pub removed : String → View → View
removed name v = record v {
  events = put name none v.events;
  queues = put name none v.queues;
  infos = halt (v.events name) v.infos;
}

abbrev pub front_taken : String → View → Option (List VideoBuffer) → View
front_taken name v none = v
front_taken name v (some []) = v
front_taken name v (some (b ∷ rest)) = record v { queues = put name (some rest) v.queues }

-- A `pop` takes the oldest frame of a running event, and forgets a stopped one.
unfoldable pub popped : String → View → View
popped name v = elim (v.events name) [
  | none ↦ v
  | some p ↦
      if (v.infos p).is_run
      then front_taken name v (v.queues name)
      else record v { events = put name none v.events }
]

-- One frame for every queue whose event is due.
abbrev pub passed_on : ℕ → View → List VideoBuffer → View
passed_on now v [] = v
passed_on now v (b ∷ rest) =
    let n = advance v.device_fps v.frame_no in
    record v {
      queues = λ k. after_frame v.infos n (copied now b) (v.events k) (v.queues k);
      source = rest;
      frame_no = n;
    }

unfoldable pub turned : ℕ → View → View
turned now v = if v.enabled then passed_on now v v.source else v

unfoldable pub seen_step : Call → View → View
unfolding inserted removed popped turned
seen_step (inserts name p) v = inserted name p v
seen_step (removes name) v = removed name v
seen_step (pushes b) v = record v { source = v.source ++ b ∷ [] }
seen_step (turns now) v = turned now v
seen_step (pops name) v = popped name v
seen_step (wakes name) v = popped name v
seen_step closes v = record v { enabled = false }

unfoldable pub seen_run : List Call → View → View
unfolding seen_step
seen_run [] v = v
seen_run (c ∷ cs) v = seen_run cs (seen_step c v)
