-- ===== src/Event/Handler.antt =====
-- EventHandler.cpp and EventInitializer.cpp: starting and stopping event threads.
use rpi_cam.Base.{ℕ, Option, none, some, List, [], ◌∷◌, ◌++◌, String, length, get_elem?, set}
use rpi_cam.Base.Dict.{Dict, find, emplace}
use rpi_cam.Base.Outcome.{Outcome, ok, fault, end_iterator, use_after_free, deref, ◌>>=◌}
use rpi_cam.VideoQueue.{VideoQueue, remove_event}
use rpi_cam.Event.Processor.{EventProcessor, Loader, DirectoryEntry, construct}

-- `class EventHandler`: an `EventProcessor*` is a position in `objects`, which holds `none` for a
-- deleted object; `threads` are the objects whose `event_loop` was started.
pub record EventHandler : Type 0 where
  pub event_thread : Dict ℕ
  pub objects : List (Option EventProcessor)
  pub threads : List ℕ

abbrev pub no_events : EventHandler
no_events = record { event_thread = []; objects = []; threads = [] }

-- The loader, and the files in the directory of each event.
pub record Disk : Type 0 where
  pub dlopen : Loader
  pub files : String → List DirectoryEntry

-- `EventHandler::start_event`: an entry that the name already has is left as it is.
unfoldable pub start_event : Disk → String → EventHandler → ℕ × EventHandler
unfolding construct
start_event disk name h = (
  0,
  record {
    event_thread = emplace name (length h.objects) h.event_thread;
    objects = h.objects ++ some (construct disk.dlopen (disk.files name) name) ∷ [];
    threads = h.threads ++ length h.objects ∷ [];
  },
)

-- `delete event`
abbrev pub delete_at : ℕ → Option (Option EventProcessor) → EventHandler → Outcome EventHandler
delete_at p none h = fault use_after_free
delete_at p (some none) h = fault use_after_free
delete_at p (some (some e)) h = ok (record h { objects = set h.objects p none })

-- `EventHandler::stop_event`: the entry of the name stays.
unfoldable pub stop_event :
    String → EventHandler → VideoQueue → Outcome (ℕ × EventHandler × VideoQueue)
stop_event name h q = do
  p ← deref end_iterator (find name h.event_thread)
  h' ← delete_at p (get_elem? h.objects p) h
  ok (0, h', (remove_event name q).1)

-- `EventInitializer::init`: the handler, and `_event_names`.
unfoldable pub init : Disk → List String → EventHandler → EventHandler × List String
unfolding start_event
init disk [] h = (h, [])
init disk (name ∷ names) h =
    let r = init disk names (start_event disk name h).1 in (r.0, name ∷ r.1)

-- `EventInitializer::stop`
unfoldable pub stop :
    List String → EventHandler → VideoQueue → Outcome (ℕ × EventHandler × VideoQueue)
unfolding stop_event
stop [] h q = ok (0, h, q)
stop (name ∷ names) h q = stop_event name h q >>= λ r. stop names r.1 r.2
