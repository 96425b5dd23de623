-- ===== src/Event/Lifetime.antt =====
-- The lifetime of the event objects that EventHandler.cpp allocates and deletes.
use rpi_cam.Base.{
  ℕ, none, some, String, ◌≡◌, refl, length, get_elem?, set, get_elem?-append_last, get_elem?-append,
  get_elem?-set, arith, eq_refl, ◌++◌, [], ◌∷◌,
}
use rpi_cam.Base.Dict.{find, emplace, find-emplace_new, emplace_old}
use rpi_cam.Base.Outcome.{ok, fault, use_after_free}
use rpi_cam.VideoQueue.{VideoQueue, remove_event}
use rpi_cam.Event.Processor.{construct}
use rpi_cam.Event.Handler.{EventHandler, Disk, start_event, stop_event}

-- The name's entry points at an object that was deleted.
abbrev pub IsStopped : String → EventHandler → Type 0
IsStopped name h =
    (p : ℕ) × (find name h.event_thread ≡ some p) × (get_elem? h.objects p ≡ some none)

-- Stopping an event that was started under a new name answers 0, takes it out of the video queue
-- and deletes its object.
pub stop_event-start_event :
    (disk : Disk) (name : String) (h : EventHandler) (q : VideoQueue)
    → find name h.event_thread ≡ none
    → (h' : EventHandler) × (stop_event name (start_event disk name h).1 q
        ≡ ok (0, h', (remove_event name q).1))
      × IsStopped name h'
unfolding start_event stop_event
stop_event-start_event disk name h q fresh =
    let e = construct disk.dlopen (disk.files name) name in
    let found : find name (emplace name (length h.objects) h.event_thread)
        ≡ some (length h.objects) =
      ground
        (arith, find-emplace_new name name (length h.objects) h.event_thread fresh, eq_refl name) in
    let there = get_elem?-append_last h.objects (some e) in
    (
      record (start_event disk name h).1 {
        objects = set (h.objects ++ some e ∷ []) (length h.objects) none;
      },
      rw (found, there) refl,
      (
        length h.objects,
        found,
        get_elem?-set (h.objects ++ some e ∷ []) (length h.objects) none (some e) there,
      ),
    )

-- A stopped event that is started again cannot be stopped any more: its entry still points at the
-- first object, which is deleted a second time.
pub stop_event-restart :
    (disk : Disk) (name : String) (h : EventHandler) (q : VideoQueue)
    → IsStopped name h
    → stop_event name (start_event disk name h).1 q ≡ fault use_after_free
unfolding start_event stop_event
stop_event-restart disk name h q (p, found, gone) =
    rw
      (
        emplace_old name (length h.objects) p h.event_thread found,
        found,
        get_elem?-append h.objects (some (construct disk.dlopen (disk.files name) name) ∷ []) p none
            gone,
      )
      refl
