-- ===== src/Event/Tests.antt =====
-- The event programs at concrete inputs.
use rpi_cam.Base.{
  List, ◌+◌, ◌≤◌, get_elem?, All, ◌<◌, true, ◌==◌, if◌then◌else◌, ℕ, ◌≡◌, refl, none, some, [], ◌∷◌,
  ◌++◌, map, false, length, arith,
}
use rpi_cam.Base.Int.{pos, negsuc}
use rpi_cam.Base.Dict.{find}
use rpi_cam.Base.Text.{stoi, number}
use rpi_cam.Base.Outcome.{ok, fault, div_by_zero, use_after_free, uninitialised}
use rpi_cam.Config.Camera.{VideoMeta}
use rpi_cam.VideoQueue.{VideoQueue, VideoBuffer, null, frame, init, remove_event}
use rpi_cam.Event.Processor.{
  read_directory-uploaded_files, EventProcessor, EventFunction, is_positive, read_directory,
  uploaded_files, construct, Reports,
}
use rpi_cam.Event.Handler.{EventHandler, Disk, no_events, start_event, stop_event, stop}
use rpi_cam.Event.Handler as Handler
use rpi_cam.Http.Sender.{Readable, receive}
use rpi_cam.Http.Tests.{link, printing, camera as sender}
use rpi_cam.VideoQueue.Tests.{five_shots, shots, seconds}
use rpi_cam.VideoQueue.Delivery.{distribute_turns}
use rpi_cam.Event.Served.{construct-rate}
use rpi_cam.Event.Initializer.{stop-init}
use rpi_cam.Event.Lifetime.{IsStopped, stop_event-start_event, stop_event-restart}
use rpi_cam.Event.Loop.{
  event_start, event_loop, event_start_zero, event_loop-detected, detected, reports,
  event_loop_unanswered,
}

abbrev meta : VideoMeta
meta = record { type = 0; width = pos 2; height = pos 1 }

abbrev shot : ℕ → VideoBuffer
shot t = record { metadata = meta; timestamp = t; buffer = t ∷ t ∷ []; size = 2 }

-- A program that sees an event in frames that start with the byte 2.
abbrev pub sees_two : EventFunction
sees_two calls b = elim (b.buffer) [ [] ↦ negsuc 0 | x ∷ xs ↦ (if x == 2 then pos 1 else pos 0) ]

abbrev pub motion : EventProcessor
motion = record { event_name = "motion"; fps = none; enable = none; event_program = some sees_two }

-- A server that answers each report with a page of 1024 zeros.
abbrev pub telling : Reports
telling = record { curl = λ calls. link true; print = printing; handler = sender }

-- A network on which no server answers.
abbrev cut_off : Reports
cut_off = record telling {
  curl = λ calls. record { creates = true; pieces = []; performs = false };
}

link-Readable : Readable (link true)
unfolding receive
link-Readable = (refl, (tt, refl))

pub telling-Readable : (k : ℕ) → Readable (telling.curl k)
telling-Readable k = link-Readable

sends_two :
    event_loop telling motion 0
      (map frame (shot 1 ∷ shot 2 ∷ shot 3 ∷ []) ++ null ∷ frame (shot 2) ∷ [])
    ≡ ok (reports telling (detected sees_two 0 (shot 1 ∷ shot 2 ∷ shot 3 ∷ [])))
sends_two =
    event_loop-detected telling motion sees_two 0 (shot 1 ∷ shot 2 ∷ shot 3 ∷ [])
      (frame (shot 2) ∷ []) refl telling-Readable

event_loop_unanswered_example :
    event_loop cut_off motion 0 (map frame (shot 1 ∷ shot 3 ∷ []) ++ frame (shot 2) ∷ [])
    ≡ fault uninitialised
event_loop_unanswered_example =
    event_loop_unanswered cut_off motion sees_two 0 (shot 1 ∷ shot 3 ∷ []) (shot 2) [] refl refl
      refl refl refl

abbrev q : VideoQueue
q = init 30 (λ p. record { is_run = false; fps = 0 })

motion-number : is_positive "motion" ≡ false
unfolding is_positive
motion-number = refl

zero-number : stoi "0" ≡ number (pos 0)
unfolding stoi
zero-number = refl

nothing_registered : find "motion" q.thread_info ≡ none
unfolding init find
nothing_registered = refl

starts_at_zero :
    event_start (read_directory (uploaded_files "motion" "0") motion) 5 q ≡ fault div_by_zero
starts_at_zero =
    event_start_zero "motion" "0" motion 5 q refl motion-number refl zero-number nothing_registered

abbrev pub disk : Disk
disk = record {
  dlopen = λ path. some (λ symbol. some sees_two);
  files = λ name. uploaded_files name "15";
}

no_motion : find "motion" no_events.event_thread ≡ none
unfolding find
no_motion = refl

stops_motion :
    (h' : EventHandler) × (stop_event "motion" (start_event disk "motion" no_events).1 q
      ≡ ok (0, h', (remove_event "motion" q).1))
    × IsStopped "motion" h'
stops_motion = stop_event-start_event disk "motion" no_events q no_motion

abbrev stopped_motion : EventHandler
stopped_motion = record { event_thread = ("motion", 0) ∷ []; objects = none ∷ []; threads = 0 ∷ [] }

motion-IsStopped : IsStopped "motion" stopped_motion
unfolding find
motion-IsStopped = (0, refl, refl)

restart_fails :
    stop_event "motion" (start_event disk "motion" stopped_motion).1 q ≡ fault use_after_free
restart_fails = stop_event-restart disk "motion" stopped_motion q motion-IsStopped

uploaded_files_read :
    read_directory (uploaded_files "motion" "0") motion
    ≡ record motion { fps = some (pos 0); enable = some true }
uploaded_files_read =
    read_directory-uploaded_files "motion" "0" 0 motion refl motion-number refl zero-number

new_names : All (λ name. find name no_events.event_thread ≡ none) ("motion" ∷ "face" ∷ [])
unfolding find
new_names = (refl, (refl, tt))

stop-init_example :
    (h' : EventHandler) × (q' : VideoQueue) × (stop
        ("motion" ∷ "face" ∷ [])
        (Handler.init disk ("motion" ∷ "face" ∷ []) no_events).0
        q
      ≡ ok (0, h', q'))
    × ((i : ℕ) → i < 0 → get_elem? h'.objects i ≡ get_elem? no_events.objects i)
    × ((i : ℕ) → 0 ≤ i → i < 0 + 2 → get_elem? h'.objects i ≡ some none)
    × All (λ name. find name q'.thread_info ≡ none) ("motion" ∷ "face" ∷ [])
unfolding Handler.init
stop-init_example =
    stop-init disk ("motion" ∷ "face" ∷ []) no_events q ((refl, tt), (tt, tt)) new_names

two-number : stoi "2" ≡ number (pos 2)
unfolding stoi
two-number = refl

construct-rate_example :
    (q₁ q₂ : VideoQueue) × (frames : List VideoBuffer) × (event_start
        (construct disk.dlopen (uploaded_files "motion" "2") "motion")
        7
        five_shots
      ≡ ok q₁)
    × (distribute_turns seconds q₁ ≡ ok q₂)
    × (find "motion" q₂.output ≡ some frames)
    × (2 ≤ length frames)
unfolding find
construct-rate_example =
    construct-rate disk.dlopen "motion" "2" 2 7 five_shots seconds shots [] refl motion-number refl
      two-number (omega arith) (omega arith) refl refl tt tt refl refl refl refl (omega arith)
      (omega arith)
