-- ===== src/VideoQueue/Tests.antt =====
-- Runs of the queue, and the properties at concrete inputs.
use rpi_cam.Base.Dict.{erase, find, emplace, assign}
use rpi_cam.VideoQueue.{
  push, VideoBuffer, ThreadInfo, VideoQueue, frame, null, init, insert_event, remove_event, update,
  pop, pop_wake, distribute_buffer,
}
use rpi_cam.VideoQueue.History.{
  step, Call, inserts, pushes, turns, pops, run, IsValid, init-IsValid, run-IsValid,
}
use rpi_cam.Base.{
  ℕ, ◌≡◌, ◌/◌, ◌≤◌, refl, List, [], ◌∷◌, ◌++◌, arith, if◌then◌else◌, ◌==◌, true, false, some,
  length,
}
use rpi_cam.Base.Int.{pos}
use rpi_cam.Base.Outcome.{ok, fault, end_iterator, div_by_zero}
use rpi_cam.Config.Camera.{VideoMeta}
use rpi_cam.VideoQueue.Registry.{remove_event-insert_event}
use rpi_cam.VideoQueue.Delivery.{distribute_turns}
use rpi_cam.VideoQueue.Service.{event_rate, event_rate_above}
use rpi_cam.VideoQueue.Departure.{pop_wake-run}
use rpi_cam.VideoQueue.Waiting.{Took, pop-front, pop-insert_event_stale}
use rpi_cam.VideoQueue.Abstract.{view, seen_run}
use rpi_cam.VideoQueue.Refinement.{run-view}
use rpi_cam.VideoQueue.Fifo.{run-Balance}
use rpi_cam.VideoQueue.Traffic.{queued_in, handed_in}

abbrev meta : VideoMeta
meta = record { type = 0; width = pos 2; height = pos 1 }

abbrev pub shot : ℕ → VideoBuffer
shot n = record { metadata = meta; timestamp = 0; buffer = n ∷ n ∷ []; size = 2 }

abbrev pub shots : List VideoBuffer
shots = shot 1 ∷ shot 2 ∷ shot 3 ∷ shot 4 ∷ shot 5 ∷ []

abbrev pub seconds : List ℕ
seconds = 10 ∷ 11 ∷ 12 ∷ 13 ∷ 14 ∷ []

-- Pointer 0 asks for two frames a second, pointer 1 for thirty; pointer 2 has been stopped.
abbrev infos : ℕ → ThreadInfo
infos p =
    if p == 0
    then record { is_run = true; fps = 2 }
    else record { is_run = if p == 2 then false else true; fps = 30 }

abbrev pub five_shots : VideoQueue
five_shots = record {
  device_fps = 5;
  input = shots;
  current_frame_no = 3;
  output = [];
  thread_info = [];
  infos = infos;
  q_enable = true;
}

abbrev pub with_motion : VideoQueue
with_motion = record {
  device_fps = 5;
  input = shots;
  current_frame_no = 3;
  output = ("motion", []) ∷ [];
  thread_info = ("motion", 0) ∷ [];
  infos = update infos 0 (record { is_run = true; fps = 2 });
  q_enable = true;
}

abbrev motion_shots : VideoQueue
motion_shots = record with_motion { output = ("motion", shot 7 ∷ shot 8 ∷ []) ∷ [] }

abbrev stopped_motion : VideoQueue
stopped_motion = record motion_shots { thread_info = ("motion", 2) ∷ [] }

event_rate_example :
    (q₂ : VideoQueue) × (frames : List VideoBuffer) × (distribute_turns seconds with_motion ≡ ok q₂)
    × (find "motion" q₂.output ≡ some frames)
    × (length frames ≡ 5 / (5 / 2))
    × (2 ≤ length frames)
unfolding insert_event find emplace
event_rate_example =
    event_rate "motion" 0 five_shots with_motion seconds shots [] refl refl tt tt (omega arith)
      (omega arith) refl refl refl refl refl (omega arith) (omega arith)

event_rate_above_example :
    (q₁ : VideoQueue) × (insert_event "fast" 1 five_shots ≡ ok (0, q₁))
    × (distribute_buffer 10 q₁ ≡ fault div_by_zero)
unfolding find
event_rate_above_example =
    event_rate_above "fast" 1 five_shots 10 (shot 1) (shot 2 ∷ shot 3 ∷ shot 4 ∷ shot 5 ∷ []) refl
      refl (omega arith) refl refl (omega arith)

pops_oldest :
    (q' : VideoQueue) × (pop "motion" motion_shots ≡ ok (frame (shot 7), q'))
    × Took "motion" (shot 8 ∷ []) motion_shots q'
unfolding find
pops_oldest = pop-front "motion" 0 (shot 7) (shot 8 ∷ []) motion_shots refl refl refl

-- What other threads do after the removal.
abbrev meanwhile : List Call
meanwhile = pushes (shot 9) ∷ pops "face" ∷ []

abbrev after_removal : VideoQueue
after_removal = (remove_event "motion" with_motion).1

abbrev removed_end : VideoQueue
removed_end = record after_removal { input = after_removal.input ++ shot 9 ∷ [] }

meanwhile-runs : run meanwhile after_removal ≡ ok removed_end
unfolding run step push pop find remove_event erase
meanwhile-runs = refl

pop_wake-run_example : pop_wake "motion" removed_end ≡ fault end_iterator
pop_wake-run_example =
    pop_wake-run "motion" meanwhile with_motion removed_end (refl, (refl, tt)) meanwhile-runs

pop-insert_event_stale_example :
    (q₁ q₂ : VideoQueue) × (pop "motion" stopped_motion ≡ ok (null, q₁))
    × (insert_event "motion" 1 q₁ ≡ ok (0, q₂))
    × (find "motion" q₂.output ≡ some (shot 7 ∷ shot 8 ∷ []))
unfolding find
pop-insert_event_stale_example =
    pop-insert_event_stale "motion" 2 1 (shot 7 ∷ shot 8 ∷ []) stopped_motion refl refl refl
      (omega arith)

remove_event-insert_event_example :
    ((remove_event "motion" with_motion).0 ≡ 0)
    × ((remove_event "motion" with_motion).1.thread_info ≡ [])
    × ((remove_event "motion" with_motion).1.output ≡ [])
unfolding insert_event find emplace
remove_event-insert_event_example =
    remove_event-insert_event "motion" 0 five_shots with_motion refl refl refl

abbrev calls : List Call
calls = inserts "motion" 0 ∷ pushes (shot 9) ∷ turns 20 ∷ []

abbrev calls_end : VideoQueue
calls_end = record {
  device_fps = 5;
  input = [];
  current_frame_no = 1;
  output = ("motion", []) ∷ [];
  thread_info = ("motion", 0) ∷ [];
  infos = update infos 0 (record { is_run = true; fps = 2 });
  q_enable = true;
}

run-IsValid_example : IsValid calls_end
unfolding run find emplace init
run-IsValid_example =
    run-IsValid calls (init 5 infos) calls_end (init-IsValid 5 infos (omega arith)) refl

motion_shots-IsValid : IsValid motion_shots
unfolding find
motion_shots-IsValid = record {
  distinct = (refl, tt);
  distinct_queues = (refl, tt);
  served = λ k e. ground (arith, e);
  rated = omega arith;
  numbered = omega arith;
}

abbrev served_calls : List Call
served_calls = turns 20 ∷ pops "motion" ∷ []

abbrev served_end : VideoQueue
served_end = record motion_shots {
  input = shot 2 ∷ shot 3 ∷ shot 4 ∷ shot 5 ∷ [];
  current_frame_no = 4;
  output = ("motion", shot 8 ∷ record (shot 1) { timestamp = 20 } ∷ []) ∷ [];
}

run-Balance_example :
    (left : List VideoBuffer) × (find "motion" served_end.output ≡ some left)
    × ((shot 7 ∷ shot 8 ∷ []) ++ queued_in "motion" served_calls motion_shots
        ≡ handed_in "motion" served_calls motion_shots ++ left)
unfolding run find assign
run-Balance_example =
    run-Balance "motion" served_calls motion_shots served_end (shot 7 ∷ shot 8 ∷ [])
      motion_shots-IsValid tt refl refl

run-view_example : view calls_end ≡ seen_run calls (view (init 5 infos))
unfolding run find emplace init
run-view_example = run-view calls (init 5 infos) calls_end (init-IsValid 5 infos (omega arith)) refl
