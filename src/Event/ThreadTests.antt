-- ===== src/Event/ThreadTests.antt =====
-- The thread of an event among the other threads.
use rpi_cam.Base.{◌≡◌, refl, some, List, [], ◌∷◌, ◌++◌}
use rpi_cam.Base.Dict.{find, assign, erase}
use rpi_cam.Base.Outcome.{ok}
use rpi_cam.VideoQueue.{VideoQueue, VideoBuffer}
use rpi_cam.VideoQueue.History.{Call, turns, pops, wakes, removes, run}
use rpi_cam.VideoQueue.Traffic.{queued_in, handed_in}
use rpi_cam.VideoQueue.Tests.{shot, with_motion}
use rpi_cam.VideoQueue.LivenessTests.{with_motion-IsValid, with_motion-Serves}
use rpi_cam.Event.Loop.{event_loop, reports, detected, calls_after}
use rpi_cam.Http.Sender.{Sent}
use rpi_cam.Event.Thread.{answers_in, event_loop-run}
use rpi_cam.Event.Tests.{motion, sees_two, telling, telling-Readable}

-- The thread waits, and gets the frame that was distributed meanwhile at its wake-up.
abbrev among : List Call
among = pops "motion" ∷ turns 10 ∷ removes "face" ∷ wakes "motion" ∷ turns 11 ∷ []

abbrev among_end : VideoQueue
among_end = record with_motion { input = shot 3 ∷ shot 4 ∷ shot 5 ∷ []; current_frame_no = 5 }

event_loop-run_example :
    (sent : List Sent) × (left : List VideoBuffer) × (event_loop telling motion 0
        (answers_in "motion" among with_motion)
      ≡ ok sent)
    × (find "motion" among_end.output ≡ some left)
    × (reports telling (detected sees_two 0 ([] ++ queued_in "motion" among with_motion))
        ≡ sent
          ++ reports telling
              (detected sees_two (calls_after 0 (handed_in "motion" among with_motion)) left))
unfolding run find assign erase
event_loop-run_example =
    event_loop-run "motion" 0 2 5 0 telling motion sees_two among with_motion among_end []
      with_motion-IsValid with_motion-Serves (refl, tt) refl refl telling-Readable refl
