-- ===== src/VideoQueue/LivenessTests.antt =====
-- A thread that waits while others use the queue.
use rpi_cam.Base.{◌≡◌, ◌<◌, ◌⊎◌, eq_iff, refl, List, [], ◌∷◌, arith, length}
use rpi_cam.Base.Dict.{find, assign, erase}
use rpi_cam.Base.Outcome.{ok}
use rpi_cam.VideoQueue.{VideoBuffer, VideoQueue, frame, pop_wake}
use rpi_cam.VideoQueue.History.{Call, pushes, turns, pops, removes, run, IsValid}
use rpi_cam.VideoQueue.Serving.{Serves}
use rpi_cam.VideoQueue.Liveness.{run-wakes}
use rpi_cam.VideoQueue.Traffic.{handed_in}
use rpi_cam.VideoQueue.Tests.{shot, with_motion}

pub with_motion-IsValid : IsValid with_motion
unfolding find
with_motion-IsValid = record {
  distinct = (refl, tt);
  distinct_queues = (refl, tt);
  served = λ k e. ground (arith, e);
  rated = omega arith;
  numbered = omega arith;
}

pub with_motion-Serves : Serves "motion" 0 2 5 with_motion
unfolding find
with_motion-Serves = record {
  registered = refl;
  own = λ k h. ground (arith, h, eq_iff "motion" k);
  running = refl;
  divisor = refl;
  device_fps = refl;
}

-- The thread of the event waits, and other threads use the queue.
abbrev busy : List Call
busy =
    pops "motion"
    ∷ turns 10
    ∷ removes "face"
    ∷ turns 11
    ∷ turns 12
    ∷ pushes (shot 9)
    ∷ pops "face"
    ∷ turns 13
    ∷ turns 14
    ∷ []

abbrev busy_end : VideoQueue
busy_end = record with_motion {
  input = shot 9 ∷ [];
  output =
      ("motion", record (shot 1) { timestamp = 10 } ∷ record (shot 4) { timestamp = 13 } ∷ []) ∷ [];
}

run-wakes_example :
    (0 < length (handed_in "motion" busy with_motion))
    ⊎ ((b : VideoBuffer) × (q : VideoQueue) × (pop_wake "motion" busy_end ≡ ok (frame b, q)))
unfolding run find assign erase
run-wakes_example =
    run-wakes "motion" 0 2 busy with_motion busy_end [] with_motion-IsValid with_motion-Serves
      (omega arith) (omega arith) (refl, tt) refl (omega arith) refl
