-- ===== src/Camera/Tests.antt =====
-- The capture loop at concrete answers of the kernel.
use rpi_cam.Base.{ℕ, ◌≡◌, none, some, [], ◌∷◌, true, false, Option, refl}
use rpi_cam.Base.Int.{pos}
use rpi_cam.Config.Camera.{VideoMeta}
use rpi_cam.VideoQueue.{init}
use rpi_cam.Base.Outcome.{ok, fault, out_of_bounds}
use rpi_cam.Camera.{
  mapped, map_failed, capture_round, deque_v4l2_buffer, Capture, Round, ready, timeout, loop,
}
use rpi_cam.Camera.Frames.{captured, extended, loop-captured}

abbrev pub meta : VideoMeta
meta = record { type = 0; width = pos 2; height = pos 1 }

abbrev pub round : ℕ → Round
round i = record {
  readiness = ready;
  dequeued = some (i, i ∷ i ∷ []);
  now = 100;
  accepted = true;
  stops = true;
}

abbrev pub late : Round
late = record { readiness = timeout; dequeued = none; now = 101; accepted = true; stops = true }

abbrev capturing : Capture
capturing = record {
  camera_buffers = λ i. mapped 4;
  queued = 0 ∷ 1 ∷ 2 ∷ [];
  streaming = true;
  queue = init 30 (λ p. record { is_run = false; fps = 0 });
}

captures_two :
    (code : Option ℕ) × (left : Capture) × (loop meta
        (round 0 ∷ round 1 ∷ late ∷ round 2 ∷ [])
        capturing
      ≡ ok (code, left))
    × (left.queue ≡ extended capturing.queue (captured meta (round 0 ∷ round 1 ∷ [])))
captures_two =
    loop-captured meta (round 0 ∷ round 1 ∷ late ∷ round 2 ∷ []) capturing
      (refl, (refl, (tt, (refl, tt))))

-- A frame in a buffer whose mapping failed cannot be copied.
reads_unmapped :
    loop meta (round 0 ∷ []) (record capturing { camera_buffers = λ i. map_failed })
    ≡ fault out_of_bounds
unfolding loop capture_round deque_v4l2_buffer
reads_unmapped = refl
