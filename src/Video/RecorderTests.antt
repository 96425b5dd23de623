-- ===== src/Video/RecorderTests.antt =====
-- The recorder at concrete times, cameras and media.
use Prim.Native.String
use rpi_cam.Base.{◌≡◌, refl, true, false, none, [], ◌∷◌, String, ◌≤◌, arith}
use rpi_cam.Base.Int.{pos}
use rpi_cam.Base.Dict.{find}
use rpi_cam.Base.Outcome.{ok, fault, div_by_zero}
use rpi_cam.VideoQueue.{VideoQueue, VideoBuffer, distribute_buffer}
use rpi_cam.Video.Clips.{is_mp4, file_timestamp}
use rpi_cam.Video.Recorder.{
  format_location_callback, on_media_configure, Medium, need_data, thread_ends, medium_step,
  medium_run,
}
use rpi_cam.Video.Recording.{file_timestamp-format_location_callback, on_media_configure-slow}
use rpi_cam.Video.Media.{total_claims, medium_run-once}

file_timestamp-format_location_callback_example :
    (file : String) × (format_location_callback 1732600000 ≡ String.◌++◌ "video/" file)
    × (is_mp4 file ≡ true)
    × (file_timestamp file ≡ ok (pos 1732600000))
file_timestamp-format_location_callback_example =
    file_timestamp-format_location_callback 1732600000 (omega arith)

abbrev frame_of_two : VideoBuffer
frame_of_two = record {
  metadata = record { type = 0; width = pos 2; height = pos 1 };
  timestamp = 0;
  buffer = 1 ∷ 2 ∷ [];
  size = 2;
}

abbrev camera_at_30 : VideoQueue
camera_at_30 = record {
  device_fps = 30;
  input = frame_of_two ∷ [];
  current_frame_no = 0;
  output = [];
  thread_info = [];
  infos = λ p. record { is_run = false; fps = 0 };
  q_enable = true;
}

not_known : (find "m" camera_at_30.thread_info ≡ none) × (find "m" camera_at_30.output ≡ none)
unfolding find
not_known = (refl, refl)

slow_camera_fails :
    (q : VideoQueue) × (on_media_configure "m" 4 camera_at_30 ≡ ok q)
    × (distribute_buffer 7 q ≡ fault div_by_zero)
slow_camera_fails =
    on_media_configure-slow "m" 4 7 camera_at_30 frame_of_two [] not_known.0 not_known.1
      (omega arith) refl refl (omega arith)

abbrev gone : Medium
gone = record { alive = false; holders = 0 }

served_once :
    medium_run (need_data ∷ thread_ends ∷ []) (record { alive = true; holders = 0 }) ≡ ok gone
unfolding medium_run medium_step
served_once = refl

served_once_claims : total_claims (need_data ∷ thread_ends ∷ []) ≤ 1
served_once_claims = medium_run-once (need_data ∷ thread_ends ∷ []) gone served_once refl
