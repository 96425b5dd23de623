-- ===== src/Program/Tests.antt =====
-- A start of the program.
use rpi_cam.Base.{true, ℕ, ◌≡◌, ◌≢◌, ◌⊎◌, refl, none, some, [], ◌∷◌, Option, false, ◌++◌, arith}
use rpi_cam.Base.Int.{pos}
use rpi_cam.Base.Dict.{find, emplace, erase}
use rpi_cam.Base.Outcome.{ok}
use rpi_cam.Config.Camera.{CameraConfig, set_file as set_camera}
use rpi_cam.Config.Server.{set_file as set_http}
use rpi_cam.Config.Recording.{VideoConfig, set_file as set_video}
use rpi_cam.Config.Program.{get_config}
use rpi_cam.Config.Tests.{blank}
use rpi_cam.Http.Tests.{link, printing, second_boot, camera as sender}
use rpi_cam.Event.Handler.{no_events, start_event}
use rpi_cam.Event.Tests.{disk}
use rpi_cam.VideoQueue.{init, insert_event, remove_event, VideoQueue}
use rpi_cam.VideoQueue.History.{run, step, removes}
use rpi_cam.Rtsp.Live.{
  start_video, make_sdp, describe_camera, watch, get_instance, new_stream, set_stream, play_stream,
}
use rpi_cam.Rtsp.LiveTests.{live_env, left_by, camera, camera-IsValid}
use rpi_cam.Program.{
  Machine, Program, main, launch, read_configs, start_http, get_singleton, no_configs,
  camera_thread,
}
use rpi_cam.Camera.{
  unset, set_v4l2_format, set_v4l2_buffer, map_buffers, init as init_camera, Device, Capture,
}
use rpi_cam.Camera.Tests.{meta, round, late}
use rpi_cam.Camera.Frames.{captured}
use rpi_cam.VideoQueue.Delivery.{distribute_turns, due_copies}
use rpi_cam.VideoQueue.Tests.{with_motion}
use rpi_cam.Program.Frames.{camera_thread-due_copies}
use rpi_cam.Program.Start.{IsLaunched, main-cases}

abbrev unset_video : VideoConfig
unset_video = record {
  width = pos 0;
  height = pos 0;
  frame_rate = "";
  format = "";
  split_seconds = pos 0;
  duration = pos 0;
  vid_path = "";
  maintain_sec = pos 0;
}

abbrev unset_camera : CameraConfig
unset_camera = record {
  device_path = "";
  metadata = record { type = 0; width = pos 0; height = pos 0 };
  fps = pos 0;
}

-- A machine whose `config.json` cannot be read, with one program in the directory.
abbrev machine : Machine
machine = record {
  json = λ key. none;
  formats = record { rgb24 = 1; yuyv = 2; mjpeg = 3 };
  new_http = blank;
  new_video = unset_video;
  new_camera = unset_camera;
  curl = link true;
  printing = printing;
  handler = sender;
  boot = second_boot;
  disk = disk;
  programs = "motion" ∷ [];
  env = live_env 5 [];
  env' = live_env 6 [];
  before = removes "motion" ∷ [];
  during = [];
}

abbrev fresh : Program
fresh = record {
  config = none;
  http = none;
  events = no_events;
  event_names = [];
  queue = camera;
  stream = none;
}

abbrev launched : Option ℕ × Program
launched = left_by (some 9, fresh) (main machine ("rpi_cam" ∷ "10.0.0.1" ∷ []) fresh)

launches : main machine ("rpi_cam" ∷ "10.0.0.1" ∷ []) fresh ≡ ok launched
unfolding main launch read_configs start_http get_singleton no_configs get_config set_http set_video
    set_camera start_event start_video make_sdp describe_camera watch run step insert_event
    remove_event find emplace erase init get_instance new_stream set_stream play_stream
launches = refl

main-cases_example :
    ((◌≢◌ {A = ℕ} 2 2) × (launched.0 ≡ some 1) × (launched.1 ≡ fresh))
    ⊎ ((◌≡◌ {A = ℕ} 2 2) × (launched.0 ≡ none) × IsLaunched machine fresh launched.1)
main-cases_example =
    main-cases machine ("rpi_cam" ∷ "10.0.0.1" ∷ []) fresh launched.1 launched.0 camera-IsValid
      launches

launched_accepts : (launched.0 ≡ none) × (launched.1.events.threads ≡ 0 ∷ [])
unfolding main launch read_configs start_http get_singleton no_configs get_config set_http set_video
    set_camera start_event start_video make_sdp describe_camera watch run step insert_event
    remove_event find emplace erase init get_instance new_stream set_stream play_stream
launched_accepts = (refl, refl)

-- A camera whose buffers are mapped.
abbrev open_camera : Device
open_camera = record {
  opens = true;
  queries = true;
  sets_format = true;
  sets_rate = true;
  grants = some 8;
  buffer_queries = λ i. true;
  mmaps = λ i. some 4;
}

abbrev waiting : Capture
waiting = record {
  camera_buffers = λ i. unset;
  queued = [];
  streaming = false;
  queue = record with_motion { input = [] };
}

opened : (init_camera open_camera (λ i. true) waiting).0 ≡ 0
unfolding init_camera set_v4l2_format set_v4l2_buffer map_buffers
opened = refl

camera_thread-due_copies_example :
    (code : Option ℕ) × (left : Capture) × (q : VideoQueue) × (camera_thread open_camera
        (λ i. true)
        true
        meta
        (round 0 ∷ round 1 ∷ late ∷ round 2 ∷ [])
        waiting
      ≡ ok (code, left))
    × (distribute_turns (10 ∷ 11 ∷ []) left.queue ≡ ok q)
    × (find "motion" q.output
        ≡ some ([] ++ due_copies 5 2 3 (10 ∷ 11 ∷ []) (captured meta (round 0 ∷ round 1 ∷ []))))
    × (q.input ≡ [])
unfolding find
camera_thread-due_copies_example =
    camera_thread-due_copies open_camera (λ i. true) meta (round 0 ∷ round 1 ∷ late ∷ round 2 ∷ [])
      waiting (10 ∷ 11 ∷ []) "motion" 0 [] opened
      (
        (omega arith, (4, refl, omega arith)),
        ((omega arith, (4, refl, omega arith)), (tt, ((omega arith, (4, refl, omega arith)), tt))),
      )
      refl refl (refl, tt) (omega arith, tt) refl refl refl
