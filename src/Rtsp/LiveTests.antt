-- ===== src/Rtsp/LiveTests.antt =====
-- The multicast stream at concrete answers of GStreamer.
use rpi_cam.Base.{ℕ, ◌≡◌, refl, true, false, none, some, List, [], ◌∷◌, inl, ◌+◌, ◌<◌, ◌^◌, arith}
use rpi_cam.Base.Int.{pos}
use rpi_cam.Base.Dict.{find, emplace, erase}
use rpi_cam.Base.Outcome.{Outcome, ok, fault, div_by_zero}
use rpi_cam.VideoQueue.{
  VideoQueue, VideoBuffer, ThreadInfo, init, Popped, frame, insert_event, remove_event,
}
use rpi_cam.VideoQueue.History.{Call, turns, run, step, IsValid, init-IsValid}
use rpi_cam.Rtsp.Session.{Request, Response, Session, Library, describe, respond_to}
use rpi_cam.Rtsp.Sdp.{fresh_info}
use rpi_cam.Rtsp.Live.{
  Multicast, LiveEnv, new_stream, get_instance, watch, describe_camera, make_sdp, set_stream,
  play_stream, start_video,
}
use rpi_cam.Rtsp.Broadcast.{make_sdp-IsValid, make_sdp-slow}
use rpi_cam.Rtsp.Startup.{start_video-live}
use rpi_cam.Rtsp.Feed.{FeedEnv, sdp_feed, timestamp_of, frame_duration}
use rpi_cam.Rtsp.Clock.{feed_all, ticks, feed_all-ticks}
use rpi_cam.Rtsp.File.{FileEnv}
use rpi_cam.Rtsp.Streaming.{Streaming, live, Shared, streaming}
use rpi_cam.Rtsp.Connections.{respond_to-make_sdp}

abbrev pub live_env : ℕ → List Call → LiveEnv
live_env p calls = record {
  links = true;
  pointer = p;
  during = calls;
  samples = [];
  ends = true;
  as_text = λ message. "v=0";
  now = 1732600000;
  ip_addr = "10.0.0.1";
}

abbrev no_infos : ℕ → ThreadInfo
no_infos p = record { is_run = false; fps = 0 }

abbrev pub stream : Multicast
stream = record {
  pipeline = none;
  codec_info = fresh_info;
  sdp_str = "";
  ip_addr = "239.255.1.1";
  port = 5004;
  thread_info = none;
}

abbrev described_stream : Multicast
described_stream = record stream { sdp_str = "v=0" }

-- What a run that succeeds has left.
abbrev pub left_by {ℓ} : {A : Type ℓ} → A → Outcome A → A
left_by other (fault e) = other
left_by other (ok a) = a

abbrev pub camera : VideoQueue
camera = init 30 no_infos

abbrev described_queue : VideoQueue
described_queue = (left_by (pos 0, "", stream, camera) (make_sdp (live_env 5 []) stream camera)).3

makes_sdp :
    make_sdp (live_env 5 []) stream camera ≡ ok (pos 0, "v=0", described_stream, described_queue)
unfolding make_sdp describe_camera watch run step insert_event remove_event find emplace erase init
makes_sdp = refl

pub camera-IsValid : IsValid camera
camera-IsValid = init-IsValid 30 no_infos (omega arith)

make_sdp-IsValid_example :
    IsValid described_queue
    × (find "sdp" described_queue.thread_info ≡ none)
    × (find "sdp" described_queue.output ≡ none)
make_sdp-IsValid_example =
    make_sdp-IsValid (live_env 5 []) stream described_stream camera described_queue "v=0" refl
      camera-IsValid makes_sdp

abbrev shot : VideoBuffer
shot = record {
  metadata = record { type = 0; width = pos 2; height = pos 1 };
  timestamp = 0;
  buffer = 1 ∷ 2 ∷ [];
  size = 2;
}

abbrev slow_camera : VideoQueue
slow_camera = record {
  device_fps = 10;
  input = shot ∷ [];
  current_frame_no = 0;
  output = [];
  thread_info = [];
  infos = no_infos;
  q_enable = true;
}

unknown : (find "sdp" slow_camera.thread_info ≡ none) × (find "sdp" slow_camera.output ≡ none)
unfolding find
unknown = (refl, refl)

make_sdp-slow_example : make_sdp (live_env 5 (turns 7 ∷ [])) stream slow_camera ≡ fault div_by_zero
make_sdp-slow_example =
    make_sdp-slow (live_env 5 (turns 7 ∷ [])) stream slow_camera shot [] 7 [] refl refl refl
      unknown.0 unknown.1 (omega arith) refl refl (omega arith)

abbrev started : Multicast × VideoQueue
started = left_by (stream, camera) (start_video (live_env 5 []) (live_env 6 []) [] none camera)

starts : start_video (live_env 5 []) (live_env 6 []) [] none camera ≡ ok started
unfolding start_video make_sdp describe_camera watch run step insert_event remove_event find emplace
    erase init get_instance new_stream set_stream play_stream
starts = refl

start_video-live_example :
    IsValid started.1 × ((p : ℕ) × (find "live" started.1.thread_info ≡ some p))
start_video-live_example =
    start_video-live (live_env 5 []) (live_env 6 []) [] none started.0 camera started.1
      camera-IsValid starts

abbrev feed_env : FeedEnv
feed_env = record { is_app_src = true; allocates = true; maps = true; pushes = true }

abbrev calls : List (FeedEnv × Popped)
calls = (feed_env, frame shot) ∷ (feed_env, frame shot) ∷ []

feeds_two : feed_all sdp_feed calls 0 ≡ ok (0 ∷ 33333333 ∷ [], 2)
unfolding sdp_feed timestamp_of frame_duration
feeds_two = refl

feed_all-ticks_example : (0 ∷ 33333333 ∷ [] ≡ ticks 0 2) × (2 ≡ 0 + 2) × (2 < 2 ^ 31)
feed_all-ticks_example = feed_all-ticks calls 0 (0 ∷ 33333333 ∷ [], 2) (omega arith) (inl feeds_two)

abbrev asked : Request
asked = record {
  method = describe;
  target = "rtsp://cam/live";
  cseq = "2";
  transport = "";
  range = "";
}

abbrev library : Library
library = record {
  initial_result = 200;
  prepared_length = λ body. "3";
  client_address = "10.0.0.2";
}

abbrev session : Session Streaming
session = record {
  uuid = "u";
  path = ("/live", "/dev/video") ∷ [];
  url_path = "/live";
  file_path = "/dev/video";
  handler = some live;
}

abbrev shared : Shared
shared = record { files = []; instance = some described_stream; queue = described_queue }

abbrev file_env : FileEnv
file_env = record {
  elements_made = true;
  samples = [];
  ends = true;
  as_text = λ message. "v=0";
  saves = true;
  now = 1732600000;
  ip_addr = "10.0.0.1";
  scan_ports = λ text. (none, none);
  local_port = 40000;
  changes_state = true;
  rereads = true;
  packets = [];
}

respond_to-make_sdp_example :
    (answer : Response) × (respond_to
        (streaming file_env (live_env 8 []))
        library
        describe
        ""
        asked
        session
        live
        shared
      ≡ ok (some answer, live, shared))
    × (answer.result ≡ 200)
    × (answer.body ≡ "v=0")
respond_to-make_sdp_example =
    respond_to-make_sdp file_env (live_env 5 []) (live_env 8 []) library "" asked session shared
      stream described_stream camera described_queue "v=0" makes_sdp refl refl
