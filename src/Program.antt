-- ===== src/Program.antt =====
-- main.cpp and Singleton.hpp: how the parts of the program are started.
pub mod Start
pub mod Frames
pub mod Uploads
mod Tests
mod UploadTests
use rpi_cam.Base.{ℕ, ◌==◌, Bool, Option, none, some, List, [], ◌∷◌, String, length, if◌then◌else◌}
use rpi_cam.Base.Outcome.{Outcome, ok, null_pointer, deref, ◌>>=◌}
use rpi_cam.Config.Tree.{Tree}
use rpi_cam.Config.Camera.{CameraConfig, PixelFormats, VideoMeta, set_file as set_camera}
use rpi_cam.Config.Server.{HttpConfig, set_file as set_http}
use rpi_cam.Config.Recording.{VideoConfig, set_file as set_video}
use rpi_cam.Config.Program.{get_config}
use rpi_cam.VideoQueue.{VideoQueue}
use rpi_cam.VideoQueue.History.{Call, run}
use rpi_cam.Camera.{Device, Round, Capture, init as init_camera, start as start_camera}
use rpi_cam.Http.Sender.{Curl, Printing, EventHandlerHttp}
use rpi_cam.Http.Start.{Boot, HttpInitializer, init as init_http}
use rpi_cam.Event.Handler.{EventHandler, Disk, init as init_events}
use rpi_cam.Rtsp.Live.{Multicast, LiveEnv, start_video}

-- `Singleton::get_instance`: the object is made once.
unfoldable pub get_singleton {ℓ} : {T : Type ℓ} → T → Option T → T × Option T
get_singleton fresh none = (fresh, some fresh)
get_singleton fresh (some t) = (t, some t)

-- `class ProgramConfig`
pub record ProgramConfig : Type 0 where
  pub http_config : Option HttpConfig
  pub video_config : Option VideoConfig
  pub camera_config : Option CameraConfig

-- The constructor.
unfoldable pub no_configs : ProgramConfig
no_configs = record { http_config = none; video_config = none; camera_config = none }

-- What main is given from outside: `config.json`, the members that `new` leaves in the three
-- configurations, the answers to the HTTP part, the programs and the directory `event`, the answers
-- of GStreamer, and what the other threads do before the description of the camera is made and
-- before it is streamed.
pub record Machine : Type 0 where
  pub json : String → Option Tree
  pub formats : PixelFormats
  pub new_http : HttpConfig
  pub new_video : VideoConfig
  pub new_camera : CameraConfig
  pub curl : Curl
  pub printing : Printing
  pub handler : EventHandlerHttp
  pub boot : Boot
  pub disk : Disk
  pub programs : List String
  pub env : LiveEnv
  pub env' : LiveEnv
  pub before : List Call
  pub during : List Call

-- The singletons of the program and the objects that main allocates.
pub record Program : Type 0 where
  pub config : Option ProgramConfig
  pub http : Option HttpInitializer
  pub events : EventHandler
  pub event_names : List String
  pub queue : VideoQueue
  pub stream : Option Multicast

-- The three getters that main calls, whose answers it does not use.
unfoldable pub read_configs : Machine → ProgramConfig → Outcome ProgramConfig
unfolding get_config set_http set_video set_camera
read_configs m c = do
  (_, http) ← get_config (set_http m.json) m.new_http c.http_config
  (_, vid) ← get_config (set_video m.json) m.new_video c.video_config
  (_, cam) ← get_config (set_camera m.formats m.json) m.new_camera c.camera_config
  ok (record { http_config = http; video_config = vid; camera_config = cam })

-- The thread of the camera: the capture starts whatever `init` has answered.
unfoldable pub camera_thread :
    Device → (ℕ → Bool) → Bool → VideoMeta → List Round → Capture → Outcome (Option ℕ × Capture)
unfolding init_camera start_camera
camera_thread d granted streams metadata rounds s =
    start_camera streams metadata rounds (init_camera d granted s).1

-- `HttpInitializer` and its `init` and `start`, whose answers are not used.
unfoldable pub start_http : Machine → ProgramConfig → Outcome HttpInitializer
unfolding get_config set_http init_http
start_http m c = do
  (found, _) ← get_config (set_http m.json) m.new_http c.http_config
  config ← deref null_pointer found
  (_, http) ←
      init_http m.curl m.printing m.handler m.boot
        (record { config = config; daemon = none; uuid = ""; written = []; sent = [] })
  ok http

-- The rest of main, up to the accepting of RTSP connections, which does not end.
unfoldable pub launch : Machine → Program → Outcome (Option ℕ × Program)
unfolding get_singleton no_configs read_configs start_http init_events start_video
launch m p = do
  config ← read_configs m (get_singleton no_configs p.config).0
  http ← start_http m config
  let (events, names) = init_events m.disk m.programs p.events
  queue ← run m.before p.queue
  (stream, queue') ← start_video m.env m.env' m.during p.stream queue
  ok (
    none,
    record {
      config = some config;
      http = some http;
      events = events;
      event_names = names;
      queue = queue';
      stream = some stream;
    },
  )

-- `main`: the code that it returns, or `none` while it accepts connections.
unfoldable pub main : Machine → List String → Program → Outcome (Option ℕ × Program)
unfolding launch
main m argv p = if length argv == 2 then launch m p else ok (some 1, p)
