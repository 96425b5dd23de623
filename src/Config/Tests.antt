-- ===== src/Config/Tests.antt =====
-- The configurations at concrete files.
use rpi_cam.Config.Tree.{get_int, Tree}
use rpi_cam.Base.{
  ◌↔◌, ◌≤◌, ◌≡◌, refl, Option, none, some, [], ◌∷◌, String, arith, str_eq, if◌then◌else◌,
}
use rpi_cam.Base.Int.{ℤ, pos}
use rpi_cam.Base.Text.{stoi, Stoi, number, invalid_argument, out_of_range}
use rpi_cam.Base.Dict.{Dict, find}
use rpi_cam.Base.Outcome.{ok}
use rpi_cam.Config.Camera.{CameraConfig, VideoMeta, PixelFormats, set_file_no_rate}
use rpi_cam.Config.Recording.{VideoConfig, split_time, split_time-le}
use rpi_cam.Config.Server.{HttpConfig, IsRead, read_config-IsRead}
use rpi_cam.Config.Program.{get_config, get_config_failed}
use rpi_cam.Config.Camera as Camera
use rpi_cam.Config.Server as Server

abbrev int_of : Stoi → Option ℤ
int_of (number z) = some z
int_of invalid_argument = none
int_of out_of_range = none

abbrev tree : Dict String → Tree
tree leaves = record { leaf = λ key. find key leaves; to_int = λ text. int_of (stoi text) }

abbrev server : Tree
server = tree (
    ("cert_file", "crt")
    ∷ ("private_file", "key")
    ∷ ("thread_pool_size", "4")
    ∷ ("tls", "0")
    ∷ ("port", "9000")
    ∷ ("remote_server", "cam")
    ∷ ("upload_clients", "3")
    ∷ [])

abbrev pub blank : HttpConfig
blank = record {
  crt_file = "";
  private_file = "";
  thread_pool = pos 0;
  tls_enabled = pos 0;
  port = pos 0;
  remote_server = "";
  upload_user = pos 0;
}

abbrev filled : HttpConfig
filled = record {
  crt_file = "crt";
  private_file = "key";
  thread_pool = pos 4;
  tls_enabled = pos 0;
  port = pos 9000;
  remote_server = "cam";
  upload_user = pos 3;
}

server-read : Server.read_config server blank ≡ ok (0, filled)
unfolding Server.read_config stoi find
server-read = refl

read_config-IsRead_example : IsRead server filled
read_config-IsRead_example = read_config-IsRead server blank filled server-read

abbrev formats : PixelFormats
formats = record { rgb24 = 1; yuyv = 2; mjpeg = 3 }

-- The camera of the sample configuration, which has no rate.
abbrev sample_camera : Tree
sample_camera = tree (
    ("device_path", "/dev/video0")
    ∷ ("width", "640")
    ∷ ("height", "480")
    ∷ ("format", "V4L2_PIX_FMT_RGB24")
    ∷ [])

abbrev sample : String → Option Tree
sample key = if str_eq key "camera" then some sample_camera else none

abbrev unread : CameraConfig
unread = record {
  device_path = "";
  metadata = record { type = 0; width = pos 0; height = pos 0 };
  fps = pos 77;
}

sample-leaf :
    (sample_camera.leaf "device_path" ≡ some "/dev/video0")
    × (sample_camera.leaf "width" ≡ some "640")
    × (sample_camera.leaf "height" ≡ some "480")
    × (sample_camera.leaf "format" ≡ some "V4L2_PIX_FMT_RGB24")
    × (sample_camera.leaf "fps" ≡ none)
unfolding find
sample-leaf = (refl, refl, refl, refl, refl)

sample-get_int :
    (get_int sample_camera "width" ≡ ok (some (pos 640)))
    × (get_int sample_camera "height" ≡ ok (some (pos 480)))
unfolding find stoi
sample-get_int = (refl, refl)

without_rate :
    (d : CameraConfig) × (Camera.set_file formats sample unread ≡ ok (0, d)) × (d.fps ≡ pos 77)
without_rate =
    set_file_no_rate formats sample sample_camera unread "/dev/video0" "V4L2_PIX_FMT_RGB24"
      (pos 640) (pos 480) refl sample-leaf.0 sample-get_int.0 sample-get_int.1 sample-leaf.3
      sample-leaf.4

abbrev ten_seconds : VideoConfig
ten_seconds = record {
  width = pos 640;
  height = pos 480;
  frame_rate = "30/1";
  format = "YUY2";
  split_seconds = pos 10;
  duration = pos 2;
  vid_path = "videos";
  maintain_sec = pos 60;
}

split_of_ten : (split_time ten_seconds ≡ ok (pos 10000000000)) ↔ (10 ≤ 2)
split_of_ten = split_time-le ten_seconds 10 refl

-- The server of a file that lacks the port.
abbrev no_port : String → Option Tree
no_port key = some (
    tree (
      ("cert_file", "crt")
      ∷ ("private_file", "key")
      ∷ ("thread_pool_size", "5")
      ∷ ("tls", "0")
      ∷ []))

abbrev partly : HttpConfig
partly = record blank { crt_file = "crt"; private_file = "key"; thread_pool = pos 5 }

no_port-fails : Server.set_file no_port blank ≡ ok (1, partly)
unfolding Server.set_file Server.read_config stoi find
no_port-fails = refl

failed_config :
    (get_config (Server.set_file no_port) blank none ≡ ok (none, some partly))
    × (get_config (Server.set_file no_port) blank (some partly) ≡ ok (some partly, some partly))
failed_config =
    get_config_failed (Server.set_file no_port) blank partly 1 no_port-fails (λ e. omega (arith, e))
