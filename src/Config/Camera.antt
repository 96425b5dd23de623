-- ===== src/Config/Camera.antt =====
-- CameraConfig.cpp and CameraConfig.hpp: the configuration of the camera device.
use rpi_cam.Base.{ℕ, Option, none, some, String, str_eq, ◌≡◌, refl, if◌then◌else◌}
use rpi_cam.Base.Int.{ℤ}
use rpi_cam.Base.Outcome.{Outcome, ok}
use rpi_cam.Config.Tree.{Tree, get_string, get_int, reading}

-- `class VideoMeta`
pub record VideoMeta : Type 0 where
  pub type : ℕ
  pub width : ℤ
  pub height : ℤ

-- `class CameraConfig`
pub record CameraConfig : Type 0 where
  pub device_path : String
  pub metadata : VideoMeta
  pub fps : ℤ

-- The kernel's codes of the three pixel formats.
pub record PixelFormats : Type 0 where
  pub rgb24 : ℕ
  pub yuyv : ℕ
  pub mjpeg : ℕ

abbrev pub typed : CameraConfig → ℕ → CameraConfig
typed c type = record c { metadata = record c.metadata { type = type } }

-- The end of the `try` block: the format's code, or 1.
unfoldable pub set_format : PixelFormats → String → CameraConfig → ℕ × CameraConfig
set_format formats format c =
    if str_eq format "V4L2_PIX_FMT_RGB24"
    then (0, typed c formats.rgb24)
    else if str_eq format "V4L2_PIX_FMT_YUYV"
    then (0, typed c formats.yuyv)
    else if str_eq format "V4L2_PIX_FMT_MJPEG"
    then (0, typed c formats.mjpeg)
    else (1, c)

-- The size and the rate, once the width, the height and the format have been read.
unfoldable pub set_size :
    PixelFormats → Tree → ℤ → ℤ → String → CameraConfig → Outcome (ℕ × CameraConfig)
unfolding set_format
set_size formats props width height format c =
    let c = record c { metadata = record c.metadata { width = width; height = height } } in
    reading 0 c (get_int props "fps") λ fps. ok (set_format formats format (record c { fps = fps }))

-- `CameraConfig::read_config`. A missing key is logged and answered 0.
unfoldable pub read_config : PixelFormats → Tree → CameraConfig → Outcome (ℕ × CameraConfig)
unfolding set_size
read_config formats props c = reading 0 c (get_string props "device_path") λ path.
    let c = record c { device_path = path } in
    reading 0 c (get_int props "width") λ width. reading 0 c (get_int props "height") λ height.
      reading 0 c (get_string props "format") λ format. set_size formats props width height format c

-- `CameraConfig::set_file`
unfoldable pub set_file :
    PixelFormats → (String → Option Tree) → CameraConfig → Outcome (ℕ × CameraConfig)
unfolding read_config
set_file formats json c = elim (json "camera") [
  | none ↦ ok (1, c)
  | some props ↦ read_config formats props c
]

-- A file without the camera's rate is answered 0, and the rate keeps the value that the object had
-- before it was read.
pub set_file_no_rate :
    (formats : PixelFormats) (json : String → Option Tree) (props : Tree) (c : CameraConfig)
    (path format : String) (width height : ℤ)
    → json "camera" ≡ some props
    → props.leaf "device_path" ≡ some path
    → get_int props "width" ≡ ok (some width)
    → get_int props "height" ≡ ok (some height)
    → props.leaf "format" ≡ some format
    → props.leaf "fps" ≡ none
    → (d : CameraConfig) × (set_file formats json c ≡ ok (0, d)) × (d.fps ≡ c.fps)
unfolding set_file read_config set_size
set_file_no_rate formats json props c path format width height j p w h f r = (
  record c { device_path = path; metadata = record c.metadata { width = width; height = height } },
  rw (j, set_file, read_config, p, w, h, f, set_size, r) refl,
  refl,
)
