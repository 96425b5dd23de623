-- ===== src/Rtsp/Pads.antt =====
-- The callbacks that link the demultiplexer of a file to the rest of its pipeline, at the answers
-- of GStreamer: `demux_pad_added` of DESCRIBE and `setup_demux_pad_added` of SETUP.
use rpi_cam.Base.{Bool, true, false, ◌&&◌, String, if◌then◌else◌}
use rpi_cam.Rtsp.Target.{has_prefix}

-- Are there capabilities, the name of their structure, has the next element a sink pad, and does
-- the link succeed.
pub record PadEnv : Type 0 where
  pub has_caps : Bool
  pub type : String
  pub has_sink : Bool
  pub links : Bool

-- Is the stream linked, and is everything released that was obtained.
pub record PadResult : Type 0 where
  pub linked : Bool
  pub released : Bool

-- The capabilities of a stream that is not H.264 are not released.
unfoldable pub demux_pad_added : PadEnv → PadResult
demux_pad_added env =
    if env.has_caps
    then (if has_prefix "video/x-h264" env.type
        then record { linked = env.has_sink && env.links; released = true }
        else record { linked = false; released = false })
    else record { linked = false; released = true }
