-- ===== src/Rtsp/Streaming.antt =====
-- The handlers that a session can choose, over what they share: the saved descriptions, the
-- multicast stream and the queue.
use rpi_cam.Base.{Option, some, String}
use rpi_cam.Base.Int.{ℤ, pos}
use rpi_cam.Base.Outcome.{Outcome, ok, null_pointer, deref, ◌>>=◌}
use rpi_cam.VideoQueue.{VideoQueue}
use rpi_cam.Rtsp.Session.{Handler, HandlerKind, gst_live, gst_file}
use rpi_cam.Rtsp.File.{
  GstFile, FileEnv, Files, create_file, destroy_file, option_request, describe_request,
  setup_request,
}
use rpi_cam.Rtsp.Playing.{play_request, pause_request, teardown_request}
use rpi_cam.Rtsp.Live.{
  Multicast, LiveEnv, get_instance, make_sdp, option_request_live, setup_request_live,
}

-- `RTSPSessionHandlerGstLive` or `RTSPSessionHandlerGstFile`.
pub data Streaming : Type 0 where
  live : Streaming
  file : GstFile → Streaming

pub record Shared : Type 0 where
  pub files : Files
  pub instance : Option Multicast
  pub queue : VideoQueue

module _ (file_env : FileEnv) (live_env : LiveEnv) where
  abbrev pub create : HandlerKind → Shared → Streaming × Shared
  create gst_live w = (live, record w { instance = some (get_instance "" 0 w.instance) })
  create gst_file w = (file create_file, w)

  abbrev pub on_option : Streaming → Shared → Outcome (ℤ × String × Streaming × Shared)
  on_option live w = ok (option_request_live.0, option_request_live.1, live, w)
  on_option (file h) w =
      option_request h w.files >>= λ r. ok (r.0, r.1, file r.2, record w { files = r.3 })

  abbrev pub on_describe : String → Streaming → Shared → Outcome (ℤ × String × Streaming × Shared)
  on_describe path live w = deref null_pointer w.instance >>= λ m.
      make_sdp live_env m w.queue >>= λ r.
      ok (r.0, r.1, live, record w { instance = some r.2; queue = r.3 })
  on_describe path (file h) w = describe_request file_env path h w.files >>= λ r.
      ok (r.0, r.1, file r.2, record w { files = r.3 })

  abbrev pub on_setup :
      String → String → String → Streaming → Shared → Outcome (ℤ × String × Streaming × Shared)
  on_setup path addr ports live w = deref null_pointer w.instance >>= λ m.
      ok ((setup_request_live m).0, (setup_request_live m).1, live, w)
  on_setup path addr ports (file h) w = setup_request file_env path addr ports h w.files >>= λ r.
      ok (r.0, r.1, file r.2, record w { files = r.3 })

  abbrev pub on_play : String → Streaming → Shared → Outcome (ℤ × String × Streaming × Shared)
  on_play range live w = ok (pos 0, "", live, w)
  on_play range (file h) w = play_request file_env range h w.files >>= λ r.
      ok (r.0, r.1, file r.2, record w { files = r.3 })

  abbrev pub on_pause : String → Streaming → Shared → Outcome (ℤ × Streaming × Shared)
  on_pause range live w = ok (pos 0, live, w)
  on_pause range (file h) w =
      pause_request file_env range h w.files >>= λ r. ok (r.0, file r.1, record w { files = r.2 })

  abbrev pub on_teardown : Streaming → Shared → Outcome (ℤ × Streaming × Shared)
  on_teardown live w = ok (pos 0, live, w)
  on_teardown (file h) w =
      teardown_request file_env h w.files >>= λ r. ok (r.0, file r.1, record w { files = r.2 })

  abbrev pub on_destroy : Streaming → Shared → Outcome Shared
  on_destroy live w = ok w
  on_destroy (file h) w = destroy_file h w.files >>= λ files. ok (record w { files = files })

  -- The interface that the session uses.
  abbrev pub streaming : Handler Streaming Shared
  streaming = record {
    create = create;
    option_request = on_option;
    describe_request = on_describe;
    setup_request = on_setup;
    play_request = on_play;
    pause_request = on_pause;
    teardown_request = on_teardown;
    destroy = on_destroy;
  }
