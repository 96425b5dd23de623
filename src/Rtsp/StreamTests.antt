-- ===== src/Rtsp/StreamTests.antt =====
-- The streams at concrete answers of GStreamer.
use rpi_cam.Rtsp.Playing.{
  wait_first, noted, rtp_info_text, play_changed, play_request, await_first,
  rtp_appsink_new_sample_callback, teardown_request,
}
use rpi_cam.Base.{ℕ, ◌≡◌, refl, true, none, some, List, [], ◌∷◌, ◌⊎◌, inr}
use rpi_cam.Base.Int.{pos}
use rpi_cam.Base.Text.{before_char}
use rpi_cam.Base.Dict.{find, emplace}
use rpi_cam.Base.Outcome.{ok, fault, null_pointer, use_after_free, blocked}
use rpi_cam.Rtsp.Sdp.{fresh_info, Structure, new_sample_callback, multicast_sdp_new_sample_callback}
use rpi_cam.Rtsp.Description.{learn, IsRate, learn-IsRate}
use rpi_cam.Rtsp.File.{
  RtpInfo, GstFile, Packet, FileEnv, Files, create_file, describe_new, describe_request,
  setup_request,
}
use rpi_cam.Rtsp.Cached.{describe_request-cached}
use rpi_cam.Rtsp.First.{Starts, play_request-cases, play_request-again}
use rpi_cam.Rtsp.Ownership.{FileRequest, sets_up, file_step, file_run, teardown-file_run}

abbrev stated : Structure
stated = record {
  has_field = λ name. true;
  get_string = λ name. some "30";
  get_int = λ name. some (pos 90000);
  get_uint = λ name. some 7;
}

learn-IsRate_example :
    IsRate "30" (learn new_sample_callback (stated ∷ []) fresh_info)
    × IsRate "30" (learn multicast_sdp_new_sample_callback (stated ∷ []) fresh_info)
learn-IsRate_example = learn-IsRate "30" (stated ∷ []) (inr refl, tt)

abbrev packet : Packet
packet = record { pulled = true; header = some (5, 9); maps = true }

abbrev file_env : FileEnv
file_env = record {
  elements_made = true;
  samples = [];
  ends = true;
  as_text = λ message. "v=0";
  saves = true;
  now = 1732600000;
  ip_addr = "10.0.0.1";
  scan_ports = λ text. (some 5000, some 5001);
  local_port = 40000;
  changes_state = true;
  rereads = true;
  packets = packet ∷ [];
}

abbrev described : GstFile
described = record { rtp_info = none; codec_info = some fresh_info }

abbrev saved : Files
saved = ("a.sdp", "v=0") ∷ []

describes_new :
    describe_request file_env "a.mp4" create_file [] ≡ ok (pos 0, "v=0", described, saved)
unfolding describe_request describe_new find emplace before_char create_file
describes_new = refl

same_stem : before_char b'.' "a.mkv" ≡ before_char b'.' "a.mp4"
unfolding before_char
same_stem = refl

describe_request-cached_example :
    describe_request file_env "a.mkv" create_file saved ≡ ok (pos 0, "v=0", create_file, saved)
describe_request-cached_example =
    describe_request-cached file_env file_env "a.mp4" "a.mkv" "v=0" create_file described
      create_file [] saved describes_new same_stem

abbrev ready : RtpInfo
ready = record {
  rtp_socket = some true;
  rtcp_socket = some true;
  init_seq = 0;
  init_rtptime = 0;
  pipeline = some 1;
  first = true;
}

abbrev set_up : GstFile
set_up = record { rtp_info = some ready; codec_info = none }

abbrev playing : GstFile
playing = record { rtp_info = some (noted 5 9 ready); codec_info = none }

plays_or_waits :
    ((seq time : ℕ) × Starts (packet ∷ []) seq time
      × (play_request file_env "npt=0-" set_up []
          ≡ ok (
            pos 0,
            rtp_info_text (noted seq time ready),
            record set_up { rtp_info = some (noted seq time ready) },
            [],
          )))
    ⊎ (((seq time : ℕ) → Starts (packet ∷ []) seq time → ⊥)
        × (play_request file_env "npt=0-" set_up [] ≡ fault blocked))
plays_or_waits =
    play_request-cases file_env "npt=0-" set_up [] ready 0 true refl refl refl refl refl refl

plays_first :
    play_request file_env "npt=0-" set_up []
    ≡ ok (pos 0, rtp_info_text (noted 5 9 ready), playing, [])
unfolding play_request play_changed wait_first await_first rtp_appsink_new_sample_callback
plays_first = refl

plays_again :
    play_request file_env "npt=7-" playing []
    ≡ ok (pos 0, rtp_info_text (noted 5 9 ready), playing, [])
plays_again =
    play_request-again file_env file_env "npt=0-" "npt=7-" (rtp_info_text (noted 5 9 ready)) set_up
      playing [] [] plays_first refl refl refl

abbrev requests : List (FileEnv × FileRequest)
requests = (file_env, sets_up "a.mp4" "10.0.0.2" "5000-5001") ∷ []

sets_up_first : file_run requests create_file [] ≡ ok (set_up, [])
unfolding file_run file_step setup_request create_file
sets_up_first = refl

teardown-file_run_example :
    ((set_up.rtp_info ≡ none) × (teardown_request file_env set_up [] ≡ fault null_pointer))
    ⊎ (teardown_request file_env set_up [] ≡ ok (pos 1, set_up, []))
    ⊎ ((file_env.changes_state ≡ true)
        × (teardown_request file_env set_up [] ≡ fault use_after_free))
teardown-file_run_example = teardown-file_run requests file_env set_up [] [] sets_up_first
