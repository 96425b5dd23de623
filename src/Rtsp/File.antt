-- ===== src/Rtsp/File.antt =====
-- RTSPSessionHandlerGstFile: the handler that streams a recorded file. What GStreamer, the sockets
-- and the file system answer to a call is its argument `env`.
use Prim.Native.String
use Prim.Native.Nat.{zero, suc}
use rpi_cam.Base.{ℕ, ◌+◌, Bool, true, Option, none, some, List, String, if◌then◌else◌}
use rpi_cam.Base.Int.{ℤ, pos}
use rpi_cam.Base.Text.{before_char}
use rpi_cam.Base.Decimal.{to_string}
use rpi_cam.Base.Dict.{Dict, find, emplace}
use rpi_cam.Base.Outcome.{Outcome, ok, fault, use_after_free, uninitialised, blocked, deref, ◌>>=◌}
use rpi_cam.Rtsp.Sdp.{
  H264CodecInfo, fresh_info, Structure, SdpMessage, file_message, new_sample_callback,
}
use rpi_cam.Rtsp.Description.{learn}

-- `struct RTPSessionInfoGst` with its `RTPSessionInfo`. A socket is `none` for the null pointer,
-- else whether it is open; the pipeline is `none` for the null pointer, else its references.
pub record RtpInfo : Type 0 where
  pub rtp_socket : Option Bool
  pub rtcp_socket : Option Bool
  pub init_seq : ℕ
  pub init_rtptime : ℕ
  pub pipeline : Option ℕ
  pub first : Bool

-- The handler; `none` for the null pointers.
pub record GstFile : Type 0 where
  pub rtp_info : Option RtpInfo
  pub codec_info : Option H264CodecInfo

-- A packet that reaches an appsink: is the sample pulled, the sequence number and the time of its
-- RTP header if that is mapped, and is the buffer mapped.
pub record Packet : Type 0 where
  pub pulled : Bool
  pub header : Option (ℕ × ℕ)
  pub maps : Bool

-- The answers to one request: are the elements made; the samples of DESCRIBE, and whether a
-- message ends it; the text of a message; is the description saved; the time and the address; the
-- ports that `sscanf` finds; the port bound; do the changes of state work; the packets that come
-- while PLAY waits.
pub record FileEnv : Type 0 where
  pub elements_made : Bool
  pub samples : List Structure
  pub ends : Bool
  pub as_text : SdpMessage → String
  pub saves : Bool
  pub now : ℕ
  pub ip_addr : String
  pub scan_ports : String → Option ℕ × Option ℕ
  pub local_port : ℕ
  pub changes_state : Bool
  pub rereads : Bool
  pub packets : List Packet

-- What the handlers of files share: the descriptions that are saved, by path.
abbrev pub Files : Type 0
Files = Dict String

unfoldable pub create_file : GstFile
create_file = record { rtp_info = none; codec_info = none }

-- `gst_object_unref`, which ignores the null pointer.
abbrev pub unref : Option ℕ → Outcome (Option ℕ)
unref none = ok none
unref (some zero) = fault use_after_free
unref (some (suc n)) = ok (some n)

-- `~RTPSessionInfoGst`.
unfoldable pub delete_rtp_info : RtpInfo → Outcome (Option ℕ)
delete_rtp_info info = unref info.pipeline

abbrev pub delete_if_any : Option RtpInfo → Outcome (Option ℕ)
delete_if_any none = ok none
delete_if_any (some info) = delete_rtp_info info

-- `~RTSPSessionHandlerGstFile`.
unfoldable pub destroy_file : GstFile → Files → Outcome Files
unfolding delete_rtp_info
destroy_file h files = delete_if_any h.rtp_info >>= λ _. ok files

unfoldable pub option_request : GstFile → Files → Outcome (ℤ × String × GstFile × Files)
option_request h files = ok (pos 0, "DESCRIBE, OPTIONS, SETUP, PLAY, TEARDOWN, PAUSE", h, files)

abbrev pub sdp_path : String → String
sdp_path path = String.◌++◌ (before_char b'.' path) ".sdp"

-- DESCRIBE of a file that has no saved description.
unfoldable pub describe_new :
    FileEnv → String → GstFile → Files → Outcome (ℤ × String × GstFile × Files)
unfolding fresh_info file_message new_sample_callback
describe_new env path h files =
    let info = learn new_sample_callback env.samples fresh_info in
    let sdp = env.as_text (file_message env.now env.ip_addr info) in
    let h' : GstFile = record h { codec_info = some info } in
    if env.elements_made
    then (if env.ends
        then ok (
            if env.saves
            then (pos 0, sdp, h', emplace (sdp_path path) sdp files)
            else (pos 2, sdp, h', files))
        else fault blocked)
    else ok (pos 1, "", record h { codec_info = none }, files)

unfoldable pub describe_request :
    FileEnv → String → GstFile → Files → Outcome (ℤ × String × GstFile × Files)
unfolding describe_new before_char
describe_request env path h files = elim (find (sdp_path path) files) [
  | none ↦ describe_new env path h files
  | some sdp ↦ ok (pos 0, sdp, h, files)
]

-- The `new RTPSessionInfoGst()` and `new RTPSessionInfo()` of a SETUP.
abbrev pub fresh_rtp_info : RtpInfo
fresh_rtp_info = record {
  rtp_socket = none;
  rtcp_socket = none;
  init_seq = 0;
  init_rtptime = 0;
  pipeline = none;
  first = true;
}

abbrev pub server_port : ℕ → String
server_port port =
    String.◌++◌ "server_port="
      (String.◌++◌ (to_string port) (String.◌++◌ "-" (to_string (port + 1))))

-- SETUP from the sockets on: the pipeline is kept only if it can be paused.
abbrev pub with_sockets : FileEnv → GstFile → Files → ℤ × String × GstFile × Files
with_sockets env h files =
    let info = record fresh_rtp_info { rtp_socket = some true; rtcp_socket = some true } in
    let transport = server_port env.local_port in
    if env.changes_state
    then (pos 0, transport, record h { rtp_info = some (record info { pipeline = some 1 }) }, files)
    else (pos 1, transport, record h { rtp_info = some info }, files)

unfoldable pub setup_request :
    FileEnv → String → String → String → GstFile → Files → Outcome (ℤ × String × GstFile × Files)
unfolding delete_rtp_info to_string
setup_request env path client_addr client_port h files = delete_if_any h.rtp_info >>= λ _.
    if env.elements_made
    then (deref uninitialised (env.scan_ports client_port).0 >>= λ rtp_port.
        deref uninitialised (env.scan_ports client_port).1 >>= λ rtcp_port.
        ok (with_sockets env h files))
    else ok (pos 1, "", record h { rtp_info = none }, files)
