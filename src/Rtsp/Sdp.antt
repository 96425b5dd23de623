-- ===== src/Rtsp/Sdp.antt =====
-- What the two DESCRIBE pipelines learn of a stream, and the description that is made of it:
-- RTSPSessionHandlerGstFileDescribe.cpp and MulticastStreamV4L2MakeSdp.cpp.
use Prim.Native.String
use rpi_cam.Base.{
  ℕ, ◌-◌, ◌%◌, ◌^◌, Bool, Option, none, some, List, [], ◌∷◌, ◌++◌, String, ◌==◌, ◌||◌, str_eq,
  if◌then◌else◌,
}
use rpi_cam.Base.Int.{ℤ, pos, negsuc}
use rpi_cam.Base.Text.{is_empty_text}
use rpi_cam.Base.Decimal.{to_string}

-- `struct H264CodecInfo`.
pub record H264CodecInfo : Type 0 where
  pub encoding_name : String
  pub sprop_param : String
  pub framerate : String
  pub profile_level : String
  pub clock_rate : ℕ
  pub ssrc : ℕ
  pub packetization_mode : String

unfoldable pub fresh_info : H264CodecInfo
fresh_info = record {
  encoding_name = "";
  sprop_param = "";
  framerate = "";
  profile_level = "";
  clock_rate = 0;
  ssrc = 0;
  packetization_mode = "";
}

-- What GStreamer answers of the structure of a sample's capabilities. Without capabilities it
-- answers that there is no field.
pub record Structure : Type 0 where
  pub has_field : String → Bool
  pub get_string : String → Option String
  pub get_int : String → Option ℤ
  pub get_uint : String → Option ℕ

-- `static_cast<uint32_t>` of an `int`.
abbrev pub to_uint32 : ℤ → ℕ
to_uint32 (pos n) = n % 2 ^ 32
to_uint32 (negsuc n) = 2 ^ 32 - 1 - n % 2 ^ 32

-- A field that is there and has a value replaces what is known.
abbrev pub replaced {ℓ} : {A : Type ℓ} → Bool → Option A → A → A
replaced present none old = old
replaced present (some new) old = if present then new else old

-- The fields that both callbacks read.
unfoldable pub read_fields : Structure → H264CodecInfo → H264CodecInfo
read_fields s info = record {
  encoding_name =
      replaced (s.has_field "encoding-name") (s.get_string "encoding-name") info.encoding_name;
  sprop_param =
      replaced (s.has_field "sprop-parameter-sets") (s.get_string "sprop-parameter-sets")
        info.sprop_param;
  framerate = replaced (s.has_field "a-framerate") (s.get_string "a-framerate") info.framerate;
  profile_level =
      replaced (s.has_field "profile-level-id") (s.get_string "a-framerate") info.profile_level;
  clock_rate =
      replaced (s.has_field "clock-rate")
        (elim (s.get_int "clock-rate") [ none ↦ none | some rate ↦ some (to_uint32 rate) ])
        info.clock_rate;
  ssrc = replaced (s.has_field "ssrc") (s.get_uint "ssrc") info.ssrc;
  packetization_mode =
      replaced (s.has_field "packetization-mode") (s.get_string "packetization-mode")
        info.packetization_mode;
}

pub data FlowReturn : Type 0 where
  flow_ok flow_error flow_eos : FlowReturn

-- `new_sample_callback` of a file; `none` for the null pointers.
unfoldable pub new_sample_callback :
    Option Structure → Option H264CodecInfo → FlowReturn × Option H264CodecInfo
unfolding read_fields
new_sample_callback sample none = (flow_error, none)
new_sample_callback none (some info) = (flow_error, some info)
new_sample_callback (some s) (some info) = (flow_ok, some (read_fields s info))

-- The description is not complete yet.
unfoldable pub needs_more : H264CodecInfo → Bool
needs_more info =
    is_empty_text info.encoding_name
    || info.clock_rate == 0
    || is_empty_text info.framerate
    || is_empty_text info.packetization_mode
    || is_empty_text info.profile_level
    || is_empty_text info.sprop_param
    || info.ssrc == 0

-- `multicast_sdp_new_sample_callback`, which ends the stream once everything is known.
unfoldable pub multicast_sdp_new_sample_callback :
    Option Structure → Option H264CodecInfo → FlowReturn × Option H264CodecInfo
unfolding read_fields needs_more
multicast_sdp_new_sample_callback none info = (flow_error, info)
multicast_sdp_new_sample_callback (some s) none = (flow_error, none)
multicast_sdp_new_sample_callback (some s) (some info) =
    (if needs_more (read_fields s info) then flow_ok else flow_eos, some (read_fields s info))

-- `GstSDPMedia` and `GstSDPMessage`, as far as the program fills them.
pub record Media : Type 0 where
  pub kind : String
  pub port : ℕ
  pub ports : ℕ
  pub proto : String
  pub formats : List String
  pub attributes : List (String × String)

pub record SdpMessage : Type 0 where
  pub version : ℕ
  pub sess_id : String
  pub sess_ver : String
  pub address : String
  pub session_name : String
  pub connection : Option (String × ℕ)
  pub media : Media

abbrev pub fmtp_value : H264CodecInfo → String
fmtp_value info = String.◌++◌ "96 packetization-mode=" (
    String.◌++◌ info.packetization_mode (
      String.◌++◌ ";sprop-parameter-sets="
        (String.◌++◌ info.sprop_param (String.◌++◌ ";profile-level-id=" info.profile_level))))

abbrev pub rtpmap_value : H264CodecInfo → String
rtpmap_value info =
    String.◌++◌ "96 " (String.◌++◌ info.encoding_name (String.◌++◌ "/" (to_string info.clock_rate)))

unfoldable pub media_of : H264CodecInfo → Media
media_of info =
    let h264 = str_eq info.encoding_name "H264" in
    record {
      kind = "video";
      port = 0;
      ports = 1;
      proto = "RTP/AVP";
      formats = if h264 then "96" ∷ [] else [];
      attributes =
          (if h264 then ("fmtp", fmtp_value info) ∷ ("rtpmap", rtpmap_value info) ∷ [] else [])
          ++ ("framerate", info.framerate) ∷ [];
    }

-- The message of a file at the time `now`.
unfoldable pub file_message : ℕ → String → H264CodecInfo → SdpMessage
unfolding media_of to_string
file_message now ip_addr info = record {
  version = 0;
  sess_id = to_string (now % 2 ^ 64);
  sess_ver = to_string 0;
  address = ip_addr;
  session_name = "Hydra RTSP Session";
  connection = none;
  media = media_of info;
}

-- The message of the multicast stream, which states its address and its time to live.
unfoldable pub live_message : ℕ → String → String → H264CodecInfo → SdpMessage
unfolding media_of to_string
live_message now ip_addr multicast_ip info = record {
  version = 0;
  sess_id = to_string (now % 2 ^ 64);
  sess_ver = to_string 0;
  address = ip_addr;
  session_name = "Hydra RTSP Session";
  connection = some (multicast_ip, 32);
  media = media_of info;
}
