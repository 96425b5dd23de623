-- ===== src/Rtsp/Live.antt =====
-- MulticastStream and MulticastStreamV4L2: the one multicast stream of the camera, and the handler
-- RTSPSessionHandlerGstLive. What GStreamer and the allocator answer is the argument `env`.
use rpi_cam.Base.{
  false, ℕ, Bool, true, not, Option, none, some, List, ◌∷◌, String, if◌then◌else◌, ◌&&◌,
}
use Prim.Native.String
use rpi_cam.Base.Int.{ℤ, pos, negsuc}
use rpi_cam.Base.Text.{is_empty_text}
use rpi_cam.Base.Decimal.{to_string}
use rpi_cam.Base.Dict.{has_key}
use rpi_cam.Base.Outcome.{Outcome, ok, fault, null_pointer, blocked, ◌>>=◌}
use rpi_cam.VideoQueue.{VideoQueue, ThreadInfo, update, insert_event, remove_event}
use rpi_cam.VideoQueue.History.{Call, inserts, run}
use rpi_cam.Rtsp.Sdp.{
  H264CodecInfo, fresh_info, Structure, SdpMessage, live_message, multicast_sdp_new_sample_callback,
}
use rpi_cam.Rtsp.Description.{learn}
use rpi_cam.Rtsp.File.{unref}

-- `class MulticastStreamV4L2`; the pipeline is `none` for the null pointer, else its references.
pub record Multicast : Type 0 where
  pub pipeline : Option ℕ
  pub codec_info : H264CodecInfo
  pub sdp_str : String
  pub ip_addr : String
  pub port : ℕ
  pub thread_info : Option ℕ

-- The answers to one call: are the elements linked; the address of a new `ThreadInfo`; what the
-- other threads do to the queue while the pipeline runs; the samples, and whether a message ends
-- them; the text of a message; the time and the address.
pub record LiveEnv : Type 0 where
  pub links : Bool
  pub pointer : ℕ
  pub during : List Call
  pub samples : List Structure
  pub ends : Bool
  pub as_text : SdpMessage → String
  pub now : ℕ
  pub ip_addr : String

-- The constructor.
unfoldable pub new_stream : String → ℕ → Multicast
unfolding fresh_info
new_stream ip_addr port = record {
  pipeline = none;
  codec_info = fresh_info;
  sdp_str = "";
  ip_addr = ip_addr;
  port = port;
  thread_info = none;
}

abbrev pub is_some {ℓ} : {A : Type ℓ} → Option A → Bool
is_some none = false
is_some (some a) = true

-- `MulticastStream::get_instance`: the arguments count the first time only.
unfoldable pub get_instance : String → ℕ → Option Multicast → Multicast
unfolding new_stream
get_instance ip_addr port none = new_stream ip_addr port
get_instance ip_addr port (some m) = m

-- `new ThreadInfo()`, running, at 30 frames a second.
abbrev pub at_30 : ThreadInfo
at_30 = record { is_run = true; fps = 30 }

abbrev pub allocated : ℕ → VideoQueue → VideoQueue
allocated p q = record q { infos = update q.infos p at_30 }

-- The part of `make_sdp` while the event "sdp" is registered.
unfoldable pub watch : LiveEnv → VideoQueue → Outcome VideoQueue
unfolding run
watch env q = run (inserts "sdp" env.pointer ∷ env.during) q

-- `make_sdp` from the pipeline on, with the description that it fills in.
unfoldable pub describe_camera :
    LiveEnv → Multicast → VideoQueue → Outcome (ℤ × String × Multicast × VideoQueue)
unfolding watch remove_event live_message multicast_sdp_new_sample_callback
describe_camera env m q =
    let info = learn multicast_sdp_new_sample_callback env.samples m.codec_info in
    let sdp = env.as_text (live_message env.now env.ip_addr m.ip_addr info) in
    watch env q >>= λ q'.
    if env.ends
    then ok (pos 0, sdp, record m { codec_info = info; sdp_str = sdp }, (remove_event "sdp" q').1)
    else fault blocked

-- `make_sdp`
unfoldable pub make_sdp :
    LiveEnv → Multicast → VideoQueue → Outcome (ℤ × String × Multicast × VideoQueue)
unfolding describe_camera
make_sdp env m q =
    if not (is_empty_text m.sdp_str)
    then ok (pos 0, m.sdp_str, m, q)
    else if env.links
    then describe_camera env m (allocated env.pointer q)
    else ok (negsuc 0, "", m, allocated env.pointer q)

-- `set_stream`: its `ThreadInfo` is allocated once.
unfoldable pub set_stream : LiveEnv → Multicast → VideoQueue → ℤ × Multicast × VideoQueue
set_stream env m q = elim m.thread_info [
  | none ↦ (
    if env.links then pos 0 else negsuc 0,
    record m {
      thread_info = some env.pointer;
      pipeline = if env.links then some 1 else m.pipeline;
    },
    allocated env.pointer q,
  )
  | some p ↦ (
    if env.links then pos 0 else negsuc 0,
    record m { pipeline = if env.links then some 1 else m.pipeline },
    q,
  )
]

-- `play_stream`, up to the start of its thread. `insert_event` reads the pointer only for a new
-- name.
unfoldable pub play_stream : Multicast → VideoQueue → Outcome (ℤ × VideoQueue)
unfolding insert_event
play_stream m q = elim m.thread_info [
  | none ↦ if has_key "live" q.thread_info then ok (pos 0, q) else fault null_pointer
  | some p ↦ (insert_event "live" p q >>= λ r. ok (pos 0, r.1))
]

-- The thread that `play_stream` starts: it runs until a message, then stops the pipeline and
-- releases it. On the null pointer it waits for ever.
unfoldable pub stream_thread : Bool → Multicast → Outcome Multicast
stream_thread ends m =
    if ends && is_some m.pipeline
    then (unref m.pipeline >>= λ released. ok (record m { pipeline = released }))
    else fault blocked

-- `RTSPSessionHandlerGstLive`, which only holds the stream.
unfoldable pub option_request_live : ℤ × String
option_request_live = (pos 0, "DESCRIBE, OPTIONS, SETUP, PLAY, TEARDOWN, PAUSE")

unfoldable pub setup_request_live : Multicast → ℤ × String
unfolding to_string
setup_request_live m = (
  pos 0,
  String.◌++◌ "destination="
      (String.◌++◌ m.ip_addr (String.◌++◌ ";port=" (String.◌++◌ (to_string m.port) ";ttl=32"))),
)

-- `VideoInitializer::start` up to the accepting of connections: the description is made, and 10
-- seconds later, in which other threads go on, the stream is started.
unfoldable pub start_video :
    LiveEnv → LiveEnv → List Call → Option Multicast → VideoQueue → Outcome (Multicast × VideoQueue)
unfolding get_instance make_sdp set_stream play_stream run
start_video env env' during instance q = do
  (_, _, m, q₁) ← make_sdp env (get_instance "239.255.1.1" 5004 instance) q
  q₂ ← run during q₁
  let (_, m', q₃) = set_stream env' m q₂
  (_, q₄) ← play_stream m' q₃
  ok (m', q₄)
