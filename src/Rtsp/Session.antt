-- ===== src/Rtsp/Session.antt =====
-- RTSPSessionImpl.cpp: one session of the RTSP server. The RTSP library, the socket and the
-- streaming handlers are parameters.
use rpi_cam.Base.Int.{ℤ, pos, negsuc}
use rpi_cam.Base.Outcome.{Outcome, ok, uninitialised, null_pointer, deref, ◌>>=◌}
use Prim.Native.Char.{code}
use Prim.Native.String
use rpi_cam.Base.{
  ◌+◌, ℕ, Bool, true, false, Option, none, some, List, [], ◌∷◌, ◌++◌, String, ◌==◌, ◌&&◌,
  if◌then◌else◌,
}
use rpi_cam.Rtsp.Target.{path_of, has_text, from_position, find_text}
use rpi_cam.Base.Text.{is_empty_text}
use rpi_cam.Base.Dict.{Dict, find, emplace}

-- `hydra::rtsp::verb`, with one constructor for the verbs that the session does not know.
pub data Verb : Type 0 where
  options describe setup play pause teardown other : Verb

pub record Request : Type 0 where
  pub method : Verb
  pub target : String
  pub cseq : String
  pub transport : String
  pub range : String

-- The fields of a response that the session sets; a later header replaces an earlier one.
pub record Response : Type 0 where
  pub result : ℕ
  pub headers : List (String × String)
  pub body : String
  pub keep_alive : Bool

-- The two kinds of handlers, and what a handler answers to the requests.
pub data HandlerKind : Type 0 where
  gst_live gst_file : HandlerKind

-- `H` is the handler object, `W` what the handlers share. A result is an `int`, with a text where
-- the method fills one.
pub record Handler (H W : Type 0) : Type 0 where
  pub create : HandlerKind → W → H × W
  pub option_request : H → W → Outcome (ℤ × String × H × W)
  pub describe_request : String → H → W → Outcome (ℤ × String × H × W)
  pub setup_request : String → String → String → H → W → Outcome (ℤ × String × H × W)
  pub play_request : String → H → W → Outcome (ℤ × String × H × W)
  pub pause_request : String → H → W → Outcome (ℤ × H × W)
  pub teardown_request : H → W → Outcome (ℤ × H × W)
  pub destroy : H → W → Outcome W

-- What the library computes: the status of a new response, the value of the length header after
-- `prepare_payload`, and the address of the peer.
pub record Library : Type 0 where
  pub initial_result : ℕ
  pub prepared_length : String → String
  pub client_address : String

-- `class RTSPSessionImpl`; `handler` is `none` for the null pointer.
pub record Session (H : Type 0) : Type 0 where
  pub uuid : String
  pub path : Dict String
  pub url_path : String
  pub file_path : String
  pub handler : Option H

-- `_path[_url_path]`, which makes an empty entry for a key that is not there.
abbrev pub entry_of : Option String → String
entry_of none = ""
entry_of (some file) = file

-- `npos + 12` is 11.
abbrev pub ports_at : Option ℕ → ℕ
ports_at none = 11
ports_at (some n) = n + 12

-- The text after "client_port=" in a SETUP.
unfoldable pub client_ports : Verb → String → Outcome String
client_ports options transport = ok ""
client_ports describe transport = ok ""
client_ports setup transport =
    from_position (ports_at (find_text "client_port=" transport)) transport
client_ports play transport = ok ""
client_ports pause transport = ok ""
client_ports teardown transport = ok ""
client_ports other transport = ok ""

-- `write_rtsp`: 1 if the connection is to be closed.
unfoldable pub write_rtsp : Response → ℕ
write_rtsp res = if res.keep_alive then 0 else 1

module _ {H W : Type 0} (handler : Handler H W) (library : Library) where
  -- The first request of a session chooses its file and its handler.
  unfoldable pub choose_handler : String → Session H → W → Session H × W
  choose_handler url s w =
      let file = entry_of (find url s.path) in
      let (h, w') = handler.create (if has_text "/dev" file then gst_live else gst_file) w in
      (
        record s {
          path = emplace url "" s.path;
          url_path = url;
          file_path = file;
          handler = some h;
        },
        w',
      )

  unfoldable pub open_session : Request → Session H → W → Outcome (Session H × W)
  unfolding choose_handler path_of
  open_session r s w =
      if is_empty_text s.url_path && is_empty_text s.file_path
      then (path_of r.target >>= λ url. ok (choose_handler url s w))
      else ok (s, w)

  abbrev pub base_headers : Request → List (String × String)
  base_headers r = ("CSeq", r.cseq) ∷ ("Server", "Hydar RTSP Serer") ∷ []

  abbrev pub answer : Request → ℕ → List (String × String) → String → Bool → Response
  answer r status headers body keep = record {
    result = status;
    headers = base_headers r ++ headers;
    body = body;
    keep_alive = keep;
  }

  abbrev pub content : Request → String → String → List (String × String)
  content r type body =
      ("Content-Type", type)
      ∷ ("Content-Length", library.prepared_length body)
      ∷ ("Content-Location", r.target)
      ∷ []

  -- DESCRIBE, by what the handler returned.
  unfoldable pub answer_describe : Request → ℤ → String → Response
  answer_describe r (negsuc n) sdp = answer r library.initial_result [] "" true
  answer_describe r (pos code) sdp =
      if code == 0
      then answer r 200 (content r "application/sdp" sdp) sdp true
      else if code == 1
      then answer r 500 (content r "text/plain" "SDP Generate Error") "SDP Generate Error" true
      else if code == 2
      then answer r 200 (content r "application/sdp" sdp) sdp true
      else answer r library.initial_result [] "" true

  abbrev pub in_session : Session H → List (String × String)
  in_session s = ("Session", s.uuid) ∷ []

  abbrev pub rtp_info : Request → String → String
  rtp_info r info = String.◌++◌ "url=" (String.◌++◌ r.target (String.◌++◌ ";" info))

  -- The branches of `read`: the response, if one is written, the handler and what it shares.
  unfoldable pub respond_to :
      Verb → String → Request → Session H → H → W → Outcome (Option Response × H × W)
  unfolding answer_describe
  respond_to options ports r s h w = do
    (code, methods, h', w') ← handler.option_request h w
    ok (some (answer r 200 (("Public", methods) ∷ []) "" true), h', w')
  respond_to describe ports r s h w = do
    (code, sdp, h', w') ← handler.describe_request s.file_path h w
    ok (some (answer_describe r code sdp), h', w')
  respond_to setup ports r s h w = do
    (code, transport, h', w') ← handler.setup_request s.file_path library.client_address ports h w
    ok (some (answer r 200 (("Transport", transport) ∷ in_session s) "" true), h', w')
  respond_to play ports r s h w = do
    (code, info, h', w') ← handler.play_request r.range h w
    let headers = ("RTP-Info", rtp_info r info) ∷ in_session s ++ ("Range", r.range) ∷ []
    ok (some (answer r 200 headers "" true), h', w')
  respond_to pause ports r s h w = do
    (code, h', w') ← handler.pause_request r.range h w
    ok (some (answer r 200 (in_session s ++ ("Range", r.range) ∷ []) "" true), h', w')
  respond_to teardown ports r s h w = do
    (code, h', w') ← handler.teardown_request h w
    ok (some (answer r 200 (in_session s) "" false), h', w')
  respond_to other ports r s h w = ok (none, h, w)

  -- `RTSPSessionImpl::read`. Each branch assigns to a variable of its own, so the `ret` that is
  -- returned, the last component, was never written.
  unfoldable pub read :
      Request → Session H → W → Outcome (Option Response × Session H × W × Option ℕ)
  unfolding open_session respond_to client_ports
  read r s w = do
    (s', w₁) ← open_session r s w
    h ← deref null_pointer s'.handler
    ports ← client_ports r.method r.transport
    (res, h', w₂) ← respond_to r.method ports r s' h w₁
    ok (res, record s' { handler = some h' }, w₂, none)

  -- One round of `run` whose library call read a request: whether the session goes on.
  unfoldable pub run_once : Request → Session H → W → Outcome (Bool × Session H × W)
  run_once r s w = do
    (res, s', w', ret) ← read r s w
    code ← deref uninitialised ret
    ok (code == 0, s', w')
