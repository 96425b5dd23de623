-- ===== src/Http.antt =====
-- rpi_cam_app/src/http: the HTTP server of the camera.
-- libmicrohttpd is third-party code. What one of its calls answers is a field of `Env`, and what
-- its multipart parser hands to the program's iterators is a list of `Part`s. What the handlers do
-- to the outside is a list of `Effect`s.
pub mod Upload
pub mod Control
pub mod Complete
pub mod Event
pub mod Dispatch
pub mod Slots
pub mod Storage
pub mod Refused
pub mod Answers
pub mod Pieces
pub mod Sender
pub mod Start
pub mod Tests
use rpi_cam.Base.{
  ℕ, Bool, true, false, Option, none, some, List, [], ◌∷◌, ◌++◌, String, if◌then◌else◌,
}

-- `MHD_Result`
pub data MhdResult : Type 0 where
  mhd_yes mhd_no : MhdResult

-- `enum HTTP_METHOD`
pub data HttpMethod : Type 0 where
  get post : HttpMethod

-- `struct connection_info`; `postprocessor` says that the pointer is not null.
pub record ConnectionInfo : Type 0 where
  pub connection_type : HttpMethod
  pub postprocessor : Bool
  pub file_name : String
  pub fps : String
  pub file_content : String
  pub upload_done : Bool

-- What leaves the handlers: a queued response, file-system calls, calls of the event handler, the
-- pipeline that makes a clip, and the thread that uploads it.
pub data Effect : Type 0 where
  responded : ℕ → String → Effect
  removed_all created_directory : String → Effect
  wrote appended : String → String → Effect
  started stopped : String → Effect
  sent_video : String → String → Effect
  ran : String → Effect

-- The answers of libmicrohttpd and of the allocator during one call of a handler.
pub record Env : Type 0 where
  pub creates_response : Bool
  pub queues_response : Bool
  pub allocates : Bool
  pub creates_processor : Bool

-- `EventHandlerHTTP::send_response`
unfoldable pub send_response : Env → String → ℕ → MhdResult × List Effect
send_response env payload status =
    if env.creates_response
    then if env.queues_response then (mhd_yes, responded status payload ∷ []) else (mhd_no, [])
    else (mhd_no, [])

-- What a call of a handler leaves: its result, `*con_cls`, `*size` and the free upload slots.
pub record Reply : Type 0 where
  pub result : MhdResult
  pub con : Option ConnectionInfo
  pub size : ℕ
  pub upload_client : ℕ
  pub effects : List Effect

-- A handler that answers by `send_response`.
abbrev pub answering : MhdResult × List Effect → Option ConnectionInfo → ℕ → ℕ → Reply
answering (result, effects) con size slots = record {
  result = result;
  con = con;
  size = size;
  upload_client = slots;
  effects = effects;
}

-- A handler that returns `MHD_YES` whatever the response did.
abbrev pub going_on : List Effect → Option ConnectionInfo → ℕ → ℕ → Reply
going_on effects con size slots = record {
  result = mhd_yes;
  con = con;
  size = size;
  upload_client = slots;
  effects = effects;
}

-- One value of a form as the post processor reports it, a piece at a time.
pub record Part : Type 0 where
  pub key : String
  pub text : String
  pub off : ℕ
