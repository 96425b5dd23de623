-- ===== src/Http/Sender.antt =====
-- EventHandlerHTTP.cpp: the constructor and the requests that the camera sends with libcurl.
use rpi_cam.Base.Outcome.{Outcome, ok, fault, out_of_bounds, uninitialised, ◌>>=◌}
use Prim.Native.String
use rpi_cam.Base.{
  refl, ℕ, ◌≡◌, Bool, true, false, Option, none, some, List, [], ◌∷◌, String, leb, ◌==◌,
  if◌then◌else◌, ◌||◌, length, take,
}
use rpi_cam.Base.Int.{ℤ}

-- The members that the constructor reads: the configured server and the first line of
-- `system/uuid`.
pub record EventHandlerHttp : Type 0 where
  pub server_address : String
  pub uuid : String
  pub upload_client : ℕ

unfoldable pub construct : String → ℕ → String → EventHandlerHttp
construct remote_server upload_user uuid_line = record {
  server_address = remote_server;
  uuid = uuid_line;
  upload_client = upload_user;
}

-- A piece of a body as libcurl hands it to the write callback: its size, and the bytes that can be
-- read from its address, which may be more than the piece.
pub record Piece : Type 0 where
  pub size : ℕ
  pub readable : List ℕ

-- What libcurl does in one transfer: whether a handle is made, the pieces of the body, and whether
-- the transfer ends well.
pub record Curl : Type 0 where
  pub creates : Bool
  pub pieces : List Piece
  pub performs : Bool

-- A request on the wire: a body, or a form of named parts.
pub data Sent : Type 0 where
  posted : String → String → Sent
  posted_form : String → List (String × String) → Sent

-- `event_send_callback`: it copies 1024 bytes whatever the size of the piece.
unfoldable pub event_send_callback : Piece → Outcome (ℕ × List ℕ)
event_send_callback contents =
    if leb 1024 (length contents.readable)
    then ok (contents.size, take 1024 contents.readable)
    else fault out_of_bounds

-- The array `response` after the transfer; `none` while nothing has been written to it.
unfoldable pub receive : List Piece → Option (List ℕ) → Outcome (Option (List ℕ))
unfolding event_send_callback
receive [] response = ok response
receive (piece ∷ pieces) response = event_send_callback piece >>= λ r. receive pieces (some r.1)

abbrev pub has_nul : List ℕ → Bool
has_nul [] = false
has_nul (b ∷ bytes) = b == 0 || has_nul bytes

-- `resp.assign(response)` reads up to the first NUL.
abbrev pub read_response : Option (List ℕ) → Outcome (Unit {0})
read_response none = fault uninitialised
read_response (some bytes) = if has_nul bytes then ok tt else fault out_of_bounds

-- `EventHandlerHTTP::send_request`; the handle is null if `curl` is false.
unfoldable pub send_request : Curl → Bool → String → String → Outcome (ℕ × List Sent)
unfolding receive
send_request env curl url payload =
    if curl
    then (receive env.pieces none >>= read_response >>= λ _.
        ok (if env.performs then 0 else 2, posted url payload ∷ []))
    else ok (1, [])

-- boost's `write_json`, `localtime` with `put_time`, and the printing of a time.
pub record Printing : Type 0 where
  pub write_json : List (String × String) → String
  pub local_time : ℤ → String
  pub show_time : ℤ → String

-- `EventHandlerHTTP::event_send`
unfoldable pub event_send : Curl → Printing → EventHandlerHttp → ℤ → Outcome (ℕ × List Sent)
unfolding send_request
event_send env print h time =
    let request = print.write_json (
      ("description", h.uuid)
      ∷ ("unixtime", print.show_time time)
      ∷ ("localtime", print.local_time time)
      ∷ []) in
    if env.creates
    then send_request env true (String.◌++◌ h.server_address "/event") request
    else ok (1, [])

-- `EventHandlerHTTP::camerainfo_send`
unfoldable pub camerainfo_send :
    Curl → Printing → EventHandlerHttp → String → Outcome (ℕ × List Sent)
unfolding send_request
camerainfo_send env print h uuid =
    let request = print.write_json (("description", uuid) ∷ []) in
    if env.creates
    then send_request env true (String.◌++◌ h.server_address "/setup") request
    else ok (1, [])

-- `EventHandlerHTTP::video_send`: 0 also if there is no handle.
unfoldable pub video_send : Curl → EventHandlerHttp → String → String → ℕ × List Sent
video_send env h path event_id =
    if env.creates
    then (
      if env.performs then 0 else 1,
      posted_form (String.◌++◌ h.server_address "/file")
            (("transactionid", event_id) ∷ ("description", h.uuid) ∷ ("testfile", path) ∷ [])
          ∷ [],
    )
    else (0, [])

-- A transfer whose answer the client can read.
abbrev pub Readable : Curl → Type 0
Readable env =
    (env.creates ≡ true) × ((u : Unit {0}) × ((receive env.pieces none >>= read_response) ≡ ok u))

-- The report of an event at the time `time`.
abbrev pub event_report : Printing → EventHandlerHttp → ℤ → Sent
event_report print h time = posted (String.◌++◌ h.server_address "/event") (
    print.write_json (
      ("description", h.uuid)
      ∷ ("unixtime", print.show_time time)
      ∷ ("localtime", print.local_time time)
      ∷ []))

pub event_send-Readable :
    (env : Curl) (print : Printing) (h : EventHandlerHttp) (time : ℤ)
    → Readable env
    → event_send env print h time
      ≡ ok (if env.performs then 0 else 2, event_report print h time ∷ [])
unfolding event_send send_request
event_send-Readable env print h time (c, (u, r)) = rw (c, r) refl

-- A transfer without a body, such as one that reaches no server, leaves the array unwritten.
pub event_send_unanswered :
    (env : Curl) (print : Printing) (h : EventHandlerHttp) (time : ℤ)
    → env.creates ≡ true
    → env.pieces ≡ []
    → event_send env print h time ≡ fault uninitialised
unfolding event_send send_request receive
event_send_unanswered env print h time c p = rw (c, p) refl
