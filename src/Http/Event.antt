-- ===== src/Http/Event.antt =====
-- EventHandlerHTTP.cpp: `event_header_iter`, `event_accept` and `video_accpet`.
use rpi_cam.Base.{
  ℕ, Bool, false, not, Option, none, some, List, [], ◌∷◌, String, str_eq, ◌==◌, if◌then◌else◌, ◌++◌,
}
use rpi_cam.Base.Int.{ℤ, pos, negsuc}
use rpi_cam.Base.Text.{is_empty_text, strtoll}
use rpi_cam.Http.{MhdResult, mhd_yes, mhd_no, Effect, sent_video, Env, send_response, ran}
use rpi_cam.Video.Lookup.{get_video}
use rpi_cam.Base.Outcome.{Outcome, ok, ◌>>=◌}
use rpi_cam.Video.Clips.{Gst, process_video}
use rpi_cam.Config.Recording.{VideoConfig}

-- `struct event_info`
pub record EventInfo : Type 0 where
  pub time_stamp : ℤ
  pub id : String

abbrev pub is_zero : ℤ → Bool
is_zero (pos n) = n == 0
is_zero (negsuc n) = false

abbrev pub read_header : String → String → EventInfo → EventInfo
read_header key value info =
    if str_eq key "transactionid"
    then record info { id = value }
    else if str_eq key "eventtime"
    then record info { time_stamp = strtoll value }
    else info

abbrev pub is_complete : EventInfo → Bool
is_complete info = if is_empty_text info.id then false else not (is_zero info.time_stamp)

-- `event_header_iter`: `MHD_NO` ends the iteration once both headers have been read.
unfoldable pub event_header_iter : String → String → EventInfo → MhdResult × EventInfo
unfolding strtoll
event_header_iter key value info = (
  if is_complete (read_header key value info) then mhd_no else mhd_yes,
  read_header key value info,
)

-- `MHD_get_connection_values` with that iterator.
unfoldable pub read_headers : List (String × String) → EventInfo → EventInfo
unfolding event_header_iter
read_headers [] info = info
read_headers ((key, value) ∷ headers) info =
    let more = read_headers headers (read_header key value info) in
    if is_complete (read_header key value info) then read_header key value info else more

abbrev pub no_event : EventInfo
no_event = record { time_stamp = pos 0; id = "" }

-- The video part of the answer, after `process_video` succeeded.
unfoldable pub answer_video : Env → EventInfo → Option String → MhdResult × List Effect
answer_video env event none = send_response env "event video is not exist" 404
answer_video env event (some path) =
    let r = send_response env "success" 200 in (r.0, sent_video path event.id ∷ r.1)

-- What the video component meets in one call: its configuration, GStreamer's answers, and the
-- directory of the recordings.
pub record Clips : Type 0 where
  pub config : VideoConfig
  pub gst : Gst
  pub entries : List (String × Bool)

abbrev pub ran_pipeline : Option String → List Effect
ran_pipeline none = []
ran_pipeline (some text) = ran text ∷ []

-- The answer after `process_video`, whose result is `code`.
abbrev pub answer_clip : Env → VideoConfig → EventInfo → ℤ × Option String → MhdResult × List Effect
answer_clip env config event (code, made) =
    let r =
      if is_zero code
      then answer_video env event (get_video config.vid_path event.id)
      else send_response env "Internal Server Error" 500 in
    (r.0, ran_pipeline made ++ r.1)

-- What `event_accept` does with the event that the headers name. Nothing catches the exceptions of
-- `process_video`.
unfoldable pub handle_event : Env → Clips → EventInfo → Outcome (MhdResult × List Effect)
unfolding answer_video send_response process_video
handle_event env clips event =
    if is_empty_text event.id
    then ok (send_response env "id is emtpy" 400)
    else if is_zero event.time_stamp
    then ok (send_response env "time is empty" 400)
    else (process_video clips.config clips.gst clips.entries event.time_stamp event.id >>= λ r.
        ok (answer_clip env clips.config event r))

-- `EventHandlerHTTP::event_accept`
unfoldable pub event_accept :
    Env → Clips → List (String × String) → Outcome (MhdResult × List Effect)
unfolding handle_event read_headers
event_accept env clips headers = handle_event env clips (read_headers headers no_event)

-- `EventHandlerHTTP::video_accpet` does nothing.
unfoldable pub video_accept : ℕ
video_accept = 0
