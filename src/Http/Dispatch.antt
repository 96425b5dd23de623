-- ===== src/Http/Dispatch.antt =====
-- libmicrohttpd_handler.cpp: the routes.
use rpi_cam.Base.{ℕ, Bool, false, Option, List, String, str_eq, if◌then◌else◌}
use rpi_cam.Base.Outcome.{Outcome, ok, ◌>>=◌}
use rpi_cam.Http.{ConnectionInfo, Env, send_response, Reply, answering, Part}
use rpi_cam.Http.Upload.{program_accept}
use rpi_cam.Http.Control.{program_start_accept, program_stop_accept}
use rpi_cam.Http.Event.{Clips, event_accept}

-- One call of the handler by the daemon: the request's line, its headers, the pieces of its body.
pub record Request : Type 0 where
  pub url : String
  pub method : String
  pub headers : List (String × String)
  pub parts : List Part
  pub size : ℕ

abbrev pub is_route : String → String → Request → Bool
is_route url method r = if str_eq r.url url then str_eq r.method method else false

-- `libmicrohttpd_handler`
unfoldable pub libmicrohttpd_handler :
    Env → Clips → Request → Option ConnectionInfo → ℕ → Outcome Reply
libmicrohttpd_handler env clips r con slots =
    if is_route "/event" "POST" r
    then (event_accept env clips r.headers >>= λ a. ok (answering a con r.size slots))
    else if str_eq r.url "/video"
    then ok (answering (send_response env "ok" 200) con r.size slots)
    else if is_route "/program" "POST" r
    then program_accept env r.parts con r.size slots
    else if is_route "/program/start" "POST" r
    then ok (program_start_accept env r.parts con r.size slots)
    else if is_route "/program/stop" "POST" r
    then ok (program_stop_accept env r.parts con r.size slots)
    else ok (answering (send_response env "Invalid Request" 404) con r.size slots)
