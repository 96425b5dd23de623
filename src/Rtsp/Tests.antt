-- ===== src/Rtsp/Tests.antt =====
-- A session at concrete requests, with a handler that counts what it is asked.
use rpi_cam.Base.{ℕ, ◌+◌, ◌≡◌, refl, false, none, some, [], ◌∷◌, ◌↔◌}
use rpi_cam.Base.Int.{pos}
use rpi_cam.Base.Dict.{find, emplace}
use rpi_cam.Base.Outcome.{ok, fault, uninitialised}
use rpi_cam.Rtsp.Session.{
  client_ports, setup, teardown, Request, Response, Handler, Library, Session, read, run_once,
  respond_to, write_rtsp, open_session,
}
use rpi_cam.Rtsp.Lifecycle.{end_of_stream, handle_session}
use rpi_cam.Rtsp.Ending.{Quits, handle_session-ok}
use rpi_cam.Rtsp.Requests.{respond_to-IsIndifferent, read-open, run_once-read}

-- Every request fails.
abbrev pub counting : Handler ℕ Unit
counting = record {
  create = λ kind w. (0, w);
  option_request = λ h w. ok (pos 1, "", h + 1, w);
  describe_request = λ file h w. ok (pos 1, "", h + 1, w);
  setup_request = λ file address ports h w. ok (pos 1, "", h + 1, w);
  play_request = λ range h w. ok (pos 1, "", h + 1, w);
  pause_request = λ range h w. ok (pos 1, h + 1, w);
  teardown_request = λ h w. ok (pos 1, h + 1, w);
  destroy = λ h w. ok w;
}

abbrev pub library : Library
library = record {
  initial_result = 200;
  prepared_length = λ body. "0";
  client_address = "10.0.0.2";
}

abbrev pub closing : Request
closing = record {
  method = teardown;
  target = "rtsp://cam/live";
  cseq = "4";
  transport = "";
  range = "";
}

abbrev opened : Session ℕ
opened = record {
  uuid = "u";
  path = ("/live", "/dev/video0") ∷ [];
  url_path = "/live";
  file_path = "/dev/video0";
  handler = some 3;
}

abbrev farewell : Response
farewell = record {
  result = 200;
  headers = ("CSeq", "4") ∷ ("Server", "Hydar RTSP Serer") ∷ ("Session", "u") ∷ [];
  body = "";
  keep_alive = false;
}

abbrev closed : Session ℕ
closed = record opened { handler = some 4 }

closing-read : read counting library closing opened tt ≡ ok (some farewell, closed, tt, none)
unfolding read
closing-read = refl

closed_uninitialised : run_once counting library closing opened tt ≡ fault uninitialised
closed_uninitialised =
    run_once-read counting library closing opened closed tt tt (some farewell) none closing-read

keeps_path :
    (closed.url_path ≡ "/live")
    × (closed.file_path ≡ "/dev/video0")
    × (closed.path ≡ ("/live", "/dev/video0") ∷ [])
keeps_path =
    read-open counting library closing opened closed tt tt (some farewell) none refl closing-read

farewell-sent :
    respond_to counting library teardown "" closing opened 3 tt ≡ ok (some farewell, 4, tt)
unfolding respond_to
farewell-sent = refl

respond_to-IsIndifferent_example :
    (res : Response) × (some farewell ≡ some res)
    × (res.result ≡ 200)
    × ((write_rtsp res ≡ 1) ↔ (teardown ≡ teardown))
respond_to-IsIndifferent_example =
    respond_to-IsIndifferent counting library teardown "" closing opened 3 4 tt tt (some farewell)
      tt farewell-sent

-- The first request of a session takes the path out of the target and finds the device.
first_request :
    open_session counting library closing
      (record opened { url_path = ""; file_path = ""; handler = none })
      tt
    ≡ ok (record opened { handler = some 0 }, tt)
unfolding open_session find emplace
first_request = refl

ports_read : client_ports setup "RTP/AVP;client_port=5000-5001" ≡ ok "5000-5001"
unfolding client_ports
ports_read = refl

abbrev nothing : Unit {0}
nothing = tt

ends_early :
    (handle_session counting library "u" [] (end_of_stream ∷ []) nothing ≡ ok nothing)
    ↔ (Quits (end_of_stream ∷ []) × (nothing ≡ nothing))
ends_early = handle_session-ok counting library "u" [] (end_of_stream ∷ []) nothing nothing
