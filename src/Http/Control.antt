-- ===== src/Http/Control.antt =====
-- EventHandlerHTTP.cpp: `iterate_get_filename`, `program_start_accept`, `program_stop_accept`.
use rpi_cam.Base.{ℕ, true, false, Option, none, some, List, [], ◌∷◌, str_eq, ◌==◌, if◌then◌else◌}
use rpi_cam.Base.Text.{is_empty_text}
use rpi_cam.Http.{
  MhdResult, mhd_yes, mhd_no, get, ConnectionInfo, started, stopped, Env, send_response, Reply,
  answering, going_on, Part,
}

abbrev pub keep_name : Part → ConnectionInfo → ConnectionInfo
keep_name p c = if str_eq p.key "name" then record c { file_name = p.text } else c

-- `iterate_get_filename`
unfoldable pub iterate_get_filename : Part → ConnectionInfo → MhdResult × ConnectionInfo
iterate_get_filename p c = (if is_empty_text p.text then mhd_no else mhd_yes, keep_name p c)

unfoldable pub post_process_name : List Part → ConnectionInfo → ConnectionInfo
unfolding iterate_get_filename
post_process_name [] c = c
post_process_name (p ∷ parts) c =
    let more = post_process_name parts (keep_name p c) in
    if is_empty_text p.text then keep_name p c else more

-- The connection type is not set: `new connection_info()` leaves it zero, which is GET.
abbrev pub fresh_control : ConnectionInfo
fresh_control = record {
  connection_type = get;
  postprocessor = true;
  file_name = "";
  fps = "";
  file_content = "";
  upload_done = false;
}

-- The first call of a request.
unfoldable pub control_open : Env → ℕ → ℕ → Reply
unfolding send_response
control_open env size slots =
    if env.allocates
    then if env.creates_processor
      then going_on [] (some fresh_control) size slots
      else answering (send_response env "Internal Server Error" 500) none size slots
    else answering (send_response env "Internal Server Error" 500) none size slots

-- `EventHandlerHTTP::program_start_accept`. No response is queued at the end of the request.
unfoldable pub program_start_accept : Env → List Part → Option ConnectionInfo → ℕ → ℕ → Reply
unfolding control_open post_process_name
program_start_accept env parts none size slots = control_open env size slots
program_start_accept env parts (some c) size slots =
    if size == 0
    then going_on (started c.file_name ∷ []) (some c) 0 slots
    else going_on [] (some (post_process_name parts c)) 0 slots

-- `EventHandlerHTTP::program_stop_accept`
unfoldable pub program_stop_accept : Env → List Part → Option ConnectionInfo → ℕ → ℕ → Reply
unfolding control_open post_process_name
program_stop_accept env parts none size slots = control_open env size slots
program_stop_accept env parts (some c) size slots =
    if size == 0
    then going_on (stopped c.file_name ∷ []) (some c) 0 slots
    else going_on [] (some (post_process_name parts c)) 0 slots
