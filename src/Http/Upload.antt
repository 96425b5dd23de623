-- ===== src/Http/Upload.antt =====
-- EventHandlerHTTP.cpp: `iterate_program_post` and `program_accept`.
use Prim.Native.String
use rpi_cam.Base.{
  ℕ, ◌-◌, Bool, true, false, Option, none, some, List, [], ◌∷◌, String, str_eq, ◌==◌, if◌then◌else◌,
  ◌||◌,
}
use rpi_cam.Base.Text.{has_char, is_empty_text, Stoi, number, invalid_argument, out_of_range, stoi}
use rpi_cam.Base.Outcome.{Outcome, ok, fault, uncaught, use_after_free}
use rpi_cam.Http.{
  MhdResult, mhd_yes, mhd_no, post, ConnectionInfo, Env, send_response, Reply, answering, going_on,
  Part,
}

-- The piece goes into the field that the key names; a file's first piece clears what was there.
unfoldable pub store_part : Part → ConnectionInfo → ConnectionInfo
store_part p c =
    if str_eq p.key "name"
    then record c { file_name = p.text }
    else if str_eq p.key "fps"
    then record c { fps = p.text }
    else if str_eq p.key "file"
    then record c {
      file_content = if p.off == 0 then p.text else String.◌++◌ c.file_content p.text;
    }
    else c

-- `iterate_program_post`: an empty piece ends the iteration.
unfoldable pub iterate_program_post : Part → ConnectionInfo → MhdResult × ConnectionInfo
unfolding store_part
iterate_program_post p c = (if is_empty_text p.text then mhd_no else mhd_yes, store_part p c)

-- `MHD_post_process`: the iterator is called on each piece until it says `MHD_NO`.
unfoldable pub post_process : List Part → ConnectionInfo → ConnectionInfo
unfolding iterate_program_post
post_process [] c = c
post_process (p ∷ parts) c =
    let more = post_process parts (store_part p c) in
    if is_empty_text p.text then store_part p c else more

abbrev pub fresh_upload : ConnectionInfo
fresh_upload = record {
  connection_type = post;
  postprocessor = true;
  file_name = "";
  fps = "";
  file_content = "";
  upload_done = false;
}

-- The first call of a request. The failure of `MHD_create_post_processor` is logged through the
-- connection information that was deleted the line before.
unfoldable pub program_open : Env → ℕ → ℕ → Outcome Reply
unfolding send_response
program_open env size slots =
    if slots == 0
    then ok
        (answering (send_response env "program upload busy, try again later" 503) none size slots)
    else if env.allocates
    then if env.creates_processor
      then ok (going_on [] (some fresh_upload) size (slots - 1))
      else fault use_after_free
    else ok (answering (send_response env "Internanl Server Error" 500) none size slots)

abbrev pub is_missing : ConnectionInfo → Bool
is_missing c = is_empty_text c.file_name || is_empty_text c.file_content || is_empty_text c.fps

-- What the end of the upload is answered, the name having no slash; an `fps` out of range throws
-- an exception that nothing catches.
unfoldable pub program_verdict : ConnectionInfo → Stoi → Outcome (String × ℕ)
program_verdict c (number z) =
    if is_missing c then ok ("bad request", 400) else ok ("program file saved", 200)
program_verdict c invalid_argument = ok ("Invalid fps value", 400)
program_verdict c out_of_range = fault uncaught

unfoldable pub program_answer : ConnectionInfo → Outcome (String × ℕ)
unfolding program_verdict has_char stoi
program_answer c =
    if has_char b'/' c.file_name
    then ok ("Invalid file name", 400)
    else program_verdict c (stoi c.fps)

abbrev pub finished : ConnectionInfo → ConnectionInfo
finished c = record c { upload_done = true }

abbrev pub close_upload : Env → ConnectionInfo → ℕ → Outcome (String × ℕ) → Outcome Reply
close_upload env c slots (fault e) = fault e
close_upload env c slots (ok (payload, status)) =
    ok (going_on (send_response env payload status).1 (some (finished c)) 0 slots)

-- `EventHandlerHTTP::program_accept`, on a request whose `*con_cls` is `con`.
unfoldable pub program_accept : Env → List Part → Option ConnectionInfo → ℕ → ℕ → Outcome Reply
unfolding program_open program_answer post_process send_response
program_accept env parts none size slots = program_open env size slots
program_accept env parts (some c) size slots =
    if size == 0
    then close_upload env c slots (program_answer c)
    else ok (going_on [] (some (post_process parts c)) 0 slots)
