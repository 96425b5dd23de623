-- ===== src/Http/Complete.antt =====
-- post_request_complete.cpp: what happens when a request is over. The `Env` of these definitions
-- holds the answers of libmicrohttpd to the completion itself, where it refuses to queue a response.
use Prim.Native.String
use rpi_cam.Base.{
  ℕ, ◌+◌, Bool, true, false, Option, none, some, List, [], ◌∷◌, ◌++◌, String, if◌then◌else◌,
}
use rpi_cam.Base.Text.{is_empty_text}
use rpi_cam.Base.Outcome.{Outcome, ok, fault, uncaught}
use rpi_cam.Http.{
  HttpMethod, get, post, ConnectionInfo, Effect, removed_all, created_directory, wrote, appended,
  Env, send_response,
}

-- The answers of the file system during one call; whether a file opens depends on its path.
pub record FileEnv : Type 0 where
  pub probe_fails : Bool
  pub directory_exists : Bool
  pub remove_fails : Bool
  pub create_fails : Bool
  pub opens : String → Bool
  pub cleanup_fails : Bool

-- The free upload slots and the effects that a completion leaves.
pub record Completed : Type 0 where
  pub upload_client : ℕ
  pub effects : List Effect

abbrev pub event_directory : String → String
event_directory name = String.◌++◌ "event/" (String.◌++◌ name "/")

-- The path under which an uploaded program is stored.
abbrev pub program_path : String → String
program_path name = String.◌++◌ (event_directory name) name

-- The `try` block: whether the directory was made, and what was done for it.
unfoldable pub make_directory : FileEnv → String → Bool × List Effect
make_directory fs dir =
    if fs.probe_fails
    then (false, [])
    else if fs.directory_exists
    then if fs.remove_fails
      then (false, [])
      else if fs.create_fails
      then (false, removed_all dir ∷ [])
      else (true, removed_all dir ∷ created_directory dir ∷ [])
    else if fs.create_fails
    then (false, [])
    else (true, created_directory dir ∷ [])

-- The paths of the three files.
abbrev pub program_file : String → ConnectionInfo → String
program_file dir c = String.◌++◌ dir c.file_name

abbrev pub fps_file : String → ConnectionInfo → String
fps_file dir c = String.◌++◌ dir c.fps

abbrev pub enable_file : String → String
enable_file dir = String.◌++◌ dir "enable"

-- The three files. Opening a file for append creates it, also after an earlier failure.
unfoldable pub write_files : FileEnv → String → ConnectionInfo → List Effect
write_files fs dir c =
    (if fs.opens (program_file dir c) then wrote (program_file dir c) c.file_content ∷ [] else [])
    ++ ((if fs.opens (fps_file dir c) then appended (fps_file dir c) "" ∷ [] else [])
        ++ (if fs.opens (enable_file dir)
            then appended (enable_file dir) (
                if fs.opens (program_file dir c)
                then if fs.opens (fps_file dir c) then "1" else ""
                else "")
              ∷ []
            else []))

-- `!flag`
abbrev pub all_opened : FileEnv → String → ConnectionInfo → Bool
all_opened fs dir c =
    if fs.opens (program_file dir c)
    then if fs.opens (fps_file dir c) then fs.opens (enable_file dir) else false
    else false

abbrev pub refuse : Env → ℕ → String → List Effect → Outcome Completed
refuse env slots payload before =
    ok (record { upload_client = slots; effects = before ++ (send_response env payload 400).1 })

-- The last answer. A failure is answered with the status 200 too.
unfoldable pub conclude :
    Env → FileEnv → ConnectionInfo → ℕ → String → List Effect → Outcome Completed
unfolding send_response
conclude env fs c slots dir before =
    if all_opened fs dir c
    then ok (record {
      upload_client = slots;
      effects = before ++ (send_response env "Program saved successfully" 200).1;
    })
    else if fs.cleanup_fails
    then fault uncaught
    else ok (record {
      upload_client = slots;
      effects = before ++ (removed_all dir ∷ (send_response env "Program save Error" 200).1);
    })

abbrev pub store_in : Env → FileEnv → ConnectionInfo → ℕ → Bool × List Effect → Outcome Completed
store_in env fs c slots (false, done) = refuse env slots "Invalid file name" done
store_in env fs c slots (true, done) =
    conclude env fs c slots (event_directory c.file_name)
      (done ++ write_files fs (event_directory c.file_name) c)

-- The part for uploads, after the slot has been given back.
unfoldable pub store_program : Env → FileEnv → ConnectionInfo → ℕ → Outcome Completed
store_program env fs c slots =
    if is_empty_text c.file_name
    then refuse env slots "filename is empty" []
    else if is_empty_text c.file_content
    then refuse env slots "file is empty" []
    else if is_empty_text c.fps
    then refuse env slots "fps is empty" []
    else store_in env fs c slots (make_directory fs (event_directory c.file_name))

abbrev pub give_back : ConnectionInfo → ℕ → ℕ
give_back c slots = if c.postprocessor then slots + 1 else slots

abbrev pub complete_kind : HttpMethod → Env → FileEnv → ConnectionInfo → ℕ → Outcome Completed
complete_kind get env fs c slots = ok (record { upload_client = slots; effects = [] })
complete_kind post env fs c slots = store_program env fs c (give_back c slots)

-- `post_request_complete`
unfoldable pub post_request_complete : Env → FileEnv → Option ConnectionInfo → ℕ → Outcome Completed
post_request_complete env fs none slots = ok (record { upload_client = slots; effects = [] })
post_request_complete env fs (some c) slots = complete_kind c.connection_type env fs c slots
