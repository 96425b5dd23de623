-- ===== src/Http/Storage.antt =====
-- What an upload of a program is answered, and what its completion writes.
use rpi_cam.Http.Complete.{
  enable_file, fps_file, complete_kind, give_back, FileEnv, event_directory, program_path,
  make_directory, write_files, conclude, store_program, post_request_complete,
}
use rpi_cam.Base.Outcome.{ok}
use rpi_cam.Base.{
  append-nil, ap, append_assoc, ℕ, ◌+◌, Bool, true, false, some, List, [], ◌∷◌, ◌++◌, String,
  if◌then◌else◌, ◌||◌, arith, Bool-cases, inl, inr, ◌≡◌, refl,
}
use rpi_cam.Http.{
  get, HttpMethod, ConnectionInfo, Env, Effect, send_response, removed_all, created_directory,
  wrote, appended, post,
}
use rpi_cam.Base.Int.{ℤ}
use rpi_cam.Base.Text.{has_char, is_empty_text, stoi, number}
use rpi_cam.Http.Upload.{program_answer, program_verdict, is_missing}

-- A name without a slash, a number of frames, and a file that has something in it.
abbrev pub Acceptable : ConnectionInfo → Type 0
Acceptable c =
    (has_char b'/' c.file_name ≡ false)
    × ((z : ℤ) × (stoi c.fps ≡ number z))
    × (is_missing c ≡ false)

pub program_answer-saved :
    (c : ConnectionInfo) → Acceptable c → program_answer c ≡ ok ("program file saved", 200)
unfolding program_answer program_verdict
program_answer-saved c (no_slash, (z, is_z), full) = rw (no_slash, is_z, full)

or-false_left : {a : Bool} (b : Bool) → (a || b) ≡ false → a ≡ false
or-false_left {a = true} b h = h
or-false_left {a = false} b h = refl

or-false_right : (a : Bool) {b : Bool} → (a || b) ≡ false → b ≡ false
or-false_right true h = absurd (ground arith)
or-false_right false h = h

-- The answers of libmicrohttpd to a handler that can respond.
abbrev pub Serves : Env → Type 0
Serves env = (env.creates_response ≡ true) × (env.queues_response ≡ true)

-- The answers of libmicrohttpd to a completion: a response is made or not, but never queued.
abbrev pub Refuses : Env → Type 0
Refuses env = env.queues_response ≡ false

send_response-refused :
    (env : Env) (payload : String) (status : ℕ)
    → Refuses env
    → (send_response env payload status).1 ≡ []
unfolding send_response
send_response-refused env payload status h = ground (arith, h)

-- A file system in which the directory of the upload can be made and its files opened.
abbrev pub Writes : FileEnv → ConnectionInfo → Type 0
Writes fs c =
    (fs.probe_fails ≡ false)
    × (fs.remove_fails ≡ false)
    × (fs.create_fails ≡ false)
    × (fs.opens (program_path c.file_name) ≡ true)
    × (fs.opens (fps_file (event_directory c.file_name) c) ≡ true)
    × (fs.opens (enable_file (event_directory c.file_name)) ≡ true)

pub is_missing-split :
    (c : ConnectionInfo)
    → is_missing c ≡ false
    → (is_empty_text c.file_name ≡ false)
      × (is_empty_text c.file_content ≡ false)
      × (is_empty_text c.fps ≡ false)
is_missing-split c h =
    let front = or-false_left (is_empty_text c.fps) h in
    (
      or-false_left (is_empty_text c.file_content) front,
      or-false_right (is_empty_text c.file_name) front,
      or-false_right (is_empty_text c.file_name || is_empty_text c.file_content) h,
    )

-- What is written for an upload: the directory made afresh, and its three files.
abbrev pub stored_files : Bool → ConnectionInfo → List Effect
stored_files old c =
    (if old then removed_all (event_directory c.file_name) ∷ [] else [])
    ++ (created_directory (event_directory c.file_name)
        ∷ wrote (program_path c.file_name) c.file_content
        ∷ appended (fps_file (event_directory c.file_name) c) ""
        ∷ appended (enable_file (event_directory c.file_name)) "1"
        ∷ [])

write_files-all :
    (fs : FileEnv) (c : ConnectionInfo)
    → Writes fs c
    → let dir = event_directory c.file_name in
      write_files fs dir c
      ≡ wrote (program_path c.file_name) c.file_content
        ∷ appended (fps_file dir c) ""
        ∷ appended (enable_file dir) "1"
        ∷ []
unfolding write_files
write_files-all fs c (p, r, m, o, f, n) = rw (o, f, n)

make_directory-made :
    (fs : FileEnv) (c : ConnectionInfo)
    → Writes fs c
    → let dir = event_directory c.file_name in
      make_directory fs dir ≡ (
        true,
        (if fs.directory_exists then removed_all dir ∷ [] else []) ++ (created_directory dir ∷ []),
      )
unfolding make_directory
make_directory-made fs c (p, r, m, o, f, n) = elim (Bool-cases fs.directory_exists) [
  | inl e ↦ rw (p, e, r, m)
  | inr e ↦ rw (p, e, m)
]

conclude-all :
    (env : Env) (fs : FileEnv) (c : ConnectionInfo) (slots : ℕ) (before : List Effect)
    → Refuses env
    → Writes fs c
    → conclude env fs c slots (event_directory c.file_name) before
      ≡ ok (record { upload_client = slots; effects = before })
unfolding conclude send_response
conclude-all env fs c slots before refuses (p, r, m, o, f, n) =
    rw (o, f, n, send_response-refused env "Program saved successfully" 200 refuses)
      (ap (λ es. ok (record { upload_client = slots; effects = es })) (append-nil before))

store_program-stored :
    (env : Env) (fs : FileEnv) (c : ConnectionInfo) (slots : ℕ)
    → Refuses env
    → Writes fs c
    → is_missing c ≡ false
    → store_program env fs c slots
      ≡ ok (record { upload_client = slots; effects = stored_files fs.directory_exists c })
unfolding store_program
store_program-stored env fs c slots refuses w full =
    let (n, t, f) = is_missing-split c full in
    let dir = event_directory c.file_name in
    rw (n, t, f, make_directory-made fs c w, write_files-all fs c w)
      (rw
        (append_assoc (if fs.directory_exists then removed_all dir ∷ [] else [])
          (created_directory dir ∷ []) _)
        (conclude-all env fs c slots (stored_files fs.directory_exists c) refuses w))

give_back-one :
    (c : ConnectionInfo) (slots : ℕ) → c.postprocessor ≡ true → give_back c slots ≡ slots + 1
give_back-one c slots h = ground arith

complete_kind-stored :
    (k : HttpMethod) (env : Env) (fs : FileEnv) (c : ConnectionInfo) (slots : ℕ)
    → Refuses env
    → Writes fs c
    → k ≡ post
    → c.postprocessor ≡ true
    → is_missing c ≡ false
    → complete_kind k env fs c slots
      ≡ ok (record { upload_client = slots + 1; effects = stored_files fs.directory_exists c })
complete_kind-stored get env fs c slots refuses w k p full = absurd (ground arith)
complete_kind-stored post env fs c slots refuses w k p full =
    rw (give_back-one c slots p) (store_program-stored env fs c (slots + 1) refuses w full)

-- A post whose fields are filled is stored when it is over, whatever its client was answered; its
-- last response is refused.
pub post_request_complete-stored :
    (env : Env) (fs : FileEnv) (c : ConnectionInfo) (slots : ℕ)
    → Refuses env
    → Writes fs c
    → c.connection_type ≡ post
    → c.postprocessor ≡ true
    → is_missing c ≡ false
    → post_request_complete env fs (some c) slots
      ≡ ok (record { upload_client = slots + 1; effects = stored_files fs.directory_exists c })
unfolding post_request_complete
post_request_complete-stored env fs c slots refuses w k p full =
    complete_kind-stored c.connection_type env fs c slots refuses w k p full
