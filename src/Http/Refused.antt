-- ===== src/Http/Refused.antt =====
-- What becomes of an upload whose name program_accept refuses, in post_request_complete.cpp.
use rpi_cam.Http.Complete.{
  store_in, Completed, all_opened, complete_kind, give_back, FileEnv, event_directory,
  make_directory, write_files, conclude, store_program, post_request_complete,
}
use rpi_cam.Base.Outcome.{uncaught, fault, Outcome, ok}
use rpi_cam.Base.{
  ℕ, Bool, true, false, some, List, [], ◌∷◌, ◌++◌, String, arith, Bool-cases, inl, inr, ◌≡◌, refl,
}
use rpi_cam.Http.{
  get, HttpMethod, ConnectionInfo, Env, Effect, send_response, responded, removed_all,
  created_directory, going_on, post,
}
use rpi_cam.Base.Text.{has_char}
use rpi_cam.Http.Upload.{program_accept, program_answer, is_missing, finished}
use rpi_cam.Http.Storage.{Serves, is_missing-split}

-- The first effect of a completion.
abbrev pub Begins : Effect → Outcome Completed → Type 0
Begins first (fault e) = e ≡ uncaught
Begins first (ok done) = (rest : List Effect) × (done.effects ≡ first ∷ rest)

conclude-Begins :
    (env : Env) (fs : FileEnv) (c : ConnectionInfo) (slots : ℕ) (dir : String) (first : Effect)
    (before : List Effect)
    → Begins first (conclude env fs c slots dir (first ∷ before))
unfolding conclude
conclude-Begins env fs c slots dir first before = elim (Bool-cases (all_opened fs dir c)) [
  | inl e ↦ rw e (_, refl)
  | inr e ↦ elim (Bool-cases fs.cleanup_fails) [
    | inl f ↦ rw (e, f) refl
    | inr f ↦ rw (e, f) (_, refl)
  ]
]

make_directory-removed :
    (fs : FileEnv) (dir : String)
    → fs.probe_fails ≡ false
    → fs.directory_exists ≡ true
    → fs.remove_fails ≡ false
    → (made : Bool) × (rest : List Effect) × (make_directory fs dir
        ≡ (made, removed_all dir ∷ rest))
unfolding make_directory
make_directory-removed fs dir p d r = elim (Bool-cases fs.create_fails) [
  | inl m ↦ (false, [], rw (p, d, r, m) refl)
  | inr m ↦ (true, created_directory dir ∷ [], rw (p, d, r, m) refl)
]

store_in-Begins :
    (env : Env) (fs : FileEnv) (c : ConnectionInfo) (slots : ℕ) (made : Bool) (first : Effect)
    (rest : List Effect)
    → Begins first (store_in env fs c slots (made, first ∷ rest))
store_in-Begins env fs c slots false first rest = (_, refl)
store_in-Begins env fs c slots true first rest =
    conclude-Begins env fs c slots (event_directory c.file_name) first
      (rest ++ write_files fs (event_directory c.file_name) c)

store_program-Begins :
    (env : Env) (fs : FileEnv) (c : ConnectionInfo) (slots : ℕ)
    → is_missing c ≡ false
    → fs.probe_fails ≡ false
    → fs.directory_exists ≡ true
    → fs.remove_fails ≡ false
    → Begins (removed_all (event_directory c.file_name)) (store_program env fs c slots)
unfolding store_program
store_program-Begins env fs c slots full p d r =
    let (n, t, f) = is_missing-split c full in
    let dir = event_directory c.file_name in
    let (made, rest, e) = make_directory-removed fs dir p d r in
    rw (n, t, f, e) (store_in-Begins env fs c slots made (removed_all dir) rest)

complete_kind-Begins :
    (k : HttpMethod) (env : Env) (fs : FileEnv) (c : ConnectionInfo) (slots : ℕ)
    → k ≡ post
    → is_missing c ≡ false
    → fs.probe_fails ≡ false
    → fs.directory_exists ≡ true
    → fs.remove_fails ≡ false
    → Begins (removed_all (event_directory c.file_name)) (complete_kind k env fs c slots)
complete_kind-Begins get env fs c slots k full p d r = absurd (ground (arith, k))
complete_kind-Begins post env fs c slots k full p d r =
    store_program-Begins env fs c (give_back c slots) full p d r

-- A name with a slash is answered `Invalid file name`; the completion, whatever libmicrohttpd, the
-- creation of the directory and the opening of the files answer to it, still begins by removing the
-- directory that the name leads to, with all that is in it, if there is one that can be removed,
-- unless it ends in an exception later.
pub refused_name-removed :
    (env later : Env) (fs : FileEnv) (c : ConnectionInfo) (slots : ℕ)
    → Serves env
    → c.connection_type ≡ post
    → is_missing c ≡ false
    → has_char b'/' c.file_name ≡ true
    → fs.probe_fails ≡ false
    → fs.directory_exists ≡ true
    → fs.remove_fails ≡ false
    → (program_accept env [] (some c) 0 slots
        ≡ ok (going_on (responded 400 "Invalid file name" ∷ []) (some (finished c)) 0 slots))
      × Begins
          (removed_all (event_directory c.file_name))
          (post_request_complete later fs (some (finished c)) slots)
unfolding program_accept program_answer send_response post_request_complete
refused_name-removed env later fs c slots (s, q) k full slash p d r = (
  rw (slash, s, q) refl,
  complete_kind-Begins c.connection_type later fs (finished c) slots k full p d r,
)
