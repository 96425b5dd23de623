-- ===== src/Program/Uploads.antt =====
-- Whether an uploaded program runs: post_request_complete.cpp against the loader of
-- EventProcessor.cpp.
use Prim.Native.Char.{code}
use Prim.Native.String
use Prim.Native.String.{String}
use text.Mathlib.TextLemmas.{append_cancel_left, append-nil, nil-append, cons-append}
use rpi_cam.Base.{
  ℕ, ◌≡◌, refl, sym, ap, ◌∙◌, arith, Bool, true, false, ◌||◌, none, some, List, [], ◌∷◌, str_eq,
  eq_iff, Bool-cases, inl, inr, Option,
}
use rpi_cam.Base.Int.{ℤ}
use rpi_cam.Base.Text.{Stoi, number, invalid_argument, out_of_range, stoi}
use rpi_cam.Base.Outcome.{ok, fault, null_pointer, ◌>>=◌, ok-injective}
use rpi_cam.VideoQueue.{VideoBuffer, Popped, frame}
use rpi_cam.Event.Processor.{
  Reports, is_positive, set_enable, set_fps, open_program, EventProcessor, DirectoryEntry, Loader,
  read_directory, read_entry, construct, event_init, event_exec, so_path,
}
use rpi_cam.Event.Loop.{event_loop}
use rpi_cam.Http.{ConnectionInfo, Effect, wrote, appended, post, Env}
use rpi_cam.Http.Upload.{is_missing}
use rpi_cam.Http.Complete.{
  FileEnv, fps_file, enable_file, program_path, Completed, event_directory, post_request_complete,
}
use rpi_cam.Http.Storage.{Refuses, post_request_complete-stored, Writes, stored_files}

-- Whether a row of effects leaves a file under a path.
abbrev pub has_file : String → List Effect → Bool
has_file path [] = false
has_file path (wrote p t ∷ effects) = str_eq p path || has_file path effects
has_file path (appended p t ∷ effects) = str_eq p path || has_file path effects
has_file path (_ ∷ effects) = has_file path effects

-- The code of the last character, `k` if there is none.
last_code : ℕ → String → ℕ
last_code k String.[] = k
last_code k (String.◌∷◌ c s) = last_code (code c) s

last_code-append :
    (k : ℕ) (s t : String) → last_code k (String.◌++◌ s t) ≡ last_code (last_code k s) t
unfolding last_code
last_code-append k String.[] t = ap (last_code k) (nil-append t)
last_code-append k (String.◌∷◌ c s) t =
    ap (last_code k) (cons-append c s t) ∙ last_code-append (code c) s t

-- No name, and not `enable`, is a library's name.
name-ne-so : (name : String) → name ≡ String.◌++◌ name ".so" → ⊥
unfolding last_code
name-ne-so name h =
    let same : "" ≡ ".so" = append_cancel_left name "" ".so" (append-nil name ∙ h) in
    let n : 0 ≡ 111 = ap (last_code 0) same in omega (arith, n)

enable-ne-so : (name : String) → "enable" ≡ String.◌++◌ name ".so" → ⊥
unfolding last_code
enable-ne-so name h =
    let n : 101 ≡ 111 = ap (last_code 0) h ∙ last_code-append 0 name ".so" in omega (arith, n)

-- What the directory does not set.
abbrev SameProgram : EventProcessor → EventProcessor → Type 0
SameProgram e e' = (e'.event_name ≡ e.event_name) × (e'.event_program ≡ e.event_program)

set_enable-SameProgram : (o : Option ℤ) (e : EventProcessor) → SameProgram e (set_enable o e)
set_enable-SameProgram none e = (refl, refl)
set_enable-SameProgram (some z) e = (refl, refl)

set_fps-SameProgram : (r : Stoi) (e : EventProcessor) → SameProgram e (set_fps r e)
set_fps-SameProgram (number z) e = (refl, refl)
set_fps-SameProgram invalid_argument e = (refl, refl)
set_fps-SameProgram out_of_range e = (refl, refl)

read_entry-SameProgram :
    (entry : DirectoryEntry) (e : EventProcessor) → SameProgram e (read_entry entry e)
unfolding read_entry
read_entry-SameProgram entry e = elim (Bool-cases (str_eq entry.filename "enable")) [
  | inl y ↦ rw y (set_enable-SameProgram entry.read_int e)
  | inr n ↦ elim (Bool-cases (is_positive entry.filename)) [
    | inl y ↦ rw (n, y) (set_fps-SameProgram (stoi entry.filename) e)
    | inr k ↦ rw (n, k) (refl, refl)
  ]
]

read_directory-SameProgram :
    (entries : List DirectoryEntry) (e : EventProcessor) → SameProgram e (read_directory entries e)
unfolding read_directory
read_directory-SameProgram [] e = (refl, refl)
read_directory-SameProgram (entry ∷ entries) e =
    let (n, p) = read_directory-SameProgram entries (read_entry entry e) in
    let (m, r) = read_entry-SameProgram entry e in (n ∙ m, p ∙ r)

-- Without its library an object has no program, and its first frame goes to a null pointer.
unloaded-fails :
    (reports : Reports) (calls : ℕ) (dlopen : Loader) (entries : List DirectoryEntry)
    (name : String) (b : VideoBuffer) (pops : List Popped)
    → dlopen (so_path name) ≡ none
    → event_loop reports (construct dlopen entries name) calls (frame b ∷ pops) ≡ fault null_pointer
unfolding event_loop construct event_init event_exec
unloaded-fails reports calls dlopen entries name b pops closed =
    let blank : EventProcessor = record {
      event_name = name;
      fps = none;
      enable = none;
      event_program = none;
    } in
    let (n, p) = read_directory-SameProgram entries blank in
    let gone = ap (λ m. dlopen (so_path m)) n ∙ closed in rw (gone, open_program, p, ◌>>=◌) refl

append_ne :
    (dir a b : String) → (a ≡ b → ⊥) → str_eq (String.◌++◌ dir a) (String.◌++◌ dir b) ≡ false
append_ne dir a b ne = elim (Bool-cases (str_eq (String.◌++◌ dir a) (String.◌++◌ dir b))) [
  | inl e ↦
      absurd
        (ne (append_cancel_left dir a b ((eq_iff (String.◌++◌ dir a) (String.◌++◌ dir b)).0 e)))
  | inr n ↦ n
]

stored_cases :
    (old : Bool) (c : ConnectionInfo) (path : String)
    → str_eq (program_path c.file_name) path ≡ false
    → str_eq (fps_file (event_directory c.file_name) c) path ≡ false
    → str_eq (enable_file (event_directory c.file_name)) path ≡ false
    → has_file path (stored_files old c) ≡ false
stored_cases true c path p f e = rw (p, f, e) refl
stored_cases false c path p f e = rw (p, f, e) refl

-- The files of an upload are none of the loader's.
stored_files-so :
    (old : Bool) (c : ConnectionInfo)
    → str_eq c.fps (String.◌++◌ c.file_name ".so") ≡ false
    → has_file
        (String.◌++◌ (event_directory c.file_name) (String.◌++◌ c.file_name ".so"))
        (stored_files old c)
      ≡ false
stored_files-so old c rate =
    let dir = event_directory c.file_name in
    let so = String.◌++◌ c.file_name ".so" in
    let program = append_ne dir c.file_name so (name-ne-so c.file_name) in
    let enable = append_ne dir "enable" so (enable-ne-so c.file_name) in
    let fps = append_ne dir c.fps so (λ e. ground (arith, rate, eq_iff c.fps so, e)) in
    stored_cases old c (String.◌++◌ dir so) program fps enable

-- A program that was uploaded completely never runs: if the loader opens only files of the event's
-- directory that the completion of the upload has left, and the rate is not called like the
-- library, the thread of the program calls a null pointer at the first frame that it gets. The last
-- response of the completion is refused.
pub post_request_complete-unloaded :
    (env : Env) (fs : FileEnv) (reports : Reports) (dlopen : Loader) (entries : List DirectoryEntry)
    (c : ConnectionInfo) (slots : ℕ) (done : Completed) (b : VideoBuffer) (pops : List Popped)
    → Refuses env
    → Writes fs c
    → c.connection_type ≡ post
    → c.postprocessor ≡ true
    → is_missing c ≡ false
    → str_eq c.fps (String.◌++◌ c.file_name ".so") ≡ false
    → post_request_complete env fs (some c) slots ≡ ok done
    → ((file : String)
        → has_file (String.◌++◌ (event_directory c.file_name) file) done.effects ≡ false
        → dlopen (String.◌++◌ "./event/" (String.◌++◌ c.file_name (String.◌++◌ "/" file))) ≡ none)
    → event_loop reports (construct dlopen entries c.file_name) 0 (frame b ∷ pops)
      ≡ fault null_pointer
post_request_complete-unloaded env fs reports dlopen entries c slots done b pops refuses w k p full
      rate e closed =
    let stored =
      ok-injective (sym (post_request_complete-stored env fs c slots refuses w k p full) ∙ e) in
    let so = String.◌++◌ c.file_name ".so" in
    unloaded-fails reports 0 dlopen entries c.file_name b pops (
      closed so (
        ap (λ d. has_file (String.◌++◌ (event_directory c.file_name) so) d.effects) (sym stored)
        ∙ stored_files-so fs.directory_exists c rate))
