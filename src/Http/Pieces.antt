-- ===== src/Http/Pieces.antt =====
-- The pieces in which a form arrives, and a whole upload made of them.
use rpi_cam.Http.Storage.{
  Refuses, Serves, Writes, stored_files, post_request_complete-stored, program_answer-saved,
}
use rpi_cam.Base.{
  true, ℕ, ◌+◌, ◌<◌, ◌≡◌, refl, false, ◌==◌, List, [], ◌∷◌, String, All, arith, Bool-cases, inl,
  inr, none, some, suc,
}
use Prim.Native.String
use rpi_cam.Base.Text.{is_empty_text, text_length, has_char, stoi, number}
use text.Mathlib.TextLemmas.{cons-append}
use rpi_cam.Base.Int.{ℤ}
use rpi_cam.Base.Outcome.{ok}
use rpi_cam.Http.{Env, responded, going_on, Part, ConnectionInfo}
use rpi_cam.Http.Upload.{
  program_open, program_accept, is_missing, finished, store_part, post_process, fresh_upload,
}
use rpi_cam.Http.Complete.{FileEnv, post_request_complete}

abbrev pub Filled : String → Type 0
Filled t = is_empty_text t ≡ false

-- The pieces of a file after its first `off` bytes.
abbrev pub file_pieces : ℕ → List String → List Part
file_pieces off [] = []
file_pieces off (t ∷ ts) =
    record { key = "file"; text = t; off = off } ∷ file_pieces (off + text_length t) ts

abbrev pub joined : String → List String → String
joined t [] = t
joined t (u ∷ us) = joined (String.◌++◌ t u) us

-- The form of an upload as the parser reports it: name and rate in one piece each, then the file.
abbrev pub upload_form : String → String → List String → List Part
upload_form name fps file =
    record { key = "name"; text = name; off = 0 }
    ∷ record { key = "fps"; text = fps; off = 0 }
    ∷ file_pieces 0 file

store_part-file :
    (t : String) (off : ℕ) (c : ConnectionInfo)
    → 0 < off
    → store_part (record { key = "file"; text = t; off = off }) c
      ≡ record c { file_content = String.◌++◌ c.file_content t }
unfolding store_part
store_part-file t off c h = elim (Bool-cases (off == 0)) [
  | inl e ↦ absurd (ground arith)
  | inr e ↦ rw e
]

text_length-pos : (t : String) → Filled t → 0 < text_length t
text_length-pos String.[] h = absurd (ground arith)
text_length-pos (String.◌∷◌ c t) h = omega arith

-- The later pieces are appended in order.
post_process-file_pieces :
    (off : ℕ) (ts : List String) (c : ConnectionInfo)
    → 0 < off
    → All Filled ts
    → post_process (file_pieces off ts) c ≡ record c { file_content = joined c.file_content ts }
unfolding post_process
post_process-file_pieces off [] c h filled = refl
post_process-file_pieces off (t ∷ ts) c h (filled, later) =
    rw
      (
        filled,
        store_part-file t off c h,
        post_process-file_pieces (off + text_length t) ts
            (record c { file_content = String.◌++◌ c.file_content t }) (omega arith) later,
      )
      refl

-- The form, posted to a fresh upload, leaves the name, the rate and the whole file.
pub post_process-upload_form :
    (name fps t : String) (ts : List String)
    → Filled name
    → Filled fps
    → All Filled (t ∷ ts)
    → post_process (upload_form name fps (t ∷ ts)) fresh_upload
      ≡ record fresh_upload { file_name = name; fps = fps; file_content = joined t ts }
unfolding post_process store_part
post_process-upload_form name fps t ts n f (filled, later) =
    rw (n, f, filled)
      (post_process-file_pieces (0 + text_length t) ts
        (record fresh_upload { file_name = name; fps = fps; file_content = t })
        (omega (arith, text_length-pos t filled)) later)

Filled-append : (s t : String) → Filled s → Filled (String.◌++◌ s t)
Filled-append String.[] t h = absurd (ground arith)
Filled-append (String.◌∷◌ c s) t h = rw (cons-append c s t) refl

Filled-joined : (t : String) (ts : List String) → Filled t → Filled (joined t ts)
Filled-joined t [] h = h
Filled-joined t (u ∷ us) h = Filled-joined (String.◌++◌ t u) us (Filled-append t u h)

program_open-starts :
    (env : Env) (slots : ℕ)
    → env.allocates ≡ true
    → env.creates_processor ≡ true
    → program_open env 0 (suc slots) ≡ ok (going_on [] (some fresh_upload) 0 slots)
unfolding program_open
program_open-starts env slots a p = rw (a, p) (ground arith)

-- The upload that a form leaves.
abbrev pub uploaded : String → String → String → ConnectionInfo
uploaded name fps content = record fresh_upload {
  file_name = name;
  fps = fps;
  file_content = content;
}

-- A whole upload: the first call takes a slot, the second one reads the form, the third answers
-- 200, and the completion, whose response libmicrohttpd refuses, gives the slot back and writes the
-- file whole under the program's name.
pub upload-stored :
    (env over : Env) (fs : FileEnv) (name fps t : String) (ts : List String) (z : ℤ) (n slots : ℕ)
    → Serves env
    → Refuses over
    → Writes fs (uploaded name fps (joined t ts))
    → env.allocates ≡ true
    → env.creates_processor ≡ true
    → has_char b'/' name ≡ false
    → stoi fps ≡ number z
    → Filled name
    → Filled fps
    → All Filled (t ∷ ts)
    → let c = uploaded name fps (joined t ts) in
      (program_accept env [] none 0 (suc slots) ≡ ok (going_on [] (some fresh_upload) 0 slots))
      × (program_accept env (upload_form name fps (t ∷ ts)) (some fresh_upload) (suc n) slots
          ≡ ok (going_on [] (some c) 0 slots))
      × (program_accept env [] (some c) 0 slots
          ≡ ok (going_on (responded 200 "program file saved" ∷ []) (some (finished c)) 0 slots))
      × (post_request_complete over fs (some (finished c)) slots
          ≡ ok (record { upload_client = slots + 1; effects = stored_files fs.directory_exists c }))
unfolding program_accept
upload-stored env over fs name fps t ts z n slots serves refuses w a p slash is_z filled rated
      (f, later) =
    let c = uploaded name fps (joined t ts) in
    let full : is_missing c ≡ false = rw (filled, Filled-joined t ts f, rated) refl in
    (
      program_open-starts env slots a p,
      rw (post_process-upload_form name fps t ts filled rated (f, later)) (ground arith),
      rw (program_answer-saved c (slash, (z, is_z), full), serves.0, serves.1) refl,
      post_request_complete-stored over fs (finished c) slots refuses w refl refl full,
    )
