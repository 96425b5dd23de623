-- ===== src/Video/Directory.antt =====
-- VideoHandler.cpp: what `set_filename`, `process_video` and `remove_video` make of a directory,
-- whatever the order in which the file system lists it.
use Prim.Native.String.{String}
use Prim.Native.Char.{code}
use rpi_cam.Base.{
  ℕ, ◌*◌, ◌+◌, ◌-◌, ◌≤◌, ◌==◌, Bool, true, ◌&&◌, List, ◌≡◌, refl, sym, ◌∙◌, ap, select, arith, inl,
  inr, Bool-cases, map,
}
use rpi_cam.Base.Int.{ℤ, pos, ◌+ℤ◌, ◌-ℤ◌, ltb_ℤ, leb_ℤ}
use rpi_cam.Base.Outcome.{ok}
use rpi_cam.Base.Text.{stoi, before_char, digits_from, digits, after_space, leading_int, stoi_of}
use rpi_cam.Config.Recording.{VideoConfig}
use rpi_cam.Video.Clips.{
  Gst, file_timestamp, signed_result, is_member, set_filename, process_video, remove_video,
  run_pipeline, to_int, must_read, file_path,
}
use rpi_cam.Video.Sorting.{IsNumbered, is_listed, set_filename-IsAscending}
use rpi_cam.Video.Selection.{process_video-select, remove_video-select, is_in_range, IsRecording}
use rpi_cam.Video.Ascending.{
  IsAscending, All-of_members, IsAscending-eq, is_member-select, select-IsAscending,
}

-- What stands before the first '.' has the digits of the whole text.
digits_from-before_char :
    (acc : ℕ) (s : String) → digits_from acc (before_char b'.' s) ≡ digits_from acc s
unfolding before_char
digits_from-before_char acc String.[] = refl
digits_from-before_char acc (String.◌∷◌ c s) = elim (Bool-cases (code c == b'.')) [
  | inl e ↦ rw e (ground (arith, e))
  | inr e ↦ rw (e, digits_from-before_char (acc * 10 + (code c - b'0')) s) refl
]

digits-before_char : (s : String) → digits (before_char b'.' s) ≡ digits s
unfolding before_char
digits-before_char String.[] = refl
digits-before_char (String.◌∷◌ c s) = elim (Bool-cases (code c == b'.')) [
  | inl e ↦ rw e (ground (arith, e))
  | inr e ↦ rw (e, digits_from-before_char (code c - b'0') s) refl
]

after_space-before_char : (s : String) → after_space (before_char b'.' s) ≡ after_space s
unfolding before_char
after_space-before_char String.[] = refl
after_space-before_char (String.◌∷◌ c s) = elim (Bool-cases (code c == b'.')) [
  | inl e ↦ rw e (ground (arith, e))
  | inr e ↦ rw (e, digits-before_char s, digits_from-before_char (code c - b'0') s) refl
]

leading_int-before_char : (s : String) → leading_int (before_char b'.' s) ≡ leading_int s
unfolding before_char leading_int
leading_int-before_char String.[] = refl
leading_int-before_char (String.◌∷◌ c s) = elim (Bool-cases (code c == b'.')) [
  | inl e ↦ rw e (ground (arith, e))
  | inr e ↦
      rw
        (
          e,
          leading_int-before_char s,
          digits-before_char s,
          digits_from-before_char (code c - b'0') s,
        )
        refl
]

-- The time that `process_video` and `remove_video` read is the number by which the names are sorted.
pub file_timestamp-stoi : (f : String) → file_timestamp f ≡ must_read (stoi f)
unfolding file_timestamp stoi
file_timestamp-stoi f = ap (λ z. must_read (stoi_of z)) (leading_int-before_char f)

-- Directories with the same recordings give the same list, in whatever order they list them.
set_filename_same :
    (key : String → ℤ) (entries entries' : List (String × Bool))
    → IsNumbered key entries
    → ((f : String) → is_listed f entries ≡ is_listed f entries')
    → set_filename entries ≡ set_filename entries'
set_filename_same key entries entries' (n, d) same =
    let listed : (f : String) → is_listed f entries' ≡ true → is_listed f entries ≡ true =
      λ f m. same f ∙ m in
    let (files, e, a, m) = set_filename-IsAscending key entries (n, d) in
    let (files', e', a', m') =
      set_filename-IsAscending key entries'
        (λ f l. n f (listed f l), λ f g l k. d f g (listed f l) (listed g k)) in
    e ∙ ap ok (IsAscending-eq key files files' a a' (λ f. m f ∙ same f ∙ sym (m' f))) ∙ sym e'

-- If the recordings of a directory begin with numbers, different ones, a directory with the same
-- recordings in another order gives the same sorted list, the same clip and the same removals.
pub video-same_directory :
    (config : VideoConfig) (gst : Gst) (removes : String → Bool) (path : String)
    (timestamp now maintain_time : ℤ) (event_id : String) (key : String → ℤ)
    (entries entries' : List (String × Bool))
    → IsNumbered key entries
    → ((f : String) → is_listed f entries ≡ is_listed f entries')
    → (set_filename entries ≡ set_filename entries')
      × (process_video config gst entries timestamp event_id
          ≡ process_video config gst entries' timestamp event_id)
      × (remove_video removes now maintain_time path entries
          ≡ remove_video removes now maintain_time path entries')
unfolding process_video remove_video
video-same_directory config gst removes path timestamp now maintain_time event_id key entries
      entries' n same =
    let e = set_filename_same key entries entries' n same in (e, rw e refl, rw e refl)

-- If the recordings of the configured directory begin with numbers, different ones, and no removal
-- throws, `remove_video` asks, in the order of the numbers, for the removal of exactly the names of the
-- recordings that started before the limit, all under the path of its argument, which need not be
-- the configured one.
pub remove_video-directory :
    (removes : String → Bool) (now maintain_time : ℤ) (path : String) (key : String → ℤ)
    (entries : List (String × Bool))
    → ((file : String) → removes (file_path path file) ≡ true)
    → IsNumbered key entries
    → signed_result 31 (to_int now -ℤ maintain_time) ≡ ok (to_int now -ℤ maintain_time)
    → (removed : List String) × (remove_video removes now maintain_time path entries
        ≡ ok (0, map (file_path path) removed))
      × IsAscending key removed
      × ((f : String)
          → is_member f removed
            ≡ (is_listed f entries && ltb_ℤ (key f) (to_int now -ℤ maintain_time)))
remove_video-directory removes now maintain_time path key entries g (n, d) h =
    let (files, e, a, m) = set_filename-IsAscending key entries (n, d) in
    let is_old : String → Bool = λ f. ltb_ℤ (key f) (to_int now -ℤ maintain_time) in
    (
      select is_old files,
      remove_video-select removes now maintain_time path entries key files g e h (
          All-of_members (λ f. file_timestamp f ≡ ok (key f)) files
            (λ f l. file_timestamp-stoi f ∙ ap must_read (n f (sym (m f) ∙ l)))),
      select-IsAscending key is_old files a,
      λ f. is_member-select is_old f files ∙ ap (λ b. b && is_old f) (m f),
    )

-- In a directory whose recordings begin with numbers, different ones, with ends that are ints, and
-- with a split time of at most two seconds, the clip of an event is run on a list in which the
-- numbers ascend and whose members are exactly the recordings that overlap the seconds around it.
pub process_video-directory :
    (config : VideoConfig) (gst : Gst) (timestamp : ℤ) (event_id : String) (s : ℕ)
    (key : String → ℤ) (entries : List (String × Bool))
    → config.split_seconds ≡ pos s
    → s ≤ 2
    → signed_result 63 (timestamp -ℤ config.duration) ≡ ok (timestamp -ℤ config.duration)
    → signed_result 63 (timestamp +ℤ config.duration) ≡ ok (timestamp +ℤ config.duration)
    → IsNumbered key entries
    → ((f : String)
        → is_listed f entries ≡ true
        → signed_result 31 (key f +ℤ pos s) ≡ ok (key f +ℤ pos s))
    → ((f : String)
        → is_listed f entries ≡ true
        → signed_result 31 (key f +ℤ pos s -ℤ pos 1) ≡ ok (key f +ℤ pos s -ℤ pos 1))
    → (chosen : List String) × (process_video config gst entries timestamp event_id
        ≡ ok (run_pipeline gst config.vid_path event_id chosen))
      × IsAscending key chosen
      × ((f : String)
          → is_member f chosen ≡ (
              is_listed f entries
              && (leb_ℤ (key f) (to_int (timestamp +ℤ config.duration))
                  && leb_ℤ (to_int (timestamp -ℤ config.duration)) (key f +ℤ pos s -ℤ pos 1))))
process_video-directory config gst timestamp event_id s key entries e le from until (n, d) ends
      last =
    let (files, sorted, a, m) = set_filename-IsAscending key entries (n, d) in
    let overlaps : String → Bool =
      is_in_range (to_int (timestamp -ℤ config.duration)) (to_int (timestamp +ℤ config.duration))
        (pos s) key in
    (
      select overlaps files,
      process_video-select config gst entries timestamp event_id s key files e le from until sorted
          (All-of_members (IsRecording (pos s) key) files (λ f l.
            let l' = sym (m f) ∙ l in
            (file_timestamp-stoi f ∙ ap must_read (n f l'), ends f l', last f l'))),
      select-IsAscending key overlaps files a,
      λ f. is_member-select overlaps f files ∙ ap (λ b. b && overlaps f) (m f),
    )
