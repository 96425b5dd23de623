-- ===== src/Video/Clips.antt =====
-- VideoHandler.cpp: `set_filename`, `process_video` and `remove_video`.
use Prim.Native.String
use rpi_cam.Base.{
  ℕ, ◌+◌, ◌-◌, ◌/◌, ◌%◌, ◌^◌, Bool, true, false, ◌&&◌, ◌||◌, not, Option, none, some, List, [], ◌∷◌,
  ◌++◌, String, str_eq, if◌then◌else◌, ltb,
}
use rpi_cam.Base.Int.{ℤ, pos, negsuc, ◌+ℤ◌, ◌-ℤ◌, ltb_ℤ, leb_ℤ}
use rpi_cam.Base.Outcome.{Outcome, ok, fault, uncaught, overflow, ◌>>=◌}
use rpi_cam.Base.Text.{Stoi, number, invalid_argument, out_of_range, stoi, before_char, negated}
use rpi_cam.Config.Recording.{VideoConfig, split_time}
use rpi_cam.Video.Lookup.{clip_path}

-- The conversion of a `time_t` to an `int` of 32 bits, which wraps around.
abbrev pub to_int : ℤ → ℤ
to_int (pos n) = let m = n % 2 ^ 32 in if ltb m (2 ^ 31) then pos m else negsuc (2 ^ 32 - 1 - m)
to_int (negsuc n) = let m = n % 2 ^ 32 in if ltb m (2 ^ 31) then negsuc m else pos (2 ^ 32 - 1 - m)

-- The result of an operation on signed integers of w + 1 bits.
abbrev pub signed_result : ℕ → ℤ → Outcome ℤ
signed_result w (pos n) = if ltb n (2 ^ w) then ok (pos n) else fault overflow
signed_result w (negsuc n) = if ltb n (2 ^ w) then ok (negsuc n) else fault overflow

-- `stoi`, whose exceptions nothing catches here.
abbrev pub must_read : Stoi → Outcome ℤ
must_read (number z) = ok z
must_read invalid_argument = fault uncaught
must_read out_of_range = fault uncaught

-- `path::extension() == ".mp4"`: something stands before the last four characters.
abbrev pub is_mp4 : String → Bool
is_mp4 String.[] = false
is_mp4 (String.◌∷◌ c s) = str_eq s ".mp4" || is_mp4 s

abbrev pub is_member : String → List String → Bool
is_member f [] = false
is_member f (g ∷ files) = str_eq g f || is_member f files

-- The loop over the directory: a name, and whether it is a regular file.
unfoldable pub collect : List (String × Bool) → List String → List String
collect [] files = files
collect ((name, regular) ∷ entries) files =
    collect entries
      (if regular && is_mp4 name && not (is_member name files) then files ++ name ∷ [] else files)

-- The comparison of `sort`.
unfoldable pub is_earlier : String → String → Outcome Bool
is_earlier a b = must_read (stoi a) >>= λ x. must_read (stoi b) >>= λ y. ok (ltb_ℤ x y)

-- `sort`; names with equal numbers keep their order here.
unfoldable pub insert_name : String → List String → Outcome (List String)
unfolding is_earlier
insert_name f [] = ok (f ∷ [])
insert_name f (g ∷ files) = is_earlier g f >>= λ b. elim b [
  | true ↦ (insert_name f files >>= λ later. ok (g ∷ later))
  | false ↦ ok (f ∷ g ∷ files)
]

unfoldable pub sort_names : List String → Outcome (List String)
unfolding insert_name
sort_names [] = ok []
sort_names (f ∷ files) = sort_names files >>= insert_name f

-- `VideoHandler::set_filename`, on an empty vector.
unfoldable pub set_filename : List (String × Bool) → Outcome (List String)
unfolding collect sort_names
set_filename entries = sort_names (collect entries [])

-- The time at which a file starts: `stoi(file.substr(0, file.find('.')))`.
unfoldable pub file_timestamp : String → Outcome ℤ
unfolding stoi before_char
file_timestamp file = must_read (stoi (before_char b'.' file))

-- The test of `process_video` on one file.
unfoldable pub overlaps : ℤ → ℤ → ℤ → String → Outcome Bool
overlaps start_time end_time split file = do
  stamp ← file_timestamp file
  sum ← signed_result 31 (stamp +ℤ split)
  end_file ← signed_result 31 (sum -ℤ pos 1)
  ok (leb_ℤ stamp end_time && leb_ℤ start_time end_file)

unfoldable pub choose : ℤ → ℤ → ℤ → List String → Outcome (List String)
unfolding overlaps
choose start_time end_time split [] = ok []
choose start_time end_time split (file ∷ files) = do
  b ← overlaps start_time end_time split file
  later ← choose start_time end_time split files
  ok (if b then file ∷ later else later)

abbrev pub source_elements : String → List String → String
source_elements save_path [] = ""
source_elements save_path (file ∷ files) = String.◌++◌ " filesrc location=" (
    String.◌++◌ save_path (
      String.◌++◌ "/" (
        String.◌++◌ file
          (String.◌++◌ " ! qtdemux ! h264parse ! c." (source_elements save_path files)))))

-- The pipeline's description.
unfoldable pub pipeline : String → String → List String → String
pipeline save_path event_id files =
    String.◌++◌ "concat name=c ! queue ! m.video_0 qtmux name=m ! filesink location="
      (String.◌++◌ (clip_path save_path event_id) (source_elements save_path files))

-- What GStreamer answers: the parsing, the change of state, and the message that ends the wait.
pub data Message : Type 0 where
  error eos : Message

pub record Gst : Type 0 where
  pub parses : Bool
  pub plays : Bool
  pub message : Message

-- The pipeline is run on the chosen files. An error message is answered like the end of the stream.
unfoldable pub run_pipeline : Gst → String → String → List String → ℤ × Option String
unfolding pipeline
run_pipeline gst save_path event_id [] = (negsuc 0, none)
run_pipeline gst save_path event_id (file ∷ files) =
    if gst.parses
    then (if gst.plays then pos 0 else negsuc 0, some (pipeline save_path event_id (file ∷ files)))
    else (negsuc 0, none)

abbrev pub in_seconds : ℤ → ℤ
in_seconds (pos n) = pos (n / 1000000000)
in_seconds (negsuc n) = negated ((n + 1) / 1000000000)

-- `VideoHandler::process_video`: the result, and the pipeline that was run.
unfoldable pub process_video :
    VideoConfig → Gst → List (String × Bool) → ℤ → String → Outcome (ℤ × Option String)
unfolding set_filename choose run_pipeline split_time
process_video config gst entries timestamp event_id = do
  split ← split_time config
  start_time ← signed_result 63 (timestamp -ℤ config.duration)
  end_time ← signed_result 63 (timestamp +ℤ config.duration)
  files ← set_filename entries
  chosen ← choose (to_int start_time) (to_int end_time) (in_seconds split) files
  ok (run_pipeline gst config.vid_path event_id chosen)

-- The path of a file in the directory `path`.
abbrev pub file_path : String → String → String
file_path path file = String.◌++◌ path (String.◌++◌ "/" file)

-- `std::filesystem::remove`, which throws an exception under a path that `removes` refuses; nothing
-- catches it. The result is the path of which the removal was asked.
abbrev pub remove_file : (removes : String → Bool) → String → Bool → Outcome (List String)
remove_file removes full false = ok []
remove_file removes full true = if removes full then ok (full ∷ []) else fault uncaught

-- The loop of `remove_video`: the paths removed, all in the directory `path`.
unfoldable pub remove_old :
    (removes : String → Bool) → String → ℤ → List String → Outcome (List String)
unfolding file_timestamp
remove_old removes path limit [] = ok []
remove_old removes path limit (file ∷ files) = do
  stamp ← file_timestamp file
  here ← remove_file removes (file_path path file) (ltb_ℤ stamp limit)
  later ← remove_old removes path limit files
  ok (here ++ later)

-- `VideoHandler::remove_video` at the time `now`: the entries are those of the configured directory,
-- the files are removed from the directory of the argument.
unfoldable pub remove_video :
    (removes : String → Bool) → ℤ → ℤ → String → List (String × Bool) → Outcome (ℕ × List String)
unfolding set_filename remove_old
remove_video removes now maintain_time path entries = do
  files ← set_filename entries
  limit ← signed_result 31 (to_int now -ℤ maintain_time)
  removed ← remove_old removes path limit files
  ok (0, removed)
