-- ===== src/Video/Lookup.antt =====
-- VideoHandler.cpp: `get_video`.
use Prim.Native.Char.{Char, code}
use Prim.Native.String
use Prim.Native.String.{String}
use text.Mathlib.TextLemmas.{nil-append, cons-append, append_assoc}
use rpi_cam.Base.{Bool, true, false, not, Option, none, some, ◌≡◌, refl, if◌then◌else◌, ◌==◌}

-- `std::filesystem::path::has_filename`: something stands after the last separator.
unfoldable pub has_filename : String → Bool
has_filename String.[] = false
has_filename (String.◌∷◌ c String.[]) = not (code c == b'/')
has_filename (String.◌∷◌ c (String.◌∷◌ d s)) = has_filename (String.◌∷◌ d s)

-- The clip of an event.
abbrev pub clip_path : String → String → String
clip_path save_path event_id =
    String.◌++◌ save_path (String.◌++◌ "/event/" (String.◌++◌ event_id ".mp4"))

-- `VideoHandler::get_video`: the path, or `none` for -1.
unfoldable pub get_video : String → String → Option String
unfolding has_filename
get_video save_path event_id =
    if has_filename (clip_path save_path event_id)
    then some (clip_path save_path event_id)
    else none

has_filename-cons :
    (c d : Char) (s : String)
    → has_filename (String.◌∷◌ c (String.◌∷◌ d s)) ≡ has_filename (String.◌∷◌ d s)
unfolding has_filename
has_filename-cons c d s = refl

-- A text that ends in a file name has one, whatever stands before.
has_filename-append :
    (s : String) (c : Char) (t : String)
    → has_filename (String.◌∷◌ c t) ≡ true
    → has_filename (String.◌++◌ s (String.◌∷◌ c t)) ≡ true
has_filename-append String.[] c t h = rw (nil-append (String.◌∷◌ c t)) h
has_filename-append (String.◌∷◌ d String.[]) c t h =
    rw
      (
        cons-append d String.[] (String.◌∷◌ c t),
        nil-append (String.◌∷◌ c t),
        has_filename-cons d c t,
      )
      h
has_filename-append (String.◌∷◌ d (String.◌∷◌ e s)) c t h =
    let ih : has_filename (String.◌∷◌ e (String.◌++◌ s (String.◌∷◌ c t))) ≡ true =
      rw (cons-append e s (String.◌∷◌ c t)) at (has_filename-append (String.◌∷◌ e s) c t h) in
    rw
      (
        cons-append d (String.◌∷◌ e s) (String.◌∷◌ c t),
        cons-append e s (String.◌∷◌ c t),
        has_filename-cons d e (String.◌++◌ s (String.◌∷◌ c t)),
      )
      ih

clip_path-eq :
    (save_path event_id : String)
    → clip_path save_path event_id
      ≡ String.◌++◌ (String.◌++◌ save_path (String.◌++◌ "/event/" event_id)) ".mp4"
clip_path-eq save_path event_id = simp append_assoc

-- Every event has a clip path: `get_video` never asks whether the file is there, and never fails.
pub get_video-total :
    (save_path event_id : String)
    → get_video save_path event_id ≡ some (clip_path save_path event_id)
unfolding get_video
get_video-total save_path event_id =
    let named : has_filename (clip_path save_path event_id) ≡ true =
      rw (clip_path-eq save_path event_id) (
        has_filename-append (String.◌++◌ save_path (String.◌++◌ "/event/" event_id)) _ "mp4"
          refl) in
    rw named
