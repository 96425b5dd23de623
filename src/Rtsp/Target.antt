-- ===== src/Rtsp/Target.antt =====
-- RTSPSessionImpl.cpp: what `read` cuts out of the target and the headers of a request.
use rpi_cam.Base.Outcome.{fault, Outcome, ok, uncaught, deref}
use Prim.Native.Char.{code}
use Prim.Native.Nat.{zero, suc}
use rpi_cam.Base.{ℕ, Bool, true, false, Option, none, some, String, ◌==◌, ◌&&◌, ◌||◌, if◌then◌else◌}

abbrev pub skip_slashes : String → Option String
skip_slashes String.[] = none
skip_slashes (String.◌∷◌ c String.[]) = none
skip_slashes (String.◌∷◌ c (String.◌∷◌ d s)) =
    let later = skip_slashes (String.◌∷◌ d s) in
    if code c == b'/' && code d == b'/' then some s else later

abbrev pub without_first : String → String
without_first String.[] = ""
without_first (String.◌∷◌ c s) = s

-- The text after "//"; without one, `npos + 2` is 1.
abbrev pub after_scheme : String → String
after_scheme target = elim (skip_slashes target) [ none ↦ without_first target | some s ↦ s ]

abbrev pub from_slash : String → Option String
from_slash String.[] = none
from_slash (String.◌∷◌ c s) =
    let later = from_slash s in if code c == b'/' then some (String.◌∷◌ c s) else later

-- The path of a target; `substr` throws if there is none.
unfoldable pub path_of : String → Outcome String
path_of target = deref uncaught (from_slash (after_scheme target))

abbrev pub has_prefix : String → String → Bool
has_prefix String.[] s = true
has_prefix (String.◌∷◌ c p) String.[] = false
has_prefix (String.◌∷◌ c p) (String.◌∷◌ d s) = code c == code d && has_prefix p s

abbrev pub has_text : String → String → Bool
has_text p String.[] = has_prefix p ""
has_text p (String.◌∷◌ c s) = has_prefix p (String.◌∷◌ c s) || has_text p s

-- `substr` from a position, which throws beyond the end.
abbrev pub from_position : ℕ → String → Outcome String
from_position zero s = ok s
from_position (suc n) String.[] = fault uncaught
from_position (suc n) (String.◌∷◌ c s) = from_position n s

abbrev pub find_text : String → String → Option ℕ
find_text p String.[] = if has_prefix p "" then some 0 else none
find_text p (String.◌∷◌ c s) =
    let later = find_text p s in
    if has_prefix p (String.◌∷◌ c s)
    then some 0
    else elim later [ none ↦ none | some n ↦ some (suc n) ]
