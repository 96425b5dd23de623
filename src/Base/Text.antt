-- ===== src/Base/Text.antt =====
-- `std::string` as a text of one-byte characters, and the library calls on it that the program
-- makes: `find` of a character, `substr`, `std::stoi`, `std::strtoll`.
use Prim.Native.Nat.{ℕ, ◌+◌, ◌*◌, ◌-◌, ◌^◌}
use Prim.Native.Char.{code}
use Prim.Native.String.{String}
use mathlib.Core.Bool.{Bool, true, false, ◌&&◌, ◌||◌}
use mathlib.Core.Option.{Option, none, some}
use rpi_cam.Base.Tests.{ltb, leb, ◌==◌, if◌then◌else◌}
use rpi_cam.Base.Int.{ℤ, pos, negsuc}

-- `s.find(c) != npos`
unfoldable pub has_char : ℕ → String → Bool
has_char k String.[] = false
has_char k (String.◌∷◌ c s) = code c == k || has_char k s

-- `s.substr(0, s.find(c))`: the whole text if there is no `c`.
unfoldable pub before_char : ℕ → String → String
before_char k String.[] = ""
before_char k (String.◌∷◌ c s) = if code c == k then "" else String.◌∷◌ c (before_char k s)

abbrev pub is_empty_text : String → Bool
is_empty_text String.[] = true
is_empty_text (String.◌∷◌ c s) = false

abbrev pub text_length : String → ℕ
text_length String.[] = 0
text_length (String.◌∷◌ c s) = 1 + text_length s

abbrev pub is_space : ℕ → Bool
is_space c = c == 32 || (leb 9 c && leb c 13)

abbrev pub is_digit : ℕ → Bool
is_digit c = leb b'0' c && leb c b'9'

-- The number that the digits at the front of a text make, after `acc`.
abbrev pub digits_from : ℕ → String → ℕ
digits_from acc String.[] = acc
digits_from acc (String.◌∷◌ c s) =
    let more = digits_from (acc * 10 + (code c - b'0')) s in if is_digit (code c) then more else acc

-- `none` if no digit stands at the front.
abbrev pub digits : String → Option ℕ
digits String.[] = none
digits (String.◌∷◌ c s) = if is_digit (code c) then some (digits_from (code c - b'0') s) else none

-- -n
abbrev pub negated : ℕ → ℤ
negated n = if n == 0 then pos 0 else negsuc (n - 1)

abbrev pub signed : Bool → Option ℕ → Option ℤ
signed negative none = none
signed false (some n) = some (pos n)
signed true (some n) = some (negated n)

abbrev pub after_space : String → Option ℤ
after_space String.[] = none
after_space (String.◌∷◌ c s) =
    if code c == b'-'
    then signed true (digits s)
    else if code c == b'+'
    then signed false (digits s)
    else signed false (digits (String.◌∷◌ c s))

-- The integer at the front of a text: space, a sign, digits; `none` if there is none.
unfoldable pub leading_int : String → Option ℤ
leading_int String.[] = none
leading_int (String.◌∷◌ c s) =
    let later = leading_int s in if is_space (code c) then later else after_space (String.◌∷◌ c s)

-- `std::stoi`: a value, `std::invalid_argument` or `std::out_of_range`.
pub data Stoi : Type 0 where
  number : ℤ → Stoi
  invalid_argument out_of_range : Stoi

abbrev pub within_int : ℤ → Stoi
within_int (pos n) = if ltb n (2 ^ 31) then number (pos n) else out_of_range
within_int (negsuc n) = if ltb n (2 ^ 31) then number (negsuc n) else out_of_range

abbrev pub stoi_of : Option ℤ → Stoi
stoi_of none = invalid_argument
stoi_of (some z) = within_int z

unfoldable pub stoi : String → Stoi
unfolding leading_int
stoi s = stoi_of (leading_int s)

-- `strtoll(s, nullptr, 10)`: 0 if there is no number, and the nearest bound out of range.
abbrev pub clamped : Option ℤ → ℤ
clamped none = pos 0
clamped (some (pos n)) = if ltb n (2 ^ 63) then pos n else pos (2 ^ 63 - 1)
clamped (some (negsuc n)) = if ltb n (2 ^ 63) then negsuc n else negsuc (2 ^ 63 - 1)

unfoldable pub strtoll : String → ℤ
unfolding leading_int
strtoll s = clamped (leading_int s)
