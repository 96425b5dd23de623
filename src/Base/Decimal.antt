-- ===== src/Base/Decimal.antt =====
-- `std::to_string` of an unsigned number, and what the readers of numbers make of it.
use text.Mathlib.TextLemmas.{nil-append, cons-append}
use Prim.Native.Nat.{ℕ, zero, suc, ◌+◌, ◌/◌, ◌%◌, ◌<◌, ◌≤◌}
use Prim.Native.Char.{Char, code}
use Prim.Native.String
use Prim.Native.String.{String}
use mathlib.Core.Path.{◌≡◌, refl, sym, ap, ◌∙◌}
use mathlib.Core.Bool.{Bool, true, false}
use mathlib.Core.Option.{some}
use mathlib.Core.Logic.{ite, dite}
use mathlib.Core.WellFounded
use mathlib.Core.WellFounded.{Acc, WellFounded, Acc-prop}
use native.Mathlib.Decide.{dec_lt}
use native.Mathlib.Omega.{arith}
use rpi_cam.Base.Int.{pos}
use rpi_cam.Base.Text.{before_char, digits_from, is_digit, leading_int}

abbrev pub digit_char : ℕ → Char
digit_char zero = "0"
digit_char (suc zero) = "1"
digit_char (suc (suc zero)) = "2"
digit_char (suc (suc (suc zero))) = "3"
digit_char (suc (suc (suc (suc zero)))) = "4"
digit_char (suc (suc (suc (suc (suc zero))))) = "5"
digit_char (suc (suc (suc (suc (suc (suc zero)))))) = "6"
digit_char (suc (suc (suc (suc (suc (suc (suc zero))))))) = "7"
digit_char (suc (suc (suc (suc (suc (suc (suc (suc zero)))))))) = "8"
digit_char (suc (suc (suc (suc (suc (suc (suc (suc (suc d))))))))) = "9"

pub below : (bound n : ℕ) → n < bound → Acc ◌<◌ n
below zero n h = absurd (omega arith)
below (suc bound) n h = Acc.intro n λ m lt. below bound m (omega arith)

pub order : WellFounded ◌<◌
unfolding below
order = record { apply = λ n. below (suc n) n (omega arith) }

pub fewer : {n : ℕ} → 9 < n → n / 10 < n
fewer h = omega arith

write_digits : (n : ℕ) → Acc ◌<◌ n → String → String
write_digits n (Acc.intro _ smaller) rest =
    dite (dec_lt 9 n)
      (λ h.
        write_digits (n / 10) (smaller (n / 10) (fewer h)) (String.◌∷◌ (digit_char (n % 10)) rest))
      (λ _. String.◌∷◌ (digit_char (n % 10)) rest)

-- The digits of a number, before a text.
unfoldable pub digits_before : ℕ → String → String
unfolding write_digits order below
digits_before n rest = write_digits n (order.apply n) rest

unfoldable pub to_string : ℕ → String
unfolding digits_before
to_string n = digits_before n ""

write_digits_step :
    (n : ℕ) (w : Acc ◌<◌ n) (w' : Acc ◌<◌ (n / 10)) (rest : String)
    → write_digits n w rest
      ≡ ite
          (dec_lt 9 n)
          (write_digits (n / 10) w' (String.◌∷◌ (digit_char (n % 10)) rest))
          (String.◌∷◌ (digit_char (n % 10)) rest)
unfolding write_digits
write_digits_step n (Acc.intro _ smaller) w' rest = λ i.
    dite (dec_lt 9 n)
      (λ h.
        write_digits (n / 10) (Acc-prop (smaller (n / 10) (fewer h)) w' i)
          (String.◌∷◌ (digit_char (n % 10)) rest))
      (λ _. String.◌∷◌ (digit_char (n % 10)) rest)

digits_before_step :
    (n : ℕ) (rest : String)
    → digits_before n rest
      ≡ ite
          (dec_lt 9 n)
          (digits_before (n / 10) (String.◌∷◌ (digit_char (n % 10)) rest))
          (String.◌∷◌ (digit_char (n % 10)) rest)
unfolding digits_before
digits_before_step n = write_digits_step n (order.apply n) (order.apply (n / 10))

digits_before_more :
    (n : ℕ) (rest : String)
    → 9 < n
    → digits_before n rest ≡ digits_before (n / 10) (String.◌∷◌ (digit_char (n % 10)) rest)
digits_before_more n rest h = ground (arith, digits_before_step n rest)

digits_before_last :
    (n : ℕ) (rest : String) → n ≤ 9 → digits_before n rest ≡ String.◌∷◌ (digit_char (n % 10)) rest
digits_before_last n rest h = ground (arith, digits_before_step n rest)

-- What a last digit makes true of a text, and every digit before keeps, holds of a number's digits.
pub digits_before-induction :
    (P Q : String → Type 0)
    → ((d : ℕ) (rest : String) → P rest → Q (String.◌∷◌ (digit_char d) rest))
    → ((s : String) → Q s → P s)
    → (n : ℕ) (rest : String) → P rest
    → Q (digits_before n rest)
digits_before-induction P Q adds weaker n =
    WellFounded.induction order {C = λ m. (rest : String) → P rest → Q (digits_before m rest)} n
      λ m ih rest p. elim (dec_lt 9 m) [
        | yes h ↦ rw (digits_before_more m rest h) (
            ih (m / 10) (fewer h) (String.◌∷◌ (digit_char (m % 10)) rest)
              (weaker (String.◌∷◌ (digit_char (m % 10)) rest) (adds (m % 10) rest p)))
        | no h ↦ rw (digits_before_last m rest (omega arith)) (adds (m % 10) rest p)
      ]

code-digit_char : (d : ℕ) → d < 10 → code (digit_char d) ≡ b'0' + d
code-digit_char zero h = refl
code-digit_char (suc zero) h = refl
code-digit_char (suc (suc zero)) h = refl
code-digit_char (suc (suc (suc zero))) h = refl
code-digit_char (suc (suc (suc (suc zero)))) h = refl
code-digit_char (suc (suc (suc (suc (suc zero))))) h = refl
code-digit_char (suc (suc (suc (suc (suc (suc zero)))))) h = refl
code-digit_char (suc (suc (suc (suc (suc (suc (suc zero))))))) h = refl
code-digit_char (suc (suc (suc (suc (suc (suc (suc (suc zero)))))))) h = refl
code-digit_char (suc (suc (suc (suc (suc (suc (suc (suc (suc zero))))))))) h = refl
code-digit_char (suc (suc (suc (suc (suc (suc (suc (suc (suc (suc d)))))))))) h =
    absurd (omega arith)

last_digit :
    (n : ℕ) (rest : String)
    → digits_from (n / 10) (String.◌∷◌ (digit_char (n % 10)) rest) ≡ digits_from n rest
last_digit n rest = ground (arith, code-digit_char (n % 10))

-- The digits of a number are read back as the number.
pub digits_from-digits_before :
    (n : ℕ) (rest : String) → digits_from 0 (digits_before n rest) ≡ digits_from n rest
digits_from-digits_before n =
    WellFounded.induction order
      {C = λ m. (rest : String) → digits_from 0 (digits_before m rest) ≡ digits_from m rest} n
      λ m ih rest. grind (arith, digits_before_step m rest, last_digit m rest, ih (m / 10))

-- The first character is a digit.
abbrev pub begins_digit : String → Bool
begins_digit String.[] = false
begins_digit (String.◌∷◌ c s) = is_digit (code c)

begins_digit-digit :
    (d : ℕ) (rest : String) → d < 10 → begins_digit (String.◌∷◌ (digit_char d) rest) ≡ true
begins_digit-digit d rest h = ground (arith, code-digit_char d h)

pub begins_digit-digits_before :
    (n : ℕ) (rest : String) → begins_digit (digits_before n rest) ≡ true
begins_digit-digits_before n =
    WellFounded.induction order
      {C = λ m. (rest : String) → begins_digit (digits_before m rest) ≡ true} n
      λ m ih rest. elim (dec_lt 9 m) [
        | yes h ↦
            rw (digits_before_more m rest h)
              (ih (m / 10) (fewer h) (String.◌∷◌ (digit_char (m % 10)) rest))
        | no h ↦
            rw (digits_before_last m rest (omega arith))
              (begins_digit-digit (m % 10) rest (omega arith))
      ]

pub leading_int-begins_digit :
    (s : String) → begins_digit s ≡ true → leading_int s ≡ some (pos (digits_from 0 s))
unfolding leading_int
leading_int-begins_digit String.[] h = absurd (ground arith)
leading_int-begins_digit (String.◌∷◌ c s) h = ground arith

before_char-digit :
    (k d : ℕ) (rest : String)
    → d < 10
    → is_digit k ≡ false
    → before_char k (String.◌∷◌ (digit_char d) rest)
      ≡ String.◌∷◌ (digit_char d) (before_char k rest)
unfolding before_char
before_char-digit k d rest h nd = ground (arith, code-digit_char d h)

-- The digits have no character that is not a digit.
pub before_char-digits_before :
    (k n : ℕ) (rest : String)
    → is_digit k ≡ false
    → before_char k (digits_before n rest) ≡ digits_before n (before_char k rest)
before_char-digits_before k n rest nd =
    WellFounded.induction order
      {C = λ m.
        (rest : String)
        → before_char k (digits_before m rest) ≡ digits_before m (before_char k rest)}
      n
      (λ m ih rest. grind (
        arith,
        digits_before_step m rest,
        digits_before_step m (before_char k rest),
        before_char-digit k (m % 10) rest,
        ih (m / 10),
      ))
      rest

digits_before-append :
    (n : ℕ) (a b : String) → digits_before n (String.◌++◌ a b) ≡ String.◌++◌ (digits_before n a) b
digits_before-append n =
    WellFounded.induction order
      {C = λ m.
        (a b : String) → digits_before m (String.◌++◌ a b) ≡ String.◌++◌ (digits_before m a) b}
      n
      λ m ih a b. elim (dec_lt 9 m) [
        | yes h ↦
            rw
              (
                digits_before_more m a h,
                digits_before_more m (String.◌++◌ a b) h,
                sym (cons-append (digit_char (m % 10)) a b),
              )
              (ih (m / 10) (fewer h) (String.◌∷◌ (digit_char (m % 10)) a) b)
        | no h ↦
            rw
              (
                digits_before_last m a (omega arith),
                digits_before_last m (String.◌++◌ a b) (omega arith),
              )
              (sym (cons-append (digit_char (m % 10)) a b))
      ]

pub to_string-append : (n : ℕ) (s : String) → String.◌++◌ (to_string n) s ≡ digits_before n s
unfolding to_string
to_string-append n s = sym (digits_before-append n "" s) ∙ ap (digits_before n) (nil-append s)

-- The number at the front of a text that begins with its digits.
pub leading_int-to_string : (n : ℕ) → leading_int (to_string n) ≡ some (pos n)
unfolding to_string
leading_int-to_string n =
    leading_int-begins_digit (digits_before n "") (begins_digit-digits_before n "")
    ∙ ap (λ x. some (pos x)) (digits_from-digits_before n "")
