-- ===== src/VideoQueue/Rates.antt =====
-- How many frames an event gets: the divisor of `insert_event` against the rate it asked for.
use rpi_cam.Base.{
  ℕ, zero, suc, ◌+◌, ◌-◌, ◌*◌, ◌/◌, ◌%◌, ◌≤◌, ◌<◌, ◌≡◌, refl, List, [], ◌∷◌, arith, if◌then◌else◌,
  ◌==◌, length, ◌∙◌, ap,
}
use native.Mathlib.Decide.{dec_lt}
use native.Mathlib.Nat.{
  div-add-mod, mod-lt, mul-add-div, div-eq_of_lt, mul-add-mod_self_left, mod-eq_of_lt, add-zero,
  zero-add, suc-add, zero-div, le-div_iff_mul-le, mul-div-le,
}
use rpi_cam.VideoQueue.{VideoBuffer}
use rpi_cam.VideoQueue.Delivery.{advance, due_copies}

-- The due frames among the `k` frames after frame `n`.
abbrev pub due_count : ℕ → ℕ → ℕ → ℕ → ℕ
due_count fps d n zero = 0
due_count fps d n (suc k) =
    (if advance fps n % d == 0 then 1 else 0) + due_count fps d (advance fps n) k

pub length-due_copies :
    (fps d n : ℕ) (times : List ℕ) (bs : List VideoBuffer)
    → length bs ≡ length times
    → length (due_copies fps d n times bs) ≡ due_count fps d n (length times)
length-due_copies fps d n [] bs l = refl
length-due_copies fps d n (now ∷ times) [] l = absurd (omega arith)
length-due_copies fps d n (now ∷ times) (b ∷ bs) l =
    ground (arith, length-due_copies fps d (advance fps n) times bs)

-- Quotient and remainder from a decomposition.
div_mod_of : (d q r : ℕ) → r < d → ((d * q + r) / d ≡ q) × ((d * q + r) % d ≡ r)
div_mod_of d q r h = (
  mul-add-div {m = d} (omega arith) q r ∙ ap (λ m. q + m) (div-eq_of_lt h) ∙ add-zero q,
  mul-add-mod_self_left d q r ∙ mod-eq_of_lt h,
)

div_mod_at : (d n q r : ℕ) → n ≡ d * q + r → r < d → (n / d ≡ q) × (n % d ≡ r)
div_mod_at d n q r e h =
    (ap (λ m. m / d) e ∙ (div_mod_of d q r h).0, ap (λ m. m % d) e ∙ (div_mod_of d q r h).1)

div-suc : (d n : ℕ) → 0 < d → suc n / d ≡ n / d + (if suc n % d == 0 then 1 else 0)
div-suc d n h = elim (dec_lt (suc (n % d)) d) [
  | yes lt ↦
      let split = div_mod_at d (suc n) (n / d) (suc (n % d)) (omega (arith, div-add-mod n d)) lt in
      ground arith
  | no ge ↦
      let split =
        div_mod_at d (suc n) (n / d + 1) 0 (omega (arith, div-add-mod n d, mod-lt n h)) h in
      ground arith
]

-- Up to the last number of a second the count is a difference of quotients.
due_count_straight :
    (fps d n k : ℕ) → 0 < d → n + k ≤ fps → due_count fps d n k + n / d ≡ (n + k) / d
due_count_straight fps d n zero h l = rw (add-zero n) (omega arith)
due_count_straight fps d n (suc k) h l =
    let e : n + suc k ≡ suc n + k = omega arith in
    rw e (ground (arith, div-suc d n h, due_count_straight fps d (suc n) k h))

due_count-add :
    (fps d n j k : ℕ)
    → n + j ≤ fps
    → due_count fps d n (j + k) ≡ due_count fps d n j + due_count fps d (n + j) k
due_count-add fps d n zero k h = rw (add-zero n, zero-add k) (omega arith)
due_count-add fps d n (suc j) k h =
    let e : n + suc j ≡ suc n + j = omega arith in
    rw (suc-add j k, e) (ground (arith, due_count-add fps d (suc n) j k))

-- After the last number of a second the numbers start anew.
due_count_wrap : (fps d k : ℕ) → 0 < fps → due_count fps d fps k ≡ due_count fps d 0 k
due_count_wrap fps d zero h = refl
due_count_wrap fps d (suc k) h = ground arith

-- In any `fps` frames in a row, wherever they start, an event with divisor `d` is due for exactly
-- `fps / d`.
pub due_count_cycle : (fps d n : ℕ) → 0 < d → 0 < fps → n ≤ fps → due_count fps d n fps ≡ fps / d
due_count_cycle fps d n hd hf hn =
    let e : fps ≡ (fps - n) + n = omega arith in
    let m : n + (fps - n) ≡ fps = omega arith in
    let parts =
      ap (due_count fps d n) e
      ∙ due_count-add fps d n (fps - n) n (omega arith)
      ∙ ap (λ i. due_count fps d n (fps - n) + due_count fps d i n) m in
    let first = due_count_straight fps d n (fps - n) hd (omega arith) in
    let first' = ap (λ i. i / d) m in
    let second = due_count_straight fps d 0 n hd (omega arith) in
    omega (
      arith,
      parts,
      first,
      first',
      second,
      due_count_wrap fps d n hf,
      ap (λ i. i / d) (zero-add n),
      zero-div d,
    )

-- The divisor of `insert_event` gives at least the rate that was asked for.
pub rate_le : (fps f : ℕ) → 0 < f → f ≤ fps → f ≤ fps / (fps / f)
rate_le fps f h l =
    let pos : 0 < fps / f = (le-div_iff_mul-le {k = f} {x = 1} {y = fps} h).1 (omega arith) in
    (le-div_iff_mul-le pos).1 (mul-div-le fps f)
