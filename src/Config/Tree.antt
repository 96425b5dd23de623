-- ===== src/Config/Tree.antt =====
-- What the readers of `config.json` use of boost's property tree.
use rpi_cam.Base.{ℕ, Option, none, some, String, ◌≡◌, refl}
use rpi_cam.Base.Int.{ℤ}
use rpi_cam.Base.Outcome.{Outcome, ok, fault, uncaught}

-- The leaves of a tree by key, and boost's reading of a leaf as an `int`.
pub record Tree : Type 0 where
  pub leaf : String → Option String
  pub to_int : String → Option ℤ

-- `get<std::string>`: `none` stands for the exception `ptree_bad_path`.
abbrev pub get_string : Tree → String → Outcome (Option String)
get_string tree key = ok (tree.leaf key)

-- `get<int>` throws `ptree_bad_data` for a leaf that is no number; no reader catches that one.
abbrev pub parsed : Option ℤ → Outcome (Option ℤ)
parsed none = fault uncaught
parsed (some z) = ok (some z)

abbrev pub int_leaf : Tree → Option String → Outcome (Option ℤ)
int_leaf tree none = ok none
int_leaf tree (some text) = parsed (tree.to_int text)

abbrev pub get_int : Tree → String → Outcome (Option ℤ)
get_int tree key = int_leaf tree (tree.leaf key)

-- One read of a `try` block whose handler returns `code`, on the object as it is by then.
abbrev pub reading {ℓ κ} :
    {A : Type ℓ} {C : Type κ} → ℕ → C → Outcome (Option A) → (A → Outcome (ℕ × C)) → Outcome (ℕ × C)
reading code c (fault e) rest = fault e
reading code c (ok none) rest = ok (code, c)
reading code c (ok (some a)) rest = rest a

-- A tree whose leaf at the key is that number.
abbrev pub HasInt : Tree → String → ℤ → Type 0
HasInt tree key z = get_int tree key ≡ ok (some z)

abbrev pub HasString : Tree → String → String → Type 0
HasString tree key text = get_string tree key ≡ ok (some text)

-- A read that is followed by a success has found its value.
pub reading-eq-ok {ℓ κ} :
    {A : Type ℓ} {C : Type κ} (code : ℕ) (c : C) (read : Outcome (Option A))
    (rest : A → Outcome (ℕ × C)) {d : C}
    → (code ≡ 0 → ⊥)
    → reading code c read rest ≡ ok (0, d)
    → (a : A) × (read ≡ ok (some a)) × (rest a ≡ ok (0, d))
reading-eq-ok code c (fault e) rest nz h = cc
reading-eq-ok code c (ok none) rest nz h = absurd (nz (cc))
reading-eq-ok code c (ok (some a)) rest nz h = (a, refl, h)
