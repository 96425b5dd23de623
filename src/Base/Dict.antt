-- ===== src/Base/Dict.antt =====
-- `std::unordered_map<std::string, V>` as an association list. The order of iteration, which the
-- standard leaves open, is the list's; a key stands in it once.
use Prim.Native.String.{String}
use mathlib.Core.Path.{◌≡◌, refl}
use mathlib.Core.Logic.{inl, inr}
use mathlib.Core.Bool.{Bool, true, false}
use mathlib.Core.Option.{Option, none, some}
use mathlib.Core.List.{List, [], ◌∷◌}
use native.Mathlib.Omega.{arith}
use text.Mathlib.Text.{◌==◌ as str_eq}
use text.Mathlib.TextEquality.{eq_iff}
use text.Mathlib.TextPositions.{eq_refl}
use rpi_cam.Base.Tests.{if◌then◌else◌, Option-cases}

abbrev pub Dict {ℓ} : Type ℓ → Type ℓ
Dict V = List (String × V)

module _ {ℓ} {V : Type ℓ} where
  -- `find`; `none` is `end()`.
  unfoldable pub find : String → Dict V → Option V
  find k [] = none
  find k ((j, v) ∷ d) = if str_eq j k then some v else find k d

  -- `find(k) != end()`
  abbrev pub has_key : String → Dict V → Bool
  has_key k d = elim (find k d) [ none ↦ false | some _ ↦ true ]

  -- `emplace`: an entry that is there already stays.
  unfoldable pub emplace : String → V → Dict V → Dict V
  emplace k v d = elim (find k d) [ none ↦ (k, v) ∷ d | some _ ↦ d ]

  -- `erase` by key.
  unfoldable pub erase : String → Dict V → Dict V
  erase k [] = []
  erase k ((j, v) ∷ d) = if str_eq j k then erase k d else (j, v) ∷ erase k d

  -- The write through the iterator of an entry.
  unfoldable pub assign : String → V → Dict V → Dict V
  assign k v [] = []
  assign k v ((j, w) ∷ d) = if str_eq j k then (j, v) ∷ d else (j, w) ∷ assign k v d

  pub find-emplace_new :
      (k j : String) (v : V) (d : Dict V)
      → find k d ≡ none
      → find j (emplace k v d) ≡ (if str_eq k j then some v else find j d)
  unfolding find emplace
  find-emplace_new k j v d h = rw (h, emplace)

  pub emplace_old : (k : String) (v w : V) (d : Dict V) → find k d ≡ some w → emplace k v d ≡ d
  unfolding emplace
  emplace_old k v w d h = rw (h, emplace)

  pub find-erase :
      (k j : String) (d : Dict V) → find j (erase k d) ≡ (if str_eq k j then none else find j d)
  unfolding find erase
  find-erase k j [] = ground arith
  find-erase k j ((i, v) ∷ d) = ground (arith, eq_iff k j, eq_iff i k, eq_iff i j, find-erase k j d)

  pub find-assign :
      (k j : String) (v w : V) (d : Dict V)
      → find k d ≡ some w
      → find j (assign k v d) ≡ (if str_eq k j then some v else find j d)
  unfolding find assign
  find-assign k j v w [] h = cc
  find-assign k j v w ((i, u) ∷ d) h =
      ground (arith, eq_iff k j, eq_iff i k, eq_iff i j, find-assign k j v w d)

  pub erase_absent : (k : String) (d : Dict V) → find k d ≡ none → erase k d ≡ d
  unfolding find erase
  erase_absent k [] h = refl
  erase_absent k ((i, v) ∷ d) h = ground (arith, erase_absent k d)

  pub erase-emplace_new :
      (k : String) (v : V) (d : Dict V) → find k d ≡ none → erase k (emplace k v d) ≡ d
  unfolding emplace erase
  erase-emplace_new k v d h = rw (h, emplace) (ground (arith, eq_refl k, erase_absent k d h))

  -- No key stands twice.
  abbrev pub HasDistinctKeys : Dict V → Type ℓ
  HasDistinctKeys [] = Unit
  HasDistinctKeys ((k, v) ∷ d) = (find k d ≡ none) × HasDistinctKeys d

  pub emplace-HasDistinctKeys :
      (k : String) (v : V) (d : Dict V) → HasDistinctKeys d → HasDistinctKeys (emplace k v d)
  unfolding emplace
  emplace-HasDistinctKeys k v d h = elim (Option-cases (find k d)) [
    | inl e ↦ rw (e, emplace) (e, h)
    | inr (w, e) ↦ rw (e, emplace) h
  ]

  pub erase-HasDistinctKeys :
      (k : String) (d : Dict V) → HasDistinctKeys d → HasDistinctKeys (erase k d)
  unfolding erase
  erase-HasDistinctKeys k [] h = h
  erase-HasDistinctKeys k ((j, v) ∷ d) (fresh, h) =
      ground (arith, erase-HasDistinctKeys k d h, find-erase k j d)

  pub find-assign_ne :
      (k j : String) (v : V) (d : Dict V) → str_eq k j ≡ false → find j (assign k v d) ≡ find j d
  unfolding find assign
  find-assign_ne k j v [] h = refl
  find-assign_ne k j v ((i, u) ∷ d) h =
      ground (arith, eq_iff k j, eq_iff i k, eq_iff i j, find-assign_ne k j v d h)

  -- A write through an iterator adds no key.
  pub find-assign-none :
      (k j : String) (v : V) (d : Dict V) → find j d ≡ none → find j (assign k v d) ≡ none
  unfolding find assign
  find-assign-none k j v [] h = refl
  find-assign-none k j v ((i, u) ∷ d) h = ground (arith, find-assign-none k j v d)

  pub assign-HasDistinctKeys :
      (k : String) (v : V) (d : Dict V) → HasDistinctKeys d → HasDistinctKeys (assign k v d)
  unfolding assign
  assign-HasDistinctKeys k v [] h = h
  assign-HasDistinctKeys k v ((j, w) ∷ d) (fresh, h) =
      ground (arith, assign-HasDistinctKeys k v d h, find-assign-none k j v d fresh)

  pub find-emplace-none :
      (k j : String) (v : V) (d : Dict V)
      → find j (emplace k v d) ≡ none
      → (str_eq k j ≡ false) × (find j d ≡ none)
  unfolding find emplace
  find-emplace-none k j v d h = elim (Option-cases (find k d)) [
    | inl e ↦ ground (arith, find-emplace_new k j v d e)
    | inr (w, e) ↦ ground (arith, emplace_old k v w d e, eq_iff k j)
  ]
