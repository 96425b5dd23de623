-- ===== src/Video/Sorting.antt =====
-- VideoHandler.cpp: what `set_filename` makes of a directory.
use rpi_cam.Base.{
  Bool, true, false, ◌&&◌, ◌||◌, not, List, [], ◌∷◌, ◌++◌, String, str_eq, eq_iff, eq_refl, ◌≡◌,
  refl, sym, ◌∙◌, ap, All, if◌then◌else◌, arith, inl, inr, Bool-cases,
}
use rpi_cam.Base.Int.{ℤ, ltb_ℤ}
use rpi_cam.Base.Outcome.{ok}
use rpi_cam.Base.Text.{stoi, number}
use rpi_cam.Video.Clips.{
  is_mp4, is_member, collect, is_earlier, insert_name, sort_names, set_filename,
}
use rpi_cam.Video.Ascending.{
  IsAscending, All-of_members, member_of_All, ltb_ℤ-trans, ltb_ℤ-total, All-map, str_eq_comm,
}

-- A name that the directory holds as a regular file that ends in ".mp4".
abbrev pub is_listed : String → List (String × Bool) → Bool
is_listed f [] = false
is_listed f ((name, regular) ∷ entries) =
    (regular && is_mp4 name && str_eq name f) || is_listed f entries

abbrev IsUnique : List String → Type 0
IsUnique [] = Unit
IsUnique (f ∷ files) = (is_member f files ≡ false) × IsUnique files

-- `insert_name` on names that bear numbers.
place : (String → ℤ) → String → List String → List String
place key f [] = f ∷ []
place key f (g ∷ files) = if ltb_ℤ (key g) (key f) then g ∷ place key f files else f ∷ g ∷ files

place_all : (String → ℤ) → List String → List String
unfolding place
place_all key [] = []
place_all key (f ∷ files) = place key f (place_all key files)

is_member-append :
    (f : String) (files : List String) (g : String)
    → is_member f (files ++ g ∷ []) ≡ (is_member f files || str_eq g f)
is_member-append f [] g = ground arith
is_member-append f (h ∷ files) g = ground (arith, is_member-append f files g)

is_member_of_eq :
    (f g : String) (files : List String) → str_eq g f ≡ true → is_member f files ≡ is_member g files
is_member_of_eq f g files h = ap (λ x. is_member x files) (sym ((eq_iff g f).0 h))

IsUnique-append :
    (files : List String) (g : String)
    → IsUnique files
    → is_member g files ≡ false
    → IsUnique (files ++ g ∷ [])
IsUnique-append [] g u h = (refl, u)
IsUnique-append (f ∷ files) g (n, u) h = (
  ground (arith, is_member-append f files g, str_eq_comm f g, n, h),
  IsUnique-append files g u (ground (arith, h)),
)

collect-IsUnique :
    (entries : List (String × Bool)) (files : List String)
    → IsUnique files
    → IsUnique (collect entries files)
unfolding collect
collect-IsUnique [] files u = u
collect-IsUnique ((name, regular) ∷ entries) files u =
    collect-IsUnique entries _
      (elim (Bool-cases (regular && is_mp4 name && not (is_member name files))) [
        | inl h ↦ rw h (IsUnique-append files name u (ground (arith, h)))
        | inr h ↦ rw h u
      ])

is_member-collect :
    (f : String) (entries : List (String × Bool)) (files : List String)
    → is_member f (collect entries files) ≡ (is_member f files || is_listed f entries)
unfolding collect
is_member-collect f [] files = ground arith
is_member-collect f ((name, regular) ∷ entries) files =
    elim (Bool-cases (regular && is_mp4 name && not (is_member name files))) [
      | inl h ↦ rw h (
          ground (
            arith,
            h,
            is_member-collect f entries (files ++ name ∷ []),
            is_member-append f files name,
          ))
      | inr h ↦
          rw h (ground (arith, h, is_member-collect f entries files, is_member_of_eq f name files))
    ]

is_member-place :
    (key : String → ℤ) (f g : String) (files : List String)
    → is_member f (place key g files) ≡ (str_eq g f || is_member f files)
unfolding place
is_member-place key f g [] = refl
is_member-place key f g (h ∷ files) = ground (arith, is_member-place key f g files)

is_member-place_all :
    (key : String → ℤ) (f : String) (files : List String)
    → is_member f (place_all key files) ≡ is_member f files
unfolding place_all
is_member-place_all key f [] = refl
is_member-place_all key f (g ∷ files) =
    is_member-place key f g (place_all key files)
    ∙ ap (λ b. str_eq g f || b) (is_member-place_all key f files)

All-place :
    (key : String → ℤ) (P : String → Type 0) (f : String) (files : List String)
    → P f
    → All P files
    → All P (place key f files)
unfolding place
All-place key P f [] p a = (p, a)
All-place key P f (g ∷ files) p (q, a) = elim (Bool-cases (ltb_ℤ (key g) (key f))) [
  | inl e ↦ rw e (q, All-place key P f files p a)
  | inr e ↦ rw e (p, (q, a))
]

place-IsAscending :
    (key : String → ℤ) (f : String) (files : List String)
    → All (λ g. key g ≡ key f → ⊥) files
    → IsAscending key files
    → IsAscending key (place key f files)
unfolding place
place-IsAscending key f [] d a = (d, a)
place-IsAscending key f (g ∷ files) (n, d) (below, a) = elim (Bool-cases (ltb_ℤ (key g) (key f))) [
  | inl e ↦ rw e (
    All-place key (λ h. ltb_ℤ (key g) (key h) ≡ true) f files e below,
    place-IsAscending key f files d a,
  )
  | inr e ↦
      let first = ltb_ℤ-total (key g) (key f) e n in
      rw e
        ((first, All-map files (λ h. ltb_ℤ-trans (key f) (key g) (key h) first) below), (below, a))
]

place_all-IsAscending :
    (key : String → ℤ) (files : List String)
    → IsUnique files
    → ((f g : String) → is_member f files ≡ true → is_member g files ≡ true → key f ≡ key g → f ≡ g)
    → IsAscending key (place_all key files)
unfolding place_all
place_all-IsAscending key [] u d = tt
place_all-IsAscending key (f ∷ files) (n, u) d =
    place-IsAscending key f (place_all key files)
      (All-of_members (λ g. key g ≡ key f → ⊥) (place_all key files)
        (λ g m e.
          let within = sym (is_member-place_all key g files) ∙ m in
          let same = d g f (ground (arith, within)) (ground (arith, eq_refl f)) e in
          ground (arith, n, within, ap (λ h. is_member h files) same)))
      (place_all-IsAscending key files u (λ g h m k. d g h (ground (arith, m)) (ground (arith, k))))

insert_name-place :
    (key : String → ℤ) (f : String) (files : List String)
    → stoi f ≡ number (key f)
    → All (λ g. stoi g ≡ number (key g)) files
    → insert_name f files ≡ ok (place key f files)
unfolding insert_name place is_earlier
insert_name-place key f [] n a = refl
insert_name-place key f (g ∷ files) n (m, a) =
    rw (m, n)
      (elim (Bool-cases (ltb_ℤ (key g) (key f))) [
        | inl e ↦ rw (e, insert_name-place key f files n a) refl
        | inr e ↦ rw e refl
      ])

sort_names-place_all :
    (key : String → ℤ) (files : List String)
    → All (λ g. stoi g ≡ number (key g)) files
    → sort_names files ≡ ok (place_all key files)
unfolding sort_names place_all
sort_names-place_all key [] a = refl
sort_names-place_all key (f ∷ files) (n, a) = rw (sort_names-place_all key files a) (
    insert_name-place key f (place_all key files) n (
      All-of_members (λ g. stoi g ≡ number (key g)) (place_all key files)
        (λ g m.
          member_of_All (λ g. stoi g ≡ number (key g)) g files a
            (sym (is_member-place_all key g files) ∙ m))))

-- The recordings of a directory begin with numbers, different files with different ones.
abbrev pub IsNumbered : (String → ℤ) → List (String × Bool) → Type 0
IsNumbered key entries =
    ((f : String) → is_listed f entries ≡ true → stoi f ≡ number (key f))
    × ((f g : String)
        → is_listed f entries ≡ true
        → is_listed g entries ≡ true
        → key f ≡ key g
        → f ≡ g)

-- In a directory whose recordings begin with numbers, different ones, `set_filename` returns a
-- list in which the numbers ascend and whose members are exactly the regular files of the
-- directory that end in ".mp4".
pub set_filename-IsAscending :
    (key : String → ℤ) (entries : List (String × Bool))
    → IsNumbered key entries
    → (files : List String) × (set_filename entries ≡ ok files)
      × IsAscending key files
      × ((f : String) → is_member f files ≡ is_listed f entries)
unfolding set_filename
set_filename-IsAscending key entries (n, d) =
    let files = collect entries [] in
    let within : (f : String) → is_member f files ≡ is_listed f entries =
      λ f. is_member-collect f entries [] in
    (
      place_all key files,
      sort_names-place_all key files
          (All-of_members (λ g. stoi g ≡ number (key g)) files (λ g m. n g (sym (within g) ∙ m))),
      place_all-IsAscending key files (collect-IsUnique entries [] tt)
          (λ f g m k. d f g (sym (within f) ∙ m) (sym (within g) ∙ k)),
      λ f. is_member-place_all key f files ∙ within f,
    )
