-- ===== src/Video/Ascending.antt =====
-- Lists of names whose numbers ascend.
use Prim.Native.String.{String}
use rpi_cam.Base.{
  Bool, true, false, ◌&&◌, List, [], ◌∷◌, str_eq, eq_iff, eq_refl, ◌≡◌, refl, sym, ◌∙◌, ap, subst,
  All, select, arith, inl, inr, Bool-cases,
}
use rpi_cam.Base.Int.{ℤ, pos, negsuc, ltb_ℤ}
use rpi_cam.Video.Clips.{is_member}

-- Each number is below the numbers after it.
abbrev pub IsAscending : (String → ℤ) → List String → Type 0
IsAscending key [] = Unit
IsAscending key (f ∷ files) = All (λ g. ltb_ℤ (key f) (key g) ≡ true) files × IsAscending key files

pub str_eq_comm : (f g : String) → str_eq f g ≡ str_eq g f
str_eq_comm f g = ground (arith, eq_iff f g, eq_iff g f)

-- What holds of every member.
pub All-of_members :
    (P : String → Type 0) (files : List String)
    → ((f : String) → is_member f files ≡ true → P f)
    → All P files
All-of_members P [] h = tt
All-of_members P (f ∷ files) h =
    (h f (ground (arith, eq_refl f)), All-of_members P files (λ g m. h g (ground (arith, m))))

pub member_of_All :
    (P : String → Type 0) (f : String) (files : List String)
    → All P files
    → is_member f files ≡ true
    → P f
member_of_All P f [] a h = absurd (cc)
member_of_All P f (g ∷ files) (p, a) h = elim (Bool-cases (str_eq g f)) [
  | inl e ↦ subst P ((eq_iff g f).0 e) p
  | inr e ↦ member_of_All P f files a (ground (arith, h, e))
]

pub ltb_ℤ-trans : (a b c : ℤ) → ltb_ℤ a b ≡ true → ltb_ℤ b c ≡ true → ltb_ℤ a c ≡ true
ltb_ℤ-trans a b c h k = ground arith

pub ltb_ℤ-total : (a b : ℤ) → ltb_ℤ a b ≡ false → (a ≡ b → ⊥) → ltb_ℤ b a ≡ true
ltb_ℤ-total (pos a) (pos b) h k = let ne : a ≡ b → ⊥ = λ e. k (ap pos e) in ground (arith, h, ne)
ltb_ℤ-total (pos a) (negsuc b) h k = ground (arith, h)
ltb_ℤ-total (negsuc a) (pos b) h k = ground (arith, h)
ltb_ℤ-total (negsuc a) (negsuc b) h k =
    let ne : a ≡ b → ⊥ = λ e. k (ap negsuc e) in ground (arith, h, ne)

pub All-map :
    {P Q : String → Type 0} (files : List String)
    → ((f : String) → P f → Q f)
    → All P files
    → All Q files
All-map [] h a = a
All-map (f ∷ files) h (p, a) = (h f p, All-map files h a)

ltb_ℤ-irrefl : (a : ℤ) → ltb_ℤ a a ≡ true → ⊥
ltb_ℤ-irrefl a h = ground arith

-- The first name of an ascending list is no name of another one that has a smaller first name.
heads_eq :
    (key : String → ℤ) (f g : String) (files more : List String)
    → All (λ h. ltb_ℤ (key f) (key h) ≡ true) files
    → All (λ h. ltb_ℤ (key g) (key h) ≡ true) more
    → ((h : String) → is_member h (f ∷ files) ≡ is_member h (g ∷ more))
    → f ≡ g
heads_eq key f g files more a b same = elim (Bool-cases (str_eq g f)) [
  | inl e ↦ sym ((eq_iff g f).0 e)
  | inr e ↦
      let above =
        member_of_All (λ h. ltb_ℤ (key g) (key h) ≡ true) f more b
          (ground (arith, e, same f, eq_refl f)) in
      let below =
        member_of_All (λ h. ltb_ℤ (key f) (key h) ≡ true) g files a
          (ground (arith, e, same g, eq_refl g, str_eq_comm f g)) in
      absurd (ltb_ℤ-irrefl (key f) (ltb_ℤ-trans (key f) (key g) (key f) below above))
]

not_member :
    (key : String → ℤ) (f : String) (files : List String)
    → All (λ h. ltb_ℤ (key f) (key h) ≡ true) files
    → is_member f files ≡ false
not_member key f files a = elim (Bool-cases (is_member f files)) [
  | inl m ↦
      absurd (ltb_ℤ-irrefl (key f) (member_of_All (λ h. ltb_ℤ (key f) (key h) ≡ true) f files a m))
  | inr n ↦ n
]

tails_same :
    (key : String → ℤ) (f : String) (files more : List String)
    → All (λ h. ltb_ℤ (key f) (key h) ≡ true) files
    → All (λ h. ltb_ℤ (key f) (key h) ≡ true) more
    → ((h : String) → is_member h (f ∷ files) ≡ is_member h (f ∷ more))
    → (h : String) → is_member h files ≡ is_member h more
tails_same key f files more a b same h = elim (Bool-cases (str_eq f h)) [
  | inl e ↦
      subst (λ g. is_member g files ≡ is_member g more) ((eq_iff f h).0 e)
        (not_member key f files a ∙ sym (not_member key f more b))
  | inr e ↦ ground (arith, e, same h)
]

-- Ascending lists with the same members are the same list.
pub IsAscending-eq :
    (key : String → ℤ) (files more : List String)
    → IsAscending key files
    → IsAscending key more
    → ((h : String) → is_member h files ≡ is_member h more)
    → files ≡ more
IsAscending-eq key [] [] a b same = refl
IsAscending-eq key [] (g ∷ more) a b same = absurd (ground (arith, same g, eq_refl g))
IsAscending-eq key (f ∷ files) [] a b same = absurd (ground (arith, same f, eq_refl f))
IsAscending-eq key (f ∷ files) (g ∷ more) (a, above) (b, later) same =
    let e = heads_eq key f g files more a b same in
    let b' = subst (λ h. All (λ k. ltb_ℤ (key h) (key k) ≡ true) more) (sym e) b in
    let same' =
      subst (λ x. (h : String) → is_member h (f ∷ files) ≡ is_member h (x ∷ more)) (sym e) same in
    rw (e, IsAscending-eq key files more above later (tails_same key f files more a b' same'))

pub is_member-select :
    (p : String → Bool) (f : String) (files : List String)
    → is_member f (select p files) ≡ (is_member f files && p f)
is_member-select p f [] = refl
is_member-select p f (g ∷ files) = elim (Bool-cases (str_eq g f)) [
  | inl e ↦
      let same = ap p ((eq_iff g f).0 e) in ground (arith, e, same, is_member-select p f files)
  | inr e ↦ ground (arith, e, is_member-select p f files)
]

All-select :
    (P : String → Type 0) (p : String → Bool) (files : List String)
    → All P files
    → All P (select p files)
All-select P p [] a = tt
All-select P p (f ∷ files) (q, a) = elim (Bool-cases (p f)) [
  | inl e ↦ rw e (q, All-select P p files a)
  | inr e ↦ rw e (All-select P p files a)
]

pub select-IsAscending :
    (key : String → ℤ) (p : String → Bool) (files : List String)
    → IsAscending key files
    → IsAscending key (select p files)
select-IsAscending key p [] a = tt
select-IsAscending key p (f ∷ files) (b, a) = elim (Bool-cases (p f)) [
  | inl e ↦
      rw e
        (All-select (λ g. ltb_ℤ (key f) (key g) ≡ true) p files b, select-IsAscending key p files a)
  | inr e ↦ rw e (select-IsAscending key p files a)
]
