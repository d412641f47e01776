-- ===== src/Prelude/Sets.antt =====
-- Lists of byte strings as sets: membership by `contains`, and counting.
use streamlet_transparency_l.Prelude.{
  ◌+◌, ◌≤◌, ◌≡◌, refl, sym, subst, Bool, true, false, List, [], ◌∷◌, arith, inl, inr,
}
use streamlet_transparency_l.Prelude.Tests.{if◌then◌else◌, Bool-cases}
use streamlet_transparency_l.Prelude.Lists.{length, All, retain}
use streamlet_transparency_l.Prelude.Bytes.{
  Bytes, bytes_eq, bytes_eq_iff, bytes_eq_refl, contains, Distinct,
}

-- Every entry of `xs` is one of `ys`.
abbrev pub Within : List Bytes → List Bytes → Type 0
Within ys xs = All (λ x. contains ys x ≡ true) xs

pub All-mono {ℓ κ ι} :
    {A : Type ℓ} (P : A → Type κ) (Q : A → Type ι) (xs : List A)
    → ((x : A) → P x → Q x)
    → All P xs
    → All Q xs
All-mono P Q [] f h = tt
All-mono P Q (x ∷ xs) f h = (f x h.0, All-mono P Q xs f h.1)

pub Within-refl : (xs : List Bytes) → Within xs xs
Within-refl [] = tt
Within-refl (x ∷ xs) = (
  ground (arith, bytes_eq_refl x),
  All-mono (λ y. contains xs y ≡ true) (λ y. contains (x ∷ xs) y ≡ true) xs (λ y h. ground arith)
      (Within-refl xs),
)

-- Without the first `a`.
pub erase : Bytes → List Bytes → List Bytes
erase a [] = []
erase a (x ∷ xs) = if bytes_eq x a then xs else x ∷ erase a xs

length-erase :
    (a : Bytes) (xs : List Bytes) → contains xs a ≡ true → length (erase a xs) + 1 ≡ length xs
unfolding erase
length-erase a [] h = cc
length-erase a (x ∷ xs) h = ground (arith, length-erase a xs)

contains-erase :
    (a b : Bytes) (xs : List Bytes)
    → contains xs b ≡ true
    → bytes_eq a b ≡ false
    → contains (erase a xs) b ≡ true
unfolding erase
contains-erase a b [] h n = cc
contains-erase a b (x ∷ xs) h n =
    ground (arith, contains-erase a b xs, bytes_eq_iff x a, bytes_eq_iff x b, bytes_eq_iff a b)

-- What is not among `xs` can be erased around them.
Within-erase :
    (a : Bytes) (ys xs : List Bytes) → Within ys xs → contains xs a ≡ false → Within (erase a ys) xs
Within-erase a ys [] h n = tt
Within-erase a ys (x ∷ xs) h n = (
  contains-erase a x ys h.0 (ground (arith, bytes_eq_iff x a, bytes_eq_iff a x)),
  Within-erase a ys xs h.1 (ground arith),
)

-- Distinct entries within a list are no more than the list has.
pub Distinct-length_le : (xs ys : List Bytes) → Distinct xs → Within ys xs → length xs ≤ length ys
Distinct-length_le [] ys d h = omega arith
Distinct-length_le (x ∷ xs) ys d h = omega (
  arith,
  length-erase x ys h.0,
  Distinct-length_le xs (erase x ys) d.1 (Within-erase x ys xs h.1 d.0),
)

pub common : List Bytes → List Bytes → List Bytes
common xs ys = retain (contains ys) xs

-- Two sets within a third overlap at least by what they have too many for it.
pub common_overlap :
    (xs ys zs : List Bytes)
    → Distinct xs
    → Distinct ys
    → Within zs xs
    → Within zs ys
    → length xs + length ys ≤ length zs + length (common xs ys)
unfolding common
common_overlap [] ys zs dx dy hx hy = omega (arith, Distinct-length_le ys zs dy hy)
common_overlap (x ∷ xs) ys zs dx dy hx hy = elim (Bool-cases (contains ys x)) [
  | inl both ↦ rw both (omega (arith, common_overlap xs ys zs dx.1 dy hx.1 hy))
  | inr only ↦ rw only (
      omega (
        arith,
        length-erase x zs hx.0,
        common_overlap xs ys (erase x zs) dx.1 dy (Within-erase x zs xs hx.1 dx.0)
            (Within-erase x zs ys hy only),
      ))
]

contains-retain :
    (p : Bytes → Bool) (xs : List Bytes) (a : Bytes)
    → contains xs a ≡ false
    → contains (retain p xs) a ≡ false
contains-retain p [] a h = refl
contains-retain p (x ∷ xs) a h = ground (arith, contains-retain p xs a)

pub common-Distinct : (xs ys : List Bytes) → Distinct xs → Distinct (common xs ys)
unfolding common
common-Distinct [] ys d = tt
common-Distinct (x ∷ xs) ys d = elim (Bool-cases (contains ys x)) [
  | inl both ↦ rw both (contains-retain (contains ys) xs x d.0, common-Distinct xs ys d.1)
  | inr only ↦ rw only (common-Distinct xs ys d.1)
]

-- What holds of all of `xs`, and of all of `ys`, holds of the common entries.
pub common-All {κ} :
    (P : Bytes → Type κ) (xs ys : List Bytes)
    → All P xs
    → All (λ x. P x × (contains ys x ≡ true)) (common xs ys)
unfolding common
common-All P [] ys h = tt
common-All P (x ∷ xs) ys h = elim (Bool-cases (contains ys x)) [
  | inl both ↦ rw both ((h.0, both), common-All P xs ys h.1)
  | inr only ↦ rw only (common-All P xs ys h.1)
]

pub All-contains {κ} :
    (P : Bytes → Type κ) (xs : List Bytes) (a : Bytes) → All P xs → contains xs a ≡ true → P a
All-contains P [] a h e = cc
All-contains P (x ∷ xs) a h e = elim (Bool-cases (bytes_eq x a)) [
  | inl same ↦ subst P ((bytes_eq_iff x a).0 same) h.0
  | inr other ↦ All-contains P xs a h.1 (ground arith)
]

-- What passes the test is retained.
pub contains-retain_of :
    (p : Bytes → Bool) (xs : List Bytes) (a : Bytes)
    → contains xs a ≡ true
    → p a ≡ true
    → contains (retain p xs) a ≡ true
contains-retain_of p [] a h e = cc
contains-retain_of p (x ∷ xs) a h e = elim (Bool-cases (bytes_eq x a)) [
  | inl same ↦
      let f : p x ≡ true = subst (λ b. p b ≡ true) (sym ((bytes_eq_iff x a).0 same)) e in
      rw f (rw same refl)
  | inr other ↦
      let rest = contains-retain_of p xs a (ground arith) e in
      elim (Bool-cases (p x)) [ inl f ↦ rw (f, other) rest | inr f ↦ rw f rest ]
]
