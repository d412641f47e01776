-- ===== src/Streamlet/Names/Canonical.antt =====
-- The sorted names do not depend on the order in which a `HashMap` lists its keys.
use mathlib.Core.List.{Perm, Permᴰ}
use mathlib.Core.Logic.{∥∥₁_elim}
use streamlet_transparency_l.Prelude.{◌≡◌, refl, ◌∙◌, ◌⊎◌, inl, inr, true, List, [], ◌∷◌, arith}
use streamlet_transparency_l.Prelude.Bytes.{Bytes}
use streamlet_transparency_l.Streamlet.Names.{bytes_le, insert_sorted, sorted}

bytes_le_total : (x y : Bytes) → (bytes_le x y ≡ true) ⊎ (bytes_le y x ≡ true)
unfolding bytes_le
bytes_le_total [] y = inl refl
bytes_le_total (a ∷ x) [] = inr refl
bytes_le_total (a ∷ x) (b ∷ y) = ground (arith, bytes_le_total x y)

bytes_le_antisymm : (x y : Bytes) → bytes_le x y ≡ true → bytes_le y x ≡ true → x ≡ y
unfolding bytes_le
bytes_le_antisymm [] [] h k = refl
bytes_le_antisymm [] (b ∷ y) h k = cc
bytes_le_antisymm (a ∷ x) [] h k = cc
bytes_le_antisymm (a ∷ x) (b ∷ y) h k = ground (arith, bytes_le_antisymm x y)

bytes_le_trans : (x y z : Bytes) → bytes_le x y ≡ true → bytes_le y z ≡ true → bytes_le x z ≡ true
unfolding bytes_le
bytes_le_trans [] y z h k = refl
bytes_le_trans (a ∷ x) [] z h k = cc
bytes_le_trans (a ∷ x) (b ∷ y) [] h k = cc
bytes_le_trans (a ∷ x) (b ∷ y) (c ∷ z) h k = ground (arith, bytes_le_trans x y z)

-- Two insertions commute.
insert_sorted_comm :
    (a b : Bytes) (xs : List Bytes)
    → insert_sorted bytes_le a (insert_sorted bytes_le b xs)
      ≡ insert_sorted bytes_le b (insert_sorted bytes_le a xs)
unfolding insert_sorted
insert_sorted_comm a b [] = ground (arith, bytes_le_total a b, bytes_le_antisymm a b)
insert_sorted_comm a b (x ∷ xs) = ground (
  arith,
  insert_sorted_comm a b xs,
  bytes_le_total a b,
  bytes_le_antisymm a b,
  bytes_le_trans a b x,
  bytes_le_trans b a x,
)

sorted-Permᴰ : {xs ys : List Bytes} → Permᴰ xs ys → sorted bytes_le xs ≡ sorted bytes_le ys
unfolding sorted
sorted-Permᴰ Permᴰ.nil = refl
sorted-Permᴰ (Permᴰ.cons {a} {b} {l₁} {l₂} e p) = rw (e, sorted-Permᴰ p) refl
sorted-Permᴰ (Permᴰ.swap {a} {b} {a'} {b'} {l} e f) =
    rw (e, f) (insert_sorted_comm b' a' (sorted bytes_le l))
sorted-Permᴰ (Permᴰ.trans p q) = sorted-Permᴰ p ∙ sorted-Permᴰ q

-- Lists with the same names, in whatever order, are sorted to the same list.
pub sorted-perm : {xs ys : List Bytes} → Perm xs ys → sorted bytes_le xs ≡ sorted bytes_le ys
sorted-perm p = ∥∥₁_elim p (hlevel) (λ q. sorted-Permᴰ q)
