-- ===== src/Prelude/Text.antt =====
-- Taking printed text apart again.
use mathlib.Core.List.{append_assoc}
use streamlet_transparency_l.Prelude.{ℕ, ◌≡◌, ◌≢◌, refl, sym, [], ◌∷◌, ◌++◌, arith}
use streamlet_transparency_l.Prelude.Lists.{length, All}
use streamlet_transparency_l.Prelude.Bytes.{Bytes}

head_eq : (x y : ℕ) (xs ys : Bytes) → ◌≡◌ {A = Bytes} (x ∷ xs) (y ∷ ys) → x ≡ y
head_eq x y xs ys e = cc

tail_eq : (x y : ℕ) (xs ys : Bytes) → ◌≡◌ {A = Bytes} (x ∷ xs) (y ∷ ys) → xs ≡ ys
tail_eq x y xs ys e = cc

-- Text up to the first separator.
pub split_at_separator :
    (sep : ℕ) (xs ys r s : Bytes)
    → All (λ c. c ≢ sep) xs
    → All (λ c. c ≢ sep) ys
    → xs ++ sep ∷ r ≡ ys ++ sep ∷ s
    → (xs ≡ ys) × (r ≡ s)
split_at_separator sep [] [] r s px py e = (refl, tail_eq sep sep r s e)
split_at_separator sep [] (y ∷ ys) r s px py e =
    absurd (py.0 (sym (head_eq sep y r (ys ++ sep ∷ s) e)))
split_at_separator sep (x ∷ xs) [] r s px py e = absurd (px.0 (head_eq x sep (xs ++ sep ∷ r) s e))
split_at_separator sep (x ∷ xs) (y ∷ ys) r s px py e =
    let (same, rest) =
      split_at_separator sep xs ys r s px.1 py.1 (tail_eq x y (xs ++ sep ∷ r) (ys ++ sep ∷ s) e) in
    (rw (head_eq x y (xs ++ sep ∷ r) (ys ++ sep ∷ s) e, same) refl, rest)

-- Text of a fixed length.
pub split_at_length :
    (xs ys r s : Bytes) → length xs ≡ length ys → xs ++ r ≡ ys ++ s → (xs ≡ ys) × (r ≡ s)
split_at_length [] [] r s same e = (refl, e)
split_at_length [] (y ∷ ys) r s same e = absurd (omega arith)
split_at_length (x ∷ xs) [] r s same e = absurd (omega arith)
split_at_length (x ∷ xs) (y ∷ ys) r s same e =
    let (front, rest) =
      split_at_length xs ys r s (omega arith) (tail_eq x y (xs ++ r) (ys ++ s) e) in
    (rw (head_eq x y (xs ++ r) (ys ++ s) e, front) refl, rest)

pub All-append {κ} : (P : ℕ → Type κ) (xs ys : Bytes) → All P xs → All P ys → All P (xs ++ ys)
All-append P [] ys px py = py
All-append P (x ∷ xs) ys px py = (px.0, All-append P xs ys px.1 py)

pub append_cons-ne-nil : (xs : Bytes) (c : ℕ) (r : Bytes) → (xs ++ c ∷ r) ≢ []
append_cons-ne-nil [] c r e = cc
append_cons-ne-nil (x ∷ xs) c r e = cc

pub append-seven :
    (a b c d e f g t : Bytes)
    → (a ++ (b ++ (c ++ (d ++ (e ++ (f ++ g)))))) ++ t
      ≡ a ++ (b ++ (c ++ (d ++ (e ++ (f ++ (g ++ t))))))
append-seven a b c d e f g t = simp append_assoc refl
