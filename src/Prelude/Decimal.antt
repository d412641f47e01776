-- ===== src/Prelude/Decimal.antt =====
-- Decimal numbers as the standard library prints and parses them.
use streamlet_transparency_l.Prelude.{
  ℕ, zero, suc, ◌+◌, ◌-◌, ◌*◌, ◌/◌, ◌%◌, ◌<◌, ◌≤◌, ◌≡◌, ◌≢◌, refl, sym, ap, ◌∙◌, false, ◌&&◌,
  Option, none, some, [], ◌∷◌, ◌++◌, arith, inl, inr,
}
use Prim.Native.Nat.{◌^◌}
use native.Mathlib.Nat.{pow-suc}
use streamlet_transparency_l.Prelude.Tests.{leb, ltb, ◌==◌, Bool-cases, Option-cases, if◌then◌else◌}
use streamlet_transparency_l.Prelude.Lists.{All, All-snoc}
use streamlet_transparency_l.Prelude.Outcome.{u64_limit}
use streamlet_transparency_l.Prelude.Bytes.{Bytes}
use streamlet_transparency_l.Prelude.Text.{append_cons-ne-nil}

-- The decimal digits of a number, in `fuel` digits at most.
unfoldable pub decimal : ℕ → ℕ → Bytes
decimal zero n = []
decimal (suc fuel) n =
    let front = decimal fuel (n / 10) in
    if n / 10 == 0 then (n + 48) ∷ [] else front ++ (n % 10 + 48) ∷ []

-- One digit more; no digit, or a number of 2^64 or more, is refused.
unfoldable pub push_digit : ℕ → ℕ → Option ℕ
push_digit n c =
    if leb 48 c && leb c 57 && ltb (n * 10 + (c - 48)) u64_limit
    then some (n * 10 + (c - 48))
    else none

unfoldable pub parse_digits : ℕ → Bytes → Option ℕ
unfolding push_digit
parse_digits n [] = some n
parse_digits n (c ∷ cs) = elim (push_digit n c) [ none ↦ none | some m ↦ parse_digits m cs ]

-- `str::parse::<usize>()`: a plus sign may stand in front of the digits, of which there is one.
unfoldable pub parse_usize : Bytes → Option ℕ
unfolding parse_digits
parse_usize [] = none
parse_usize (c ∷ []) = parse_digits 0 (c ∷ [])
parse_usize (c ∷ d ∷ rest) =
    if c == 43 then parse_digits 0 (d ∷ rest) else parse_digits 0 (c ∷ d ∷ rest)

-- A digit behind those that are parsed.
parse_digits-snoc :
    (cs : Bytes) (n m c : ℕ)
    → parse_digits n cs ≡ some m
    → parse_digits n (cs ++ c ∷ []) ≡ parse_digits m (c ∷ [])
unfolding parse_digits
parse_digits-snoc [] n m c h = ground arith
parse_digits-snoc (d ∷ cs) n m c h = elim (Option-cases (push_digit n d)) [
  | inl bad ↦ absurd (ground arith)
  | inr (k, e) ↦ rw (e, parse_digits) (parse_digits-snoc cs k m c (ground arith))
]

-- Enough digits print a number that is read back.
pub parse_digits-decimal :
    (fuel n : ℕ)
    → n < 10 ^ suc fuel
    → n < u64_limit
    → parse_digits 0 (decimal (suc fuel) n) ≡ some n
unfolding parse_digits decimal push_digit
parse_digits-decimal zero n h small = ground arith
parse_digits-decimal (suc fuel) n h small = elim (Bool-cases (n / 10 == 0)) [
  | inl one ↦ rw one (ground arith)
  | inr more ↦
      let ih =
        parse_digits-decimal fuel (n / 10) (omega (arith, pow-suc 10 (suc fuel))) (omega arith) in
      rw more
        (parse_digits-snoc (decimal (suc fuel) (n / 10)) 0 (n / 10) (n % 10 + 48) ih ∙ ground arith)
]

-- The digits of ASCII are not below 48.
pub decimal-digits : (fuel n : ℕ) → All (λ c. 48 ≤ c) (decimal fuel n)
unfolding decimal
decimal-digits zero n = tt
decimal-digits (suc fuel) n = elim (Bool-cases (n / 10 == 0)) [
  | inl one ↦ rw one (omega arith, tt)
  | inr more ↦ rw more (
      All-snoc (λ c. 48 ≤ c) (decimal fuel (n / 10)) (n % 10 + 48) (decimal-digits fuel (n / 10))
        (omega arith))
]

decimal-ne-nil : (fuel n : ℕ) → decimal (suc fuel) n ≢ []
unfolding decimal
decimal-ne-nil fuel n = elim (Bool-cases (n / 10 == 0)) [
  | inl one ↦ rw one (λ e. cc)
  | inr more ↦ rw more (append_cons-ne-nil (decimal fuel (n / 10)) (n % 10 + 48) [])
]

-- Digits have no plus sign in front.
parse_usize_digits :
    (cs : Bytes) (n : ℕ)
    → All (λ c. 48 ≤ c) cs
    → cs ≢ []
    → parse_digits 0 cs ≡ some n
    → parse_usize cs ≡ some n
unfolding parse_usize
parse_usize_digits [] n plain some_digit h = absurd (some_digit refl)
parse_usize_digits (c ∷ []) n plain some_digit h = h
parse_usize_digits (c ∷ d ∷ rest) n plain some_digit h =
    let other : (c == 43) ≡ false = ground (arith, plain.0) in rw other h

-- What is printed with enough digits is read back.
pub parse_usize-decimal :
    (fuel n : ℕ) → n < 10 ^ suc fuel → n < u64_limit → parse_usize (decimal (suc fuel) n) ≡ some n
parse_usize-decimal fuel n h small =
    parse_usize_digits (decimal (suc fuel) n) n (decimal-digits (suc fuel) n)
      (decimal-ne-nil fuel n) (parse_digits-decimal fuel n h small)

some-injective : (a b : ℕ) → ◌≡◌ {A = Option ℕ} (some a) (some b) → a ≡ b
some-injective a b e = cc

-- Numbers that are printed alike are the same.
pub decimal-injective :
    (fuel m n : ℕ)
    → m < 10 ^ suc fuel
    → n < 10 ^ suc fuel
    → m < u64_limit
    → n < u64_limit
    → decimal (suc fuel) m ≡ decimal (suc fuel) n
    → m ≡ n
decimal-injective fuel m n hm hn sm sn e =
    some-injective m n
      (sym (parse_usize-decimal fuel m hm sm) ∙ ap parse_usize e ∙ parse_usize-decimal fuel n hn sn)
