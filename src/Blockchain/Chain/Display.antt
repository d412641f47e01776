-- ===== src/Blockchain/Chain/Display.antt =====
-- `Display` of a chain: the epochs of its blocks, each with an arrow behind it.
use streamlet_transparency_l.Prelude.{
  ℕ, ◌<◌, ◌≤◌, ◌≡◌, ◌≢◌, refl, sym, ap, ◌∙◌, List, [], ◌∷◌, ◌++◌, arith,
}
use mathlib.Core.List.{append_assoc, append-nil}
use streamlet_transparency_l.Prelude.Lists.{All}
use streamlet_transparency_l.Prelude.Outcome.{u64_limit}
use streamlet_transparency_l.Prelude.Bytes.{Bytes, bytes}
use streamlet_transparency_l.Prelude.Decimal.{decimal, decimal-digits, decimal-injective}
use streamlet_transparency_l.Prelude.Text.{split_at_separator, split_at_length, append_cons-ne-nil}
use streamlet_transparency_l.Prelude.Sets.{All-mono}
use streamlet_transparency_l.Blockchain.Block.{SignedBlock}
use streamlet_transparency_l.Blockchain.Chain.{LocalChain}

-- The loop, with the text so far. Twenty digits are enough for a `u64`.
unfoldable pub display_from : Bytes → List SignedBlock → Bytes
display_from s [] = s
display_from s (signed_block ∷ rest) =
    display_from (s ++ (decimal 20 signed_block.block.epoch ++ bytes "->")) rest

unfoldable pub display : LocalChain → Bytes
unfolding display_from
display chain = display_from [] chain.blocks

abbrev pub epochs : List SignedBlock → List ℕ
epochs [] = []
epochs (b ∷ rest) = b.block.epoch ∷ epochs rest

-- The text of the epochs.
abbrev text : List SignedBlock → Bytes
text [] = []
text (b ∷ rest) = decimal 20 b.block.epoch ++ 45 ∷ 62 ∷ text rest

display_from-text :
    (s : Bytes) (blocks : List SignedBlock) → display_from s blocks ≡ s ++ text blocks
unfolding display_from
display_from-text s [] = sym (append-nil s)
display_from-text s (b ∷ rest) =
    display_from-text (s ++ (decimal 20 b.block.epoch ++ bytes "->")) rest
    ∙ append_assoc s (decimal 20 b.block.epoch ++ bytes "->") (text rest)
    ∙ ap (λ t. s ++ t) (append_assoc (decimal 20 b.block.epoch) (bytes "->") (text rest))

digits_plain : (n : ℕ) → All (λ c. c ≢ 45) (decimal 20 n)
digits_plain n =
    All-mono (λ c. 48 ≤ c) (λ c. c ≢ 45) (decimal 20 n) (λ c h e. omega arith) (decimal-digits 20 n)

abbrev Small : List SignedBlock → Type 0
Small blocks = All (λ (b : SignedBlock). b.block.epoch < u64_limit) blocks

text-injective :
    (xs ys : List SignedBlock) → Small xs → Small ys → text xs ≡ text ys → epochs xs ≡ epochs ys
text-injective [] [] sx sy e = refl
text-injective [] (y ∷ ys) sx sy e =
    absurd (append_cons-ne-nil (decimal 20 y.block.epoch) 45 (62 ∷ text ys) (sym e))
text-injective (x ∷ xs) [] sx sy e =
    absurd (append_cons-ne-nil (decimal 20 x.block.epoch) 45 (62 ∷ text xs) e)
text-injective (x ∷ xs) (y ∷ ys) sx sy e =
    let (digits, rest) =
      split_at_separator 45 (decimal 20 x.block.epoch) (decimal 20 y.block.epoch) (62 ∷ text xs)
        (62 ∷ text ys) (digits_plain x.block.epoch) (digits_plain y.block.epoch) e in
    let same =
      decimal-injective 19 x.block.epoch y.block.epoch (omega (arith, sx.0)) (omega (arith, sy.0))
        sx.0 sy.0 digits in
    rw
      (
        same,
        text-injective xs ys sx.1 sy.1
            (split_at_length (62 ∷ []) (62 ∷ []) (text xs) (text ys) refl rest).1,
      )
      refl

-- Chains whose epochs fit their type are printed alike only if their blocks have the same epochs
-- in the same order.
pub display_tells_epochs :
    (chain chain' : LocalChain)
    → All (λ (b : SignedBlock). b.block.epoch < u64_limit) chain.blocks
    → All (λ (b : SignedBlock). b.block.epoch < u64_limit) chain'.blocks
    → display chain ≡ display chain'
    → epochs chain.blocks ≡ epochs chain'.blocks
unfolding display
display_tells_epochs chain chain' small small' e =
    text-injective chain.blocks chain'.blocks small small'
      (sym (display_from-text [] chain.blocks) ∙ e ∙ display_from-text [] chain'.blocks)
