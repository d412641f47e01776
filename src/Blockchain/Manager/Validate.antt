-- ===== src/Blockchain/Manager/Validate.antt =====
-- `is_chain_valid`, whose `validate_block` returns true where the hashes differ.
use streamlet_transparency_l.Prelude.{
  ℕ, suc, ◌+◌, ◌≤◌, ◌≡◌, ◌↔◌, refl, ◌∙◌, ap, Bool, true, false, ◌&&◌, List, [], ◌∷◌, arith,
}
use streamlet_transparency_l.Prelude.Lists.{length, get_elem?}
use streamlet_transparency_l.Prelude.Outcome.{done}
use streamlet_transparency_l.Prelude.Bytes.{bytes_eq_iff}
use streamlet_transparency_l.Blockchain.Block.{SignedBlock}
use streamlet_transparency_l.Blockchain.Chain.{LocalChain, validate_block}
use streamlet_transparency_l.Blockchain.Chain
use streamlet_transparency_l.Blockchain.Chain.Links.{Linked, Unlinked}
use streamlet_transparency_l.Blockchain.Manager.{check_link, check_links, is_chain_valid}

-- The conjunction that the loop computes.
all_validate : List SignedBlock → Bool
all_validate [] = true
all_validate (x ∷ []) = true
all_validate (x ∷ y ∷ rest) = validate_block y.block x.block && all_validate (y ∷ rest)

-- From index `i + 1` on, where the chain continues `x ∷ rest` from index `i` on.
check_links-all_validate :
    (chain : LocalChain) (i : ℕ) (x : SignedBlock) (rest : List SignedBlock)
    → ((j k : ℕ) → k ≡ i + j → get_elem? chain.blocks k ≡ get_elem? (x ∷ rest) j)
    → check_links chain (suc i) (length rest) ≡ done (all_validate (x ∷ rest))
unfolding check_links check_link all_validate
check_links-all_validate chain i x [] at = refl
check_links-all_validate chain i x (y ∷ rest) at = ground (
  arith,
  at 0 i (omega arith),
  at 1 (suc i) (omega arith),
  check_links-all_validate chain (suc i) y rest (λ j k e. at (suc j) k (omega arith)),
)

all_validate_iff : (blocks : List SignedBlock) → (all_validate blocks ≡ true) ↔ Unlinked blocks
unfolding all_validate validate_block
all_validate_iff [] = (λ _. tt, λ _. refl)
all_validate_iff (x ∷ []) = (λ _. tt, λ _. refl)
all_validate_iff (x ∷ y ∷ rest) = (
  λ h. ground (arith, bytes_eq_iff y.block.parent_hash x.block.hash, all_validate_iff (y ∷ rest)),
  λ h. ground (arith, bytes_eq_iff y.block.parent_hash x.block.hash, all_validate_iff (y ∷ rest)),
)

is_chain_valid-all_validate :
    (chain : LocalChain) → is_chain_valid chain ≡ done (all_validate chain.blocks)
unfolding is_chain_valid Chain.length all_validate
is_chain_valid-all_validate chain = go chain.blocks refl
  where
    go :
        (blocks : List SignedBlock)
        → chain.blocks ≡ blocks
        → check_links chain 0 (length blocks) ≡ done (all_validate blocks)
    go [] e = refl
    go (x ∷ rest) e =
        check_links-all_validate chain 0 x rest
          (λ j k f. rw (e, f) (ap (get_elem? (x ∷ rest)) (omega arith)))

-- `is_chain_valid` never panics, and it accepts a chain exactly when no block of it names the hash
-- of the block before it.
pub is_chain_valid_iff :
    (chain : LocalChain)
    → (valid : Bool) × (is_chain_valid chain ≡ done valid)
      × ((valid ≡ true) ↔ Unlinked chain.blocks)
is_chain_valid_iff chain =
    (all_validate chain.blocks, is_chain_valid-all_validate chain, all_validate_iff chain.blocks)

-- So it rejects every linked chain of two blocks or more.
pub is_chain_valid-Linked :
    (chain : LocalChain)
    → Linked chain.blocks
    → 2 ≤ length chain.blocks
    → is_chain_valid chain ≡ done false
unfolding all_validate validate_block
is_chain_valid-Linked chain linked two =
    is_chain_valid-all_validate chain ∙ ap done (go chain.blocks linked two)
  where
    go :
        (blocks : List SignedBlock)
        → Linked blocks
        → 2 ≤ length blocks
        → all_validate blocks ≡ false
    go [] h e = absurd (omega arith)
    go (x ∷ []) h e = absurd (omega arith)
    go (x ∷ y ∷ rest) h e = ground (arith, bytes_eq_iff y.block.parent_hash x.block.hash, h.0)
