-- ===== src/Blockchain/Manager/Order.antt =====
-- The order of the notarized chains: what the sort does, and what `index_of_ancestor_chain` finds
-- in a sorted list.
use mathlib.Core.List.{Perm}
use mathlib.Core.List.Perm
use streamlet_transparency_l.Prelude.{
  ℕ, suc, ◌+◌, ◌≤◌, ◌<◌, ◌≡◌, refl, sym, subst, ◌∙◌, ap, false, Option, none, some, List, [], ◌∷◌,
  ◌⊎◌, inl, inr, arith,
}
use streamlet_transparency_l.Prelude.Tests.{Bool-cases, leb, ltb, lt→ltb, ltb→lt}
use streamlet_transparency_l.Prelude.Lists.{length, take, get_elem?, All, get_last?, get_last?-some}
use streamlet_transparency_l.Prelude.Outcome.{Outcome, done}
use streamlet_transparency_l.Prelude.Bytes.{bytes_eq, bytes_eq_iff}
use streamlet_transparency_l.Blockchain.Block.{Block, SignedBlock}
use streamlet_transparency_l.Blockchain.Chain.{LocalChain}
use streamlet_transparency_l.Blockchain.Chain
use streamlet_transparency_l.Blockchain.Manager.{
  BlockchainManager, ancestor_from, index_of_ancestor_chain,
}
use streamlet_transparency_l.Blockchain.Manager.Sort.{insert_by_length, sort_by_length}

-- No chain is longer than `n`, and none longer than one before it.
abbrev pub SortedBelow : ℕ → List LocalChain → Type 0
SortedBelow n [] = Unit
SortedBelow n (chain ∷ chains) =
    (length chain.blocks ≤ n) × SortedBelow (length chain.blocks) chains

abbrev pub IsSorted : List LocalChain → Type 0
IsSorted [] = Unit
IsSorted (chain ∷ chains) = SortedBelow (length chain.blocks) chains

SortedBelow-mono :
    {m n : ℕ} (chains : List LocalChain) → m ≤ n → SortedBelow m chains → SortedBelow n chains
SortedBelow-mono [] h s = tt
SortedBelow-mono (chain ∷ chains) h s = (omega arith, s.1)

insert_by_length-SortedBelow :
    (n : ℕ) (chain : LocalChain) (chains : List LocalChain)
    → length chain.blocks ≤ n
    → SortedBelow n chains
    → SortedBelow n (insert_by_length chain chains)
unfolding insert_by_length Chain.length
insert_by_length-SortedBelow n chain [] h s = (h, tt)
insert_by_length-SortedBelow n chain (other ∷ rest) h s =
    ground (arith, insert_by_length-SortedBelow (length other.blocks) chain rest)

insert_by_length-IsSorted :
    (chain : LocalChain) (chains : List LocalChain)
    → IsSorted chains
    → IsSorted (insert_by_length chain chains)
unfolding insert_by_length Chain.length
insert_by_length-IsSorted chain [] s = tt
insert_by_length-IsSorted chain (other ∷ rest) s =
    ground (arith, insert_by_length-SortedBelow (length other.blocks) chain rest)

insert_by_length-perm :
    (chain : LocalChain) (chains : List LocalChain)
    → Perm (insert_by_length chain chains) (chain ∷ chains)
unfolding insert_by_length
insert_by_length-perm chain [] = Perm.refl _
insert_by_length-perm chain (other ∷ rest) =
    elim (Bool-cases (leb (Chain.length other) (Chain.length chain))) [
      | inl here ↦ rw here (Perm.refl _)
      | inr later ↦ rw later (
          Perm.trans (Perm.cons other (insert_by_length-perm chain rest))
            (Perm.swap chain other rest))
    ]

pub sort_by_length-IsSorted : (chains : List LocalChain) → IsSorted (sort_by_length chains)
unfolding sort_by_length
sort_by_length-IsSorted [] = tt
sort_by_length-IsSorted (chain ∷ chains) =
    insert_by_length-IsSorted chain (sort_by_length chains) (sort_by_length-IsSorted chains)

pub sort_by_length-perm : (chains : List LocalChain) → Perm (sort_by_length chains) chains
unfolding sort_by_length
sort_by_length-perm [] = Perm.refl _
sort_by_length-perm (chain ∷ chains) =
    Perm.trans (insert_by_length-perm chain (sort_by_length chains))
      (Perm.cons chain (sort_by_length-perm chains))

-- A chain of the longest length whose head the block names.
abbrev pub Extends : ℕ → Block → LocalChain → Type 0
Extends longest block chain =
    (longest ≤ length chain.blocks)
    × (last : SignedBlock) × (get_last? chain.blocks ≡ some last)
    × (last.block.hash ≡ block.parent_hash)

-- The loop from chain `idx` on finds such a chain, and there is none before it, or there is none.
abbrev pub Finds : ℕ → Block → List LocalChain → ℕ → Outcome (Option ℕ) → Type 0
Finds longest block chains idx result =
    ((result ≡ done none) × All (λ chain. ¬ Extends longest block chain) chains)
    ⊎ ((i : ℕ) × (chain : LocalChain) × (result ≡ done (some (idx + i)))
        × (get_elem? chains i ≡ some chain)
        × Extends longest block chain
        × All (λ earlier. ¬ Extends longest block earlier) (take i chains))

short_misses :
    (longest n : ℕ) (block : Block) (chains : List LocalChain) (idx : ℕ)
    → SortedBelow n chains
    → n < longest
    → (ancestor_from longest block chains idx ≡ done none)
      × All (λ chain. ¬ Extends longest block chain) chains
unfolding ancestor_from Chain.length
short_misses longest n block [] idx s h = (refl, tt)
short_misses longest n block (chain ∷ chains) idx s h =
    let rest = short_misses longest (length chain.blocks) block chains idx s.1 (omega arith) in
    (
      rw (lt→ltb (length chain.blocks) longest (omega arith)) rest.0,
      (λ e. absurd (omega (arith, e.0)), rest.1),
    )

-- A chain that is passed over moves what the rest finds one place on.
Finds-later :
    (longest : ℕ) (block : Block) (chain : LocalChain) (chains : List LocalChain) (idx : ℕ)
    {result : Outcome (Option ℕ)}
    → ¬ Extends longest block chain
    → Finds longest block chains (idx + 1) result
    → Finds longest block (chain ∷ chains) idx result
Finds-later longest block chain chains idx miss (inl (e, rest)) = inl (e, (miss, rest))
Finds-later longest block chain chains idx miss (inr (i, found, e, at, hit, before)) =
    inr (suc i, found, e ∙ ap (λ n. done (some n)) (omega arith), at, hit, (miss, before))

IsSorted-tail : (n : ℕ) (chains : List LocalChain) → SortedBelow n chains → IsSorted chains
IsSorted-tail n [] s = tt
IsSorted-tail n (chain ∷ chains) s = s.1

ancestor_from_passes :
    (longest : ℕ) (block : Block) (chain : LocalChain) (chains : List LocalChain) (idx : ℕ)
    (last : SignedBlock)
    → ltb (length chain.blocks) longest ≡ false
    → get_last? chain.blocks ≡ some last
    → bytes_eq last.block.hash block.parent_hash ≡ false
    → ancestor_from longest block (chain ∷ chains) idx
      ≡ ancestor_from longest block chains (idx + 1)
unfolding ancestor_from Chain.length Chain.head
ancestor_from_passes longest block chain chains idx last long e differs = ground arith

ancestor_from-Finds :
    (longest : ℕ) (block : Block) (chains : List LocalChain) (idx : ℕ)
    → IsSorted chains
    → All (λ chain. 0 < length chain.blocks) chains
    → Finds longest block chains idx (ancestor_from longest block chains idx)
unfolding ancestor_from Chain.length Chain.head
ancestor_from-Finds longest block [] idx s full = inl (refl, tt)
ancestor_from-Finds longest block (chain ∷ chains) idx s full =
    elim (Bool-cases (ltb (length chain.blocks) longest)) [
      | inl short ↦
          let rest =
            short_misses longest (length chain.blocks) block chains idx s (ltb→lt _ _ short) in
          inl (rw short rest.0, (λ e. absurd (omega (arith, e.0, ltb→lt _ _ short)), rest.1))
      | inr long ↦
          let (last, e) = get_last?-some chain.blocks full.0 in
          elim (Bool-cases (bytes_eq last.block.hash block.parent_hash)) [
            | inl same ↦ inr (
              0,
              chain,
              rw (long, e, same) (ap (λ n. done (some n)) (omega arith)),
              refl,
              (ground arith, last, e, (bytes_eq_iff _ _).0 same),
              tt,
            )
            | inr differs ↦
                subst (Finds longest block (chain ∷ chains) idx)
                  (sym (ancestor_from_passes longest block chain chains idx last long e differs))
                  (Finds-later longest block chain chains idx
                    (λ x. ground (arith, bytes_eq_iff last.block.hash block.parent_hash, x.2, x.3))
                    (ancestor_from-Finds longest block chains (idx + 1)
                      (IsSorted-tail (length chain.blocks) chains s) full.1))
          ]
    ]

-- Where the chains are sorted by length and none is empty, `index_of_ancestor_chain` returns, and
-- what it returns is the index of a longest chain whose head the block names, no earlier chain being
-- such a one; it returns `None` only if there is no such chain.
pub index_of_ancestor_chain-Finds :
    (m : BlockchainManager) (block : Block)
    → IsSorted m.notarized_chains
    → All (λ chain. 0 < length chain.blocks) m.notarized_chains
    → Finds m.longest_notarized_chain_length block m.notarized_chains 0
        (index_of_ancestor_chain m block)
unfolding index_of_ancestor_chain
index_of_ancestor_chain-Finds m block s full =
    ancestor_from-Finds m.longest_notarized_chain_length block m.notarized_chains 0 s full
