-- ===== src/Blockchain/Manager/Invariant.antt =====
-- The manager as lib.rs uses it, where nothing calls `observe_chain`: it holds one notarized chain,
-- which only grows, and a finalized chain cut from it.
use mathlib.Core.List.{append-nil}
use streamlet_transparency_l.Prelude.{
  ℕ, ◌+◌, ◌≤◌, ◌<◌, ◌≡◌, refl, sym, subst, ◌∙◌, inl, inr, true, false, none, some, List, [], ◌∷◌,
  ◌++◌, arith,
}
use streamlet_transparency_l.Prelude.Tests.{Bool-cases, if◌then◌else◌, Option-cases}
use streamlet_transparency_l.Prelude.Lists.{
  length, take, get_elem?, get_last?, get_last?-some, take-append_left, length-append,
  get_elem?-append_left,
}
use streamlet_transparency_l.Prelude.Outcome.{done-injective, done}
use streamlet_transparency_l.Prelude.Bytes.{Bytes, bytes_eq, bytes_eq_iff}
use streamlet_transparency_l.Crypto.{Crypto}
use streamlet_transparency_l.Blockchain.Block.{Block, SignedBlock}
use streamlet_transparency_l.Blockchain.Chain.{LocalChain, genesis_block, append_block}
use streamlet_transparency_l.Blockchain.Chain
use streamlet_transparency_l.Blockchain.Chain.Links.{Linked, Linked-snoc}
use streamlet_transparency_l.Blockchain.Manager.{
  BlockchainManager, new, finalize, try_finalize, store_chain, add_to_chain,
  index_of_ancestor_chain, observe_notarized,
}
use streamlet_transparency_l.Blockchain.Manager.Sort.{sort_by_length}
use streamlet_transparency_l.Blockchain.Manager.Finalize.{try_finalize_cases}

abbrev pub genesis_entry : Crypto → SignedBlock
genesis_entry c = record { block = genesis_block c; signatures = [] }

-- `m` holds the notarized chain `chain` and no other.
pub record Inv (c : Crypto) (m : BlockchainManager) (chain : LocalChain) : Type 0 where
  pub only : m.notarized_chains ≡ chain ∷ []
  pub longest : m.longest_notarized_chain_length ≡ length chain.blocks
  pub linked : Linked chain.blocks
  pub rooted : get_elem? chain.blocks 0 ≡ some (genesis_entry c)
  -- The finalized chain is a nonempty initial part of the notarized one.
  pub cut : ℕ
  pub cut_pos : 0 < cut
  pub cut_le : cut ≤ length chain.blocks
  pub final : m.finalized_chain.blocks ≡ take cut chain.blocks
  pub final_length : m.finalized_chain_length ≡ length m.finalized_chain.blocks

pub new-Inv : (c : Crypto) → Inv c (new c) (Chain.new c)
unfolding new Chain.new
new-Inv c = record {
  only = refl;
  longest = refl;
  linked = tt;
  rooted = refl;
  cut = 1;
  cut_pos = omega arith;
  cut_le = omega arith;
  final = refl;
  final_length = refl;
}

-- The chain after a notarized block: extended if the block names its head, and else the same.
unfoldable pub extend : LocalChain → Block → List Bytes → LocalChain
extend chain block signatures = elim (get_last? chain.blocks) [
  | none ↦ chain
  | some last ↦
      if bytes_eq last.block.hash block.parent_hash
      then append_block chain block signatures
      else chain
]

pub store_chain_only :
    (m : BlockchainManager) (chain new_chain : LocalChain)
    → m.notarized_chains ≡ chain ∷ []
    → (store_chain m 0 new_chain).notarized_chains ≡ new_chain ∷ []
unfolding store_chain sort_by_length
store_chain_only m chain new_chain only = rw only refl

-- On a block whose parent is the head of the chain.
pub observe_notarized_extends :
    (m : BlockchainManager) (chain : LocalChain) (block : Block) (signatures : List Bytes)
    (last : SignedBlock)
    → m.notarized_chains ≡ chain ∷ []
    → m.longest_notarized_chain_length ≡ length chain.blocks
    → get_last? chain.blocks ≡ some last
    → bytes_eq last.block.hash block.parent_hash ≡ true
    → observe_notarized m block signatures
      ≡ try_finalize (store_chain m 0 (append_block chain block signatures)) 0
unfolding observe_notarized index_of_ancestor_chain add_to_chain Chain.head Chain.length
observe_notarized_extends m chain block signatures last only longest e same = ground arith

-- On any other block.
pub observe_notarized_ignores :
    (m : BlockchainManager) (chain : LocalChain) (block : Block) (signatures : List Bytes)
    (last : SignedBlock)
    → m.notarized_chains ≡ chain ∷ []
    → m.longest_notarized_chain_length ≡ length chain.blocks
    → get_last? chain.blocks ≡ some last
    → bytes_eq last.block.hash block.parent_hash ≡ false
    → observe_notarized m block signatures ≡ done m
unfolding observe_notarized index_of_ancestor_chain Chain.head Chain.length
observe_notarized_ignores m chain block signatures last only longest e differs = ground arith

pub extend_extends :
    (chain : LocalChain) (block : Block) (signatures : List Bytes) (last : SignedBlock)
    → get_last? chain.blocks ≡ some last
    → bytes_eq last.block.hash block.parent_hash ≡ true
    → extend chain block signatures ≡ append_block chain block signatures
unfolding extend
extend_extends chain block signatures last e same = ground arith

pub extend_ignores :
    (chain : LocalChain) (block : Block) (signatures : List Bytes) (last : SignedBlock)
    → get_last? chain.blocks ≡ some last
    → bytes_eq last.block.hash block.parent_hash ≡ false
    → extend chain block signatures ≡ chain
unfolding extend
extend_ignores chain block signatures last e differs = ground arith

-- A chain loses nothing by `extend`.
pub extend-prefix :
    (chain : LocalChain) (block : Block) (signatures : List Bytes)
    → (rest : List SignedBlock) × ((extend chain block signatures).blocks ≡ chain.blocks ++ rest)
unfolding extend append_block
extend-prefix chain block signatures = elim (Option-cases (get_last? chain.blocks)) [
  | inl e ↦ ([], rw (e, extend) (sym (append-nil chain.blocks)))
  | inr (last, e) ↦ elim (Bool-cases (bytes_eq last.block.hash block.parent_hash)) [
    | inl same ↦
        (record { block = block; signatures = signatures } ∷ [], rw (e, extend) (rw same refl))
    | inr differs ↦ ([], rw (e, extend) (rw differs (sym (append-nil chain.blocks))))
  ]
]

module _ (c : Crypto) where
  store_chain-Inv :
      (m : BlockchainManager) (chain : LocalChain) (block : Block) (signatures : List Bytes)
      (last : SignedBlock)
      → Inv c m chain
      → get_last? chain.blocks ≡ some last
      → bytes_eq last.block.hash block.parent_hash ≡ true
      → Inv c
          (store_chain m 0 (append_block chain block signatures))
          (append_block chain block signatures)
  unfolding store_chain append_block Chain.length
  store_chain-Inv m chain block signatures last v e same =
      let entry : SignedBlock = record { block = block; signatures = signatures } in
      let longer : length (chain.blocks ++ entry ∷ []) ≡ length chain.blocks + 1 =
        length-append chain.blocks (entry ∷ []) in
      record {
        only = store_chain_only m chain (append_block chain block signatures) v.only;
        longest = ground (arith, longer, v.longest);
        linked =
            Linked-snoc chain.blocks entry v.linked e
              (sym ((bytes_eq_iff last.block.hash block.parent_hash).0 same));
        rooted =
            get_elem?-append_left chain.blocks (entry ∷ []) 0 (omega (arith, v.cut_pos, v.cut_le))
            ∙ v.rooted;
        cut = v.cut;
        cut_pos = v.cut_pos;
        cut_le = omega (arith, longer, v.cut_le);
        final = v.final ∙ sym (take-append_left v.cut chain.blocks (entry ∷ []) v.cut_le);
        final_length = v.final_length;
      }

  finalize-Inv :
      (m : BlockchainManager) (chain : LocalChain) (n : ℕ)
      → Inv c m chain
      → 0 < n
      → n ≤ length chain.blocks
      → Inv c (finalize m (record { blocks = take n chain.blocks })) chain
  unfolding finalize Chain.length
  finalize-Inv m chain n v pos le = record {
    only = v.only;
    longest = v.longest;
    linked = v.linked;
    rooted = v.rooted;
    cut = n;
    cut_pos = pos;
    cut_le = le;
    final = refl;
    final_length = refl;
  }

  pub try_finalize-Inv :
      (m : BlockchainManager) (chain : LocalChain) {m' : BlockchainManager}
      → Inv c m chain
      → try_finalize m 0 ≡ done m'
      → Inv c m' chain
  try_finalize-Inv m chain v h = elim (try_finalize_cases m chain v.only h) [
    | inl same ↦ subst (λ n. Inv c n chain) (sym same) v
    | inr (newest, commit_2, commit_1, _, _, _, _, _, commits) ↦
        subst (λ n. Inv c n chain) (sym commits.1)
          (finalize-Inv m chain (commit_2.block.height + 2) v (omega arith) commits.0)
  ]

  -- One notarized block, whatever it holds.
  pub observe_notarized-Inv :
      (m : BlockchainManager) (chain : LocalChain) (block : Block) (signatures : List Bytes)
      {m' : BlockchainManager}
      → Inv c m chain
      → observe_notarized m block signatures ≡ done m'
      → Inv c m' (extend chain block signatures)
  observe_notarized-Inv m chain block signatures {m'} v h =
      let (last, e) = get_last?-some chain.blocks (omega (arith, v.cut_pos, v.cut_le)) in
      elim (Bool-cases (bytes_eq last.block.hash block.parent_hash)) [
        | inl same ↦ rw (extend_extends chain block signatures last e same) (
            try_finalize-Inv _ _ (store_chain-Inv m chain block signatures last v e same) (
              sym (observe_notarized_extends m chain block signatures last v.only v.longest e same)
              ∙ h))
        | inr differs ↦ rw (extend_ignores chain block signatures last e differs) (
            subst (λ n. Inv c n chain)
              (done-injective (
                sym (
                  observe_notarized_ignores m chain block signatures last v.only v.longest e
                    differs)
                ∙ h))
              v)
      ]
