-- ===== src/Blockchain/Manager/Height.antt =====
-- Heights that are not positions: lib.rs checks the height of a block nowhere.
use streamlet_transparency_l.Prelude.{
  ◌+◌, ◌-◌, ◌≤◌, ◌<◌, ◌≡◌, refl, sym, ◌∙◌, some, List, [], ◌∷◌, arith,
}
use streamlet_transparency_l.Prelude.Lists.{
  length, take, get_elem?, get_last?, get_last?-get_elem?, length-append, get_elem?-snoc,
  get_elem?-append_left, get_elem?-at,
}
use streamlet_transparency_l.Prelude.Outcome.{done, panic, u64_limit}
use streamlet_transparency_l.Prelude.Bytes.{Bytes, bytes_eq_iff}
use streamlet_transparency_l.Crypto.{Crypto}
use streamlet_transparency_l.Blockchain.Block.{Block, SignedBlock}
use streamlet_transparency_l.Blockchain.Chain.{LocalChain, append_block}
use streamlet_transparency_l.Blockchain.Manager.{
  BlockchainManager, finalize, finalize_if_consecutive, store_chain, observe_notarized,
}
use streamlet_transparency_l.Blockchain.Manager.Finalize.{
  Consecutive, finalize_if_consecutive_commits, finalize_if_consecutive_panics, try_finalize_long,
}
use streamlet_transparency_l.Blockchain.Manager.Invariant.{
  Inv, observe_notarized_extends, store_chain_only,
}

module _ (c : Crypto) (m : BlockchainManager) (chain : LocalChain) (block : Block)
    (signatures : List Bytes) (commit_2 commit_1 : SignedBlock) (v : Inv c m chain)
    (two : 2 ≤ length chain.blocks)
    (e2 : get_elem? chain.blocks (length chain.blocks - 1) ≡ some commit_2)
    (e1 : get_elem? chain.blocks (length chain.blocks - 2) ≡ some commit_1)
    (parent : commit_2.block.hash ≡ block.parent_hash) where
  -- A block that names the head is judged with the last two blocks of the chain.
  pub observe_notarized_judges :
      observe_notarized m block signatures
      ≡ finalize_if_consecutive
          (store_chain m 0 (append_block chain block signatures))
          (append_block chain block signatures)
          block
          commit_2.block
          commit_1.block
  unfolding append_block
  observe_notarized_judges =
      let entry : SignedBlock = record { block = block; signatures = signatures } in
      let grown : LocalChain = append_block chain block signatures in
      let longer : length grown.blocks ≡ length chain.blocks + 1 =
        length-append chain.blocks (entry ∷ []) in
      let is_last : get_last? chain.blocks ≡ some commit_2 =
        sym (get_last?-get_elem? chain.blocks (length chain.blocks - 1) (omega arith)) ∙ e2 in
      observe_notarized_extends m chain block signatures commit_2 v.only v.longest is_last
        ((bytes_eq_iff commit_2.block.hash block.parent_hash).1 parent)
      ∙ try_finalize_long (store_chain m 0 grown) grown entry commit_2 commit_1
          (store_chain_only m chain grown v.only) (omega (arith, longer))
          (get_elem?-at grown.blocks (omega (arith, longer)) (get_elem?-snoc chain.blocks entry))
          (get_elem?-at grown.blocks (omega (arith, longer))
            (get_elem?-append_left chain.blocks (entry ∷ []) _ (omega arith) ∙ e2))
          (get_elem?-at grown.blocks (omega (arith, longer))
            (get_elem?-append_left chain.blocks (entry ∷ []) _ (omega arith) ∙ e1))

  -- A notarized block that names the head of a node's chain, and whose epoch follows those of its
  -- last two blocks, commits the first `height + 2` blocks, for the height that the middle one of
  -- the three claims, if the chain has so many, whatever was final before.
  pub observe_notarized_cuts :
      Consecutive block commit_2.block commit_1.block
      → block.epoch < u64_limit
      → length chain.blocks + 1 < u64_limit
      → commit_2.block.height + 2 ≤ length chain.blocks + 1
      → (m' : BlockchainManager) × (observe_notarized m block signatures ≡ done m')
        × (m'.finalized_chain.blocks
            ≡ take (commit_2.block.height + 2) (append_block chain block signatures).blocks)
  unfolding finalize append_block
  observe_notarized_cuts cons small short fits =
      let entry : SignedBlock = record { block = block; signatures = signatures } in
      let longer = length-append chain.blocks (entry ∷ []) in
      (
        finalize (store_chain m 0 (append_block chain block signatures)) (record {
          blocks = take (commit_2.block.height + 2) (append_block chain block signatures).blocks;
        }),
        observe_notarized_judges
            ∙ finalize_if_consecutive_commits
                (store_chain m 0 (append_block chain block signatures))
                (append_block chain block signatures) block commit_2.block commit_1.block cons small
                (omega (arith, longer)) (omega (arith, longer)),
        refl,
      )

  -- A notarized block that names the head of a node's chain, and whose epoch follows those of its
  -- last two blocks, stops the node with a panic if the middle one of the three claims a height
  -- that reaches past the chain.
  pub observe_notarized_panics :
      Consecutive block commit_2.block commit_1.block
      → length chain.blocks + 1 < commit_2.block.height + 2
      → observe_notarized m block signatures ≡ panic
  unfolding append_block
  observe_notarized_panics cons tall =
      let entry : SignedBlock = record { block = block; signatures = signatures } in
      observe_notarized_judges
      ∙ finalize_if_consecutive_panics (store_chain m 0 (append_block chain block signatures))
          (append_block chain block signatures) block commit_2.block commit_1.block cons
          (omega (arith, length-append chain.blocks (entry ∷ [])))
