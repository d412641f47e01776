-- ===== src/Tests/Chains.antt =====
-- Blocks, chains and the manager at concrete inputs: a chain of the genesis block and the blocks of
-- epochs 1 and 2, and a block of epoch 3 that extends it.
use streamlet_transparency_l.Prelude.{ℕ, ◌≡◌, ◌↔◌, refl, Bool, true, List, [], ◌∷◌, arith}
use streamlet_transparency_l.Prelude.Bytes.{Bytes, bytes}
use streamlet_transparency_l.Prelude.Outcome.{done, panic}
use streamlet_transparency_l.Prelude.Lists.{take}
use streamlet_transparency_l.Blockchain.Block.{Block, SignedBlock, hashed_bytes}
use streamlet_transparency_l.Blockchain.Block
use streamlet_transparency_l.Blockchain.Block.Hash.{hash_binds}
use streamlet_transparency_l.Blockchain.Chain.{LocalChain, genesis_block, append_block}
use streamlet_transparency_l.Blockchain.Chain.Links.{Unlinked}
use streamlet_transparency_l.Blockchain.Manager.{
  BlockchainManager, observe_notarized, is_chain_valid, index_of_ancestor_chain,
  export_local_finalized_chain_to_file,
}
use streamlet_transparency_l.Blockchain.Manager.Invariant.{Inv, extend, genesis_entry}
use streamlet_transparency_l.Blockchain.Manager.Honest.{
  Honest, Progress, observe_notarized-Honest, observe_notarized_finalizes,
}
use streamlet_transparency_l.Blockchain.Manager.Height.{
  observe_notarized_cuts, observe_notarized_panics,
}
use streamlet_transparency_l.Blockchain.Manager.Order.{Finds, index_of_ancestor_chain-Finds}
use streamlet_transparency_l.Blockchain.Manager.Validate.{is_chain_valid_iff}
use streamlet_transparency_l.Blockchain.Manager.Log.{export_writes_new}
use streamlet_transparency_l.Blockchain.Manager
use streamlet_transparency_l.Blockchain.Ledger
use streamlet_transparency_l.Blockchain.Ledger.{observe_all}
use streamlet_transparency_l.Blockchain.Ledger.Steps.{Agree}
use streamlet_transparency_l.Blockchain.Ledger.Refine.{observe_each, manager_refines}
use streamlet_transparency_l.Tests.Fixtures.{toy_crypto, block_on}

abbrev entry : Block → SignedBlock
entry block = record { block = block; signatures = [] }

abbrev genesis_hash : Bytes
genesis_hash = (genesis_block toy_crypto).hash

-- A chain whose second block claims the height `height`.
abbrev chain_at : ℕ → LocalChain
chain_at height = record {
  blocks =
      genesis_entry toy_crypto
      ∷ entry (block_on genesis_hash 1 1)
      ∷ entry (block_on (101 ∷ []) 2 height)
      ∷ [];
}

abbrev manager_at : ℕ → BlockchainManager
manager_at height = record {
  finalized_chain_length = 1;
  finalized_chain = record { blocks = genesis_entry toy_crypto ∷ [] };
  longest_notarized_chain_length = 3;
  notarized_chains = chain_at height ∷ [];
  last_logged_epoch = 0;
}

abbrev next_block : Block
next_block = block_on (102 ∷ []) 3 3

abbrev manager_Inv : (height : ℕ) → Inv toy_crypto (manager_at height) (chain_at height)
manager_Inv height = record {
  only = refl;
  longest = refl;
  linked = (refl, (refl, tt));
  rooted = refl;
  cut = 1;
  cut_pos = omega arith;
  cut_le = omega arith;
  final = refl;
  final_length = refl;
}

chain_Honest : Honest (chain_at 2)
unfolding genesis_block Block.new
chain_Honest = record {
  heights = (refl, (refl, (refl, tt)));
  epochs = (omega arith, (omega arith, (omega arith, tt)));
  short = omega arith;
}

observe_notarized-Honest_example :
    (m' : BlockchainManager) × (observe_notarized (manager_at 2) next_block [] ≡ done m')
    × Inv toy_crypto m' (extend (chain_at 2) next_block [])
    × Honest (extend (chain_at 2) next_block [])
    × Progress (manager_at 2) (extend (chain_at 2) next_block []) m'
observe_notarized-Honest_example =
    observe_notarized-Honest toy_crypto (manager_at 2) (chain_at 2) next_block [] (manager_Inv 2)
      chain_Honest refl (omega arith) (omega arith)

observe_notarized_finalizes_example :
    (m' : BlockchainManager) × (observe_notarized (manager_at 2) next_block [] ≡ done m')
    × (m'.finalized_chain ≡ append_block (chain_at 2) next_block [])
    × (m'.finalized_chain_length ≡ 4)
observe_notarized_finalizes_example =
    observe_notarized_finalizes toy_crypto (manager_at 2) (chain_at 2) next_block []
      (entry (block_on (101 ∷ []) 2 2)) (entry (block_on genesis_hash 1 1)) (manager_Inv 2)
      chain_Honest refl (omega arith) (omega arith) (omega arith) refl refl refl (refl, refl)

observe_notarized_cuts_example :
    (m' : BlockchainManager) × (observe_notarized (manager_at 0) next_block [] ≡ done m')
    × (m'.finalized_chain.blocks ≡ take 2 (append_block (chain_at 0) next_block []).blocks)
observe_notarized_cuts_example =
    observe_notarized_cuts toy_crypto (manager_at 0) (chain_at 0) next_block []
      (entry (block_on (101 ∷ []) 2 0)) (entry (block_on genesis_hash 1 1)) (manager_Inv 0)
      (omega arith) refl refl refl (refl, refl) (omega arith) (omega arith) (omega arith)

observe_notarized_panics_example : observe_notarized (manager_at 9) next_block [] ≡ panic
observe_notarized_panics_example =
    observe_notarized_panics toy_crypto (manager_at 9) (chain_at 9) next_block []
      (entry (block_on (101 ∷ []) 2 9)) (entry (block_on genesis_hash 1 1)) (manager_Inv 9)
      (omega arith) refl refl refl (refl, refl) (omega arith)

index_of_ancestor_chain-Finds_example :
    Finds 3 next_block (chain_at 2 ∷ []) 0 (index_of_ancestor_chain (manager_at 2) next_block)
index_of_ancestor_chain-Finds_example =
    index_of_ancestor_chain-Finds (manager_at 2) next_block tt (omega arith, tt)

is_chain_valid_iff_example :
    (valid : Bool) × (is_chain_valid (chain_at 2) ≡ done valid)
    × ((valid ≡ true) ↔ Unlinked (chain_at 2).blocks)
is_chain_valid_iff_example = is_chain_valid_iff (chain_at 2)

-- Epochs 0 and 1 are logged, and epoch 2 is not.
abbrev logged : BlockchainManager
logged = record (manager_at 2) { finalized_chain = chain_at 2; last_logged_epoch = 1 }

export_writes_new_example :
    export_local_finalized_chain_to_file logged
    ≡ done (record logged { last_logged_epoch = 2 }, entry (block_on (101 ∷ []) 2 2) ∷ [])
unfolding genesis_block Block.new
export_writes_new_example =
    export_writes_new logged (genesis_entry toy_crypto ∷ entry (block_on genesis_hash 1 1) ∷ [])
      (entry (block_on (101 ∷ []) 2 2) ∷ []) (entry (block_on (101 ∷ []) 2 2)) refl refl
      (λ e. omega arith) (omega arith, (omega arith, tt)) (omega arith, tt)

abbrev parent_32 : Bytes
parent_32 =
    0 ∷ 1 ∷ 2 ∷ 3 ∷ 4 ∷ 5 ∷ 6 ∷ 7 ∷ 8 ∷ 9 ∷ 10 ∷ 11 ∷ 12 ∷ 13 ∷ 14 ∷ 15 ∷ 16 ∷ 17 ∷ 18 ∷ 19 ∷ 20
    ∷ 21 ∷ 22 ∷ 23 ∷ 24 ∷ 25 ∷ 26 ∷ 27 ∷ 28 ∷ 29 ∷ 30 ∷ 31 ∷ []

abbrev epoch_3 : ℕ
epoch_3 = 3

abbrev nonce_5 : ℕ
nonce_5 = 5

hash_binds_example :
    (epoch_3 ≡ epoch_3) × (parent_32 ≡ parent_32) × (bytes "tx" ≡ bytes "tx") × (nonce_5 ≡ nonce_5)
unfolding Block.new
hash_binds_example =
    hash_binds toy_crypto epoch_3 epoch_3 parent_32 parent_32 (bytes "tx") (bytes "tx") 1 2 nonce_5
      nonce_5 (λ h. h) refl refl (omega arith) (omega arith) (omega arith) (omega arith) refl

-- The blocks of epochs 1, 2 and 3, of which the last one finalizes the others.
abbrev three_blocks : List SignedBlock
three_blocks =
    entry (block_on genesis_hash 1 1) ∷ entry (block_on (101 ∷ []) 2 2) ∷ entry next_block ∷ []

manager_refines_example :
    Agree toy_crypto
      (observe_each (Manager.new toy_crypto) three_blocks)
      (observe_all (Ledger.new toy_crypto) three_blocks)
manager_refines_example =
    manager_refines toy_crypto three_blocks (omega arith)
      (omega arith, (omega arith, (omega arith, tt)))
