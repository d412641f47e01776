-- ===== src/Blockchain/Manager.antt =====
-- cs244b_project/src/blockchain/manager.rs: `BlockchainManager`, the notarized chains and the
-- finalized chain. `observe_notarized` is the use that lib.rs makes of it.
pub mod Sort
pub mod Validate
pub mod Order
pub mod Finalize
pub mod Height
pub mod Log
pub mod Honest
pub mod Invariant
use streamlet_transparency_l.Prelude.{
  ℕ, zero, suc, ◌+◌, ◌-◌, Bool, true, false, not, ◌||◌, ◌++◌, Option, none, some, List, [], ◌∷◌,
}
use streamlet_transparency_l.Prelude.Tests.{ltb, ◌==◌, if◌then◌else◌}
use streamlet_transparency_l.Prelude.Lists.{get_elem?, set, get_last?, retain}
use streamlet_transparency_l.Prelude.Outcome.{Outcome, done, panic, expect, add_u64, ◌>>=◌}
use streamlet_transparency_l.Prelude.Bytes.{Bytes, bytes_eq}
use streamlet_transparency_l.Crypto.{Crypto}
use streamlet_transparency_l.Blockchain.Block.{Block, SignedBlock}
use streamlet_transparency_l.Blockchain.Chain.{
  LocalChain, append_block, validate_block, copy_up_to_height,
}
use streamlet_transparency_l.Blockchain.Chain
use Sort.{sort_by_length}

pub record BlockchainManager : Type 0 where
  pub finalized_chain_length : ℕ
  pub finalized_chain : LocalChain
  pub longest_notarized_chain_length : ℕ
  pub notarized_chains : List LocalChain
  pub last_logged_epoch : ℕ

unfoldable pub new : Crypto → BlockchainManager
new c = record {
  finalized_chain_length = 1;
  finalized_chain = Chain.new c;
  longest_notarized_chain_length = 1;
  notarized_chains = Chain.new c ∷ [];
  last_logged_epoch = 0;
}

unfoldable pub observe_chain : BlockchainManager → LocalChain → BlockchainManager
observe_chain m chain = record m { notarized_chains = m.notarized_chains ++ chain ∷ [] }

-- One round of the loop of `is_chain_valid`.
unfoldable pub check_link : LocalChain → ℕ → Outcome Bool
check_link chain zero = done true
check_link chain (suc i) = do
  first ← expect (get_elem? chain.blocks i)
  second ← expect (get_elem? chain.blocks (suc i))
  done (validate_block second.block first.block)

-- The rounds from `i` on, `rounds` of them.
unfoldable pub check_links : LocalChain → ℕ → ℕ → Outcome Bool
unfolding check_link
check_links chain i zero = done true
check_links chain i (suc rounds) =
    let rest = check_links chain (suc i) rounds in
    check_link chain i >>= λ valid. if not valid then done false else rest

unfoldable pub is_chain_valid : LocalChain → Outcome Bool
unfolding check_links
is_chain_valid chain = check_links chain 0 (Chain.length chain)

-- The loop of `index_of_ancestor_chain`; `idx` is `chain_idx`, which a skipped chain leaves alone.
unfoldable pub ancestor_from : ℕ → Block → List LocalChain → ℕ → Outcome (Option ℕ)
ancestor_from longest new_block [] idx = done none
ancestor_from longest new_block (chain ∷ chains) idx =
    let skipped = ancestor_from longest new_block chains idx in
    let passed = ancestor_from longest new_block chains (idx + 1) in
    if ltb (Chain.length chain) longest
    then skipped
    else (Chain.head chain >>= λ last.
        if bytes_eq last.block.hash new_block.parent_hash then done (some idx) else passed)

unfoldable pub index_of_ancestor_chain : BlockchainManager → Block → Outcome (Option ℕ)
unfolding ancestor_from
index_of_ancestor_chain m new_block =
    ancestor_from m.longest_notarized_chain_length new_block m.notarized_chains 0

-- `self.finalized_chain = ...` with its length.
unfoldable pub finalize : BlockchainManager → LocalChain → BlockchainManager
finalize m chain = record m { finalized_chain = chain; finalized_chain_length = Chain.length chain }

-- The test on the last three blocks and what follows it; `&&` adds the second time only if the
-- first equation holds.
unfoldable pub finalize_if_consecutive :
    BlockchainManager → LocalChain → Block → Block → Block → Outcome BlockchainManager
unfolding finalize
finalize_if_consecutive m chain newest commit_2 commit_1 = do
  after_2 ← add_u64 commit_2.epoch 1
  if newest.epoch == after_2
      then (do
        after_1 ← add_u64 commit_1.epoch 1
        if commit_2.epoch == after_1
            then (do
              committed ← copy_up_to_height chain commit_2.height
              done (finalize m committed))
            else done m)
      else done m

unfoldable pub try_finalize : BlockchainManager → ℕ → Outcome BlockchainManager
unfolding finalize_if_consecutive
try_finalize m idx = do
  chain ← expect (get_elem? m.notarized_chains idx)
  let i = Chain.length chain
  if ltb i 3 then done m else (do
    newest ← expect (get_elem? chain.blocks (i - 1))
    commit_2 ← expect (get_elem? chain.blocks (i - 2))
    commit_1 ← expect (get_elem? chain.blocks (i - 3))
    finalize_if_consecutive m chain newest.block commit_2.block commit_1.block)

-- The manager after `append_block` on chain `idx`: the new longest length, and the chains sorted.
unfoldable pub store_chain : BlockchainManager → ℕ → LocalChain → BlockchainManager
store_chain m idx chain = record m {
  longest_notarized_chain_length =
      if ltb m.longest_notarized_chain_length (Chain.length chain)
      then Chain.length chain
      else m.longest_notarized_chain_length;
  notarized_chains = sort_by_length (set m.notarized_chains idx chain);
}

unfoldable pub add_to_chain : BlockchainManager → Block → List Bytes → ℕ → Outcome BlockchainManager
unfolding store_chain
add_to_chain m notarized_block signatures chain_index =
    elim (get_elem? m.notarized_chains chain_index) [
      | none ↦ done m
      | some chain ↦ Chain.head chain >>= λ last.
          if not (bytes_eq last.block.hash notarized_block.parent_hash)
          then panic
          else try_finalize
              (store_chain m chain_index (append_block chain notarized_block signatures))
              chain_index
    ]

-- lib.rs on a notarized block: look for the chain that it extends, and add it there.
unfoldable pub observe_notarized :
    BlockchainManager → Block → List Bytes → Outcome BlockchainManager
observe_notarized m block signatures = do
  index ← index_of_ancestor_chain m block
  elim index [ none ↦ done m | some idx ↦ add_to_chain m block signatures idx ]

unfoldable pub fetch_chain_after_epoch : BlockchainManager → ℕ → List SignedBlock
fetch_chain_after_epoch m epoch =
    retain (λ signed_block. ltb epoch signed_block.block.epoch || m.last_logged_epoch == 0)
      m.finalized_chain.blocks

unfoldable pub fetch_local_finalized_chain : BlockchainManager → LocalChain
fetch_local_finalized_chain m = m.finalized_chain

unfoldable pub get_latest_finalized_block : BlockchainManager → Outcome SignedBlock
get_latest_finalized_block m = expect (get_last? m.finalized_chain.blocks)

-- The manager afterwards, and the blocks that are written to the local file.
unfoldable pub export_local_finalized_chain_to_file :
    BlockchainManager → Outcome (BlockchainManager × List SignedBlock)
unfolding fetch_chain_after_epoch get_latest_finalized_block
export_local_finalized_chain_to_file m = do
  let unlogged_chain = fetch_chain_after_epoch m m.last_logged_epoch
  latest ← get_latest_finalized_block m
  done (record m { last_logged_epoch = latest.block.epoch }, unlogged_chain)

-- The block that is written to the public file.
unfoldable pub publish_last_finalized_block : BlockchainManager → Outcome SignedBlock
publish_last_finalized_block m = get_latest_finalized_block m

unfoldable pub cleanup_notarized_chains : BlockchainManager → BlockchainManager
cleanup_notarized_chains m = record m {
  notarized_chains =
      retain (λ chain. Chain.length chain == m.longest_notarized_chain_length) m.notarized_chains;
}

-- `head` collects garbage first, then indexes chain 0.
unfoldable pub head : BlockchainManager → Outcome (BlockchainManager × SignedBlock)
unfolding cleanup_notarized_chains
head m = do
  let cleaned = cleanup_notarized_chains m
  chain ← expect (get_elem? cleaned.notarized_chains 0)
  last ← Chain.head chain
  done (cleaned, last)
