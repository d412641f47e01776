-- ===== src/Blockchain/Chain.antt =====
-- cs244b_project/src/blockchain/chain.rs: `LocalChain` and its `Chain` operations. The blocks of a
-- chain are listed from the genesis block on, as in the source's vector.
pub mod Links
pub mod Display
use streamlet_transparency_l.Prelude.{ℕ, ◌+◌, Bool, true, false, not, List, [], ◌∷◌, ◌++◌}
use streamlet_transparency_l.Prelude.Tests.{leb, if◌then◌else◌}
use streamlet_transparency_l.Prelude.Lists.{take, get_last?}
use streamlet_transparency_l.Prelude.Lists
use streamlet_transparency_l.Prelude.Outcome.{Outcome, done, panic, expect, add_u64, ◌>>=◌}
use streamlet_transparency_l.Prelude.Bytes.{Bytes, bytes, bytes_eq}
use streamlet_transparency_l.Crypto.{Crypto}
use streamlet_transparency_l.Blockchain.Block.{Block, SignedBlock}
use streamlet_transparency_l.Blockchain.Block

pub record LocalChain : Type 0 where
  pub blocks : List SignedBlock

unfoldable pub genesis_block : Crypto → Block
genesis_block c = Block.new c 0 (c.sha256 (bytes "genesis")) (bytes "genesis payload") 0 0

-- `genesis` pushes the unsigned genesis block.
unfoldable pub genesis : Crypto → LocalChain → LocalChain
genesis c chain = record {
  blocks = chain.blocks ++ record { block = genesis_block c; signatures = [] } ∷ [];
}

unfoldable pub new : Crypto → LocalChain
unfolding genesis
new c = genesis c (record { blocks = [] })

unfoldable pub append_block : LocalChain → Block → List Bytes → LocalChain
append_block chain block signatures = record {
  blocks = chain.blocks ++ record { block = block; signatures = signatures } ∷ [];
}

unfoldable pub validate_block : Block → Block → Bool
validate_block block parent_block =
    if not (bytes_eq block.parent_hash parent_block.hash) then true else false

unfoldable pub head : LocalChain → Outcome SignedBlock
head chain = expect (get_last? chain.blocks)

unfoldable pub length : LocalChain → ℕ
length chain = Lists.length chain.blocks

-- The sum `height + 2` is taken in `u64`, and a slice past the end panics.
unfoldable pub copy_up_to_height : LocalChain → ℕ → Outcome LocalChain
copy_up_to_height chain height = do
  copy_idx ← add_u64 height 2
  if leb copy_idx (Lists.length chain.blocks)
      then done (record { blocks = take copy_idx chain.blocks })
      else panic
