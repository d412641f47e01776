-- ===== src/Blockchain/Ledger.antt =====
-- What the manager promises, without its vectors, indices and sorting: a ledger of notarized
-- blocks, newest first, and the blocks that are final, oldest first.
pub mod Steps
pub mod Refine
use streamlet_transparency_l.Prelude.{ℕ, ◌+◌, Bool, true, false, ◌&&◌, List, [], ◌∷◌, ◌++◌}
use streamlet_transparency_l.Prelude.Tests.{leb, ◌==◌, if◌then◌else◌}
use streamlet_transparency_l.Prelude.Lists.{length, take}
use streamlet_transparency_l.Prelude.Outcome.{Outcome, done, panic, ◌>>=◌}
use streamlet_transparency_l.Prelude.Bytes.{Bytes, bytes_eq}
use streamlet_transparency_l.Crypto.{Crypto}
use streamlet_transparency_l.Blockchain.Block.{Block, SignedBlock}
use streamlet_transparency_l.Blockchain.Chain.{genesis_block}

pub record Ledger : Type 0 where
  pub blocks : List SignedBlock
  pub final : List SignedBlock

abbrev pub oldest_first : List SignedBlock → List SignedBlock
oldest_first [] = []
oldest_first (x ∷ xs) = oldest_first xs ++ x ∷ []

-- A new ledger holds the genesis block, and it is final.
abbrev pub new : Crypto → Ledger
new c = record {
  blocks = record { block = genesis_block c; signatures = [] } ∷ [];
  final = record { block = genesis_block c; signatures = [] } ∷ [];
}

-- The new block and the two before it have consecutive epochs.
abbrev pub consecutive : SignedBlock → SignedBlock → List SignedBlock → Bool
consecutive newest before [] = false
consecutive newest before (oldest ∷ rest) =
    newest.block.epoch == before.block.epoch + 1 && before.block.epoch == oldest.block.epoch + 1

-- Three consecutive epochs make all blocks final up to the one behind the height that the middle
-- block claims, which must be there.
abbrev pub settle : List SignedBlock → List SignedBlock → SignedBlock → Bool → Outcome Ledger
settle blocks final before false = done (record { blocks = blocks; final = final })
settle blocks final before true =
    if leb (before.block.height + 2) (length blocks)
    then done
        (record { blocks = blocks; final = take (before.block.height + 2) (oldest_first blocks) })
    else panic

-- A notarized block goes on top of the newest if it names its hash, and else is dropped.
unfoldable pub observe_on : List SignedBlock → List SignedBlock → SignedBlock → Outcome Ledger
observe_on [] final newest = done (record { blocks = []; final = final })
observe_on (before ∷ older) final newest =
    if bytes_eq before.block.hash newest.block.parent_hash
    then settle (newest ∷ before ∷ older) final before (consecutive newest before older)
    else done (record { blocks = before ∷ older; final = final })

unfoldable pub observe : Ledger → SignedBlock → Outcome Ledger
unfolding observe_on
observe l newest = observe_on l.blocks l.final newest

unfoldable pub observe_all : Ledger → List SignedBlock → Outcome Ledger
observe_all l [] = done l
observe_all l (newest ∷ rest) = observe l newest >>= λ l'. observe_all l' rest
