-- ===== src/Blockchain/Ledger/Refine.antt =====
-- The manager, as lib.rs uses it, against the ledger, on the blocks that machine integers can count.
use streamlet_transparency_l.Prelude.{
  ℕ, suc, ◌+◌, ◌<◌, ◌≡◌, refl, sym, subst, inl, inr, Bool, false, List, [], ◌∷◌, arith,
}
use streamlet_transparency_l.Prelude.Tests.{Bool-cases}
use streamlet_transparency_l.Prelude.Lists.{length, All}
use streamlet_transparency_l.Prelude.Outcome.{Outcome, done, panic, ◌>>=◌, u64_limit}
use streamlet_transparency_l.Prelude.Bytes.{bytes_eq}
use streamlet_transparency_l.Crypto.{Crypto}
use streamlet_transparency_l.Blockchain.Block.{Block, SignedBlock}
use streamlet_transparency_l.Blockchain.Chain.{LocalChain, append_block, genesis_block}
use streamlet_transparency_l.Blockchain.Chain
use streamlet_transparency_l.Blockchain.Block
use streamlet_transparency_l.Blockchain.Manager.{
  BlockchainManager, finalize, finalize_if_consecutive, store_chain, observe_notarized,
}
use streamlet_transparency_l.Blockchain.Manager
use streamlet_transparency_l.Blockchain.Manager.Invariant.{new-Inv}
use streamlet_transparency_l.Blockchain.Ledger.{
  Ledger, oldest_first, consecutive, settle, observe_on, observe, observe_all,
}
use streamlet_transparency_l.Blockchain.Ledger
use streamlet_transparency_l.Blockchain.Ledger.Steps.{Refines, Agree, Fits, step_on}

-- The notarized blocks that the manager is given, one after the other.
unfoldable pub observe_each : BlockchainManager → List SignedBlock → Outcome BlockchainManager
observe_each m [] = done m
observe_each m (newest ∷ rest) =
    observe_notarized m newest.block newest.signatures >>= λ m'. observe_each m' rest

-- The ledger grows by one block at most, and its epochs stay small.
settle-Fits :
    (blocks final : List SignedBlock) (before : SignedBlock) (b : Bool) (more : ℕ) {l' : Ledger}
    → settle blocks final before b ≡ done l'
    → Fits (record { blocks = blocks; final = final }) more
    → Fits l' more
settle-Fits blocks final before b more {l'} h fits =
    let same : l'.blocks ≡ blocks = ground arith in
    subst
      (λ bs.
        All (λ (b : SignedBlock). b.block.epoch + 1 < u64_limit) bs
        × (length bs + more < u64_limit))
      (sym same) fits

observe_on-Fits :
    (blocks final : List SignedBlock) (newest : SignedBlock) (more : ℕ) {l' : Ledger}
    → observe_on blocks final newest ≡ done l'
    → newest.block.epoch + 1 < u64_limit
    → Fits (record { blocks = blocks; final = final }) (suc more)
    → Fits l' more
unfolding observe_on
observe_on-Fits [] final newest more h small fits =
    settle-Fits [] final newest false more h (tt, omega (arith, fits.1))
observe_on-Fits (before ∷ older) final newest more h small fits =
    elim (Bool-cases (bytes_eq before.block.hash newest.block.parent_hash)) [
      | inl extends ↦
          settle-Fits (newest ∷ before ∷ older) final before (consecutive newest before older) more
            (rw extends at h) ((small, fits.0), omega (arith, fits.1))
      | inr differs ↦
          settle-Fits (before ∷ older) final newest false more (rw differs at h)
            (fits.0, omega (arith, fits.1))
    ]

-- One notarized block on both sides, and then the rest.
Agree-then :
    (c : Crypto) (o : Outcome BlockchainManager) (o' : Outcome Ledger) (rest : List SignedBlock)
    → Agree c o o'
    → ((m : BlockchainManager) (l : Ledger)
        → o' ≡ done l
        → Refines c m l
        → Agree c (observe_each m rest) (observe_all l rest))
    → Agree c (o >>= λ m. observe_each m rest) (o' >>= λ l. observe_all l rest)
Agree-then c (done m) (done l) rest a go = go m l refl a
Agree-then c panic panic rest a go = tt
Agree-then c (done m) panic rest a go = absurd a
Agree-then c panic (done l) rest a go = absurd a

observe_each_agrees :
    (c : Crypto) (m : BlockchainManager) (l : Ledger) (inputs : List SignedBlock)
    → Refines c m l
    → Fits l (length inputs)
    → All (λ (b : SignedBlock). b.block.epoch + 1 < u64_limit) inputs
    → Agree c (observe_each m inputs) (observe_all l inputs)
unfolding observe_each observe_all observe
observe_each_agrees c m l [] r fits small = r
observe_each_agrees c m l (newest ∷ rest) r fits small =
    Agree-then c (observe_notarized m newest.block newest.signatures)
      (observe_on l.blocks l.final newest) rest
      (step_on c m newest r.chain l.final r.holds r.final small.0 l.blocks r.same
        (fits.0, omega (arith, fits.1)))
      (λ m' l' h r'.
        observe_each_agrees c m' l' rest r'
          (observe_on-Fits l.blocks l.final newest (length rest) h small.0 fits) small.1)

-- The manager refines the ledger: whatever notarized blocks a new manager is given, fewer than 2^64
-- and of epochs below 2^64 - 1, it ends with the notarized and the final blocks of a new ledger
-- that is given the same blocks, and it panics exactly if the ledger does.
pub manager_refines :
    (c : Crypto) (inputs : List SignedBlock)
    → length inputs + 1 < u64_limit
    → All (λ (b : SignedBlock). b.block.epoch + 1 < u64_limit) inputs
    → Agree c (observe_each (Manager.new c) inputs) (observe_all (Ledger.new c) inputs)
unfolding Manager.new Chain.new genesis_block Block.new
manager_refines c inputs short small =
    observe_each_agrees c (Manager.new c) (Ledger.new c) inputs
      (record { chain = Chain.new c; holds = new-Inv c; same = refl; final = refl })
      ((omega arith, tt), omega arith) small
