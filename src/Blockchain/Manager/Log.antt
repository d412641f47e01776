-- ===== src/Blockchain/Manager/Log.antt =====
-- What `export_local_finalized_chain_to_file` writes.
use streamlet_transparency_l.Prelude.{
  ℕ, ◌≤◌, ◌<◌, ◌≡◌, ◌≢◌, refl, ap, ◌∙◌, Bool, true, ◌||◌, some, List, [], ◌∷◌, ◌++◌, arith,
}
use streamlet_transparency_l.Prelude.Tests.{ltb, ◌==◌}
use streamlet_transparency_l.Prelude.Lists.{retain, get_last?, All}
use streamlet_transparency_l.Prelude.Outcome.{done}
use streamlet_transparency_l.Blockchain.Block.{SignedBlock}
use streamlet_transparency_l.Blockchain.Manager.{
  BlockchainManager, fetch_chain_after_epoch, get_latest_finalized_block,
  export_local_finalized_chain_to_file,
}

retain-All :
    (p : SignedBlock → Bool) (blocks : List SignedBlock)
    → All (λ b. p b ≡ true) blocks
    → retain p blocks ≡ blocks
retain-All p [] h = refl
retain-All p (b ∷ blocks) h = ground (arith, retain-All p blocks h.1)

every :
    (f : SignedBlock → Bool) (blocks : List SignedBlock)
    → ((b : SignedBlock) → f b ≡ true)
    → All (λ b. f b ≡ true) blocks
every f [] h = tt
every f (b ∷ blocks) h = (h b, every f blocks h)

-- The blocks of later epochs, behind those of earlier ones.
retain-later :
    (last : ℕ) (old new : List SignedBlock)
    → last ≢ 0
    → All (λ b. b.block.epoch ≤ last) old
    → All (λ b. last < b.block.epoch) new
    → retain (λ b. ltb last b.block.epoch || last == 0) (old ++ new) ≡ new
retain-later last [] [] pos h k = refl
retain-later last [] (b ∷ new) pos h k = ground (arith, retain-later last [] new pos tt k.1)
retain-later last (a ∷ old) new pos h k = ground (arith, retain-later last old new pos h.1 k)

-- An export writes exactly the blocks of the finalized chain behind the last one logged, and
-- remembers the epoch of the newest block, if the logged blocks have epochs up to the remembered
-- one, which is not 0, and the others later epochs.
pub export_writes_new :
    (m : BlockchainManager) (old new : List SignedBlock) (latest : SignedBlock)
    → m.finalized_chain.blocks ≡ old ++ new
    → get_last? m.finalized_chain.blocks ≡ some latest
    → m.last_logged_epoch ≢ 0
    → All (λ b. b.block.epoch ≤ m.last_logged_epoch) old
    → All (λ b. m.last_logged_epoch < b.block.epoch) new
    → export_local_finalized_chain_to_file m
      ≡ done (record m { last_logged_epoch = latest.block.epoch }, new)
unfolding export_local_finalized_chain_to_file fetch_chain_after_epoch get_latest_finalized_block
export_writes_new m old new latest e last pos h k =
    let written : retain (λ b. ltb m.last_logged_epoch b.block.epoch || m.last_logged_epoch == 0)
          m.finalized_chain.blocks
        ≡ new =
      ap (retain (λ b. ltb m.last_logged_epoch b.block.epoch || m.last_logged_epoch == 0)) e
      ∙ retain-later m.last_logged_epoch old new pos h k in
    ground arith

-- As long as nothing later than epoch 0 was logged, an export writes the whole finalized chain
-- again.
pub export_writes_all :
    (m : BlockchainManager) (latest : SignedBlock)
    → get_last? m.finalized_chain.blocks ≡ some latest
    → m.last_logged_epoch ≡ 0
    → export_local_finalized_chain_to_file m
      ≡ done (record m { last_logged_epoch = latest.block.epoch }, m.finalized_chain.blocks)
unfolding export_local_finalized_chain_to_file fetch_chain_after_epoch get_latest_finalized_block
export_writes_all m latest last zero =
    let written : retain (λ b. ltb m.last_logged_epoch b.block.epoch || m.last_logged_epoch == 0)
          m.finalized_chain.blocks
        ≡ m.finalized_chain.blocks =
      retain-All _ m.finalized_chain.blocks (
        every (λ b. ltb m.last_logged_epoch b.block.epoch || m.last_logged_epoch == 0)
          m.finalized_chain.blocks (λ b. ground arith)) in
    ground arith
