-- ===== src/Blockchain/Manager/Finalize.antt =====
-- `try_finalize` on the manager's only chain: what it commits, and when it panics.
use streamlet_transparency_l.Prelude.{
  ◌+◌, ◌-◌, ◌≤◌, ◌<◌, ◌≡◌, ◌≢◌, sym, ◌∙◌, ◌⊎◌, inl, inr, some, [], ◌∷◌, arith,
}
use streamlet_transparency_l.Prelude.Tests.{ltb, ltb→lt, Bool-cases}
use streamlet_transparency_l.Prelude.Lists.{length, take, get_elem?, get_elem?-some}
use streamlet_transparency_l.Prelude.Outcome.{done-injective, done, panic, u64_limit}
use streamlet_transparency_l.Blockchain.Block.{Block, SignedBlock}
use streamlet_transparency_l.Blockchain.Chain.{LocalChain, copy_up_to_height}
use streamlet_transparency_l.Blockchain.Chain
use streamlet_transparency_l.Blockchain.Manager.{
  BlockchainManager, finalize, finalize_if_consecutive, try_finalize,
}

-- The three blocks have consecutive epochs.
abbrev pub Consecutive : Block → Block → Block → Type 0
Consecutive newest commit_2 commit_1 =
    (newest.epoch ≡ commit_2.epoch + 1) × (commit_2.epoch ≡ commit_1.epoch + 1)

-- A commit replaces the finalized chain by the blocks up to index `commit_2.height + 1`.
abbrev pub Commits : BlockchainManager → LocalChain → Block → BlockchainManager → Type 0
Commits m chain commit_2 m' =
    (commit_2.height + 2 ≤ length chain.blocks)
    × (m' ≡ finalize m (record { blocks = take (commit_2.height + 2) chain.blocks }))

pub finalize_if_consecutive_cases :
    (m : BlockchainManager) (chain : LocalChain) (newest commit_2 commit_1 : Block)
    {m' : BlockchainManager}
    → finalize_if_consecutive m chain newest commit_2 commit_1 ≡ done m'
    → (m' ≡ m) ⊎ (Consecutive newest commit_2 commit_1 × Commits m chain commit_2 m')
unfolding finalize_if_consecutive copy_up_to_height
finalize_if_consecutive_cases m chain newest commit_2 commit_1 h = ground arith

-- Consecutive epochs commit, if the height of the middle block fits the chain.
pub finalize_if_consecutive_commits :
    (m : BlockchainManager) (chain : LocalChain) (newest commit_2 commit_1 : Block)
    → Consecutive newest commit_2 commit_1
    → newest.epoch < u64_limit
    → commit_2.height + 2 ≤ length chain.blocks
    → length chain.blocks < u64_limit
    → finalize_if_consecutive m chain newest commit_2 commit_1
      ≡ done (finalize m (record { blocks = take (commit_2.height + 2) chain.blocks }))
unfolding finalize_if_consecutive copy_up_to_height
finalize_if_consecutive_commits m chain newest commit_2 commit_1 cons small fits short =
    ground arith

pub finalize_if_consecutive_total :
    (m : BlockchainManager) (chain : LocalChain) (newest commit_2 commit_1 : Block)
    → commit_2.epoch + 1 < u64_limit
    → commit_1.epoch + 1 < u64_limit
    → commit_2.height + 2 ≤ length chain.blocks
    → length chain.blocks < u64_limit
    → finalize_if_consecutive m chain newest commit_2 commit_1 ≢ panic
unfolding finalize_if_consecutive copy_up_to_height
finalize_if_consecutive_total m chain newest commit_2 commit_1 e2 e1 fits short = ground arith

-- The source's panic: consecutive epochs, and a height that reaches past the chain.
pub finalize_if_consecutive_panics :
    (m : BlockchainManager) (chain : LocalChain) (newest commit_2 commit_1 : Block)
    → Consecutive newest commit_2 commit_1
    → length chain.blocks < commit_2.height + 2
    → finalize_if_consecutive m chain newest commit_2 commit_1 ≡ panic
unfolding finalize_if_consecutive copy_up_to_height
finalize_if_consecutive_panics m chain newest commit_2 commit_1 cons long = ground arith

pub try_finalize_short :
    (m : BlockchainManager) (chain : LocalChain)
    → m.notarized_chains ≡ chain ∷ []
    → length chain.blocks < 3
    → try_finalize m 0 ≡ done m
unfolding try_finalize Chain.length
try_finalize_short m chain only h = ground arith

-- On three blocks or more the test is made on the last three.
pub try_finalize_long :
    (m : BlockchainManager) (chain : LocalChain) (newest commit_2 commit_1 : SignedBlock)
    → m.notarized_chains ≡ chain ∷ []
    → 3 ≤ length chain.blocks
    → get_elem? chain.blocks (length chain.blocks - 1) ≡ some newest
    → get_elem? chain.blocks (length chain.blocks - 2) ≡ some commit_2
    → get_elem? chain.blocks (length chain.blocks - 3) ≡ some commit_1
    → try_finalize m 0 ≡ finalize_if_consecutive m chain newest.block commit_2.block commit_1.block
unfolding try_finalize Chain.length
try_finalize_long m chain newest commit_2 commit_1 only h e1 e2 e3 = ground arith

pub try_finalize_cases :
    (m : BlockchainManager) (chain : LocalChain) {m' : BlockchainManager}
    → m.notarized_chains ≡ chain ∷ []
    → try_finalize m 0 ≡ done m'
    → (m' ≡ m)
      ⊎ ((newest commit_2 commit_1 : SignedBlock) × (3 ≤ length chain.blocks)
          × (get_elem? chain.blocks (length chain.blocks - 1) ≡ some newest)
          × (get_elem? chain.blocks (length chain.blocks - 2) ≡ some commit_2)
          × (get_elem? chain.blocks (length chain.blocks - 3) ≡ some commit_1)
          × Consecutive newest.block commit_2.block commit_1.block
          × Commits m chain commit_2.block m')
try_finalize_cases m chain {m'} only h = elim (Bool-cases (ltb (length chain.blocks) 3)) [
  | inl short ↦ inl (done-injective (sym h ∙ try_finalize_short m chain only (ltb→lt _ _ short)))
  | inr long ↦
      let (newest, e1) = get_elem?-some chain.blocks (length chain.blocks - 1) (ground arith) in
      let (commit_2, e2) = get_elem?-some chain.blocks (length chain.blocks - 2) (ground arith) in
      let (commit_1, e3) = get_elem?-some chain.blocks (length chain.blocks - 3) (ground arith) in
      let le3 : 3 ≤ length chain.blocks = ground arith in
      elim (finalize_if_consecutive_cases m chain newest.block commit_2.block commit_1.block
        (sym (try_finalize_long m chain newest commit_2 commit_1 only le3 e1 e2 e3) ∙ h)) [
          | inl same ↦ inl same
          | inr (cons, commits) ↦ inr (newest, commit_2, commit_1, le3, e1, e2, e3, cons, commits)
        ]
]
