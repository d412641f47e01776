-- ===== src/Blockchain/Manager/Honest.antt =====
-- Notarized blocks as an honest proposer makes them: their height is the length of the chain that
-- they extend, which is what lib.rs writes into a proposal.
use streamlet_transparency_l.Prelude.{
  ◌+◌, ◌-◌, ◌≤◌, ◌<◌, ◌≡◌, ◌≢◌, refl, sym, ap, ◌∙◌, ◌⊎◌, inl, inr, true, some, List, [], ◌∷◌, arith,
}
use streamlet_transparency_l.Prelude.Tests.{ltb, ltb→lt, Bool-cases}
use streamlet_transparency_l.Prelude.Lists.{
  length, take, take-length, get_elem?, get_last?, get_last?-some, get_elem?-some, length-append,
  All, All-get_elem?, All-snoc, get_elem?-snoc, get_elem?-at, get_last?-get_elem?,
  get_elem?-append_left,
}
use streamlet_transparency_l.Prelude.Outcome.{done, panic, Outcome-done, u64_limit}
use streamlet_transparency_l.Prelude.Bytes.{Bytes, bytes_eq, bytes_eq_iff}
use streamlet_transparency_l.Crypto.{Crypto}
use streamlet_transparency_l.Blockchain.Block.{Block, SignedBlock}
use streamlet_transparency_l.Blockchain.Chain.{LocalChain, append_block}
use streamlet_transparency_l.Blockchain.Chain
use streamlet_transparency_l.Blockchain.Chain.Links.{
  HeightsFrom, HeightsFrom-snoc, HeightsFrom-get_elem?,
}
use streamlet_transparency_l.Blockchain.Manager.{
  BlockchainManager, finalize, try_finalize, store_chain, observe_notarized,
}
use streamlet_transparency_l.Blockchain.Manager.Finalize.{
  Consecutive, finalize_if_consecutive_total, finalize_if_consecutive_commits, try_finalize_short,
  try_finalize_long, try_finalize_cases,
}
use streamlet_transparency_l.Blockchain.Manager.Invariant.{
  Inv, extend, extend_extends, extend_ignores, observe_notarized_extends, observe_notarized_ignores,
  observe_notarized-Inv, store_chain_only,
}

-- Heights are positions, and no sum of the program overflows.
pub record Honest (chain : LocalChain) : Type 0 where
  pub heights : HeightsFrom 0 chain.blocks
  pub epochs : All (λ b. b.block.epoch + 1 < u64_limit) chain.blocks
  pub short : length chain.blocks < u64_limit

pub Honest-snoc :
    (chain : LocalChain) (block : Block) (signatures : List Bytes)
    → Honest chain
    → block.height ≡ length chain.blocks
    → block.epoch + 1 < u64_limit
    → length chain.blocks + 1 < u64_limit
    → Honest (append_block chain block signatures)
unfolding append_block
Honest-snoc chain block signatures h height epoch short = record {
  heights = HeightsFrom-snoc 0 chain.blocks _ h.heights (omega arith);
  epochs = All-snoc (λ b. b.block.epoch + 1 < u64_limit) chain.blocks _ h.epochs epoch;
  short =
      omega (
        arith,
        length-append chain.blocks (record { block = block; signatures = signatures } ∷ []),
      );
}

try_finalize_total :
    (m : BlockchainManager) (chain : LocalChain)
    → m.notarized_chains ≡ chain ∷ []
    → Honest chain
    → try_finalize m 0 ≢ panic
try_finalize_total m chain only h = elim (Bool-cases (ltb (length chain.blocks) 3)) [
  | inl short ↦ rw (try_finalize_short m chain only (ltb→lt _ _ short)) (λ e. cc)
  | inr long ↦
      let (newest, e1) = get_elem?-some chain.blocks (length chain.blocks - 1) (ground arith) in
      let (commit_2, e2) = get_elem?-some chain.blocks (length chain.blocks - 2) (ground arith) in
      let (commit_1, e3) = get_elem?-some chain.blocks (length chain.blocks - 3) (ground arith) in
      rw (try_finalize_long m chain newest commit_2 commit_1 only (ground arith) e1 e2 e3) (
        finalize_if_consecutive_total m chain newest.block commit_2.block commit_1.block
          (All-get_elem? _ chain.blocks _ h.epochs e2) (All-get_elem? _ chain.blocks _ h.epochs e3)
          (ground (arith, HeightsFrom-get_elem? 0 chain.blocks _ h.heights e2)) h.short)
]

-- On an honest chain a commit finalizes all of it, the newest block included.
try_finalize_whole :
    (m : BlockchainManager) (chain : LocalChain) {m' : BlockchainManager}
    → m.notarized_chains ≡ chain ∷ []
    → Honest chain
    → try_finalize m 0 ≡ done m'
    → (m' ≡ m) ⊎ (m' ≡ finalize m chain)
try_finalize_whole m chain only h e = elim (try_finalize_cases m chain only e) [
  | inl same ↦ inl same
  | inr (newest, commit_2, commit_1, three, e1, e2, e3, _, commits) ↦
      let whole : commit_2.block.height + 2 ≡ length chain.blocks =
        omega (arith, HeightsFrom-get_elem? 0 chain.blocks _ h.heights e2) in
      inr (
        commits.1
        ∙ ap (λ n. finalize m (record { blocks = take n chain.blocks })) whole
        ∙ ap (λ (l : List SignedBlock). finalize m (record { blocks = l }))
            (take-length chain.blocks))
]

try_finalize_commits :
    (m : BlockchainManager) (chain : LocalChain) (newest commit_2 commit_1 : SignedBlock)
    → m.notarized_chains ≡ chain ∷ []
    → Honest chain
    → 3 ≤ length chain.blocks
    → get_elem? chain.blocks (length chain.blocks - 1) ≡ some newest
    → get_elem? chain.blocks (length chain.blocks - 2) ≡ some commit_2
    → get_elem? chain.blocks (length chain.blocks - 3) ≡ some commit_1
    → Consecutive newest.block commit_2.block commit_1.block
    → try_finalize m 0 ≡ done (finalize m chain)
try_finalize_commits m chain newest commit_2 commit_1 only h three e1 e2 e3 cons =
    let whole : commit_2.block.height + 2 ≡ length chain.blocks =
      omega (arith, HeightsFrom-get_elem? 0 chain.blocks _ h.heights e2) in
    let small : newest.block.epoch + 1 < u64_limit =
      All-get_elem? (λ (b : SignedBlock). b.block.epoch + 1 < u64_limit) chain.blocks _ h.epochs
        e1 in
    try_finalize_long m chain newest commit_2 commit_1 only three e1 e2 e3
    ∙ finalize_if_consecutive_commits m chain newest.block commit_2.block commit_1.block cons
        (omega (arith, small)) (omega (arith, whole)) h.short
    ∙ ap (λ n. done (finalize m (record { blocks = take n chain.blocks }))) whole
    ∙ ap (λ (l : List SignedBlock). done (finalize m (record { blocks = l })))
        (take-length chain.blocks)

-- What an honest notarized block does to the finalized chain: nothing, or all becomes final.
abbrev pub Progress : BlockchainManager → LocalChain → BlockchainManager → Type 0
Progress m chain m' = (m'.finalized_chain ≡ m.finalized_chain) ⊎ (m'.finalized_chain ≡ chain)

Progress-of :
    (m : BlockchainManager) (chain : LocalChain) {m' : BlockchainManager}
    → (m' ≡ store_chain m 0 chain) ⊎ (m' ≡ finalize (store_chain m 0 chain) chain)
    → Progress m chain m'
unfolding finalize store_chain
Progress-of m chain (inl e) = inl (ap (λ (n : BlockchainManager). n.finalized_chain) e)
Progress-of m chain (inr e) = inr (ap (λ (n : BlockchainManager). n.finalized_chain) e)

-- The case in which the block names the head of the chain.
observe_notarized_grows :
    (m : BlockchainManager) (chain : LocalChain) (block : Block) (signatures : List Bytes)
    (last : SignedBlock)
    → m.notarized_chains ≡ chain ∷ []
    → m.longest_notarized_chain_length ≡ length chain.blocks
    → get_last? chain.blocks ≡ some last
    → bytes_eq last.block.hash block.parent_hash ≡ true
    → Honest (append_block chain block signatures)
    → (m' : BlockchainManager) × (observe_notarized m block signatures ≡ done m')
      × Progress m (append_block chain block signatures) m'
observe_notarized_grows m chain block signatures last only longest e same h =
    let grown : LocalChain = append_block chain block signatures in
    let stored : BlockchainManager = store_chain m 0 grown in
    let holds : stored.notarized_chains ≡ grown ∷ [] = store_chain_only m chain grown only in
    let (m', f) = Outcome-done (try_finalize stored 0) (try_finalize_total stored grown holds h) in
    (
      m',
      observe_notarized_extends m chain block signatures last only longest e same ∙ f,
      Progress-of m grown (try_finalize_whole stored grown holds h f),
    )

-- On a chain whose heights are positions, and with epochs and lengths below 2^64, a notarized
-- block whose height is the length of the notarized chain is handled without a panic. The manager
-- then holds the chain that `extend` describes, which is honest again, and its finalized chain is
-- the old one or the whole notarized chain.
pub observe_notarized-Honest :
    (c : Crypto) (m : BlockchainManager) (chain : LocalChain) (block : Block)
    (signatures : List Bytes)
    → Inv c m chain
    → Honest chain
    → block.height ≡ m.longest_notarized_chain_length
    → block.epoch + 1 < u64_limit
    → length chain.blocks + 1 < u64_limit
    → (m' : BlockchainManager) × (observe_notarized m block signatures ≡ done m')
      × Inv c m' (extend chain block signatures)
      × Honest (extend chain block signatures)
      × Progress m (extend chain block signatures) m'
observe_notarized-Honest c m chain block signatures v h height epoch short =
    let (last, e) = get_last?-some chain.blocks (omega (arith, v.cut_pos, v.cut_le)) in
    elim (Bool-cases (bytes_eq last.block.hash block.parent_hash)) [
      | inl same ↦
          let grown : Honest (append_block chain block signatures) =
            Honest-snoc chain block signatures h (height ∙ v.longest) epoch short in
          let (m', f, p) =
            observe_notarized_grows m chain block signatures last v.only v.longest e same grown in
          (
            m',
            f,
            observe_notarized-Inv c m chain block signatures v f,
            rw (extend_extends chain block signatures last e same) grown,
            rw (extend_extends chain block signatures last e same) p,
          )
      | inr differs ↦
          let stays : observe_notarized m block signatures ≡ done m =
            observe_notarized_ignores m chain block signatures last v.only v.longest e differs in
          (
            m,
            stays,
            observe_notarized-Inv c m chain block signatures v stays,
            rw (extend_ignores chain block signatures last e differs) h,
            inl refl,
          )
    ]

-- The finality rule on a chain whose heights are positions, with epochs and lengths below 2^64: a
-- notarized block of the next height that names the head, and whose epoch follows those of the
-- last two blocks, makes the whole extended chain final, the block itself included.
pub observe_notarized_finalizes :
    (c : Crypto) (m : BlockchainManager) (chain : LocalChain) (block : Block)
    (signatures : List Bytes) (commit_2 commit_1 : SignedBlock)
    → Inv c m chain
    → Honest chain
    → block.height ≡ m.longest_notarized_chain_length
    → block.epoch + 1 < u64_limit
    → length chain.blocks + 1 < u64_limit
    → 2 ≤ length chain.blocks
    → get_elem? chain.blocks (length chain.blocks - 1) ≡ some commit_2
    → get_elem? chain.blocks (length chain.blocks - 2) ≡ some commit_1
    → commit_2.block.hash ≡ block.parent_hash
    → Consecutive block commit_2.block commit_1.block
    → (m' : BlockchainManager) × (observe_notarized m block signatures ≡ done m')
      × (m'.finalized_chain ≡ append_block chain block signatures)
      × (m'.finalized_chain_length ≡ length chain.blocks + 1)
unfolding finalize append_block Chain.length
observe_notarized_finalizes c m chain block signatures commit_2 commit_1 v h height epoch short two
      e2 e1 parent cons =
    let entry : SignedBlock = record { block = block; signatures = signatures } in
    let grown : LocalChain = append_block chain block signatures in
    let longer : length grown.blocks ≡ length chain.blocks + 1 =
      length-append chain.blocks (entry ∷ []) in
    let is_last : get_last? chain.blocks ≡ some commit_2 =
      sym (get_last?-get_elem? chain.blocks (length chain.blocks - 1) (omega arith)) ∙ e2 in
    (
      finalize (store_chain m 0 grown) grown,
      observe_notarized_extends m chain block signatures commit_2 v.only v.longest is_last
            ((bytes_eq_iff commit_2.block.hash block.parent_hash).1 parent)
          ∙ try_finalize_commits (store_chain m 0 grown) grown entry commit_2 commit_1
              (store_chain_only m chain grown v.only)
              (Honest-snoc chain block signatures h (height ∙ v.longest) epoch short)
              (omega (arith, longer))
              (get_elem?-at grown.blocks (omega (arith, longer))
                (get_elem?-snoc chain.blocks entry))
              (get_elem?-at grown.blocks (omega (arith, longer))
                (get_elem?-append_left chain.blocks (entry ∷ []) _ (omega arith) ∙ e2))
              (get_elem?-at grown.blocks (omega (arith, longer))
                (get_elem?-append_left chain.blocks (entry ∷ []) _ (omega arith) ∙ e1))
              cons,
      refl,
      longer,
    )
