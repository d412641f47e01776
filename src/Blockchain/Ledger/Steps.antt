-- ===== src/Blockchain/Ledger/Steps.antt =====
-- One notarized block at the manager and at the ledger.
use streamlet_transparency_l.Prelude.{
  ℕ, ◌+◌, ◌-◌, ◌<◌, ◌≡◌, refl, sym, subst, ap, ◌∙◌, inl, inr, true, false, some, List, [], ◌∷◌,
  ◌++◌, arith,
}
use streamlet_transparency_l.Prelude.Tests.{Bool-cases, leb}
use streamlet_transparency_l.Prelude.Lists.{
  length, take, get_elem?, get_last?, All, length-append, get_last?-snoc, get_elem?-snoc,
  get_elem?-append_left, get_elem?-at, get_last?-get_elem?,
}
use streamlet_transparency_l.Prelude.Outcome.{Outcome, done, panic, u64_limit}
use streamlet_transparency_l.Prelude.Bytes.{bytes_eq, bytes_eq_iff}
use streamlet_transparency_l.Crypto.{Crypto}
use streamlet_transparency_l.Blockchain.Block.{SignedBlock}
use streamlet_transparency_l.Blockchain.Chain.{LocalChain, append_block}
use streamlet_transparency_l.Blockchain.Manager.{
  BlockchainManager, finalize, finalize_if_consecutive, store_chain, observe_notarized,
}
use streamlet_transparency_l.Blockchain.Manager.Invariant.{
  Inv, extend_extends, observe_notarized_extends, observe_notarized_ignores, store_chain_only,
  observe_notarized-Inv,
}
use streamlet_transparency_l.Blockchain.Manager.Finalize.{
  finalize_if_consecutive_commits, finalize_if_consecutive_panics, try_finalize_short,
}
use streamlet_transparency_l.Blockchain.Manager.Height.{observe_notarized_judges}
use streamlet_transparency_l.Blockchain.Ledger.{
  Ledger, oldest_first, consecutive, settle, observe_on,
}

-- The manager holds the blocks of the ledger in its one chain, and the final ones.
pub record Refines (c : Crypto) (m : BlockchainManager) (l : Ledger) : Type 0 where
  pub chain : LocalChain
  pub holds : Inv c m chain
  pub same : chain.blocks ≡ oldest_first l.blocks
  pub final : m.finalized_chain.blocks ≡ l.final

-- Both return, and the results fit, or both panic.
abbrev pub Agree : Crypto → Outcome BlockchainManager → Outcome Ledger → Type 0
Agree c (done m) (done l) = Refines c m l
Agree c panic panic = Unit {0}
Agree c (done m) panic = ⊥
Agree c panic (done l) = ⊥

abbrev pub Fits : Ledger → ℕ → Type 0
Fits l more =
    All (λ (b : SignedBlock). b.block.epoch + 1 < u64_limit) l.blocks
    × (length l.blocks + more < u64_limit)

length-oldest_first : (xs : List SignedBlock) → length (oldest_first xs) ≡ length xs
length-oldest_first [] = refl
length-oldest_first (x ∷ xs) =
    omega (arith, length-append (oldest_first xs) (x ∷ []), length-oldest_first xs)

-- Epochs that are not consecutive change nothing.
finalize_if_consecutive_keeps :
    (m : BlockchainManager) (chain : LocalChain) (newest before oldest : SignedBlock)
    (rest : List SignedBlock)
    → consecutive newest before (oldest ∷ rest) ≡ false
    → before.block.epoch + 1 < u64_limit
    → oldest.block.epoch + 1 < u64_limit
    → finalize_if_consecutive m chain newest.block before.block oldest.block ≡ done m
unfolding finalize_if_consecutive
finalize_if_consecutive_keeps m chain newest before oldest rest apart e2 e1 = ground arith

Agree-done :
    (c : Crypto) (o : Outcome BlockchainManager) (l : Ledger) {m : BlockchainManager}
    → o ≡ done m
    → Refines c m l
    → Agree c o (done l)
Agree-done c o l e r = subst (λ o. Agree c o (done l)) (sym e) r

module _ (c : Crypto) (m : BlockchainManager) (newest : SignedBlock) where
  -- A block on top, with what has become of the final blocks.
  Refines-extended :
      (chain : LocalChain) (before : SignedBlock) (older final : List SignedBlock)
      {m' : BlockchainManager}
      → Inv c m chain
      → chain.blocks ≡ oldest_first (before ∷ older)
      → bytes_eq before.block.hash newest.block.parent_hash ≡ true
      → observe_notarized m newest.block newest.signatures ≡ done m'
      → m'.finalized_chain.blocks ≡ final
      → Refines c m' (record { blocks = newest ∷ before ∷ older; final = final })
  unfolding append_block
  Refines-extended chain before older final {m'} v same extends h fin =
      let last = ap get_last? same ∙ get_last?-snoc (oldest_first older) before in
      record {
        chain = append_block chain newest.block newest.signatures;
        holds =
            subst (Inv c m')
              (extend_extends chain newest.block newest.signatures before last extends)
              (observe_notarized-Inv c m chain newest.block newest.signatures v h);
        same = ap (λ bs. bs ++ newest ∷ []) same;
        final = fin;
      }

  -- On top of the genesis block alone.
  step_short :
      (chain : LocalChain) (before : SignedBlock) (final : List SignedBlock)
      → Inv c m chain
      → chain.blocks ≡ oldest_first (before ∷ [])
      → m.finalized_chain.blocks ≡ final
      → bytes_eq before.block.hash newest.block.parent_hash ≡ true
      → Agree c
          (observe_notarized m newest.block newest.signatures)
          (settle (newest ∷ before ∷ []) final before false)
  unfolding append_block store_chain
  step_short chain before final v same fin extends =
      let grown : LocalChain = append_block chain newest.block newest.signatures in
      let last = ap get_last? same in
      let h =
        observe_notarized_extends m chain newest.block newest.signatures before v.only v.longest
          last extends
        ∙ try_finalize_short (store_chain m 0 grown) grown (store_chain_only m chain grown v.only)
            (omega (arith, length-append chain.blocks (newest ∷ []), ap length same)) in
      Agree-done c _ _ h (Refines-extended chain before [] final v same extends h fin)

  module _ (chain : LocalChain) (before oldest : SignedBlock) (rest final : List SignedBlock)
      (v : Inv c m chain) (same : chain.blocks ≡ oldest_first (before ∷ oldest ∷ rest))
      (fin : m.finalized_chain.blocks ≡ final)
      (extends : bytes_eq before.block.hash newest.block.parent_hash ≡ true) where
    chain_length : length chain.blocks ≡ length rest + 2
    chain_length = omega (arith, ap length same, length-oldest_first (before ∷ oldest ∷ rest))

    -- The last three blocks are judged.
    judged :
        observe_notarized m newest.block newest.signatures
        ≡ finalize_if_consecutive
            (store_chain m 0 (append_block chain newest.block newest.signatures))
            (append_block chain newest.block newest.signatures)
            newest.block
            before.block
            oldest.block
    judged =
        let long = chain_length in
        let at_last : get_elem? chain.blocks (length chain.blocks - 1) ≡ some before =
          get_last?-get_elem? chain.blocks (length chain.blocks - 1) (omega arith)
          ∙ ap get_last? same
          ∙ get_last?-snoc (oldest_first (oldest ∷ rest)) before in
        let below : length chain.blocks - 2 ≡ length (oldest_first rest) =
          omega (arith, length-oldest_first rest) in
        let at_next : get_elem? chain.blocks (length chain.blocks - 2) ≡ some oldest =
          get_elem?-at chain.blocks below (
            ap (λ bs. get_elem? bs (length (oldest_first rest))) same
            ∙ get_elem?-append_left (oldest_first (oldest ∷ rest)) (before ∷ [])
                (length (oldest_first rest))
                (omega (arith, length-append (oldest_first rest) (oldest ∷ [])))
            ∙ get_elem?-snoc (oldest_first rest) oldest) in
        observe_notarized_judges c m chain newest.block newest.signatures before oldest v
          (omega arith) at_last at_next ((bytes_eq_iff _ _).0 extends)

    step_long :
        Fits (record { blocks = before ∷ oldest ∷ rest; final = final }) 1
        → newest.block.epoch + 1 < u64_limit
        → Agree c (observe_notarized m newest.block newest.signatures) (
            settle
              (newest ∷ before ∷ oldest ∷ rest)
              final
              before
              (consecutive newest before (oldest ∷ rest)))
    unfolding append_block store_chain finalize
    step_long fits small =
        let grown : LocalChain = append_block chain newest.block newest.signatures in
        let long : length grown.blocks ≡ length rest + 3 =
          omega (arith, length-append chain.blocks (newest ∷ []), chain_length) in
        elim (Bool-cases (consecutive newest before (oldest ∷ rest))) [
          | inl cons ↦
              elim (Bool-cases
                (leb (before.block.height + 2) (length (newest ∷ before ∷ oldest ∷ rest)))) [
                  | inl low ↦
                      let h =
                        judged
                        ∙ finalize_if_consecutive_commits (store_chain m 0 grown) grown newest.block
                            before.block oldest.block (ground arith) (omega arith)
                            (ground (arith, long)) (omega (arith, fits.1)) in
                      rw (cons, low)
                        (Agree-done c _ _ h (
                          Refines-extended chain before (oldest ∷ rest) _ v same extends h
                            (ap (λ bs. take (before.block.height + 2) (bs ++ newest ∷ [])) same)))
                  | inr high ↦
                      let h =
                        judged
                        ∙ finalize_if_consecutive_panics (store_chain m 0 grown) grown newest.block
                            before.block oldest.block (ground arith) (ground (arith, long)) in
                      rw (cons, high, h) tt
                ]
          | inr apart ↦
              let h =
                judged
                ∙ finalize_if_consecutive_keeps (store_chain m 0 grown) grown newest before oldest
                    rest apart (omega (arith, fits.0.0)) (omega (arith, fits.0.1.0)) in
              rw apart (
                Agree-done c _ _ h
                  (Refines-extended chain before (oldest ∷ rest) final v same extends h fin))
        ]

module _ (c : Crypto) (m : BlockchainManager) (newest : SignedBlock) (chain : LocalChain)
    (final : List SignedBlock) (v : Inv c m chain) (fin : m.finalized_chain.blocks ≡ final)
    (small : newest.block.epoch + 1 < u64_limit) where
  step_extends :
      (before : SignedBlock) (older : List SignedBlock)
      → chain.blocks ≡ oldest_first (before ∷ older)
      → Fits (record { blocks = before ∷ older; final = final }) 1
      → bytes_eq before.block.hash newest.block.parent_hash ≡ true
      → Agree c
          (observe_notarized m newest.block newest.signatures)
          (settle (newest ∷ before ∷ older) final before (consecutive newest before older))
  step_extends before [] same fits extends =
      step_short c m newest chain before final v same fin extends
  step_extends before (oldest ∷ rest) same fits extends =
      step_long c m newest chain before oldest rest final v same fin extends fits small

  pub step_on :
      (blocks : List SignedBlock)
      → chain.blocks ≡ oldest_first blocks
      → Fits (record { blocks = blocks; final = final }) 1
      → Agree c
          (observe_notarized m newest.block newest.signatures)
          (observe_on blocks final newest)
  unfolding observe_on
  step_on [] same fits = absurd (omega (arith, ap length same, v.cut_pos, v.cut_le))
  step_on (before ∷ older) same fits =
      elim (Bool-cases (bytes_eq before.block.hash newest.block.parent_hash)) [
        | inl extends ↦ rw extends (step_extends before older same fits extends)
        | inr differs ↦
            let last = ap get_last? same ∙ get_last?-snoc (oldest_first older) before in
            rw differs (
              Agree-done c _ _
                (observe_notarized_ignores m chain newest.block newest.signatures before v.only
                  v.longest last differs)
                (record { chain = chain; holds = v; same = same; final = fin }))
      ]
