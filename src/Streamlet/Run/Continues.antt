-- ===== src/Streamlet/Run/Continues.antt =====
-- A node's chain manager that keeps its notarized chain, or extends it.
use mathlib.Core.List.{append_assoc, append-nil}
use streamlet_transparency_l.Prelude.{ℕ, ◌≡◌, sym, subst, ap, ◌∙◌, List, [], ◌++◌, arith}
use streamlet_transparency_l.Prelude.Outcome.{done}
use streamlet_transparency_l.Prelude.Bytes.{Bytes}
use streamlet_transparency_l.Crypto.{Crypto}
use streamlet_transparency_l.Blockchain.Block.{Block, SignedBlock}
use streamlet_transparency_l.Blockchain.Chain.{LocalChain}
use streamlet_transparency_l.Blockchain.Chain
use streamlet_transparency_l.Blockchain.Manager.{
  BlockchainManager, cleanup_notarized_chains, observe_notarized,
  export_local_finalized_chain_to_file,
}
use streamlet_transparency_l.Blockchain.Manager
use streamlet_transparency_l.Blockchain.Manager.Invariant.{
  Inv, extend, extend-prefix, observe_notarized-Inv,
}
use streamlet_transparency_l.Streamlet.Node.{Node}

-- The manager of a node.
abbrev pub manager_of : Node → BlockchainManager
manager_of node = node.streamlet.blockchain_manager

-- A manager that holds one linked chain goes on to hold one that continues it.
abbrev pub Continues : Crypto → BlockchainManager → BlockchainManager → Type 0
Continues c m m' =
    (chain : LocalChain)
    → Inv c m chain
    → (chain' : LocalChain) × (rest : List SignedBlock) × Inv c m' chain'
      × (chain'.blocks ≡ chain.blocks ++ rest)

module _ (c : Crypto) where
  pub Continues-same : {m m' : BlockchainManager} → m' ≡ m → Continues c m m'
  Continues-same e chain v =
      (chain, [], subst (λ n. Inv c n chain) (sym e) v, sym (append-nil chain.blocks))

  pub Continues-trans :
      {m n o : BlockchainManager} → Continues c m n → Continues c n o → Continues c m o
  Continues-trans f g chain v =
      let (chain1, rest1, v1, e1) = f chain v in
      let (chain2, rest2, v2, e2) = g chain1 v1 in
      (
        chain2,
        rest1 ++ rest2,
        v2,
        e2 ∙ ap (λ l. l ++ rest2) e1 ∙ append_assoc chain.blocks rest1 rest2,
      )

  pub Continues-observed :
      {m m' : BlockchainManager} (block : Block) (signatures : List Bytes)
      → observe_notarized m block signatures ≡ done m'
      → Continues c m m'
  Continues-observed {m} block signatures e chain v =
      let (rest, p) = extend-prefix chain block signatures in
      (extend chain block signatures, rest, observe_notarized-Inv c m chain block signatures v e, p)

  -- Collecting garbage leaves the only chain.
  pub cleanup-Inv :
      (m : BlockchainManager) (chain : LocalChain)
      → Inv c m chain
      → Inv c (cleanup_notarized_chains m) chain
  unfolding cleanup_notarized_chains Chain.length
  cleanup-Inv m chain v = record {
    only = rw (v.only) (ground (arith, v.longest));
    longest = v.longest;
    linked = v.linked;
    rooted = v.rooted;
    cut = v.cut;
    cut_pos = v.cut_pos;
    cut_le = v.cut_le;
    final = v.final;
    final_length = v.final_length;
  }

  pub Continues-head :
      {m m' : BlockchainManager} {last : SignedBlock}
      → Manager.head m ≡ done (m', last)
      → Continues c m m'
  unfolding Manager.head
  Continues-head {m} {m'} e chain v =
      let same : m' ≡ cleanup_notarized_chains m = ground arith in
      (
        chain,
        [],
        subst (λ n. Inv c n chain) (sym same) (cleanup-Inv m chain v),
        sym (append-nil chain.blocks),
      )

  pub Continues-logged :
      {m m' : BlockchainManager} (epoch : ℕ)
      → m' ≡ record m { last_logged_epoch = epoch }
      → Continues c m m'
  Continues-logged {m} epoch e chain v = (
    chain,
    [],
    subst (λ n. Inv c n chain) (sym e)
        (record {
          only = v.only;
          longest = v.longest;
          linked = v.linked;
          rooted = v.rooted;
          cut = v.cut;
          cut_pos = v.cut_pos;
          cut_le = v.cut_le;
          final = v.final;
          final_length = v.final_length;
        }),
    sym (append-nil chain.blocks),
  )
