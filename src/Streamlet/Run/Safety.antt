-- ===== src/Streamlet/Run/Safety.antt =====
-- What holds of a node's chains after any sequence of events.
use streamlet_transparency_l.Prelude.{
  ℕ, ◌≡◌, sym, subst, ap, ◌∙◌, ◌⊎◌, inl, inr, ◌<◌, some, List, [], ◌∷◌, arith, refl,
}
use streamlet_transparency_l.Prelude.Tests.{leb, leb→le, Bool-cases}
use streamlet_transparency_l.Prelude.Lists.{length, take, get_elem?, take-append_left, take-take}
use streamlet_transparency_l.Prelude.Outcome.{done}
use streamlet_transparency_l.Prelude.Bytes.{Bytes}
use streamlet_transparency_l.Crypto.{Keypair}
use streamlet_transparency_l.Blockchain.Chain.{LocalChain}
use streamlet_transparency_l.Blockchain.Chain
use streamlet_transparency_l.Blockchain.Chain.Links.{Linked, Linked-take}
use streamlet_transparency_l.Blockchain.Manager.Invariant.{Inv, new-Inv, genesis_entry}
use streamlet_transparency_l.Streamlet.{StreamletInstance}
use streamlet_transparency_l.Streamlet
use streamlet_transparency_l.Streamlet.Node.{Env, Node, start}
use streamlet_transparency_l.Streamlet.Run.Continues.{
  manager_of, Continues, Continues-same, Continues-trans,
}
use streamlet_transparency_l.Streamlet.Run.Loop.{Step-Continues}
use streamlet_transparency_l.Streamlet.Run.{Reach, here, next}

pub Reach-Continues :
    (env : Env) {node node' : Node}
    → Reach env node node'
    → Continues env.crypto (manager_of node) (manager_of node')
Reach-Continues env here = Continues-same env.crypto refl
Reach-Continues env (next reach step) =
    Continues-trans env.crypto (Reach-Continues env reach) (Step-Continues env step)

-- A node as `main` creates it and `run` sets it up.
abbrev pub Starts : Env → Node → Type 0
Starts env node =
    (name : Bytes) × (expected_peer_count : ℕ) × (keypair : Keypair) × (local_addr : Bytes)
    × (rand : ℕ) × (start env (Streamlet.new env.crypto name expected_peer_count keypair) local_addr
          rand
        ≡ done node)

start_manager :
    (env : Env) (streamlet : StreamletInstance) (local_addr : Bytes) (rand : ℕ) {node : Node}
    → start env streamlet local_addr rand ≡ done node
    → manager_of node ≡ streamlet.blockchain_manager
unfolding start
start_manager env streamlet local_addr rand h = ground arith

start-Inv :
    (env : Env) (node : Node)
    → Starts env node
    → Inv env.crypto (manager_of node) (Chain.new env.crypto)
unfolding Streamlet.new
start-Inv env node (name, count, keypair, local_addr, rand, e) =
    subst (λ m. Inv env.crypto m (Chain.new env.crypto))
      (sym (start_manager env (Streamlet.new env.crypto name count keypair) local_addr rand e))
      (new-Inv env.crypto)

-- After any events a node holds exactly one notarized chain. It starts with the genesis block, and
-- each of its blocks names the hash of the block before it; `longest_notarized_chain_length` is its
-- length. The finalized chain is a nonempty initial part of it, itself linked, and
-- `finalized_chain_length` is its length.
pub Reach-Linked :
    (env : Env) (first node : Node)
    → Starts env first
    → Reach env first node
    → (chain : LocalChain) × (cut : ℕ) × ((manager_of node).notarized_chains ≡ chain ∷ [])
      × Linked chain.blocks
      × (get_elem? chain.blocks 0 ≡ some (genesis_entry env.crypto))
      × ((manager_of node).longest_notarized_chain_length ≡ length chain.blocks)
      × (0 < cut)
      × ((manager_of node).finalized_chain.blocks ≡ take cut chain.blocks)
      × Linked (manager_of node).finalized_chain.blocks
      × ((manager_of node).finalized_chain_length ≡ length (manager_of node).finalized_chain.blocks)
Reach-Linked env first node begun reach =
    let (chain, _, v, _) =
      Reach-Continues env reach (Chain.new env.crypto) (start-Inv env first begun) in
    (
      chain,
      v.cut,
      v.only,
      v.linked,
      v.rooted,
      v.longest,
      v.cut_pos,
      v.final,
      subst Linked (sym v.final) (Linked-take v.cut chain.blocks v.linked),
      v.final_length,
    )

-- Two cuts of a list are comparable.
take-comparable {ℓ} :
    {A : Type ℓ} (m n : ℕ) (xs : List A)
    → (take m xs ≡ take m (take n xs)) ⊎ (take n xs ≡ take n (take m xs))
take-comparable m n xs = elim (Bool-cases (leb m n)) [
  | inl le ↦ inl (sym (take-take m n xs (leb→le _ _ le)))
  | inr gt ↦ inr (sym (take-take n m xs (ground arith)))
]

-- The finalized chains that a node holds at two times never conflict, whatever happens in between:
-- one is an initial part of the other.
pub Reach-finalized_comparable :
    (env : Env) (first before after : Node)
    → Starts env first
    → Reach env first before
    → Reach env before after
    → ((k : ℕ) × ((manager_of before).finalized_chain.blocks
          ≡ take k (manager_of after).finalized_chain.blocks))
      ⊎ ((k : ℕ) × ((manager_of after).finalized_chain.blocks
            ≡ take k (manager_of before).finalized_chain.blocks))
Reach-finalized_comparable env first before after begun reach1 reach2 =
    let (chain, _, v, _) =
      Reach-Continues env reach1 (Chain.new env.crypto) (start-Inv env first begun) in
    let (chain', rest, w, e) = Reach-Continues env reach2 chain v in
    let early : (manager_of before).finalized_chain.blocks ≡ take v.cut chain'.blocks =
      v.final ∙ sym (ap (take v.cut) e ∙ take-append_left v.cut chain.blocks rest v.cut_le) in
    elim (take-comparable v.cut w.cut chain'.blocks) [
      | inl p ↦ inl (v.cut, early ∙ p ∙ ap (take v.cut) (sym w.final))
      | inr p ↦ inr (w.cut, w.final ∙ p ∙ ap (take w.cut) (sym early))
    ]
