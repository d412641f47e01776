-- ===== src/Streamlet/Run/Sends.antt =====
-- What a handler sends and adds to the chain, where gossipsub refuses nothing.
use streamlet_transparency_l.Prelude.{
  ◌+◌, ◌≤◌, ◌<◌, ◌≡◌, refl, sym, subst, ◌∙◌, inl, inr, true, ◌&&◌, some, List, [], ◌∷◌, ◌++◌, arith,
}
use streamlet_transparency_l.Prelude.Tests.{Bool-cases}
use streamlet_transparency_l.Prelude.Lists.{length, length-append}
use streamlet_transparency_l.Prelude.Outcome.{Outcome, done, Outcome-done, u64_limit}
use streamlet_transparency_l.Prelude.Bytes.{Bytes, is_some_of}
use streamlet_transparency_l.Crypto.{Crypto}
use streamlet_transparency_l.Blockchain.Block.{Block}
use streamlet_transparency_l.Blockchain.Chain.{LocalChain, append_block}
use streamlet_transparency_l.Blockchain.Manager.Invariant.{Inv, extend}
use streamlet_transparency_l.Blockchain.Manager.Honest.{Honest, observe_notarized-Honest}
use streamlet_transparency_l.Message.{Message, MessageKind, MessagePayload, serialize}
use streamlet_transparency_l.Network.{Gossip, Publication, broadcast_message}
use streamlet_transparency_l.Streamlet.{is_notarized}
use streamlet_transparency_l.Streamlet.Signatures.{dedup, get_valid_new_signatures}
use streamlet_transparency_l.Streamlet.Node.{Env, Node, broadcast}
use streamlet_transparency_l.Streamlet.Handlers.{
  does_vote, add_if_notarized, cast_vote, vote_or_abstain, echo_vote, has_voted, echo_if_seen,
}
use streamlet_transparency_l.Streamlet.Run.Continues.{manager_of}

-- Gossipsub refuses nothing.
pub record Willing (gossip : Gossip) : Type 0 where
  pub takes : (published : List Publication) (p : Publication) → gossip.publishes published p ≡ true
  pub leaves : (topic : Bytes) → gossip.unsubscribes topic ≡ true

-- The block claims its true height, should it go on top of the chain.
abbrev pub Placed : LocalChain → Block → Type 0
Placed chain block = (block.height ≡ length chain.blocks) × (block.epoch + 1 < u64_limit)

-- The block of a payload, if it has one.
abbrev pub PlacedPayload : LocalChain → MessagePayload → Type 0
PlacedPayload chain (MessagePayload.block block) = Placed chain block
PlacedPayload chain _ = Unit {0}

-- A node that holds one honest notarized chain.
abbrev pub Holding : Crypto → Node → LocalChain → Type 0
Holding c node chain = Inv c (manager_of node) chain × Honest chain

-- The outcome is a node with an honest chain of one block more at most.
abbrev pub Returns : Crypto → LocalChain → Outcome Node → Type 0
Returns c chain o =
    (node' : Node) × (chain' : LocalChain) × (o ≡ done node')
    × Holding c node' chain'
    × (length chain'.blocks ≤ length chain.blocks + 1)

length-extend :
    (chain : LocalChain) (block : Block) (signatures : List Bytes)
    → length (extend chain block signatures).blocks ≤ length chain.blocks + 1
unfolding extend append_block
length-extend chain block signatures =
    ground
      (arith, length-append chain.blocks (record { block = block; signatures = signatures } ∷ []))

module _ (env : Env) (chain : LocalChain) where
  pub same_manager :
      (node node' : Node) (o : Outcome Node)
      → Holding env.crypto node chain
      → o ≡ done node'
      → manager_of node' ≡ manager_of node
      → Returns env.crypto chain o
  same_manager node node' o h e same =
      (node', chain, e, (subst (λ m. Inv env.crypto m chain) (sym same) h.0, h.1), omega arith)

  pub add_if_notarized-Returns :
      (node : Node) (block : Block) (message : Message)
      → Holding env.crypto node chain
      → Placed chain block
      → length chain.blocks + 1 < u64_limit
      → Returns env.crypto chain (add_if_notarized env node block message)
  unfolding add_if_notarized
  add_if_notarized-Returns node block message (v, honest) (height, epoch) room =
      elim (Bool-cases (is_notarized env.crypto env.codec node.streamlet block message)) [
        | inl enough ↦
            let (m', e, v', honest', p) =
              observe_notarized-Honest env.crypto (manager_of node) chain block message.signatures v
                honest (height ∙ sym v.longest) epoch room in
            (
              record node { streamlet = record (node.streamlet) { blockchain_manager = m' } },
              extend chain block message.signatures,
              rw (enough, e) refl,
              (v', honest'),
              length-extend chain block message.signatures,
            )
        | inr few ↦ same_manager node node _ (v, honest) (rw few refl) refl
      ]

  module _ (willing : Willing env.gossip) where
    broadcast_returns :
        (node : Node) (message : Message)
        → (node' : Node) × (broadcast env node message ≡ done node')
          × (manager_of node' ≡ manager_of node)
    unfolding broadcast broadcast_message
    broadcast_returns node message =
        let takes =
          willing.takes node.net_stack.published
            (record { topic = node.net_stack.topic; message = serialize env.codec message }) in
        let (node', e) = Outcome-done (broadcast env node message) (λ h. ground arith) in
        (node', e, ground arith)

    pub vote_or_abstain_returns :
        (node : Node) (block : Block) (message : Message) (signature : Bytes)
        → (node' : Node) × (vote_or_abstain env node block message signature ≡ done node')
          × (manager_of node' ≡ manager_of node)
    unfolding vote_or_abstain cast_vote
    vote_or_abstain_returns node block message signature =
        elim (Bool-cases (does_vote node.streamlet.compromise_type)) [
          | inl votes ↦
              let (sent, e, same) =
                broadcast_returns
                  (record node {
                    streamlet = record (node.streamlet) {
                      seen_block_this_epoch = some block.hash;
                      sigs_on_seen_block_this_epoch =
                          node.streamlet.sigs_on_seen_block_this_epoch ++ message.signatures;
                    };
                  })
                  (record message { kind = MessageKind.vote }) in
              (record sent { vote_this_epoch = some signature }, rw (votes, e) refl, same)
          | inr abstains ↦ (node, rw abstains refl, refl)
        ]

    echo_vote_returns :
        (node : Node) (message : Message) (signatures : List Bytes)
        → (node' : Node) × (echo_vote env node message signatures ≡ done node')
          × (manager_of node' ≡ manager_of node)
    unfolding echo_vote
    echo_vote_returns node message [] = (node, refl, refl)
    echo_vote_returns node message (signature ∷ rest) =
        let sigs = dedup (node.streamlet.sigs_on_seen_block_this_epoch ++ signature ∷ rest) in
        let recorded : Node = record node {
          streamlet = record (node.streamlet) { sigs_on_seen_block_this_epoch = sigs };
        } in
        elim (Bool-cases (does_vote node.streamlet.compromise_type)) [
          | inl votes ↦
              let (sent, e, same) =
                broadcast_returns recorded (record message { signatures = sigs }) in
              (sent, rw votes e, same)
          | inr abstains ↦ (recorded, rw abstains refl, refl)
        ]

    pub echo_if_seen_returns :
        (node : Node) (message : Message) (block : Block)
        → (node' : Node) × (echo_if_seen env node message block ≡ done node')
          × (manager_of node' ≡ manager_of node)
    unfolding echo_if_seen
    echo_if_seen_returns node message block =
        elim (Bool-cases (
          has_voted node.vote_this_epoch
          && is_some_of node.streamlet.seen_block_this_epoch block.hash)) [
            | inl seen ↦ rw seen (
                echo_vote_returns node message (
                  get_valid_new_signatures env.crypto env.codec node.streamlet.public_keys
                    node.streamlet.sigs_on_seen_block_this_epoch message))
            | inr other ↦ rw other (node, refl, refl)
          ]
