-- ===== src/Streamlet/Run/Quorum.antt =====
-- The vote that completes a quorum.
use streamlet_transparency_l.Prelude.{
  ◌+◌, ◌≤◌, ◌<◌, ◌≡◌, refl, sym, subst, ap, ◌∙◌, inl, inr, true, ◌&&◌, some, List, ◌∷◌, ◌++◌, arith,
}
use streamlet_transparency_l.Prelude.Tests.{Bool-cases}
use streamlet_transparency_l.Prelude.Lists.{length, get_last?}
use streamlet_transparency_l.Prelude.Outcome.{done, Outcome-done, u64_limit}
use streamlet_transparency_l.Prelude.Bytes.{Bytes, bytes_eq_iff, bytes_eq_refl, is_some_of}
use streamlet_transparency_l.Blockchain.Block.{Block, SignedBlock}
use streamlet_transparency_l.Blockchain.Chain.{LocalChain, append_block}
use streamlet_transparency_l.Blockchain.Manager.Invariant.{Inv, extend_extends}
use streamlet_transparency_l.Blockchain.Manager.Honest.{Honest, observe_notarized-Honest}
use streamlet_transparency_l.Message.{Message, MessageKind, MessagePayload, serialize, deserialize}
use streamlet_transparency_l.Network.{broadcast_message}
use streamlet_transparency_l.Network.Peers.{Draws}
use streamlet_transparency_l.Streamlet.{StreamletInstance, threshold, is_notarized}
use streamlet_transparency_l.Streamlet.Signatures.{dedup, get_valid_new_signatures}
use streamlet_transparency_l.Streamlet.Node.{Env, Node, broadcast}
use streamlet_transparency_l.Streamlet.Handlers.{
  does_vote, add_if_notarized, echo_vote, has_voted, echo_if_seen, handle_vote, dispatch,
  handle_network_input,
}
use streamlet_transparency_l.Streamlet.Run.Continues.{manager_of}
use streamlet_transparency_l.Streamlet.Run.Sends.{Willing}

-- A node that has voted for the block in this epoch.
pub record Voted (node : Node) (block : Block) : Type 0 where
  pub vote : Bytes
  pub voted : node.vote_this_epoch ≡ some vote
  pub seen : node.streamlet.seen_block_this_epoch ≡ some block.hash

-- A node that knows more signatures.
abbrev pub knowing : StreamletInstance → List Bytes → StreamletInstance
knowing node signatures = record node { sigs_on_seen_block_this_epoch = signatures }

module _ (env : Env) (willing : Willing env.gossip) where
  broadcast_keeps :
      (node : Node) (message : Message)
      → (node' : Node) × (broadcast env node message ≡ done node')
        × (node'.streamlet ≡ node.streamlet)
  unfolding broadcast broadcast_message
  broadcast_keeps node message =
      let takes =
        willing.takes node.net_stack.published
          (record { topic = node.net_stack.topic; message = serialize env.codec message }) in
      let (node', e) = Outcome-done (broadcast env node message) (λ h. ground arith) in
      (node', e, ground arith)

  -- New signatures are recorded, whether they are echoed or not.
  echo_vote_records :
      (node : Node) (message : Message) (signature : Bytes) (rest : List Bytes)
      → (node' : Node) × (echo_vote env node message (signature ∷ rest) ≡ done node')
        × (node'.streamlet
            ≡ knowing node.streamlet
                (dedup (node.streamlet.sigs_on_seen_block_this_epoch ++ signature ∷ rest)))
  unfolding echo_vote
  echo_vote_records node message signature rest =
      let sigs = dedup (node.streamlet.sigs_on_seen_block_this_epoch ++ signature ∷ rest) in
      let recorded : Node = record node { streamlet = knowing node.streamlet sigs } in
      elim (Bool-cases (does_vote node.streamlet.compromise_type)) [
        | inl votes ↦
            let (sent, e, same) = broadcast_keeps recorded (record message { signatures = sigs }) in
            (sent, rw votes e, same)
        | inr abstains ↦ (recorded, rw abstains refl, refl)
      ]

  echo_if_seen_records :
      (node : Node) (message : Message) (block : Block) (signature : Bytes) (rest : List Bytes)
      → Voted node block
      → get_valid_new_signatures env.crypto env.codec node.streamlet.public_keys
          node.streamlet.sigs_on_seen_block_this_epoch message
        ≡ signature ∷ rest
      → (node' : Node) × (echo_if_seen env node message block ≡ done node')
        × (node'.streamlet
            ≡ knowing node.streamlet
                (dedup (node.streamlet.sigs_on_seen_block_this_epoch ++ signature ∷ rest)))
  unfolding echo_if_seen
  echo_if_seen_records node message block signature rest v fresh =
      let voted = v.voted in
      let seen = v.seen in
      let counts : (has_voted node.vote_this_epoch
            && is_some_of node.streamlet.seen_block_this_epoch block.hash)
          ≡ true =
        ground (arith, bytes_eq_refl block.hash) in
      let (node', e, same) = echo_vote_records node message signature rest in
      (node', rw (counts, fresh) e, same)

  is_notarized_known :
      (s : StreamletInstance) (block : Block) (message : Message)
      → s.seen_block_this_epoch ≡ some block.hash
      → threshold (s.expected_peer_count + 1) ≤ length s.sigs_on_seen_block_this_epoch
      → is_notarized env.crypto env.codec s block message ≡ true
  unfolding is_notarized
  is_notarized_known s block message seen many = ground (arith, bytes_eq_refl block.hash)

  module _ (chain : LocalChain) (block : Block) (last : SignedBlock)
      (head : get_last? chain.blocks ≡ some last) (parent : last.block.hash ≡ block.parent_hash)
      (height : block.height ≡ length chain.blocks) (epoch : block.epoch + 1 < u64_limit)
      (honest : Honest chain) (room : length chain.blocks + 1 < u64_limit) where
    add_if_notarized_appends :
        (node : Node) (message : Message)
        → Inv env.crypto (manager_of node) chain
        → is_notarized env.crypto env.codec node.streamlet block message ≡ true
        → (node' : Node) × (add_if_notarized env node block message ≡ done node')
          × Inv env.crypto (manager_of node') (append_block chain block message.signatures)
    unfolding add_if_notarized
    add_if_notarized_appends node message v enough =
        let (m', e, v', honest', p) =
          observe_notarized-Honest env.crypto (manager_of node) chain block message.signatures v
            honest (height ∙ sym v.longest) epoch room in
        (
          record node { streamlet = record (node.streamlet) { blockchain_manager = m' } },
          rw (enough, e) refl,
          subst (Inv env.crypto m')
              (extend_extends chain block message.signatures last head
                ((bytes_eq_iff last.block.hash block.parent_hash).1 parent))
              v',
        )

    handle_vote_notarizes :
        (node : Node) (message : Message) (signature : Bytes) (rest : List Bytes)
        → Inv env.crypto (manager_of node) chain
        → Voted node block
        → get_valid_new_signatures env.crypto env.codec node.streamlet.public_keys
            node.streamlet.sigs_on_seen_block_this_epoch message
          ≡ signature ∷ rest
        → threshold (node.streamlet.expected_peer_count + 1)
          ≤ length (dedup (node.streamlet.sigs_on_seen_block_this_epoch ++ signature ∷ rest))
        → (node' : Node) × (handle_vote env node message block ≡ done node')
          × Inv env.crypto (manager_of node') (append_block chain block message.signatures)
    unfolding handle_vote
    handle_vote_notarizes node message signature rest v voted fresh many =
        let (echoed, e, same) =
          echo_if_seen_records node message block signature rest voted fresh in
        let enough =
          is_notarized_known
            (knowing node.streamlet
              (dedup (node.streamlet.sigs_on_seen_block_this_epoch ++ signature ∷ rest)))
            block message voted.seen many in
        let (node', f, v') =
          add_if_notarized_appends echoed message
            (subst (λ (s : StreamletInstance). Inv env.crypto s.blockchain_manager chain) (sym same)
              v)
            (subst (λ s. is_notarized env.crypto env.codec s block message ≡ true) (sym same)
              enough) in
        (node', rw e f, v')

dispatch_vote :
    (env : Env) (node : Node) (message : Message) (block : Block) (draws : Draws)
    → message.kind ≡ MessageKind.vote
    → message.payload ≡ MessagePayload.block block
    → dispatch env node message message.kind message.payload draws
      ≡ handle_vote env node message block
unfolding dispatch
dispatch_vote env node message block draws kind payload =
    ap (λ k. dispatch env node message k message.payload draws) kind
    ∙ ap (λ p. dispatch env node message MessageKind.vote p draws) payload

-- The vote that completes a quorum notarizes the block: where gossipsub refuses nothing, a node
-- that holds one honest notarized chain, and has voted in this epoch for a block on its head whose
-- height is the chain's length, reads a vote for that block with signatures that are valid and new
-- to it, so that with those it knew they reach the threshold. The node then holds the chain with
-- the block on top, under the signatures of the message.
pub vote_notarizes :
    (env : Env) (node : Node) (chain : LocalChain) (last : SignedBlock) (block : Block)
    (encoded : Bytes) (message : Message) (draws : Draws) (signature : Bytes) (rest : List Bytes)
    → Willing env.gossip
    → Inv env.crypto (manager_of node) chain
    → Honest chain
    → length chain.blocks + 1 < u64_limit
    → get_last? chain.blocks ≡ some last
    → last.block.hash ≡ block.parent_hash
    → block.height ≡ length chain.blocks
    → block.epoch + 1 < u64_limit
    → Voted node block
    → env.codec.decode encoded ≡ some message
    → message.kind ≡ MessageKind.vote
    → message.payload ≡ MessagePayload.block block
    → get_valid_new_signatures env.crypto env.codec node.streamlet.public_keys
        node.streamlet.sigs_on_seen_block_this_epoch message
      ≡ signature ∷ rest
    → threshold (node.streamlet.expected_peer_count + 1)
      ≤ length (dedup (node.streamlet.sigs_on_seen_block_this_epoch ++ signature ∷ rest))
    → (node' : Node) × (handle_network_input env node encoded draws ≡ done node')
      × Inv env.crypto (manager_of node') (append_block chain block message.signatures)
unfolding handle_network_input deserialize
vote_notarizes env node chain last block encoded message draws signature rest willing v honest room
      head parent height epoch voted read kind payload fresh many =
    let (node', e, v') =
      handle_vote_notarizes env willing chain block last head parent height epoch honest room node
        message signature rest v voted fresh many in
    (node', rw read (dispatch_vote env node message block draws kind payload ∙ e), v')
