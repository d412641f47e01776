-- ===== src/Streamlet/Run/Steady.antt =====
-- What the handlers do to a node's key, epoch and vote.
use streamlet_transparency_l.Prelude.{
  ◌≡◌, sym, subst, ap, ◌∙◌, ◌⊎◌, inl, inr, true, false, ◌&&◌, none, some, List, [], ◌∷◌, arith,
}
use streamlet_transparency_l.Prelude.Tests.{Bool-cases}
use streamlet_transparency_l.Prelude.Outcome.{done, >>=-eq-done, done-injective}
use streamlet_transparency_l.Prelude.Bytes.{Bytes, is_some_of}
use streamlet_transparency_l.Blockchain.Block.{Block}
use streamlet_transparency_l.Message.{
  Message, MessageKind, MessagePayload, PeerAdvertisement, serialize_payload,
}
use streamlet_transparency_l.Message
use streamlet_transparency_l.Network.Peers.{Draws}
use streamlet_transparency_l.Streamlet.{add_public_key}
use streamlet_transparency_l.Streamlet.Signatures.{get_valid_new_signatures}
use streamlet_transparency_l.Streamlet.Votes.{should_vote_sound}
use streamlet_transparency_l.Streamlet.Node.{Env, Node, broadcast}
use streamlet_transparency_l.Streamlet.Handlers.{
  add_if_notarized, cast_vote, drop_pending, vote_or_abstain, handle_propose, echo_vote,
  echo_if_seen, handle_vote, handle_peer_init, handle_app_send, handle_app_block_request,
  handle_app_chain_request, dispatch, handle_network_input, does_vote, has_voted,
}
use streamlet_transparency_l.Streamlet.Epoch.{handle_user_input}
use streamlet_transparency_l.Streamlet.Run.Cases.{handle_propose_cases}

-- The node's key and epoch stay, and so does a vote that was cast.
pub record Steady (node node' : Node) : Type 0 where
  pub keypair : node'.streamlet.keypair ≡ node.streamlet.keypair
  pub epoch : node'.current_epoch ≡ node.current_epoch
  pub vote : (node.vote_this_epoch ≡ none) ⊎ (node'.vote_this_epoch ≡ node.vote_this_epoch)

pub Steady-refl : {node node' : Node} → node' ≡ node → Steady node node'
Steady-refl e = record {
  keypair = ap (λ (n : Node). n.streamlet.keypair) e;
  epoch = ap (λ (n : Node). n.current_epoch) e;
  vote = inr (ap (λ (n : Node). n.vote_this_epoch) e);
}

-- The node's key, epoch and vote are untouched.
pub record Untouched (node node' : Node) : Type 0 where
  pub keypair : node'.streamlet.keypair ≡ node.streamlet.keypair
  pub epoch : node'.current_epoch ≡ node.current_epoch
  pub vote : node'.vote_this_epoch ≡ node.vote_this_epoch

pub Untouched-Steady : {node node' : Node} → Untouched node node' → Steady node node'
Untouched-Steady u = record { keypair = u.keypair; epoch = u.epoch; vote = inr u.vote }

pub Untouched-trans : {n m o : Node} → Untouched n m → Untouched m o → Untouched n o
Untouched-trans u w = record {
  keypair = w.keypair ∙ u.keypair;
  epoch = w.epoch ∙ u.epoch;
  vote = w.vote ∙ u.vote;
}

module _ (env : Env) where
  pub add_if_notarized-Untouched :
      (node : Node) (block : Block) (message : Message) {node' : Node}
      → add_if_notarized env node block message ≡ done node'
      → Untouched node node'
  unfolding add_if_notarized
  add_if_notarized-Untouched node block message h = ground arith

  echo_vote-Untouched :
      (node : Node) (message : Message) (sigs : List Bytes) {node' : Node}
      → echo_vote env node message sigs ≡ done node'
      → Untouched node node'
  unfolding echo_vote broadcast
  echo_vote-Untouched node message [] h = ground arith
  echo_vote-Untouched node message (s ∷ rest) h = ground arith

  echo_if_seen-Untouched :
      (node : Node) (message : Message) (block : Block) {node' : Node}
      → echo_if_seen env node message block ≡ done node'
      → Untouched node node'
  unfolding echo_if_seen
  echo_if_seen-Untouched node message block {node'} h =
      let sigs : List Bytes =
        get_valid_new_signatures env.crypto env.codec node.streamlet.public_keys
          node.streamlet.sigs_on_seen_block_this_epoch message in
      elim (Bool-cases (
        has_voted node.vote_this_epoch
        && is_some_of node.streamlet.seen_block_this_epoch block.hash)) [
          | inl seen ↦
              let e : echo_vote env node message sigs ≡ done node' = ground arith in
              echo_vote-Untouched node message sigs e
          | inr unseen ↦ ground arith
        ]

  handle_vote-Untouched :
      (node : Node) (message : Message) (block : Block) {node' : Node}
      → handle_vote env node message block ≡ done node'
      → Untouched node node'
  unfolding handle_vote
  handle_vote-Untouched node message block {node'} h =
      let (echoed, e, f) = >>=-eq-done (echo_if_seen env node message block) _ h in
      Untouched-trans (echo_if_seen-Untouched node message block e)
        (add_if_notarized-Untouched echoed block message f)

  -- A node that votes keeps its key and epoch, and takes the signature for its vote.
  pub vote_or_abstain_sets :
      (node : Node) (block : Block) (message : Message) (signature : Bytes) {node' : Node}
      → vote_or_abstain env node block message signature ≡ done node'
      → (node'.streamlet.keypair ≡ node.streamlet.keypair)
        × (node'.current_epoch ≡ node.current_epoch)
        × ((does_vote node.streamlet.compromise_type ≡ true)
              × (node'.vote_this_epoch ≡ some signature)
            ⊎ (does_vote node.streamlet.compromise_type ≡ false)
              × (node'.vote_this_epoch ≡ node.vote_this_epoch))
  unfolding vote_or_abstain cast_vote broadcast
  vote_or_abstain_sets node block message signature h =
      elim (Bool-cases (does_vote node.streamlet.compromise_type)) [
        | inl votes ↦ ground arith
        | inr abstains ↦ ground arith
      ]

  pub handle_propose-Steady :
      (node : Node) (message : Message) (block : Block) {node' : Node}
      → handle_propose env node message block ≡ done node'
      → Steady node node'
  unfolding drop_pending
  handle_propose-Steady node message block {node'} h =
      elim (handle_propose_cases env node message block h) [
        | inl same ↦ Steady-refl same
        | inr (new_message, signature, voted, added, e0, e1, e2, e3) ↦
            let sound =
              should_vote_sound env.crypto env.codec node.streamlet message node.vote_this_epoch
                node.current_epoch block e0 in
            let sets = vote_or_abstain_sets node block new_message signature e1 in
            let kept = add_if_notarized-Untouched voted block message e2 in
            steady_after node voted added signature block sets kept sound.6 e3
      ]
    where
      steady_after :
          (node voted added : Node) (signature : Bytes) (block : Block) {node' : Node}
          → (voted.streamlet.keypair ≡ node.streamlet.keypair)
            × (voted.current_epoch ≡ node.current_epoch)
            × ((does_vote node.streamlet.compromise_type ≡ true)
                  × (voted.vote_this_epoch ≡ some signature)
                ⊎ (does_vote node.streamlet.compromise_type ≡ false)
                  × (voted.vote_this_epoch ≡ node.vote_this_epoch))
          → Untouched voted added
          → (node.vote_this_epoch ≡ none) ⊎ (node.vote_this_epoch ≡ some signature)
          → node' ≡ drop_pending added block
          → Steady node node'
      steady_after node voted added signature block sets kept may e = ground arith

  handle_peer_init-Untouched :
      (node : Node) (ad : PeerAdvertisement) (draws : Draws) {node' : Node}
      → handle_peer_init env node ad draws ≡ done node'
      → Untouched node node'
  unfolding handle_peer_init add_public_key
  handle_peer_init-Untouched node ad draws h = ground arith

  handle_app_send-Untouched :
      (node : Node) (message : Message) (payload : Bytes)
      → Untouched node (handle_app_send node message payload)
  unfolding handle_app_send
  handle_app_send-Untouched node message payload = ground arith

  handle_app_block_request-Untouched :
      (node : Node) (message : Message) (draws : Draws) {node' : Node}
      → handle_app_block_request env node message draws ≡ done node'
      → Untouched node node'
  unfolding handle_app_block_request
  handle_app_block_request-Untouched node message draws h = ground arith

  handle_app_chain_request-Untouched :
      (node : Node) (message : Message) (draws : Draws) {node' : Node}
      → handle_app_chain_request env node message draws ≡ done node'
      → Untouched node node'
  unfolding handle_app_chain_request
  handle_app_chain_request-Untouched node message draws h = ground arith

  dispatch-Steady :
      (node : Node) (message : Message) (kind : MessageKind) (payload : MessagePayload)
      (draws : Draws) {node' : Node}
      → dispatch env node message kind payload draws ≡ done node'
      → Steady node node'
  unfolding dispatch
  dispatch-Steady node message MessageKind.app_send (MessagePayload.app_data payload) draws h =
      subst (Steady node) (done-injective h)
        (Untouched-Steady (handle_app_send-Untouched node message payload))
  dispatch-Steady node message MessageKind.app_block_request payload draws h =
      Untouched-Steady (handle_app_block_request-Untouched node message draws h)
  dispatch-Steady node message MessageKind.app_chain_request payload draws h =
      Untouched-Steady (handle_app_chain_request-Untouched node message draws h)
  dispatch-Steady node message MessageKind.peer_init (MessagePayload.peer_advertisement ad) draws
        h =
      Untouched-Steady (handle_peer_init-Untouched node ad draws h)
  dispatch-Steady node message MessageKind.vote (MessagePayload.block block) draws h =
      Untouched-Steady (handle_vote-Untouched node message block h)
  dispatch-Steady node message MessageKind.propose (MessagePayload.block block) draws h =
      handle_propose-Steady node message block h
  dispatch-Steady node message _ _ draws h = Steady-refl (sym (done-injective h))

  pub handle_network_input-Steady :
      (node : Node) (encoded : Bytes) (draws : Draws) {node' : Node}
      → handle_network_input env node encoded draws ≡ done node'
      → Steady node node'
  unfolding handle_network_input
  handle_network_input-Steady node encoded draws h =
      let (message, e, f) = >>=-eq-done (Message.deserialize env.codec encoded) _ h in
      dispatch-Steady node message message.kind message.payload draws f

  pub handle_user_input-Untouched :
      (node : Node) (line : Bytes) (draws end_draws : Draws) {node' : Node}
      → handle_user_input env node line draws end_draws ≡ done node'
      → Untouched node node'
  unfolding handle_user_input
  handle_user_input-Untouched node line draws end_draws h = ground arith
