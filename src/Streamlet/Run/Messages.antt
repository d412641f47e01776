-- ===== src/Streamlet/Run/Messages.antt =====
-- Every message that the network delivers keeps the node's notarized chain, or extends it.
use streamlet_transparency_l.Prelude.{
  ◌≡◌, sym, subst, ap, ◌∙◌, inl, inr, ◌&&◌, List, [], ◌∷◌, arith,
}
use streamlet_transparency_l.Prelude.Tests.{Bool-cases}
use streamlet_transparency_l.Prelude.Outcome.{done, >>=-eq-done, done-injective}
use streamlet_transparency_l.Prelude.Bytes.{Bytes, is_some_of}
use streamlet_transparency_l.Blockchain.Block.{Block}
use streamlet_transparency_l.Message.{Message, MessageKind, MessagePayload}
use streamlet_transparency_l.Message
use streamlet_transparency_l.Network.Peers.{Draws}
use streamlet_transparency_l.Message.{PeerAdvertisement}
use streamlet_transparency_l.Streamlet.{add_public_key, is_notarized}
use streamlet_transparency_l.Streamlet.Signatures.{get_valid_new_signatures}
use streamlet_transparency_l.Streamlet.Node.{Env, Node, broadcast}
use streamlet_transparency_l.Streamlet.Handlers.{
  add_if_notarized, cast_vote, drop_pending, vote_or_abstain, echo_if_seen, handle_propose,
  echo_vote, handle_vote, handle_peer_init, handle_app_send, handle_app_block_request,
  handle_app_chain_request, dispatch, handle_network_input, does_vote, has_voted,
}
use streamlet_transparency_l.Streamlet.Run.Continues.{
  manager_of, Continues, Continues-same, Continues-trans, Continues-observed,
}
use streamlet_transparency_l.Streamlet.Run.Cases.{handle_propose_cases}

module _ (env : Env) where
  pub broadcast_manager :
      (node : Node) (message : Message) {node' : Node}
      → broadcast env node message ≡ done node'
      → manager_of node' ≡ manager_of node
  unfolding broadcast
  broadcast_manager node message h = ground arith

  add_if_notarized-Continues :
      (node : Node) (block : Block) (message : Message) {node' : Node}
      → add_if_notarized env node block message ≡ done node'
      → Continues env.crypto (manager_of node) (manager_of node')
  unfolding add_if_notarized
  add_if_notarized-Continues node block message {node'} h =
      elim (Bool-cases (is_notarized env.crypto env.codec node.streamlet block message)) [
        | inl notarized ↦ Continues-observed env.crypto block message.signatures (ground arith)
        | inr not_yet ↦ Continues-same env.crypto (ground arith)
      ]

  vote_or_abstain_manager :
      (node : Node) (block : Block) (message : Message) (signature : Bytes) {node' : Node}
      → vote_or_abstain env node block message signature ≡ done node'
      → manager_of node' ≡ manager_of node
  unfolding vote_or_abstain cast_vote broadcast
  vote_or_abstain_manager node block message signature h =
      elim (Bool-cases (does_vote node.streamlet.compromise_type)) [
        | inl votes ↦ ground arith
        | inr abstains ↦ ground arith
      ]

  echo_vote_manager :
      (node : Node) (message : Message) (sigs : List Bytes) {node' : Node}
      → echo_vote env node message sigs ≡ done node'
      → manager_of node' ≡ manager_of node
  unfolding echo_vote broadcast
  echo_vote_manager node message [] h = ground arith
  echo_vote_manager node message (s ∷ rest) h = ground arith

  echo_if_seen_manager :
      (node : Node) (message : Message) (block : Block) {node' : Node}
      → echo_if_seen env node message block ≡ done node'
      → manager_of node' ≡ manager_of node
  unfolding echo_if_seen
  echo_if_seen_manager node message block {node'} h =
      let sigs : List Bytes =
        get_valid_new_signatures env.crypto env.codec node.streamlet.public_keys
          node.streamlet.sigs_on_seen_block_this_epoch message in
      elim (Bool-cases (
        has_voted node.vote_this_epoch
        && is_some_of node.streamlet.seen_block_this_epoch block.hash)) [
          | inl seen ↦
              let e : echo_vote env node message sigs ≡ done node' = ground arith in
              echo_vote_manager node message sigs e
          | inr unseen ↦ ground arith
        ]

  handle_propose-Continues :
      (node : Node) (message : Message) (block : Block) {node' : Node}
      → handle_propose env node message block ≡ done node'
      → Continues env.crypto (manager_of node) (manager_of node')
  unfolding drop_pending
  handle_propose-Continues node message block {node'} h =
      elim (handle_propose_cases env node message block h) [
        | inl same ↦ Continues-same env.crypto (ap manager_of same)
        | inr (new_message, signature, voted, added, _, e1, e2, e3) ↦
            Continues-trans env.crypto
              (Continues-same env.crypto
                (vote_or_abstain_manager node block new_message signature e1))
              (subst (Continues env.crypto (manager_of voted)) (sym (ap manager_of e3))
                (add_if_notarized-Continues voted block message e2))
      ]

  handle_vote-Continues :
      (node : Node) (message : Message) (block : Block) {node' : Node}
      → handle_vote env node message block ≡ done node'
      → Continues env.crypto (manager_of node) (manager_of node')
  unfolding handle_vote
  handle_vote-Continues node message block {node'} h =
      let (echoed, e, f) = >>=-eq-done (echo_if_seen env node message block) _ h in
      Continues-trans env.crypto
        (Continues-same env.crypto (echo_if_seen_manager node message block e))
        (add_if_notarized-Continues echoed block message f)

  handle_peer_init_manager :
      (node : Node) (ad : PeerAdvertisement) (draws : Draws) {node' : Node}
      → handle_peer_init env node ad draws ≡ done node'
      → manager_of node' ≡ manager_of node
  unfolding handle_peer_init add_public_key
  handle_peer_init_manager node ad draws h = ground arith

  handle_app_send_manager :
      (node : Node) (message : Message) (payload : Bytes)
      → manager_of (handle_app_send node message payload) ≡ manager_of node
  unfolding handle_app_send
  handle_app_send_manager node message payload = ground arith

  handle_app_block_request_manager :
      (node : Node) (message : Message) (draws : Draws) {node' : Node}
      → handle_app_block_request env node message draws ≡ done node'
      → manager_of node' ≡ manager_of node
  unfolding handle_app_block_request
  handle_app_block_request_manager node message draws h = ground arith

  handle_app_chain_request_manager :
      (node : Node) (message : Message) (draws : Draws) {node' : Node}
      → handle_app_chain_request env node message draws ≡ done node'
      → manager_of node' ≡ manager_of node
  unfolding handle_app_chain_request
  handle_app_chain_request_manager node message draws h = ground arith

  ignored :
      {node node' : Node}
      → done node ≡ done node'
      → Continues env.crypto (manager_of node) (manager_of node')
  ignored h = Continues-same env.crypto (ap manager_of (sym (done-injective h)))

  dispatch-Continues :
      (node : Node) (message : Message) (kind : MessageKind) (payload : MessagePayload)
      (draws : Draws) {node' : Node}
      → dispatch env node message kind payload draws ≡ done node'
      → Continues env.crypto (manager_of node) (manager_of node')
  unfolding dispatch
  dispatch-Continues node message MessageKind.app_send (MessagePayload.app_data payload) draws h =
      Continues-same env.crypto
        (ap manager_of (sym (done-injective h)) ∙ handle_app_send_manager node message payload)
  dispatch-Continues node message MessageKind.app_block_request payload draws h =
      Continues-same env.crypto (handle_app_block_request_manager node message draws h)
  dispatch-Continues node message MessageKind.app_chain_request payload draws h =
      Continues-same env.crypto (handle_app_chain_request_manager node message draws h)
  dispatch-Continues node message MessageKind.peer_init (MessagePayload.peer_advertisement ad) draws
        h =
      Continues-same env.crypto (handle_peer_init_manager node ad draws h)
  dispatch-Continues node message MessageKind.vote (MessagePayload.block block) draws h =
      handle_vote-Continues node message block h
  dispatch-Continues node message MessageKind.propose (MessagePayload.block block) draws h =
      handle_propose-Continues node message block h
  dispatch-Continues node message _ _ draws h = ignored h

  pub handle_network_input-Continues :
      (node : Node) (encoded : Bytes) (draws : Draws) {node' : Node}
      → handle_network_input env node encoded draws ≡ done node'
      → Continues env.crypto (manager_of node) (manager_of node')
  unfolding handle_network_input
  handle_network_input-Continues node encoded draws h =
      let (message, e, f) = >>=-eq-done (Message.deserialize env.codec encoded) _ h in
      dispatch-Continues node message message.kind message.payload draws f
