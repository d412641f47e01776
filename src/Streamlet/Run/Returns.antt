-- ===== src/Streamlet/Run/Returns.antt =====
-- A message from the network is handled without a panic where gossipsub refuses nothing, enough
-- names are known, and blocks claim their true heights.
use streamlet_transparency_l.Prelude.{
  ℕ, ◌+◌, ◌≤◌, ◌<◌, ◌≡◌, refl, sym, subst, inl, inr, Option, none, some, arith,
}
use streamlet_transparency_l.Prelude.Tests.{Bool-cases}
use streamlet_transparency_l.Prelude.Lists.{length, get_last?-some}
use streamlet_transparency_l.Prelude.Outcome.{done, Outcome-done, u64_limit}
use streamlet_transparency_l.Prelude.Bytes.{Bytes, bytes_eq}
use streamlet_transparency_l.Blockchain.Block.{Block}
use streamlet_transparency_l.Blockchain.Chain.{LocalChain, append_block}
use streamlet_transparency_l.Blockchain.Chain
use streamlet_transparency_l.Blockchain.Manager.{index_of_ancestor_chain}
use streamlet_transparency_l.Blockchain.Manager.Invariant.{Inv}
use streamlet_transparency_l.Blockchain.Manager.Honest.{Honest}
use streamlet_transparency_l.Message.{
  Message, MessageKind, MessagePayload, PeerAdvertisement, deserialize,
}
use streamlet_transparency_l.Network.{broadcast_to_topic, close_init_channel}
use streamlet_transparency_l.Network.Peers.{Draws, recv_advertisement, end_init}
use streamlet_transparency_l.App.Interface.{send_to_app}
use streamlet_transparency_l.Streamlet.{should_vote, add_public_key, check_from_leader}
use streamlet_transparency_l.Streamlet.Votes.{get_epoch_leader_total}
use streamlet_transparency_l.Streamlet.Node.{Env, Node}
use streamlet_transparency_l.Streamlet.Handlers.{
  drop_pending, act_on_vote, handle_propose, handle_vote, handle_peer_init, handle_app_send,
  handle_app_block_request, handle_app_chain_request, dispatch, handle_network_input,
}
use streamlet_transparency_l.Streamlet.Run.Continues.{manager_of}
use streamlet_transparency_l.Streamlet.Run.Sends.{
  Willing, Placed, PlacedPayload, Holding, Returns, same_manager, add_if_notarized-Returns,
  vote_or_abstain_returns, echo_if_seen_returns,
}

handle_peer_init_keeps :
    (env : Env) (node : Node) (ad : PeerAdvertisement) (draws : Draws) {node' : Node}
    → handle_peer_init env node ad draws ≡ done node'
    → manager_of node' ≡ manager_of node
unfolding handle_peer_init add_public_key
handle_peer_init_keeps env node ad draws {node'} e = ground arith

module _ (env : Env) (chain : LocalChain) (willing : Willing env.gossip) (node : Node)
    (h : Holding env.crypto node chain) (room : length chain.blocks + 1 < u64_limit) where
  handle_vote-Returns :
      (message : Message) (block : Block)
      → Placed chain block
      → Returns env.crypto chain (handle_vote env node message block)
  unfolding handle_vote
  handle_vote-Returns message block placed =
      let (echoed, e, same) = echo_if_seen_returns env chain willing node message block in
      rw e (
        add_if_notarized-Returns env chain echoed block message
          (subst (λ m. Inv env.crypto m chain) (sym same) h.0, h.1) placed room)

  -- The search for an ancestor chain returns.
  index_returns :
      (block : Block)
      → (index : Option ℕ) × (index_of_ancestor_chain (manager_of node) block ≡ done index)
  unfolding index_of_ancestor_chain Chain.head Chain.length
  index_returns block =
      let (last, e) = get_last?-some chain.blocks (omega (arith, h.0.cut_pos, h.0.cut_le)) in
      let only = h.0.only in
      let longest = h.0.longest in
      elim (Bool-cases (bytes_eq last.block.hash block.parent_hash)) [
        | inl extends ↦ (some 0, ground arith)
        | inr differs ↦ (none, ground arith)
      ]

  -- With enough names, the check of a proposal returns.
  should_vote_returns :
      (message : Message) (block : Block)
      → node.streamlet.expected_peer_count + 1 ≤ length node.streamlet.sorted_peer_names
      → (r : Message × Option Bytes) × (should_vote env.crypto env.codec node.streamlet message
            node.vote_this_epoch node.current_epoch block
          ≡ done r)
  unfolding should_vote check_from_leader
  should_vote_returns message block names =
      let (i, leader, e, at, below) =
        get_epoch_leader_total env.crypto node.streamlet node.current_epoch names in
      let (index, found) = index_returns block in
      Outcome-done
        (should_vote env.crypto env.codec node.streamlet message node.vote_this_epoch
          node.current_epoch block)
        (λ p. ground arith)

  act_on_vote-Returns :
      (message new_message : Message) (block : Block) (vote : Option Bytes)
      → Placed chain block
      → Returns env.crypto chain (act_on_vote env node message block new_message vote)
  unfolding act_on_vote drop_pending
  act_on_vote-Returns message new_message block none placed =
      same_manager env chain node node _ h refl refl
  act_on_vote-Returns message new_message block (some signature) placed =
      let (voted, e, same) =
        vote_or_abstain_returns env chain willing node block new_message signature in
      let (added, chain', f, holds, short) =
        add_if_notarized-Returns env chain voted block message
          (subst (λ m. Inv env.crypto m chain) (sym same) h.0, h.1) placed room in
      (drop_pending added block, chain', rw (e, f) refl, holds, short)

  handle_propose-Returns :
      (message : Message) (block : Block)
      → node.streamlet.expected_peer_count + 1 ≤ length node.streamlet.sorted_peer_names
      → Placed chain block
      → Returns env.crypto chain (handle_propose env node message block)
  unfolding handle_propose
  handle_propose-Returns message block names placed =
      let ((new_message, vote), e) = should_vote_returns message block names in
      rw e (act_on_vote-Returns message new_message block vote placed)

  handle_peer_init-Returns :
      (ad : PeerAdvertisement) (draws : Draws)
      → Returns env.crypto chain (handle_peer_init env node ad draws)
  unfolding handle_peer_init recv_advertisement end_init close_init_channel
  handle_peer_init-Returns ad draws =
      let leaves = willing.leaves node.net_stack.init_topic in
      let (node', e) = Outcome-done (handle_peer_init env node ad draws) (λ p. ground arith) in
      same_manager env chain node node' _ h e (handle_peer_init_keeps env node ad draws e)

  handle_app_block_request-Returns :
      (message : Message) (draws : Draws)
      → Returns env.crypto chain (handle_app_block_request env node message draws)
  unfolding handle_app_block_request send_to_app broadcast_to_topic
  handle_app_block_request-Returns message draws =
      rw willing.takes (same_manager env chain node _ _ h refl refl)

  handle_app_chain_request-Returns :
      (message : Message) (draws : Draws)
      → Returns env.crypto chain (handle_app_chain_request env node message draws)
  unfolding handle_app_chain_request broadcast_to_topic
  handle_app_chain_request-Returns message draws =
      rw willing.takes (same_manager env chain node _ _ h refl refl)

  dispatch-Returns :
      (message : Message) (kind : MessageKind) (payload : MessagePayload) (draws : Draws)
      → node.streamlet.expected_peer_count + 1 ≤ length node.streamlet.sorted_peer_names
      → PlacedPayload chain payload
      → Returns env.crypto chain (dispatch env node message kind payload draws)
  unfolding dispatch handle_app_send
  dispatch-Returns message MessageKind.app_send (MessagePayload.app_data payload) draws names
        placed =
      same_manager env chain node (handle_app_send node message payload) _ h refl (ground arith)
  dispatch-Returns message MessageKind.app_block_request payload draws names placed =
      handle_app_block_request-Returns message draws
  dispatch-Returns message MessageKind.app_chain_request payload draws names placed =
      handle_app_chain_request-Returns message draws
  dispatch-Returns message MessageKind.peer_init (MessagePayload.peer_advertisement ad) draws names
        placed =
      handle_peer_init-Returns ad draws
  dispatch-Returns message MessageKind.vote (MessagePayload.block block) draws names placed =
      handle_vote-Returns message block placed
  dispatch-Returns message MessageKind.propose (MessagePayload.block block) draws names placed =
      handle_propose-Returns message block names placed
  dispatch-Returns message _ _ draws names placed = same_manager env chain node node _ h refl refl

-- No message makes a node panic that holds one honest notarized chain, shorter than 2^64 - 1, and
-- knows as many names as nodes are expected, if gossipsub refuses nothing and the block of the
-- message, if it has one, claims the length of the chain for its height and an epoch below
-- 2^64 - 1: handling it returns a node that holds one honest chain again, longer by one at most.
pub handle_network_input_returns :
    (env : Env) (node : Node) (chain : LocalChain) (encoded : Bytes) (message : Message)
    (draws : Draws)
    → Willing env.gossip
    → Inv env.crypto (manager_of node) chain
    → Honest chain
    → length chain.blocks + 1 < u64_limit
    → node.streamlet.expected_peer_count + 1 ≤ length node.streamlet.sorted_peer_names
    → env.codec.decode encoded ≡ some message
    → PlacedPayload chain message.payload
    → (node' : Node) × (chain' : LocalChain) × (handle_network_input env node encoded draws
        ≡ done node')
      × (Inv env.crypto (manager_of node') chain' × Honest chain')
      × (length chain'.blocks ≤ length chain.blocks + 1)
unfolding handle_network_input deserialize
handle_network_input_returns env node chain encoded message draws willing v honest room names read
      placed =
    rw read (
      dispatch-Returns env chain willing node (v, honest) room message message.kind message.payload
        draws names placed)
