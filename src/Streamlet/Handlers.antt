-- ===== src/Streamlet/Handlers.antt =====
-- lib.rs, `StreamletInstance::run`: the handlers of the messages that the network delivers.
use streamlet_transparency_l.Prelude.{
  Bool, true, false, not, ◌&&◌, ◌||◌, Option, none, some, List, [], ◌∷◌, ◌++◌,
}
use streamlet_transparency_l.Prelude.Tests.{if◌then◌else◌}
use streamlet_transparency_l.Prelude.Lists.{retain}
use streamlet_transparency_l.Prelude.Outcome.{Outcome, done, ◌>>=◌}
use streamlet_transparency_l.Prelude.Bytes.{Bytes, bytes_eq, is_some_of}
use streamlet_transparency_l.Blockchain.Block.{Block}
use streamlet_transparency_l.Blockchain.Manager.{observe_notarized}
use streamlet_transparency_l.Message.{
  Message, MessageKind, MessagePayload, PeerAdvertisement, serialize, deserialize,
  new_with_defined_tag,
}
use streamlet_transparency_l.Network.{broadcast_to_topic}
use streamlet_transparency_l.Network.Peers.{InitStatus, Draws, recv_advertisement}
use streamlet_transparency_l.App.Interface.{
  message_is_from_app, data_is_valid, send_to_app, app_net_topic,
}
use streamlet_transparency_l.Streamlet.{CompromiseType, add_public_key, is_notarized, should_vote}
use streamlet_transparency_l.Streamlet.Signatures.{get_valid_new_signatures, dedup}
use streamlet_transparency_l.Streamlet.Names.{peer_names}
use streamlet_transparency_l.Streamlet.Node.{Env, Node, broadcast}

-- `self.compromise_type != CompromiseType::NoVote`
abbrev pub does_vote : CompromiseType → Bool
does_vote CompromiseType.no_vote = false
does_vote _ = true

-- A block that the message makes notarized is handed to the manager with the message's signatures.
unfoldable pub add_if_notarized : Env → Node → Block → Message → Outcome Node
add_if_notarized env node block message =
    if is_notarized env.crypto env.codec node.streamlet block message
    then (observe_notarized node.streamlet.blockchain_manager block message.signatures
        >>= λ manager.
            done (record node {
              streamlet = record (node.streamlet) { blockchain_manager = manager };
            }))
    else done node

-- `message` is the proposal with the node's signature.
unfoldable pub cast_vote : Env → Node → Block → Message → Bytes → Outcome Node
cast_vote env node block message signature = do
  sent ←
      broadcast env
        (record node {
          streamlet = record (node.streamlet) {
            seen_block_this_epoch = some block.hash;
            sigs_on_seen_block_this_epoch =
                node.streamlet.sigs_on_seen_block_this_epoch ++ message.signatures;
          };
        })
        (record message { kind = MessageKind.vote })
  done (record sent { vote_this_epoch = some signature })

-- The proposals of a voted block are no longer pending.
unfoldable pub drop_pending : Node → Block → Node
drop_pending node block = record node {
  streamlet = record (node.streamlet) {
    pending_transactions =
        retain (λ x. not (bytes_eq x block.payload)) node.streamlet.pending_transactions;
  };
}

-- A node that is compromised not to vote goes on without a vote.
unfoldable pub vote_or_abstain : Env → Node → Block → Message → Bytes → Outcome Node
vote_or_abstain env node block new_message signature =
    if does_vote node.streamlet.compromise_type
    then cast_vote env node block new_message signature
    else done node

-- What follows `should_vote`; `message` is the proposal as it was received.
unfoldable pub act_on_vote : Env → Node → Message → Block → Message → Option Bytes → Outcome Node
act_on_vote env node message block new_message none = done node
act_on_vote env node message block new_message (some signature) = do
  voted ← vote_or_abstain env node block new_message signature
  added ← add_if_notarized env voted block message
  done (drop_pending added block)

unfoldable pub handle_propose : Env → Node → Message → Block → Outcome Node
unfolding act_on_vote
handle_propose env node message block = do
  (new_message, vote) ←
      should_vote env.crypto env.codec node.streamlet message node.vote_this_epoch
        node.current_epoch block
  act_on_vote env node message block new_message vote

-- The echo of a vote: the signatures that are new to the node are recorded, and the message goes on
-- with all that the node knows.
unfoldable pub echo_vote : Env → Node → Message → List Bytes → Outcome Node
echo_vote env node message [] = done node
echo_vote env node message (signature ∷ rest) =
    let sigs = dedup (node.streamlet.sigs_on_seen_block_this_epoch ++ signature ∷ rest) in
    let recorded : Node = record node {
      streamlet = record (node.streamlet) { sigs_on_seen_block_this_epoch = sigs };
    } in
    if does_vote node.streamlet.compromise_type
    then broadcast env recorded (record message { signatures = sigs })
    else done recorded

-- `vote_this_epoch.is_some()`
abbrev pub has_voted : Option Bytes → Bool
has_voted none = false
has_voted (some vote) = true

-- A vote counts for the echo only if the node has voted, and for the same block.
unfoldable pub echo_if_seen : Env → Node → Message → Block → Outcome Node
echo_if_seen env node message block =
    if has_voted node.vote_this_epoch && is_some_of node.streamlet.seen_block_this_epoch block.hash
    then echo_vote env node message (
        get_valid_new_signatures env.crypto env.codec node.streamlet.public_keys
          node.streamlet.sigs_on_seen_block_this_epoch message)
    else done node

unfoldable pub handle_vote : Env → Node → Message → Block → Outcome Node
handle_vote env node message block = do
  echoed ← echo_if_seen env node message block
  add_if_notarized env echoed block message

-- The timer thread waits for one signal.
abbrev pub starts_timer : InitStatus → Bool
starts_timer InitStatus.done_start_timer = true
starts_timer _ = false

unfoldable pub handle_peer_init : Env → Node → PeerAdvertisement → Draws → Outcome Node
handle_peer_init env node ad draws = do
  let known = add_public_key node.streamlet ad.node_name ad.public_key
  (peers, net, status) ← recv_advertisement env.codec env.gossip node.peers ad node.net_stack draws
  done (record node {
    streamlet = record known { sorted_peer_names = peer_names known.public_keys };
    peers = peers;
    net_stack = net;
    timer_started = node.timer_started || starts_timer status;
  })

unfoldable pub handle_app_send : Node → Message → Bytes → Node
handle_app_send node message payload =
    if message_is_from_app message && data_is_valid message
    then (record node {
      streamlet = record (node.streamlet) {
        pending_transactions = node.streamlet.pending_transactions ++ payload ∷ [];
      };
    })
    else node

-- The answer to a request of the application: the node's TCP address under the request's tag.
unfoldable pub app_response : Env → Node → MessageKind → Message → Draws → Bytes
app_response env node kind message draws = serialize env.codec (
    new_with_defined_tag (MessagePayload.socket_addr node.local_addr) kind message.tag
      node.streamlet.id node.streamlet.name draws.nonce)

unfoldable pub handle_app_block_request : Env → Node → Message → Draws → Outcome Node
unfolding app_response
handle_app_block_request env node message draws = do
  net ←
      send_to_app env.gossip node.net_stack
        (app_response env node MessageKind.app_block_response message draws)
  done (record node { net_stack = net })

unfoldable pub handle_app_chain_request : Env → Node → Message → Draws → Outcome Node
unfolding app_response
handle_app_chain_request env node message draws = do
  net ←
      broadcast_to_topic env.gossip node.net_stack app_net_topic
        (app_response env node MessageKind.app_chain_response message draws)
  done (record node { net_stack = net })

-- The match on the kind of a message, and on its payload where the kind wants one.
unfoldable pub dispatch : Env → Node → Message → MessageKind → MessagePayload → Draws → Outcome Node
dispatch env node message MessageKind.app_send (MessagePayload.app_data payload) draws =
    done (handle_app_send node message payload)
dispatch env node message MessageKind.app_block_request payload draws =
    handle_app_block_request env node message draws
dispatch env node message MessageKind.app_chain_request payload draws =
    handle_app_chain_request env node message draws
dispatch env node message MessageKind.peer_init (MessagePayload.peer_advertisement ad) draws =
    handle_peer_init env node ad draws
dispatch env node message MessageKind.vote (MessagePayload.block block) draws =
    handle_vote env node message block
dispatch env node message MessageKind.propose (MessagePayload.block block) draws =
    handle_propose env node message block
dispatch env node message _ _ draws = done node

unfoldable pub handle_network_input : Env → Node → Bytes → Draws → Outcome Node
unfolding dispatch
handle_network_input env node encoded draws = deserialize env.codec encoded >>= λ message.
    dispatch env node message message.kind message.payload draws
