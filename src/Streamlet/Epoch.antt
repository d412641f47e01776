-- ===== src/Streamlet/Epoch.antt =====
-- lib.rs, `StreamletInstance::run`: the epoch timer, the start of an epoch, the user's commands and
-- the requests over TCP.
use streamlet_transparency_l.Prelude.{
  ℕ, ◌%◌, Bool, true, false, not, ◌&&◌, ◌||◌, Option, none, some, List, [], ◌∷◌, ◌++◌,
}
use streamlet_transparency_l.Prelude.Tests.{◌==◌, if◌then◌else◌}
use streamlet_transparency_l.Prelude.Outcome.{Outcome, done, add_u64, ◌>>=◌}
use streamlet_transparency_l.Prelude.Bytes.{Bytes, bytes, bytes_eq, starts_with}
use streamlet_transparency_l.Blockchain.Block.{Block, SignedBlock}
use streamlet_transparency_l.Blockchain.Block
use streamlet_transparency_l.Blockchain.Manager.{
  BlockchainManager, get_latest_finalized_block, publish_last_finalized_block,
  export_local_finalized_chain_to_file, fetch_local_finalized_chain,
}
use streamlet_transparency_l.Blockchain.Manager
use streamlet_transparency_l.Message.{Message, MessageKind, MessagePayload}
use streamlet_transparency_l.Message
use streamlet_transparency_l.Network.Peers.{Draws, advertise_self, send_end_init}
use streamlet_transparency_l.Streamlet.{
  CompromiseType, StreamletInstance, get_epoch_leader, sign_message,
}
use streamlet_transparency_l.Streamlet.Names.{sort_hash}
use streamlet_transparency_l.Streamlet.Node.{Env, Node, TcpData, broadcast}

abbrev pub publish_rate : ℕ
publish_rate = 10

-- The timer thread: the next epoch, no vote yet, and a signal to the loop. The source sets the epoch
-- and the vote under two locks, one after the other; here both change at once.
unfoldable pub tick : Node → Outcome Node
tick node = add_u64 node.current_epoch 1 >>= λ epoch.
    done (record node { current_epoch = epoch; vote_this_epoch = none; tick_pending = true })

abbrev pub is_non_leader_propose : CompromiseType → Bool
is_non_leader_propose CompromiseType.non_leader_propose = true
is_non_leader_propose _ = false

abbrev pub is_no_propose : CompromiseType → Bool
is_no_propose CompromiseType.no_propose = true
is_no_propose _ = false

-- `leader == &self.name || ... NonLeaderPropose && !(... NoPropose)`, as the operators bind.
unfoldable pub proposes : StreamletInstance → Bytes → Bool
proposes streamlet leader =
    bytes_eq leader streamlet.name
    || is_non_leader_propose streamlet.compromise_type
      && not (is_no_propose streamlet.compromise_type)

-- The epoch that is written into a proposal.
unfoldable pub proposed_epoch : CompromiseType → ℕ → Outcome ℕ
proposed_epoch CompromiseType.early_epoch epoch = done 0
proposed_epoch CompromiseType.late_epoch epoch = add_u64 epoch 50
proposed_epoch _ epoch = done epoch

unfoldable pub proposed_parent : CompromiseType → Bytes → Bytes
proposed_parent CompromiseType.wrong_parent_hash parent_hash = sort_hash parent_hash
proposed_parent _ parent_hash = parent_hash

-- The public file is written only when there is a newer finalized block.
unfoldable pub publish_latest : Node → Outcome Node
publish_latest node = do
  latest ← get_latest_finalized_block node.streamlet.blockchain_manager
  if latest.block.epoch == node.streamlet.epoch_of_last_published_block then done node else (do
    published ← publish_last_finalized_block node.streamlet.blockchain_manager
    done (record node {
      streamlet = record (node.streamlet) { epoch_of_last_published_block = latest.block.epoch };
      public_log = node.public_log ++ published ∷ [];
    }))

-- The local file gets the part of the finalized chain that was not yet written.
unfoldable pub export_log : Node → Outcome Node
export_log node = do
  (manager, unlogged_chain) ← export_local_finalized_chain_to_file node.streamlet.blockchain_manager
  done (record node {
    streamlet = record (node.streamlet) { blockchain_manager = manager };
    local_log = node.local_log ++ unlogged_chain;
  })

-- One more time as leader, with what is written every `publish_rate` epochs or leaderships.
unfoldable pub lead : Node → Outcome Node
unfolding publish_latest export_log
lead node = do
  leader_count ← add_u64 node.streamlet.leader_count 1
  let leading : Node = record node {
    streamlet = record (node.streamlet) { leader_count = leader_count };
  }
  if node.current_epoch % publish_rate == 0 || leader_count % publish_rate == 0
      then (publish_latest leading >>= λ published. export_log published)
      else done leading

-- The proposed block, on a parent with the hash `parent_hash`; `rand` is its nonce.
unfoldable pub make_proposal : Env → Node → Bytes → Bytes → ℕ → ℕ → Outcome Block
unfolding proposed_epoch proposed_parent
make_proposal env node parent_hash payload height rand =
    proposed_epoch node.streamlet.compromise_type node.current_epoch >>= λ epoch. done (
      Block.new env.crypto epoch (proposed_parent node.streamlet.compromise_type parent_hash)
        payload height rand)

-- The signed proposal goes out, and its signature is the node's vote.
unfoldable pub broadcast_signed : Env → Node → Message × Option Bytes → Outcome Node
broadcast_signed env node (signed, none) = done node
broadcast_signed env node (signed, some signature) =
    broadcast env node signed >>= λ sent. done (record sent { vote_this_epoch = some signature })

unfoldable pub send_proposal : Env → Node → Block → Draws → Outcome Node
unfolding broadcast_signed
send_proposal env node proposed_block draws = broadcast_signed env node (
    sign_message env.crypto env.codec node.streamlet (
      Message.new (MessagePayload.block proposed_block) MessageKind.propose node.streamlet.id
        node.streamlet.name draws.nonce draws.tag))

-- A proposal on the head of the longest notarized chain, one block higher.
unfoldable pub propose : Env → Node → Bytes → ℕ → Draws → Outcome Node
unfolding make_proposal send_proposal
propose env node payload rand draws = do
  let height = node.streamlet.blockchain_manager.longest_notarized_chain_length
  (manager, parent) ← Manager.head node.streamlet.blockchain_manager
  let cleaned : Node = record node {
    streamlet = record (node.streamlet) { blockchain_manager = manager };
  }
  proposed_block ← make_proposal env cleaned parent.block.hash payload height rand
  send_proposal env cleaned proposed_block draws

-- `pop_front` on the pending transactions, and a proposal with what it takes.
unfoldable pub propose_pending : Env → Node → List Bytes → ℕ → Draws → Outcome Node
unfolding propose
propose_pending env node [] rand draws = done node
propose_pending env node (payload ∷ pending) rand draws =
    propose env
      (record node { streamlet = record (node.streamlet) { pending_transactions = pending } })
      payload rand draws

-- The node forgets the block and the signatures of the last epoch.
unfoldable pub reset_epoch : Node → Node
reset_epoch node = record node {
  streamlet = record (node.streamlet) {
    seen_block_this_epoch = none;
    sigs_on_seen_block_this_epoch = [];
  };
  tick_pending = false;
}

unfoldable pub handle_epoch_start : Env → Node → ℕ → Draws → Outcome Node
unfolding reset_epoch proposes lead propose_pending
handle_epoch_start env node rand draws = do
  leader ← get_epoch_leader env.crypto (reset_epoch node).streamlet node.current_epoch
  if proposes node.streamlet leader
      then (lead (reset_epoch node) >>= λ led.
          propose_pending env led led.streamlet.pending_transactions rand draws)
      else done (reset_epoch node)

unfoldable pub handle_tcp_request_chain : Node → Node
handle_tcp_request_chain node = record node {
  tcp_data =
      node.tcp_data
      ++ TcpData.chain (fetch_local_finalized_chain node.streamlet.blockchain_manager) ∷ [];
}

unfoldable pub handle_tcp_request_block : Node → Outcome Node
handle_tcp_request_block node =
    get_latest_finalized_block node.streamlet.blockchain_manager >>= λ latest.
    done (record node { tcp_data = node.tcp_data ++ TcpData.block latest ∷ [] })

-- Any of the spellings of a command.
unfoldable pub begins : Bytes → List Bytes → Bool
begins line [] = false
begins line (command ∷ commands) = starts_with line command || begins line commands

unfoldable pub set_compromise : Node → CompromiseType → Node
set_compromise node compromise_type = record node {
  streamlet = record (node.streamlet) { compromise_type = compromise_type };
}

-- The commands that compromise a node, tried in the order of the source; other lines change nothing.
unfoldable pub compromise : Node → Bytes → Node
unfolding set_compromise
compromise node line =
    if begins line (bytes "compromise early-epoch" ∷ bytes "ee" ∷ [])
    then set_compromise node CompromiseType.early_epoch
    else if begins line (bytes "compromise late-epoch" ∷ bytes "le" ∷ [])
    then set_compromise node CompromiseType.late_epoch
    else if begins line (bytes "compromise no-propose" ∷ bytes "np" ∷ [])
    then set_compromise node CompromiseType.no_propose
    else if begins line (bytes "compromise wrong-parent-hash" ∷ bytes "wp" ∷ [])
    then set_compromise node CompromiseType.wrong_parent_hash
    else if begins line (bytes "compromise no-vote" ∷ bytes "nv" ∷ [])
    then set_compromise node CompromiseType.no_vote
    else if begins line (bytes "compromise non-leader-propose" ∷ bytes "nlp" ∷ [])
    then set_compromise node CompromiseType.non_leader_propose
    else if begins line (bytes "no-compromise" ∷ bytes "c" ∷ [])
    then set_compromise node CompromiseType.no_compromise
    else node

abbrev end_commands : List Bytes
end_commands = bytes "end init" ∷ bytes "e i" ∷ bytes "end discovery" ∷ bytes "e d" ∷ []

abbrev print_commands : List Bytes
print_commands = bytes "notarized chains" ∷ bytes "nc" ∷ bytes "finalized chain" ∷ bytes "fc" ∷ []

-- The commands that print a chain change nothing.
unfoldable pub handle_user_input : Env → Node → Bytes → Draws → Draws → Outcome Node
unfolding compromise
handle_user_input env node line draws end_draws =
    let advertised : Node =
      if starts_with line (bytes "init")
      then (record node {
        net_stack = advertise_self env.codec env.gossip node.peers node.net_stack draws;
      })
      else node in
    if begins line end_commands
    then (send_end_init env.codec env.gossip advertised.peers advertised.net_stack end_draws
        >>= λ net. done (record advertised { net_stack = net }))
    else if begins line print_commands
    then done advertised
    else done (compromise advertised line)
