-- ===== src/Streamlet/Run/Proposal.antt =====
-- lib.rs, the start of an epoch at its leader: what a node that is not compromised proposes.
use streamlet_transparency_l.Prelude.{ℕ, ◌≡◌, refl, sym, ap, ◌∙◌, true, some, List}
use streamlet_transparency_l.Prelude.Tests.{==_iff}
use streamlet_transparency_l.Prelude.Lists.{length, get_last?}
use streamlet_transparency_l.Prelude.Outcome.{Outcome, done, ◌>>=◌}
use streamlet_transparency_l.Prelude.Bytes.{Bytes}
use streamlet_transparency_l.Crypto.{Crypto}
use streamlet_transparency_l.Blockchain.Block.{Block, SignedBlock}
use streamlet_transparency_l.Blockchain.Block
use streamlet_transparency_l.Blockchain.Chain.{LocalChain}
use streamlet_transparency_l.Blockchain.Chain
use streamlet_transparency_l.Blockchain.Manager.{BlockchainManager, cleanup_notarized_chains}
use streamlet_transparency_l.Blockchain.Manager
use streamlet_transparency_l.Blockchain.Manager.Invariant.{Inv}
use streamlet_transparency_l.Message.{Message, MessageKind, MessagePayload, serialize}
use streamlet_transparency_l.Message
use streamlet_transparency_l.Network.{Publication, broadcast_message, publish}
use streamlet_transparency_l.Network.Peers.{Draws}
use streamlet_transparency_l.Streamlet.{CompromiseType, sign, sign_message}
use streamlet_transparency_l.Streamlet.Node.{Env, Node, broadcast}
use streamlet_transparency_l.Streamlet.Epoch.{
  propose, make_proposal, send_proposal, broadcast_signed, proposed_epoch, proposed_parent,
}
use streamlet_transparency_l.Streamlet.Run.Continues.{manager_of}

-- The only chain is the longest, so that nothing is collected.
head_only :
    (c : Crypto) (m : BlockchainManager) (chain : LocalChain) (last : SignedBlock)
    → Inv c m chain
    → get_last? chain.blocks ≡ some last
    → Manager.head m ≡ done (cleanup_notarized_chains m, last)
unfolding Manager.head Chain.head Chain.length
head_only c m chain last v e =
    let only = v.only in
    let same = (==_iff (length chain.blocks) m.longest_notarized_chain_length).1 (sym v.longest) in
    rw (only, same, e) refl

-- The block that a leader proposes on the block `last` of a chain of length `height`.
abbrev pub proposal_block : Env → Node → SignedBlock → Bytes → ℕ → ℕ → Block
proposal_block env node last payload height rand =
    Block.new env.crypto node.current_epoch last.block.hash payload height rand

-- The proposal of a block, before it is signed.
abbrev pub unsigned_proposal : Node → Block → Draws → Message
unsigned_proposal node block draws =
    Message.new (MessagePayload.block block) MessageKind.propose node.streamlet.id
      node.streamlet.name draws.nonce draws.tag

-- The node's signature on it.
abbrev pub proposal_signature : Env → Node → Block → Bytes
proposal_signature env node block =
    sign env.crypto node.streamlet (env.codec.payload_bytes (MessagePayload.block block))

-- The node that has published its signed proposal of a block, with its signature for a vote, and
-- that has collected the chains that are not the longest.
abbrev pub proposed : Env → Node → Block → Draws → Node
proposed env node block draws = record node {
  streamlet = record (node.streamlet) {
    blockchain_manager = cleanup_notarized_chains (manager_of node);
  };
  net_stack = publish node.net_stack (record {
    topic = node.net_stack.topic;
    message = serialize env.codec (
        Message.sign_message (unsigned_proposal node block draws)
          (proposal_signature env node block));
  });
  vote_this_epoch = some (proposal_signature env node block);
}

send_proposal_publishes :
    (env : Env) (node : Node) (block : Block) (draws : Draws)
    → ((published : List Publication) (p : Publication) → env.gossip.publishes published p ≡ true)
    → send_proposal env node block draws
      ≡ done (record node {
        net_stack = publish node.net_stack (record {
          topic = node.net_stack.topic;
          message = serialize env.codec (
              Message.sign_message
                (unsigned_proposal node block draws)
                (proposal_signature env node block));
        });
        vote_this_epoch = some (proposal_signature env node block);
      })
unfolding send_proposal broadcast_signed sign_message Message.new Message.serialize_payload
    broadcast broadcast_message
send_proposal_publishes env node block draws takes = rw takes refl

make_proposal_honest :
    (env : Env) (node : Node) (parent_hash payload : Bytes) (height rand : ℕ)
    → node.streamlet.compromise_type ≡ CompromiseType.no_compromise
    → make_proposal env node parent_hash payload height rand
      ≡ done (Block.new env.crypto node.current_epoch parent_hash payload height rand)
unfolding make_proposal proposed_epoch proposed_parent
make_proposal_honest env node parent_hash payload height rand honest = rw honest refl

-- A node that is not compromised proposes, where the network takes the message, a block of its
-- epoch that names the hash of the last block of its notarized chain and has the length of that
-- chain as its height. It publishes the proposal with its signature, and that is its vote; but for
-- the collection of chains that are not the longest, nothing else changes.
pub propose_lem :
    (env : Env) (node : Node) (payload : Bytes) (rand : ℕ) (draws : Draws) (chain : LocalChain)
    (last : SignedBlock)
    → Inv env.crypto (manager_of node) chain
    → get_last? chain.blocks ≡ some last
    → node.streamlet.compromise_type ≡ CompromiseType.no_compromise
    → ((published : List Publication) (p : Publication) → env.gossip.publishes published p ≡ true)
    → propose env node payload rand draws
      ≡ done (
          proposed env node (proposal_block env node last payload (length chain.blocks) rand) draws)
unfolding propose sign
propose_lem env node payload rand draws chain last v e honest takes =
    let cleaned : Node = record node {
      streamlet = record (node.streamlet) {
        blockchain_manager = cleanup_notarized_chains (manager_of node);
      };
    } in
    let height = (manager_of node).longest_notarized_chain_length in
    let headed = head_only env.crypto (manager_of node) chain last v e in
    let made = make_proposal_honest env cleaned last.block.hash payload height rand honest in
    let sent =
      send_proposal_publishes env cleaned (proposal_block env node last payload height rand) draws
        takes in
    let step : propose env node payload rand draws ≡ (
        make_proposal env cleaned last.block.hash payload height rand >>= λ block.
        send_proposal env cleaned block draws) =
      ap
        (λ (found : Outcome (BlockchainManager × SignedBlock)). found >>= λ r.
          (make_proposal env
              (record node { streamlet = record (node.streamlet) { blockchain_manager = r.0 } })
              r.1.block.hash payload height rand
            >>= λ block.
                send_proposal env
                  (record node { streamlet = record (node.streamlet) { blockchain_manager = r.0 } })
                  block draws))
        headed in
    step
    ∙ ap (λ (o : Outcome Block). o >>= λ block. send_proposal env cleaned block draws) made
    ∙ sent
    ∙ ap (λ h. done (proposed env node (proposal_block env node last payload h rand) draws))
        v.longest
