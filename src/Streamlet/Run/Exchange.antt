-- ===== src/Streamlet/Run/Exchange.antt =====
-- A leader and a follower: the proposal of the one, sent over the network, becomes a vote of the
-- other.
use streamlet_transparency_l.Prelude.{
  ℕ, ◌+◌, ◌≤◌, ◌≡◌, refl, sym, ap, ◌∙◌, true, false, none, some, List, [], ◌∷◌, ◌++◌,
}
use streamlet_transparency_l.Prelude.Lists.{length, get_last?}
use streamlet_transparency_l.Prelude.Outcome.{done}
use streamlet_transparency_l.Prelude.Bytes.{Bytes, lookup, bytes_eq}
use streamlet_transparency_l.Crypto.{Keypair}
use streamlet_transparency_l.Blockchain.Block.{Block, SignedBlock}
use streamlet_transparency_l.Blockchain.Block
use streamlet_transparency_l.Blockchain.Chain.{LocalChain}
use streamlet_transparency_l.Blockchain.Manager.Invariant.{Inv}
use streamlet_transparency_l.Message.{
  Message, MessagePayload, MessageKind, Codec, serialize, deserialize, serialize_payload,
}
use streamlet_transparency_l.Message
use streamlet_transparency_l.Network.{Publication, publish}
use streamlet_transparency_l.Network.Peers.{Draws}
use streamlet_transparency_l.Streamlet.{CompromiseType, sign, threshold, get_epoch_leader}
use streamlet_transparency_l.Streamlet.Signatures.{verify_signature}
use streamlet_transparency_l.Streamlet.Node.{Env, Node}
use streamlet_transparency_l.Streamlet.Handlers.{drop_pending, handle_network_input}
use streamlet_transparency_l.Streamlet.Epoch.{propose}
use streamlet_transparency_l.Streamlet.Run.Continues.{manager_of}
use streamlet_transparency_l.Streamlet.Run.Proposal.{
  proposal_block, unsigned_proposal, proposal_signature, proposed, propose_lem,
}
use streamlet_transparency_l.Streamlet.Run.Follow.{Votable, voted_node, handle_propose_follows}

-- What the third parties promise: `bincode` reads back what it writes, what a key signs its public
-- key verifies, and the network takes every message.
pub record Delivers (env : Env) (keypair : Keypair) : Type 0 where
  pub reads_back : (m : Message) → env.codec.decode (env.codec.encode m) ≡ some m
  pub verifies :
      (bytes : Bytes)
      → env.crypto.verify keypair.public bytes (env.crypto.sign keypair.secret bytes) ≡ true
  pub takes :
      (published : List Publication) (p : Publication) → env.gossip.publishes published p ≡ true

-- A node that holds one notarized chain with this last block, and is not compromised.
pub record Ready (env : Env) (node : Node) (chain : LocalChain) (last : SignedBlock) : Type 0 where
  pub holds : Inv env.crypto (manager_of node) chain
  pub head : get_last? chain.blocks ≡ some last
  pub honest : node.streamlet.compromise_type ≡ CompromiseType.no_compromise

-- A node that takes the other for the leader of its epoch, knows its key, and has not voted.
pub record Awaits (env : Env) (node leader : Node) : Type 0 where
  pub epoch : node.current_epoch ≡ leader.current_epoch
  pub leads :
      get_epoch_leader env.crypto node.streamlet node.current_epoch ≡ done leader.streamlet.name
  pub known :
      lookup leader.streamlet.name node.streamlet.public_keys ≡ some leader.streamlet.keypair.public
  pub unset : node.vote_this_epoch ≡ none
  pub empty : node.streamlet.sigs_on_seen_block_this_epoch ≡ []
  pub high : 3 ≤ threshold (node.streamlet.expected_peer_count + 1)

-- The signed proposal, as the leader sends it.
abbrev pub signed_proposal : Env → Node → Block → Draws → Message
signed_proposal env leader block draws =
    Message.sign_message (unsigned_proposal leader block draws)
      (proposal_signature env leader block)

proposal-Votable :
    (env : Env) (leader follower : Node) (block : Block) (draws : Draws) (chain : LocalChain)
    (last : SignedBlock)
    → Delivers env leader.streamlet.keypair
    → Ready env follower chain last
    → Awaits env follower leader
    → block.epoch ≡ leader.current_epoch
    → last.block.hash ≡ block.parent_hash
    → bytes_eq (proposal_signature env leader block) (proposal_signature env follower block) ≡ false
    → Votable env follower (signed_proposal env leader block draws) block
unfolding Message.sign_message Message.new serialize_payload sign verify_signature
proposal-Votable env leader follower block draws chain last third ready waits epoch parent other =
    record {
      leader = leader.streamlet.name;
      leader_pk = leader.streamlet.keypair.public;
      signature = proposal_signature env leader block;
      chain = chain;
      last = last;
      leads = waits.leads;
      known = waits.known;
      signed = refl;
      valid = third.verifies (env.codec.payload_bytes (MessagePayload.block block));
      epoch = epoch ∙ sym waits.epoch;
      holds = ready.holds;
      head = ready.head;
      parent = parent;
      other = other;
      unset = waits.unset;
      honest = ready.honest;
    }

handle_network_input_follows :
    (env : Env) (leader follower : Node) (block : Block) (draws draws' : Draws) (chain : LocalChain)
    (last : SignedBlock)
    → Delivers env leader.streamlet.keypair
    → Ready env follower chain last
    → Awaits env follower leader
    → block.epoch ≡ leader.current_epoch
    → last.block.hash ≡ block.parent_hash
    → bytes_eq (proposal_signature env leader block) (proposal_signature env follower block) ≡ false
    → handle_network_input env follower
        (serialize env.codec (signed_proposal env leader block draws))
        draws'
      ≡ done (
          drop_pending
            (voted_node env follower (signed_proposal env leader block draws) block)
            block)
unfolding handle_network_input deserialize serialize Message.sign_message Message.new
handle_network_input_follows env leader follower block draws draws' chain last third ready waits
      epoch parent other =
    let read = third.reads_back (signed_proposal env leader block draws) in
    let votes =
      handle_propose_follows env follower (signed_proposal env leader block draws) block
        (proposal-Votable env leader follower block draws chain last third ready waits epoch parent
          other)
        third.takes waits.empty waits.high in
    rw read votes

-- One round of the protocol between two nodes whose notarized chains end in the same block, of
-- which one leads the epoch and the other takes it for the leader, wants three signatures at least
-- for a block, and has not voted yet; their signatures on the block differ. Where the third parties
-- keep their promises, the leader publishes a proposal that the follower reads and votes for. The
-- follower then remembers the block with both signatures, and both nodes' votes are their
-- signatures on it.
pub proposal_is_voted :
    (env : Env) (leader follower : Node) (payload : Bytes) (rand : ℕ) (draws draws' : Draws)
    (chain chain' : LocalChain) (last last' : SignedBlock) (block : Block)
    → block ≡ proposal_block env leader last payload (length chain.blocks) rand
    → Delivers env leader.streamlet.keypair
    → Ready env leader chain last
    → Ready env follower chain' last'
    → Awaits env follower leader
    → last'.block.hash ≡ last.block.hash
    → bytes_eq (proposal_signature env leader block) (proposal_signature env follower block) ≡ false
    → (leader' follower' : Node) × (packet : Publication) × (propose env leader payload rand draws
        ≡ done leader')
      × (leader'.net_stack.published ≡ leader.net_stack.published ++ packet ∷ [])
      × (handle_network_input env follower packet.message draws' ≡ done follower')
      × (leader'.vote_this_epoch ≡ some (proposal_signature env leader block))
      × (follower'.vote_this_epoch ≡ some (proposal_signature env follower block))
      × (follower'.streamlet.seen_block_this_epoch ≡ some block.hash)
      × (follower'.streamlet.sigs_on_seen_block_this_epoch
          ≡ proposal_signature env leader block ∷ proposal_signature env follower block ∷ [])
unfolding drop_pending Message.sign_message Message.new serialize_payload publish Block.new
proposal_is_voted env leader follower payload rand draws draws' chain chain' last last' block made
      third lead follow waits same other =
    let packet : Publication = record {
      topic = leader.net_stack.topic;
      message = serialize env.codec (signed_proposal env leader block draws);
    } in
    (
      proposed env leader block draws,
      drop_pending (voted_node env follower (signed_proposal env leader block draws) block) block,
      packet,
      propose_lem env leader payload rand draws chain last lead.holds lead.head lead.honest
            third.takes
          ∙ ap (λ b. done (proposed env leader b draws)) (sym made),
      refl,
      handle_network_input_follows env leader follower block draws draws' chain' last' third follow
          waits (ap (λ (b : Block). b.epoch) made)
          (same ∙ sym (ap (λ (b : Block). b.parent_hash) made)) other,
      refl,
      refl,
      refl,
      rw (waits.empty) refl,
    )
