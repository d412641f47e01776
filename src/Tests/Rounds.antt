-- ===== src/Tests/Rounds.antt =====
-- Rounds between two parties over a network that reads back what it writes.
use streamlet_transparency_l.Prelude.{◌≤◌, ◌+◌, ◌≡◌, refl, some, [], ◌∷◌, ◌++◌, arith}
use streamlet_transparency_l.Prelude.Lists.{length}
use streamlet_transparency_l.Prelude.Outcome.{done}
use streamlet_transparency_l.Prelude.Bytes.{bytes, bytes_eq, bytes_eq_refl}
use streamlet_transparency_l.Blockchain.Block.{Block, SignedBlock}
use streamlet_transparency_l.Blockchain.Chain.{LocalChain}
use streamlet_transparency_l.Blockchain.Chain
use streamlet_transparency_l.Blockchain.Manager.Invariant.{genesis_entry, new-Inv}
use streamlet_transparency_l.Message.{Message}
use streamlet_transparency_l.Network.{Publication}
use streamlet_transparency_l.Streamlet.Node.{Env, Node}
use streamlet_transparency_l.Streamlet.Handlers.{handle_network_input}
use streamlet_transparency_l.Streamlet.Epoch.{propose}
use streamlet_transparency_l.Streamlet.Run.Proposal.{proposal_block, proposal_signature}
use streamlet_transparency_l.Blockchain.Manager.Invariant.{Inv}
use streamlet_transparency_l.Blockchain.Manager.Honest.{Honest}
use streamlet_transparency_l.Streamlet.Run.Continues.{manager_of}
use streamlet_transparency_l.Streamlet.Run.Sends.{Willing}
use streamlet_transparency_l.Streamlet.Run.Returns.{handle_network_input_returns}
use streamlet_transparency_l.Message.{MessageKind}
use streamlet_transparency_l.Blockchain.Chain.{append_block}
use streamlet_transparency_l.Streamlet.Run.Quorum.{vote_notarizes}
use streamlet_transparency_l.Tests.Fixtures.{proposal_of}
use streamlet_transparency_l.Tests.Fixtures.{proposal_b, first_block}
use streamlet_transparency_l.Streamlet.Run.Exchange.{Delivers, Ready, Awaits, proposal_is_voted}
use streamlet_transparency_l.Streamlet.Run.Requests.{Carries}
use streamlet_transparency_l.Tests.Fixtures.{
  toy_crypto, toy_payload_bytes, env, draws, node_a, streamlet_a, key_b,
}
use streamlet_transparency_l.Tests.Codec.{encode, decode, decode-encode}

abbrev pub net : Env
net = record env {
  codec = record { payload_bytes = toy_payload_bytes; encode = encode; decode = decode };
}

delivers : Delivers net key_b
delivers = record {
  reads_back = decode-encode;
  verifies = λ message. bytes_eq_refl (2 ∷ message);
  takes = λ published p. refl;
}

pub carries : Carries net
carries = record { reads_back = decode-encode; takes = λ published p. refl }

-- The leader of epoch 1.
abbrev node_b : Node
node_b = record node_a { streamlet = record streamlet_a { name = bytes "b"; keypair = key_b } }

abbrev genesis_chain : LocalChain
genesis_chain = Chain.new toy_crypto

leader-Ready : Ready net node_b genesis_chain (genesis_entry toy_crypto)
unfolding Chain.new
leader-Ready = record { holds = new-Inv toy_crypto; head = refl; honest = refl }

follower-Ready : Ready net node_a genesis_chain (genesis_entry toy_crypto)
unfolding Chain.new
follower-Ready = record { holds = new-Inv toy_crypto; head = refl; honest = refl }

follower-Awaits : Awaits net node_a node_b
unfolding streamlet_transparency_l.Streamlet.get_epoch_leader bytes_eq
    streamlet_transparency_l.Streamlet.threshold
follower-Awaits = record {
  epoch = refl;
  leads = refl;
  known = refl;
  unset = refl;
  empty = refl;
  high = omega arith;
}

abbrev block_b : Block
block_b =
    proposal_block net node_b (genesis_entry toy_crypto) (bytes "tx") (length genesis_chain.blocks)
      0

proposal_is_voted_example :
    (leader' follower' : Node) × (packet : Publication) × (propose net node_b (bytes "tx") 0 draws
      ≡ done leader')
    × (leader'.net_stack.published ≡ node_b.net_stack.published ++ packet ∷ [])
    × (handle_network_input net node_a packet.message draws ≡ done follower')
    × (leader'.vote_this_epoch ≡ some (proposal_signature net node_b block_b))
    × (follower'.vote_this_epoch ≡ some (proposal_signature net node_a block_b))
    × (follower'.streamlet.seen_block_this_epoch ≡ some block_b.hash)
    × (follower'.streamlet.sigs_on_seen_block_this_epoch
        ≡ proposal_signature net node_b block_b ∷ proposal_signature net node_a block_b ∷ [])
unfolding bytes_eq streamlet_transparency_l.Streamlet.sign
proposal_is_voted_example =
    proposal_is_voted net node_b node_a (bytes "tx") 0 draws draws genesis_chain genesis_chain
      (genesis_entry toy_crypto) (genesis_entry toy_crypto) block_b refl delivers leader-Ready
      follower-Ready follower-Awaits refl refl

willing : Willing env.gossip
willing = record { takes = λ published p. refl; leaves = λ topic. refl }

genesis_Honest : Honest genesis_chain
unfolding Chain.new Chain.genesis_block streamlet_transparency_l.Blockchain.Block.new
genesis_Honest = record { heights = (refl, tt); epochs = (omega arith, tt); short = omega arith }

-- The bytes that stand for the proposal of the first block.
handle_network_input_returns_example :
    (node' : Node) × (chain' : LocalChain) × (handle_network_input env node_a (2 ∷ []) draws
      ≡ done node')
    × (Inv toy_crypto (manager_of node') chain' × Honest chain')
    × (length chain'.blocks ≤ length genesis_chain.blocks + 1)
unfolding Chain.new
handle_network_input_returns_example =
    handle_network_input_returns env node_a genesis_chain (2 ∷ []) (proposal_b 0 first_block) draws
      willing (new-Inv toy_crypto) genesis_Honest (omega arith) (omega arith) refl
      (refl, omega arith)

-- The vote of `c`, which has seen the leader's signature.
abbrev vote_c : Message
vote_c = record (proposal_of first_block ((2 ∷ 101 ∷ []) ∷ (3 ∷ 101 ∷ []) ∷ [])) {
  kind = MessageKind.vote;
}

-- The node `a`, which has voted for the block of `b`.
abbrev voted_a : Node
voted_a = record node_a {
  streamlet = record streamlet_a {
    seen_block_this_epoch = some (101 ∷ []);
    sigs_on_seen_block_this_epoch = (2 ∷ 101 ∷ []) ∷ (1 ∷ 101 ∷ []) ∷ [];
  };
  vote_this_epoch = some (1 ∷ 101 ∷ []);
}

vote_notarizes_example :
    (node' : Node) × (handle_network_input net voted_a (encode vote_c) draws ≡ done node')
    × Inv toy_crypto
        (manager_of node')
        (append_block genesis_chain first_block ((2 ∷ 101 ∷ []) ∷ (3 ∷ 101 ∷ []) ∷ []))
unfolding Chain.new streamlet_transparency_l.Streamlet.Signatures.get_valid_new_signatures bytes_eq
    streamlet_transparency_l.Streamlet.Signatures.verify_signature
    streamlet_transparency_l.Message.serialize_payload streamlet_transparency_l.Streamlet.threshold
    streamlet_transparency_l.Streamlet.Signatures.dedup
vote_notarizes_example =
    vote_notarizes net voted_a genesis_chain (genesis_entry toy_crypto) first_block (encode vote_c)
      vote_c draws (3 ∷ 101 ∷ []) [] willing (new-Inv toy_crypto) genesis_Honest (omega arith) refl
      refl refl (omega arith) (record { vote = 1 ∷ 101 ∷ []; voted = refl; seen = refl })
      (decode-encode vote_c) refl refl refl (omega arith)
