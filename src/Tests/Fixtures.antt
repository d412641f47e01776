-- ===== src/Tests/Fixtures.antt =====
-- A toy cryptography, in which a hash is its input and a signature is the key before the message;
-- two nodes, `a` and `b`; and the messages that `b` sends in epoch 1, which it leads.
use streamlet_transparency_l.Prelude.{
  ℕ, zero, suc, ◌+◌, true, false, Option, none, some, List, [], ◌∷◌, ◌++◌,
}
use streamlet_transparency_l.Prelude.Bytes.{Bytes, bytes, bytes_eq}
use streamlet_transparency_l.Crypto.{Crypto, Keypair}
use streamlet_transparency_l.Blockchain.Block.{Block}
use streamlet_transparency_l.Blockchain.Chain.{genesis_block}
use streamlet_transparency_l.Blockchain.Manager
use streamlet_transparency_l.Message.{Message, MessageKind, MessagePayload, PeerAdvertisement}
use streamlet_transparency_l.Network.{NetworkStack}
use streamlet_transparency_l.Network.Peers.{Draws, Peers}
use streamlet_transparency_l.Streamlet.Node.{Env, Node}
use streamlet_transparency_l.Streamlet.{StreamletInstance, CompromiseType}

abbrev pub toy_crypto : Crypto
toy_crypto = record {
  sha256 = λ message. message;
  sign = λ secret message. secret ++ message;
  verify = λ pk message signature. bytes_eq (pk ++ message) signature;
  hash_u64 = λ n. n;
}

abbrev pub draws : Draws
draws = record { now = 7; nonce = 8; tag = 9 }

abbrev pub key_a : Keypair
key_a = record { secret = 1 ∷ []; public = 1 ∷ [] }

abbrev pub key_b : Keypair
key_b = record { secret = 2 ∷ []; public = 2 ∷ [] }

abbrev pub advertisement_b : PeerAdvertisement
advertisement_b = record {
  public_key = 2 ∷ [];
  node_id = 0;
  node_name = bytes "b";
  timestamp = 0;
  end_init = false;
  known_peers = bytes "a" ∷ [];
}

-- A block on the head with the given hash.
abbrev pub block_on : Bytes → ℕ → ℕ → Block
block_on parent_hash epoch height = record {
  epoch = epoch;
  hash = (100 + epoch) ∷ [];
  parent_hash = parent_hash;
  payload = bytes "tx";
  height = height;
  nonce = 0;
}

abbrev pub proposal_of : Block → List Bytes → Message
proposal_of block signatures = record {
  payload = MessagePayload.block block;
  kind = MessageKind.propose;
  nonce = 0;
  tag = 0;
  sender_id = 0;
  sender_name = bytes "b";
  signatures = signatures;
}

-- The proposal of `b` in epoch 1, under a nonce that nothing depends on.
abbrev pub proposal_b : ℕ → Block → Message
proposal_b nonce block = record (proposal_of block ((2 ∷ block.hash) ∷ [])) { nonce = nonce }

-- The message that bytes stand for: 1 is the advertisement of `b`, and any higher number its
-- proposal of `first_block`.
abbrev pub toy_decode : Block → Bytes → Option Message
toy_decode first_block [] = none
toy_decode first_block (zero ∷ rest) = none
toy_decode first_block (suc zero ∷ rest) = some (record (proposal_of first_block []) {
  payload = MessagePayload.peer_advertisement advertisement_b;
  kind = MessageKind.peer_init;
})
toy_decode first_block (suc (suc n) ∷ rest) = some (proposal_b n first_block)

abbrev pub toy_payload_bytes : MessagePayload → Bytes
toy_payload_bytes (MessagePayload.block block) = block.hash
toy_payload_bytes _ = []

abbrev pub first_block : Block
first_block = block_on (genesis_block toy_crypto).hash 1 1

abbrev pub env : Env
env = record {
  crypto = toy_crypto;
  codec = record {
    payload_bytes = toy_payload_bytes;
    encode = λ message. toy_payload_bytes message.payload;
    decode = toy_decode first_block;
  };
  gossip = record {
    publishes = λ published publication. true;
    subscribes = λ topic. true;
    unsubscribes = λ topic. true;
  };
}

abbrev pub streamlet_a : StreamletInstance
streamlet_a = record {
  id = 0;
  name = bytes "a";
  expected_peer_count = 3;
  blockchain_manager = Manager.new toy_crypto;
  pending_transactions = bytes "tx" ∷ bytes "other" ∷ [];
  keypair = key_a;
  public_keys =
      (bytes "a", 1 ∷ []) ∷ (bytes "b", 2 ∷ []) ∷ (bytes "c", 3 ∷ []) ∷ (bytes "d", 4 ∷ []) ∷ [];
  sorted_peer_names = bytes "a" ∷ bytes "b" ∷ bytes "c" ∷ bytes "d" ∷ [];
  seen_block_this_epoch = none;
  sigs_on_seen_block_this_epoch = [];
  epoch_of_last_published_block = 0;
  compromise_type = CompromiseType.no_compromise;
  leader_count = 0;
}

abbrev pub peers_of_a : Peers
peers_of_a = record {
  node_name = bytes "a";
  node_id = 0;
  public_key = 1 ∷ [];
  peer_list = [];
  num_expected = 1;
}

abbrev pub open_net : NetworkStack
open_net = record {
  topic = bytes "streamlet";
  init_topic = bytes "init";
  init_open = true;
  subscriptions = bytes "init" ∷ bytes "streamlet" ∷ [];
  published = [];
}

-- The node `a` of four, in epoch 1.
abbrev pub node_a : Node
node_a = record {
  streamlet = streamlet_a;
  current_epoch = 1;
  vote_this_epoch = none;
  timer_started = true;
  tick_pending = false;
  net_stack = open_net;
  peers = peers_of_a;
  local_addr = bytes "localhost";
  tcp_data = [];
  local_log = [];
  public_log = [];
}
