-- ===== src/Message.antt =====
-- cs244b_project/src/messages/messages.rs: the messages that nodes and the application exchange,
-- and `PeerAdvertisement` of network/peer_init.rs, which one payload carries. The random numbers
-- that a constructor draws are its last arguments.
use streamlet_transparency_l.Prelude.{ℕ, Bool, List, [], ◌∷◌, ◌++◌, Option}
use streamlet_transparency_l.Prelude.Outcome.{Outcome, expect}
use streamlet_transparency_l.Prelude.Lists.{length}
use streamlet_transparency_l.Prelude.Bytes.{Bytes}
use streamlet_transparency_l.Blockchain.Block.{Block}

-- `timestamp` is a number, and nothing reads it.
pub record PeerAdvertisement : Type 0 where
  pub public_key : Bytes
  pub node_id : ℕ
  pub node_name : Bytes
  pub timestamp : ℕ
  pub end_init : Bool
  pub known_peers : List Bytes

pub data MessagePayload : Type 0 where
  block : Block → MessagePayload
  string : Bytes → MessagePayload
  peer_advertisement : PeerAdvertisement → MessagePayload
  app_data : Bytes → MessagePayload
  socket_addr : Bytes → MessagePayload
  none : MessagePayload

pub data MessageKind : Type 0 where
  vote propose test peer_init : MessageKind
  app_request app_send app_block_request app_block_response : MessageKind
  app_chain_request app_chain_response : MessageKind

pub record Message : Type 0 where
  pub payload : MessagePayload
  pub kind : MessageKind
  pub nonce : ℕ
  pub tag : ℕ
  pub sender_id : ℕ
  pub sender_name : Bytes
  pub signatures : List Bytes

-- `bincode`: the bytes of a payload and of a message, and the message that bytes stand for.
pub record Codec : Type 0 where
  pub payload_bytes : MessagePayload → Bytes
  pub encode : Message → Bytes
  pub decode : Bytes → Option Message

-- `Message::new` draws a nonce and a tag.
unfoldable pub new : MessagePayload → MessageKind → ℕ → Bytes → ℕ → ℕ → Message
new payload kind sender_id sender_name nonce tag = record {
  payload = payload;
  kind = kind;
  nonce = nonce;
  tag = tag;
  sender_id = sender_id;
  sender_name = sender_name;
  signatures = [];
}

unfoldable pub new_with_defined_nonce : MessagePayload → MessageKind → ℕ → ℕ → Bytes → ℕ → Message
new_with_defined_nonce payload kind nonce sender_id sender_name tag = record {
  payload = payload;
  kind = kind;
  nonce = nonce;
  tag = tag;
  sender_id = sender_id;
  sender_name = sender_name;
  signatures = [];
}

unfoldable pub new_with_defined_tag : MessagePayload → MessageKind → ℕ → ℕ → Bytes → ℕ → Message
new_with_defined_tag payload kind tag sender_id sender_name nonce = record {
  payload = payload;
  kind = kind;
  nonce = nonce;
  tag = tag;
  sender_id = sender_id;
  sender_name = sender_name;
  signatures = [];
}

unfoldable pub serialize_payload : Codec → Message → Bytes
serialize_payload codec message = codec.payload_bytes message.payload

unfoldable pub serialize : Codec → Message → Bytes
serialize codec message = codec.encode message

-- Bytes that are no message panic.
unfoldable pub deserialize : Codec → Bytes → Outcome Message
deserialize codec encoded = expect (codec.decode encoded)

unfoldable pub sign_message : Message → Bytes → Message
sign_message message signature = record message {
  signatures = message.signatures ++ signature ∷ [];
}

unfoldable pub signature_count : Message → ℕ
signature_count message = length message.signatures
