-- ===== src/Streamlet/Run/Requests.antt =====
-- The application and a node: data that the application sends.
use streamlet_transparency_l.Prelude.{
  ℕ, ◌+◌, ◌<◌, ◌≡◌, refl, true, false, some, List, [], ◌∷◌, ◌++◌, arith,
}
use streamlet_transparency_l.Prelude.Outcome.{done, u32_limit, add_u32}
use streamlet_transparency_l.Prelude.Bytes.{Bytes, bytes, bytes_eq, starts_with}
use streamlet_transparency_l.Message.{Message, MessagePayload, MessageKind, serialize, deserialize}
use streamlet_transparency_l.Message
use streamlet_transparency_l.Network.{Publication, publish, broadcast_message}
use streamlet_transparency_l.Network.Peers.{Draws}
use streamlet_transparency_l.App.Interface.{app_name, app_sender_id, message_is_from_app}
use streamlet_transparency_l.App.Application.{
  Application, make_message, make_data, send, handle_user_input,
}
use streamlet_transparency_l.Streamlet.Node.{Env, Node}
use streamlet_transparency_l.Streamlet.Handlers.{handle_app_send, handle_network_input}

-- What the third parties promise: `bincode` reads back what it writes, and the network takes every
-- message.
pub record Carries (env : Env) : Type 0 where
  pub reads_back : (m : Message) → env.codec.decode (env.codec.encode m) ≡ some m
  pub takes :
      (published : List Publication) (p : Publication) → env.gossip.publishes published p ≡ true

-- The message in which the application sends data under its next nonce.
abbrev pub data_message : Env → Application → Bytes → ℕ → Message
data_message env app payload tag = record {
  payload = MessagePayload.app_data payload;
  kind = MessageKind.app_send;
  nonce = app.curr_nonce + 1;
  tag = tag;
  sender_id = app_sender_id;
  sender_name = app_name;
  signatures = env.crypto.sign app.keypair.secret payload ∷ [];
}

-- The application after it has sent a message under its next nonce.
abbrev pub after_send : Env → Application → List ℕ → Message → Application
after_send env app requests message = record app {
  curr_nonce = app.curr_nonce + 1;
  outstanding_requests = requests;
  net_stack =
      publish app.net_stack
        (record { topic = app.net_stack.topic; message = serialize env.codec message });
}

sends_data :
    (env : Env) (app : Application) (line payload : Bytes) (tag : ℕ)
    → Carries env
    → starts_with line (bytes "request block") ≡ false
    → starts_with line (bytes "request chain") ≡ false
    → app.curr_nonce + 1 < u32_limit
    → handle_user_input env.crypto env.codec env.gossip app line payload tag
      ≡ done (after_send env app app.outstanding_requests (data_message env app payload tag))
unfolding handle_user_input make_data make_message Message.new_with_defined_nonce
    Message.sign_message broadcast_message send
sends_data env app line payload tag third not_block not_chain small =
    let nonce : add_u32 app.curr_nonce 1 ≡ done (app.curr_nonce + 1) = ground arith in
    rw (not_block, not_chain, nonce, third.takes) refl

-- Data of the application reaches the blocks to be: whatever line that is no request the user
-- enters, the application publishes its data under the next nonce, and a node that reads the
-- message has the data behind its other pending transactions.
pub data_is_pending :
    (env : Env) (app : Application) (node : Node) (line payload : Bytes) (tag : ℕ) (draws : Draws)
    → Carries env
    → starts_with line (bytes "request block") ≡ false
    → starts_with line (bytes "request chain") ≡ false
    → app.curr_nonce + 1 < u32_limit
    → (app' : Application) × (node' : Node) × (packet : Publication) × (handle_user_input env.crypto
          env.codec env.gossip app line payload tag
        ≡ done app')
      × (app'.net_stack.published ≡ app.net_stack.published ++ packet ∷ [])
      × (app'.curr_nonce ≡ app.curr_nonce + 1)
      × (handle_network_input env node packet.message draws ≡ done node')
      × (node'.streamlet.pending_transactions ≡ node.streamlet.pending_transactions ++ payload ∷ [])
unfolding publish handle_network_input deserialize serialize handle_app_send message_is_from_app
    bytes_eq
data_is_pending env app node line payload tag draws third not_block not_chain small =
    let message = data_message env app payload tag in
    let packet : Publication = record {
      topic = app.net_stack.topic;
      message = serialize env.codec message;
    } in
    let read = third.reads_back message in
    (
      after_send env app app.outstanding_requests message,
      handle_app_send node message payload,
      packet,
      sends_data env app line payload tag third not_block not_chain small,
      refl,
      refl,
      rw read refl,
      refl,
    )
