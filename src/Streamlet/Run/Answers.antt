-- ===== src/Streamlet/Run/Answers.antt =====
-- The application and a node: a request for a block, and the answer that comes back.
use streamlet_transparency_l.Prelude.{
  ℕ, ◌+◌, ◌<◌, ◌≡◌, ◌≢◌, refl, true, false, some, List, [], ◌∷◌, ◌++◌, arith,
}
use streamlet_transparency_l.Prelude.Outcome.{done, u32_limit, add_u32}
use streamlet_transparency_l.Prelude.Bytes.{Bytes, bytes, starts_with}
use streamlet_transparency_l.Message.{Message, MessagePayload, MessageKind, serialize, deserialize}
use streamlet_transparency_l.Message
use streamlet_transparency_l.Network.{Publication, publish, broadcast_message, broadcast_to_topic}
use streamlet_transparency_l.Network.Peers.{Draws}
use streamlet_transparency_l.App.Interface.{app_name, app_sender_id, app_net_topic, send_to_app}
use streamlet_transparency_l.App.Application.{
  Application, Tcp, has_tag, insert_tag, make_message, make_data, make_latest_block_request, send,
  send_request, handle_user_input, handle_message, request_block, take_block, close_request,
  handle_response, Received,
}
use streamlet_transparency_l.App.Application
use streamlet_transparency_l.App.Application.Laws.{has_tag-remove_tag}
use streamlet_transparency_l.Blockchain.Block.{SignedBlock}
use streamlet_transparency_l.Prelude.Tests.{◌==◌}
use streamlet_transparency_l.Streamlet.Node.{Env, Node}
use streamlet_transparency_l.Streamlet.Handlers.{
  dispatch, handle_app_block_request, app_response, handle_network_input,
}
use streamlet_transparency_l.Streamlet.Run.Requests.{Carries, after_send}

-- The message in which the application asks for the latest block under its next nonce.
abbrev pub block_request : Application → ℕ → Message
block_request app tag = record {
  payload = MessagePayload.none;
  kind = MessageKind.app_block_request;
  nonce = app.curr_nonce + 1;
  tag = tag;
  sender_id = app_sender_id;
  sender_name = app_name;
  signatures = [];
}

asks_block :
    (env : Env) (app : Application) (line payload : Bytes) (tag : ℕ)
    → Carries env
    → starts_with line (bytes "request block") ≡ true
    → app.curr_nonce + 1 < u32_limit
    → handle_user_input env.crypto env.codec env.gossip app line payload tag
      ≡ done (after_send env app (insert_tag tag app.outstanding_requests) (block_request app tag))
unfolding handle_user_input make_latest_block_request make_message Message.new_with_defined_nonce
    broadcast_message send_request send
asks_block env app line payload tag third asks small =
    let nonce : add_u32 app.curr_nonce 1 ≡ done (app.curr_nonce + 1) = ground arith in
    rw (asks, nonce, third.takes) refl

-- A node's answer: its TCP address under the request's tag.
abbrev pub block_answer : Node → Message → Draws → Message
block_answer node request draws = record {
  payload = MessagePayload.socket_addr node.local_addr;
  kind = MessageKind.app_block_response;
  nonce = draws.nonce;
  tag = request.tag;
  sender_id = node.streamlet.id;
  sender_name = node.streamlet.name;
  signatures = [];
}

answers :
    (env : Env) (node : Node) (request : Message) (draws : Draws)
    → Carries env
    → request.kind ≡ MessageKind.app_block_request
    → handle_network_input env node (serialize env.codec request) draws
      ≡ done (record node {
        net_stack = publish node.net_stack (record {
          topic = app_net_topic;
          message = serialize env.codec (block_answer node request draws);
        });
      })
unfolding handle_network_input dispatch deserialize serialize handle_app_block_request app_response
    send_to_app broadcast_to_topic Message.new_with_defined_tag
answers env node request draws third kind =
    let read = third.reads_back request in rw (read, kind, third.takes) refl

has_tag-insert_tag : (tag : ℕ) (tags : List ℕ) → has_tag (insert_tag tag tags) tag ≡ true
unfolding has_tag insert_tag
has_tag-insert_tag tag tags = ground arith

takes_answer :
    (env : Env) (tcp : Tcp) (app : Application) (answer : Message) (addr : Bytes)
    (signed : SignedBlock)
    → Carries env
    → answer.kind ≡ MessageKind.app_block_response
    → answer.payload ≡ MessagePayload.socket_addr addr
    → has_tag app.outstanding_requests answer.tag ≡ true
    → tcp.fetch_block addr ≡ done (some signed)
    → signed.block.epoch ≢ 0
    → tcp.is_directory signed.block.payload ≡ true
    → Application.handle_network_input env.codec tcp app (serialize env.codec answer)
      ≡ done (
          close_request answer.tag
            (record app { received = app.received ++ Received.directory signed ∷ [] }))
unfolding Application.handle_network_input handle_message deserialize serialize handle_response
    request_block take_block
takes_answer env tcp app answer addr signed third kind payload asked fetched old directory =
    let read = third.reads_back answer in
    let late : (signed.block.epoch == 0) ≡ false = ground arith in
    rw (read, asked, kind, payload, fetched, late, directory) refl

-- A request of the application for a block comes round: the application stores the tag that it
-- drew and publishes the request; a node that reads it publishes its TCP address on the
-- application's topic; and the application, if it then fetches from that address a block that is
-- not of epoch 0 and holds a directory, has received that block, and no longer waits for the tag.
pub request_is_answered :
    (env : Env) (tcp : Tcp) (app : Application) (node : Node) (line payload : Bytes) (tag : ℕ)
    (draws : Draws) (signed : SignedBlock)
    → Carries env
    → starts_with line (bytes "request block") ≡ true
    → app.curr_nonce + 1 < u32_limit
    → tcp.fetch_block node.local_addr ≡ done (some signed)
    → signed.block.epoch ≢ 0
    → tcp.is_directory signed.block.payload ≡ true
    → (asked : Application) × (answered : Application) × (node' : Node) × (request : Publication)
      × (answer : Publication) × (handle_user_input env.crypto env.codec env.gossip app line payload
            tag
          ≡ done asked)
      × (asked.net_stack.published ≡ app.net_stack.published ++ request ∷ [])
      × (has_tag asked.outstanding_requests tag ≡ true)
      × (handle_network_input env node request.message draws ≡ done node')
      × (node'.net_stack.published ≡ node.net_stack.published ++ answer ∷ [])
      × (answer.topic ≡ app_net_topic)
      × (Application.handle_network_input env.codec tcp asked answer.message ≡ done answered)
      × (answered.received ≡ app.received ++ Received.directory signed ∷ [])
      × (has_tag answered.outstanding_requests tag ≡ false)
unfolding publish close_request
request_is_answered env tcp app node line payload tag draws signed third asks small fetched old
      directory =
    let asked : Application =
      after_send env app (insert_tag tag app.outstanding_requests) (block_request app tag) in
    let answer = block_answer node (block_request app tag) draws in
    let waits = has_tag-insert_tag tag app.outstanding_requests in
    (
      asked,
      close_request tag
          (record asked { received = app.received ++ Received.directory signed ∷ [] }),
      record node {
        net_stack =
            publish node.net_stack
              (record { topic = app_net_topic; message = serialize env.codec answer });
      },
      record { topic = app.net_stack.topic; message = serialize env.codec (block_request app tag) },
      record { topic = app_net_topic; message = serialize env.codec answer },
      asks_block env app line payload tag third asks small,
      refl,
      waits,
      answers env node (block_request app tag) draws third refl,
      refl,
      refl,
      takes_answer env tcp asked answer node.local_addr signed third refl refl waits fetched old
          directory,
      refl,
      has_tag-remove_tag tag (insert_tag tag app.outstanding_requests),
    )
