-- ===== src/App/Application.antt =====
-- cs244b_project/src/app/app.rs: the application, which sends data to Streamlet and asks for the
-- finalized block or chain. The random directory that `make_data` sends is an argument, in its
-- serialized form. `received` keeps what the source only logs.
pub mod Laws
pub mod Session
use streamlet_transparency_l.Prelude.{
  ℕ, Bool, true, false, not, ◌||◌, Option, none, some, List, [], ◌∷◌, ◌++◌,
}
use streamlet_transparency_l.Prelude.Tests.{◌==◌, if◌then◌else◌}
use streamlet_transparency_l.Prelude.Lists.{retain}
use streamlet_transparency_l.Prelude.Outcome.{Outcome, done, panic, expect, add_u32, ◌>>=◌}
use streamlet_transparency_l.Prelude.Bytes.{Bytes, bytes, starts_with}
use streamlet_transparency_l.Crypto.{Crypto, Keypair}
use streamlet_transparency_l.Blockchain.Block.{SignedBlock}
use streamlet_transparency_l.Blockchain.Chain.{LocalChain}
use streamlet_transparency_l.Message.{
  Message, MessageKind, MessagePayload, Codec, new_with_defined_nonce, sign_message, serialize,
  deserialize,
}
use streamlet_transparency_l.Network.{Gossip, NetworkStack, broadcast_message}
use streamlet_transparency_l.App.Interface.{app_sender_id, app_name}

-- A request to a node over TCP: `panic` where a call of the source is unwrapped and fails, `none`
-- where the request could not be written.
pub record Tcp : Type 0 where
  pub fetch_block : Bytes → Outcome (Option SignedBlock)
  pub fetch_chain : Bytes → Outcome (Option LocalChain)
  -- The bytes are those of a directory.
  pub is_directory : Bytes → Bool

-- What the application has been given.
pub data Received : Type 0 where
  genesis : Received
  directory : SignedBlock → Received
  chain : LocalChain → Received

pub record Application : Type 0 where
  pub keypair : Keypair
  pub curr_nonce : ℕ
  pub outstanding_requests : List ℕ
  pub net_stack : NetworkStack
  pub received : List Received

unfoldable pub new : Keypair → NetworkStack → Application
new keypair net_stack = record {
  keypair = keypair;
  curr_nonce = 0;
  outstanding_requests = [];
  net_stack = net_stack;
  received = [];
}

-- A `HashSet` of tags.
unfoldable pub has_tag : List ℕ → ℕ → Bool
has_tag [] tag = false
has_tag (t ∷ tags) tag = t == tag || has_tag tags tag

unfoldable pub insert_tag : ℕ → List ℕ → List ℕ
unfolding has_tag
insert_tag tag tags = if has_tag tags tag then tags else tag ∷ tags

unfoldable pub remove_tag : ℕ → List ℕ → List ℕ
remove_tag tag tags = retain (λ t. not (t == tag)) tags

-- The next nonce, and a message under it; `tag` is drawn.
unfoldable pub make_message :
    Application → MessagePayload → MessageKind → ℕ → Outcome (Application × Message)
make_message app payload kind tag = add_u32 app.curr_nonce 1 >>= λ nonce. done (
  record app { curr_nonce = nonce },
  new_with_defined_nonce payload kind nonce app_sender_id app_name tag,
)

unfoldable pub make_data : Crypto → Application → Bytes → ℕ → Outcome (Application × Message)
unfolding make_message
make_data c app payload tag = do
  let sig = c.sign app.keypair.secret payload
  (app', msg) ← make_message app (MessagePayload.app_data payload) MessageKind.app_send tag
  done (app', sign_message msg sig)

unfoldable pub make_latest_block_request : Application → ℕ → Outcome (Application × Message)
unfolding make_message
make_latest_block_request app tag =
    make_message app MessagePayload.none MessageKind.app_block_request tag

unfoldable pub make_latest_chain_request : Application → ℕ → Outcome (Application × Message)
unfolding make_message
make_latest_chain_request app tag =
    make_message app MessagePayload.none MessageKind.app_chain_request tag

unfoldable pub send : Codec → Gossip → Application → Message → Outcome Application
send codec g app msg = broadcast_message g app.net_stack (serialize codec msg) >>= λ net.
    done (record app { net_stack = net })

-- A request is sent after its tag is stored.
unfoldable pub send_request : Codec → Gossip → Application × Message → Outcome Application
unfolding send
send_request codec g (app, msg) =
    send codec g (record app { outstanding_requests = insert_tag msg.tag app.outstanding_requests })
      msg

unfoldable pub handle_user_input :
    Crypto → Codec → Gossip → Application → Bytes → Bytes → ℕ → Outcome Application
unfolding send_request
handle_user_input c codec g app line payload tag =
    if starts_with line (bytes "request block")
    then make_latest_block_request app tag >>= send_request codec g
    else if starts_with line (bytes "request chain")
    then make_latest_chain_request app tag >>= send_request codec g
    else (make_data c app payload tag >>= λ made. send codec g made.0 made.1)

-- Any block but one of epoch 0 must hold a directory.
unfoldable pub take_block : Tcp → Application → Option SignedBlock → Outcome Application
take_block tcp app none = done app
take_block tcp app (some signed) =
    if signed.block.epoch == 0
    then done (record app { received = app.received ++ Received.genesis ∷ [] })
    else if tcp.is_directory signed.block.payload
    then done (record app { received = app.received ++ Received.directory signed ∷ [] })
    else panic

unfoldable pub request_block : Tcp → Application → Bytes → Outcome Application
unfolding take_block
request_block tcp app addr = tcp.fetch_block addr >>= λ answer. take_block tcp app answer

unfoldable pub take_chain : Application → Option LocalChain → Application
take_chain app none = app
take_chain app (some blocks) = record app { received = app.received ++ Received.chain blocks ∷ [] }

unfoldable pub request_chain : Tcp → Application → Bytes → Outcome Application
unfolding take_chain
request_chain tcp app addr = tcp.fetch_chain addr >>= λ answer. done (take_chain app answer)

unfoldable pub close_request : ℕ → Application → Application
unfolding remove_tag
close_request tag app = record app {
  outstanding_requests = remove_tag tag app.outstanding_requests;
}

-- The tag of a block response is removed whatever the payload is, that of a chain response only
-- with an address.
unfoldable pub handle_response :
    Tcp → Application → MessageKind → MessagePayload → ℕ → Outcome Application
unfolding request_block request_chain close_request
handle_response tcp app MessageKind.app_block_response (MessagePayload.socket_addr addr) tag =
    request_block tcp app addr >>= λ app'. done (close_request tag app')
handle_response tcp app MessageKind.app_block_response _ tag = done (close_request tag app)
handle_response tcp app MessageKind.app_chain_response (MessagePayload.socket_addr addr) tag =
    request_chain tcp app addr >>= λ app'. done (close_request tag app')
handle_response tcp app _ _ tag = done app

-- Only answers to outstanding requests are looked at.
unfoldable pub handle_message : Tcp → Application → Message → Outcome Application
unfolding handle_response
handle_message tcp app message =
    if has_tag app.outstanding_requests message.tag
    then handle_response tcp app message.kind message.payload message.tag
    else done app

unfoldable pub handle_network_input : Codec → Tcp → Application → Bytes → Outcome Application
unfolding handle_message
handle_network_input codec tcp app input =
    deserialize codec input >>= λ message. handle_message tcp app message
