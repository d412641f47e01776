-- ===== src/Tests/Sessions.antt =====
-- The application and a node over a network that reads back what it writes.
use streamlet_transparency_l.Prelude.{
  List, ◌+◌, ◌≡◌, refl, true, false, none, some, [], ◌∷◌, ◌++◌, arith,
}
use streamlet_transparency_l.Prelude.Lists.{length}
use streamlet_transparency_l.Prelude.Outcome.{Outcome, done, panic}
use streamlet_transparency_l.Prelude.Bytes.{bytes}
use streamlet_transparency_l.Blockchain.Block.{Block, SignedBlock}
use streamlet_transparency_l.Blockchain.Chain.{LocalChain}
use streamlet_transparency_l.Blockchain.Chain
use streamlet_transparency_l.Message.{Message}
use streamlet_transparency_l.Network.{Publication}
use streamlet_transparency_l.App.Interface.{app_net_topic}
use streamlet_transparency_l.App.Application.{
  Application, Tcp, has_tag, handle_user_input, Received,
}
use streamlet_transparency_l.App.Application
use streamlet_transparency_l.App.Application.Session.{
  AppEventType, run_events, Sent, run_events-Sent,
}
use streamlet_transparency_l.Streamlet.Node.{Node}
use streamlet_transparency_l.Streamlet.Handlers.{handle_network_input}
use streamlet_transparency_l.Message.{MessageKind}
use streamlet_transparency_l.Blockchain.Chain.{append_block}
use streamlet_transparency_l.Tests.Fixtures.{proposal_b, first_block}
use streamlet_transparency_l.Streamlet.Run.Requests.{data_is_pending}
use streamlet_transparency_l.Streamlet.Run.Answers.{request_is_answered}
use streamlet_transparency_l.Tests.Fixtures.{draws, node_a, block_on, open_net}
use streamlet_transparency_l.Tests.Codec.{encode}
use streamlet_transparency_l.Tests.Rounds.{net, carries}

abbrev app : Application
app = record {
  keypair = record { secret = 9 ∷ []; public = 9 ∷ [] };
  curr_nonce = 0;
  outstanding_requests = [];
  net_stack = open_net;
  received = [];
}

data_is_pending_example :
    (app' : Application) × (node' : Node) × (packet : Publication) × (handle_user_input net.crypto
        net.codec net.gossip app
        (bytes "send")
        (bytes "directory")
        5
      ≡ done app')
    × (app'.net_stack.published ≡ app.net_stack.published ++ packet ∷ [])
    × (app'.curr_nonce ≡ app.curr_nonce + 1)
    × (handle_network_input net node_a packet.message draws ≡ done node')
    × (node'.streamlet.pending_transactions
        ≡ node_a.streamlet.pending_transactions ++ bytes "directory" ∷ [])
data_is_pending_example =
    data_is_pending net app node_a (bytes "send") (bytes "directory") 5 draws carries refl refl
      (omega arith)

abbrev answered_block : SignedBlock
answered_block = record { block = block_on (1 ∷ []) 1 1; signatures = [] }

abbrev tcp : Tcp
tcp = record {
  fetch_block = λ addr. done (some answered_block);
  fetch_chain = λ addr. done none;
  is_directory = λ payload. true;
}

request_is_answered_example :
    (asked : Application) × (answered : Application) × (node' : Node) × (request : Publication)
    × (answer : Publication) × (handle_user_input net.crypto net.codec net.gossip app
          (bytes "request block")
          []
          5
        ≡ done asked)
    × (asked.net_stack.published ≡ app.net_stack.published ++ request ∷ [])
    × (has_tag asked.outstanding_requests 5 ≡ true)
    × (handle_network_input net node_a request.message draws ≡ done node')
    × (node'.net_stack.published ≡ node_a.net_stack.published ++ answer ∷ [])
    × (answer.topic ≡ app_net_topic)
    × (Application.handle_network_input net.codec tcp asked answer.message ≡ done answered)
    × (answered.received ≡ app.received ++ Received.directory answered_block ∷ [])
    × (has_tag answered.outstanding_requests 5 ≡ false)
request_is_answered_example =
    request_is_answered net tcp app node_a (bytes "request block") [] 5 draws answered_block carries
      refl (omega arith) refl (omega arith) refl

-- Two lines of the user, and between them a message that the application does not wait for.
abbrev session : List AppEventType
session =
    AppEventType.user_input (bytes "send") (bytes "directory") 5
    ∷ AppEventType.network_input (encode (proposal_b 0 first_block))
    ∷ AppEventType.user_input (bytes "request block") [] 7
    ∷ []

abbrev ended : Outcome Application → Application
ended (done app') = app'
ended panic = app

abbrev session_end : Application
session_end = ended (run_events net.crypto net.codec net.gossip tcp app session)

run_events-Sent_example :
    (messages : List Message) × Sent net.codec app session_end messages × (length messages ≡ 2)
unfolding run_events handle_user_input Application.make_data
    streamlet_transparency_l.Network.broadcast_message Application.handle_network_input
    streamlet_transparency_l.Message.deserialize Chain.genesis_block
    streamlet_transparency_l.Blockchain.Block.new has_tag Application.make_latest_block_request
run_events-Sent_example =
    run_events-Sent net.crypto net.codec net.gossip tcp app session session_end refl
