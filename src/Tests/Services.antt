-- ===== src/Tests/Services.antt =====
-- Peer discovery, the application and the TCP server at concrete inputs.
use streamlet_transparency_l.Prelude.{
  ◌+◌, ◌≡◌, ◌≢◌, ◌⊎◌, refl, true, false, none, some, [], ◌∷◌, map, arith,
}
use streamlet_transparency_l.Prelude.Bytes.{bytes, bytes_eq, contains_key, lookup}
use streamlet_transparency_l.Prelude.Outcome.{done}
use streamlet_transparency_l.Prelude.Lists.{length}
use streamlet_transparency_l.Message.{Message, MessageKind, MessagePayload}
use streamlet_transparency_l.Network.Peers.{Peers, InitStatus, is_done, permanently_delete_peer}
use streamlet_transparency_l.Network.Peers.Laws.{
  Fits, none_yet, start_timer_once, permanently_delete_peer_lem,
}
use streamlet_transparency_l.App.Application.{Application, handle_message, has_tag}
use streamlet_transparency_l.App.Application
use streamlet_transparency_l.App.Application.Laws.{answered_once}
use streamlet_transparency_l.Streamlet.{is_notarized, get_epoch_leader, sign, CompromiseType}
use streamlet_transparency_l.Streamlet.Tcp.{
  Server, Request, idle, accept, serve, deliver, Step, Reach, here, next,
}
use streamlet_transparency_l.Streamlet.Tcp.Laws.{Reach-answers, unknown_request_wedges}
use streamlet_transparency_l.Tests.Fixtures.{
  env, draws, advertisement_b, first_block, proposal_of, peers_of_a, open_net, key_a,
}

abbrev peers_done : Peers
peers_done = record peers_of_a { peer_list = (bytes "b", 2 ∷ []) ∷ [] }

start_timer_once_example :
    (is_done peers_of_a ≡ false)
    × (is_done peers_done ≡ true)
    × (open_net.init_open ≡ true)
    × (InitStatus.finished ≢ InitStatus.done_start_timer)
unfolding streamlet_transparency_l.Network.Peers.recv_advertisement is_done bytes_eq
    streamlet_transparency_l.Network.init_channel_open
start_timer_once_example =
    start_timer_once env.codec env.gossip peers_of_a peers_done peers_done peers_done
      advertisement_b advertisement_b open_net open_net open_net open_net draws draws
      InitStatus.finished refl none_yet refl

abbrev peers_bc : Peers
peers_bc = record peers_of_a {
  peer_list = (bytes "b", 2 ∷ []) ∷ (bytes "c", 3 ∷ []) ∷ [];
  num_expected = 3;
}

permanently_delete_peer_lem_example :
    (p' : Peers) × (permanently_delete_peer peers_bc (bytes "c") ≡ done p')
    × Fits p'
    × (contains_key (bytes "c") p'.peer_list ≡ false)
    × (lookup (bytes "b") p'.peer_list ≡ some (2 ∷ []))
    × (((contains_key (bytes "c") peers_bc.peer_list ≡ false) × (p' ≡ peers_bc))
        ⊎ ((contains_key (bytes "c") peers_bc.peer_list ≡ true)
            × (length p'.peer_list + 1 ≡ 2)
            × (p'.num_expected + 1 ≡ 3)))
unfolding bytes_eq
permanently_delete_peer_lem_example =
    permanently_delete_peer_lem peers_bc (bytes "c") (bytes "b") (omega arith) (refl, (refl, tt))
      refl

abbrev tcp : Application.Tcp
tcp = record {
  fetch_block = λ addr. done none;
  fetch_chain = λ addr. done none;
  is_directory = λ payload. true;
}

abbrev asking : Application
asking = record {
  keypair = key_a;
  curr_nonce = 1;
  outstanding_requests = 4 ∷ 5 ∷ [];
  net_stack = open_net;
  received = [];
}

abbrev answer_4 : Message
answer_4 = record (proposal_of first_block []) {
  payload = MessagePayload.socket_addr (bytes "localhost");
  kind = MessageKind.app_block_response;
  tag = 4;
}

answered_once_example :
    (has_tag (5 ∷ []) 4 ≡ false)
    × (handle_message tcp (record asking { outstanding_requests = 5 ∷ [] }) answer_4
        ≡ done (record asking { outstanding_requests = 5 ∷ [] }))
unfolding has_tag handle_message
answered_once_example =
    answered_once tcp asking (record asking { outstanding_requests = 5 ∷ [] }) answer_4 answer_4
      refl tt refl refl

-- A request for the chain, read and answered.
abbrev asked_chain : Server
asked_chain = accept idle (bytes "chain")

abbrev served_chain : Server
served_chain = serve asked_chain Request.chain

abbrev answered_chain : Server
answered_chain = deliver served_chain Request.chain []

answered_chain-Reach : Reach idle answered_chain
unfolding idle accept bytes_eq serve
answered_chain-Reach =
    next
      (next (next here (Step.accepts (bytes "chain") refl refl))
        (Step.serves Request.chain refl refl))
      (Step.delivers Request.chain [] refl refl refl)

Reach-answers_example :
    (answered_chain.asked ≡ map some answered_chain.answered)
    × (answered_chain.trigger ≡ none)
    × (answered_chain.queue ≡ [])
unfolding deliver
Reach-answers_example = Reach-answers answered_chain answered_chain-Reach refl

unknown_request_wedges_example :
    (accept answered_chain (bytes "epoch") ≡ accept answered_chain (bytes "epoch"))
    × ((accept answered_chain (bytes "epoch")).waiting ≡ true)
unfolding deliver streamlet_transparency_l.Streamlet.Tcp.request_kind bytes_eq
unknown_request_wedges_example =
    unknown_request_wedges answered_chain (bytes "epoch") (accept answered_chain (bytes "epoch"))
      answered_chain-Reach refl refl here
