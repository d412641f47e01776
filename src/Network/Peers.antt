-- ===== src/Network/Peers.antt =====
-- cs244b_project/src/network/peer_init.rs: `Peers`, the discovery of the other nodes.
pub mod Laws
use streamlet_transparency_l.Prelude.{
  ℕ, zero, suc, ◌-◌, ◌+◌, ◌/◌, ◌%◌, Bool, true, false, not, ◌&&◌, ◌||◌, Option, none, some, List,
  [], ◌∷◌, ◌++◌,
}
use streamlet_transparency_l.Prelude.Tests.{leb, ◌==◌, if◌then◌else◌}
use streamlet_transparency_l.Prelude.Lists.{length}
use streamlet_transparency_l.Prelude.Outcome.{Outcome, done, panic, ◌>>=◌}
use streamlet_transparency_l.Prelude.Bytes.{
  Bytes, bytes_eq, Dict, insert, remove, lookup, contains_key, contains, keys,
}
use streamlet_transparency_l.Prelude.Decimal.{decimal}
use streamlet_transparency_l.Message.{
  PeerAdvertisement, MessagePayload, MessageKind, Message, Codec,
}
use streamlet_transparency_l.Message
use streamlet_transparency_l.Network.{
  Gossip, NetworkStack, close_init_channel, init_channel_open, send_init_channel,
}

pub record Peers : Type 0 where
  pub node_name : Bytes
  pub node_id : ℕ
  pub public_key : Bytes
  pub peer_list : Dict Bytes
  pub num_expected : ℕ

pub data InitStatus : Type 0 where
  in_progress finished done_start_timer : InitStatus

-- What a step draws from the clock and the random number generator.
pub record Draws : Type 0 where
  pub now : ℕ
  pub nonce : ℕ
  pub tag : ℕ

-- An empty name is replaced by a random `u32`, which has ten digits at most.
unfoldable pub new : Bytes → Bytes → ℕ → ℕ → Peers
unfolding decimal
new my_name public_key num_peers rand = record {
  node_name = if bytes_eq my_name [] then decimal 10 rand else my_name;
  node_id = 0;
  public_key = public_key;
  peer_list = [];
  num_expected = num_peers;
}

unfoldable pub set_node_id : Peers → ℕ → Peers
set_node_id p new_node_id = record p { node_id = new_node_id }

unfoldable pub is_done : Peers → Bool
is_done p = leb p.num_expected (length p.peer_list)

unfoldable pub my_advertisement : Peers → ℕ → PeerAdvertisement
my_advertisement p now = record {
  public_key = p.public_key;
  node_id = p.node_id;
  node_name = p.node_name;
  timestamp = now;
  end_init = false;
  known_peers = keys p.peer_list;
}

unfoldable pub advertise_self : Codec → Gossip → Peers → NetworkStack → Draws → NetworkStack
unfolding my_advertisement
advertise_self codec g p net draws = send_init_channel g net (
    Message.serialize codec (
      Message.new (MessagePayload.peer_advertisement (my_advertisement p draws.now))
        MessageKind.peer_init p.node_id p.node_name draws.nonce draws.tag))

unfoldable pub end_init : Gossip → NetworkStack → Outcome NetworkStack
end_init g net = if not (init_channel_open net) then done net else close_init_channel g net

-- The advertisement that ends discovery has no name.
unfoldable pub end_advertisement : Peers → ℕ → PeerAdvertisement
end_advertisement p now = record {
  public_key = p.public_key;
  node_id = p.node_id;
  node_name = [];
  timestamp = now;
  end_init = true;
  known_peers = [];
}

unfoldable pub send_end_init : Codec → Gossip → Peers → NetworkStack → Draws → Outcome NetworkStack
unfolding end_advertisement
send_end_init codec g p net draws = end_init g (
    send_init_channel g net (
      Message.serialize codec (
        Message.new (MessagePayload.peer_advertisement (end_advertisement p draws.now))
          MessageKind.peer_init p.node_id p.node_name draws.nonce draws.tag)))

-- What follows the insertion of a new peer: `p` holds it already.
unfoldable pub after_insertion :
    Codec
    → Gossip
    → Peers
    → PeerAdvertisement
    → NetworkStack
    → Draws
    → Peers × NetworkStack × InitStatus
after_insertion codec g p ad net draws =
    let net' =
      if not (contains ad.known_peers p.node_name)
      then advertise_self codec g p net draws
      else net in
    (
      p,
      net',
      if is_done p && init_channel_open net'
          then InitStatus.done_start_timer
          else InitStatus.in_progress,
    )

unfoldable pub recv_advertisement :
    Codec
    → Gossip
    → Peers
    → PeerAdvertisement
    → NetworkStack
    → Draws
    → Outcome (Peers × NetworkStack × InitStatus)
unfolding after_insertion
recv_advertisement codec g p ad net draws =
    if ad.end_init && is_done p
    then (end_init g net >>= λ net'. done (p, net', InitStatus.finished))
    else if is_done p || contains_key ad.node_name p.peer_list
    then done (p, net, InitStatus.finished)
    else done (
        after_insertion codec g
          (record p { peer_list = insert ad.node_name ad.public_key p.peer_list }) ad net draws)

unfoldable pub num_peers_expected : Peers → ℕ
num_peers_expected p = p.num_expected

-- `num_expected -= 1` panics at 0.
unfoldable pub permanently_delete_peer : Peers → Bytes → Outcome Peers
permanently_delete_peer p name =
    if contains_key name p.peer_list
    then (if p.num_expected == 0
        then panic
        else done
            (record p { peer_list = remove name p.peer_list; num_expected = p.num_expected - 1 }))
    else done p
