-- ===== src/Tests/Names.antt =====
-- Names, leaders and the command line at concrete inputs.
use mathlib.Core.List.Perm
use streamlet_transparency_l.Prelude.{ℕ, ◌-◌, ◌≡◌, refl, Bool, true, false, List, [], ◌∷◌, arith}
use streamlet_transparency_l.Prelude.Tests.{◌==◌, if◌then◌else◌}
use streamlet_transparency_l.Prelude.Bytes.{Bytes, bytes}
use streamlet_transparency_l.Prelude.Decimal.{decimal}
use streamlet_transparency_l.Prelude.Outcome.{Outcome, done, panic}
use streamlet_transparency_l.Main.{Command, main}
use streamlet_transparency_l.Main.Laws.{main_hosts}
use streamlet_transparency_l.Streamlet.{get_epoch_leader}
use streamlet_transparency_l.Streamlet.Names.Leader.{same_leader}
use streamlet_transparency_l.Streamlet.Names.Unnamed.{unnamed_node_panics}
use streamlet_transparency_l.Streamlet.Node.{Node}
use streamlet_transparency_l.Streamlet.Handlers.{handle_peer_init}
use streamlet_transparency_l.Streamlet.Epoch.{handle_epoch_start}
use streamlet_transparency_l.Tests.Fixtures.{
  toy_crypto, env, draws, advertisement_b, node_a, streamlet_a,
}

main_hosts_example :
    main (bytes "program" ∷ decimal 20 4 ∷ bytes "a" ∷ [])
    ≡ (if 4 == 0 then panic else done (Command.streamlet (bytes "a") (4 - 1)))
main_hosts_example = main_hosts (bytes "program") (bytes "a") 4 (omega arith)

abbrev result : Outcome Node → Node
result (done node) = node
result panic = node_a

-- The node `a`, whose map lists `b` first.
abbrev reordered : Node
reordered = record node_a {
  streamlet = record streamlet_a {
    public_keys =
        (bytes "b", 2 ∷ []) ∷ (bytes "a", 1 ∷ []) ∷ (bytes "c", 3 ∷ []) ∷ (bytes "d", 4 ∷ []) ∷ [];
  };
}

abbrev met : Node
met = result (handle_peer_init env node_a advertisement_b draws)

abbrev reordered_met : Node
reordered_met = result (handle_peer_init env reordered advertisement_b draws)

same_leader_example :
    get_epoch_leader toy_crypto met.streamlet 3
    ≡ get_epoch_leader toy_crypto reordered_met.streamlet 3
unfolding handle_peer_init streamlet_transparency_l.Network.Peers.recv_advertisement
    streamlet_transparency_l.Network.Peers.is_done streamlet_transparency_l.Streamlet.add_public_key
    streamlet_transparency_l.Prelude.Bytes.bytes_eq
same_leader_example =
    same_leader env node_a reordered met reordered_met advertisement_b advertisement_b draws draws 3
      refl refl refl (Perm.swap (bytes "b") (bytes "a") (bytes "c" ∷ bytes "d" ∷ []))

-- One of two nodes, started without a name.
abbrev unnamed : Node
unnamed = record node_a {
  streamlet = record streamlet_a {
    name = [];
    expected_peer_count = 1;
    public_keys = ([], 1 ∷ []) ∷ [];
    sorted_peer_names = [];
  };
}

abbrev unnamed_met : Node
unnamed_met = result (handle_peer_init env unnamed advertisement_b draws)

unnamed_node_panics_example : handle_epoch_start env unnamed_met 0 draws ≡ panic
unfolding handle_peer_init streamlet_transparency_l.Network.Peers.recv_advertisement
    streamlet_transparency_l.Network.Peers.is_done streamlet_transparency_l.Streamlet.add_public_key
    streamlet_transparency_l.Prelude.Bytes.bytes_eq
unnamed_node_panics_example =
    unnamed_node_panics env unnamed unnamed_met advertisement_b draws draws 0 refl refl
      (omega arith) refl
