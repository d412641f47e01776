-- ===== src/Tests/Texts.antt =====
-- Printed chains and directories, and the messages of the swarm, at concrete inputs.
use streamlet_transparency_l.Prelude.{◌≤◌, ◌<◌, ◌≡◌, refl, true, [], ◌∷◌, ◌++◌, arith}
use streamlet_transparency_l.Prelude.Lists.{length, All}
use streamlet_transparency_l.Prelude.Bytes.{bytes}
use streamlet_transparency_l.App.Directory.{Random, min_size, max_size}
use streamlet_transparency_l.App.Directory
use streamlet_transparency_l.App.Directory.Laws.{Ranged, Sane, new_bounds, display_tells_directory}
use streamlet_transparency_l.Blockchain.Chain.{LocalChain}
use streamlet_transparency_l.Blockchain.Chain.Display.{epochs, display_tells_epochs}
use streamlet_transparency_l.Network.Events.{
  AppBehaviour, GossipsubEvent, MdnsEvent, SwarmEvent, inject_event, Flow, contents, discoveries,
  Flow-contents,
}
use streamlet_transparency_l.Tests.Fixtures.{block_on}

-- It always draws the low end.
abbrev lowest : Random
lowest = record { gen_range = λ low high draw. low; alphanumeric = λ draw. 97 }

lowest-Ranged : Ranged lowest
lowest-Ranged = record { low = λ low high draw h. omega arith; high = λ low high draw h. h }

new_bounds_example :
    (min_size ≤ length (Directory.new lowest 0).or_list)
    × (length (Directory.new lowest 0).or_list < max_size)
    × All Sane (Directory.new lowest 0).or_list
new_bounds_example = new_bounds lowest 0 lowest-Ranged

display_tells_directory_example : Directory.new lowest 0 ≡ Directory.new lowest 1
unfolding Directory.new Directory.new_router Directory.sample
display_tells_directory_example = display_tells_directory lowest 0 1 lowest-Ranged refl

abbrev chain : LocalChain
chain = record {
  blocks =
      record { block = block_on [] 0 0; signatures = [] }
      ∷ record { block = block_on [] 12 1; signatures = [] }
      ∷ [];
}

-- The same epochs in other blocks.
abbrev other_chain : LocalChain
other_chain = record {
  blocks =
      record { block = block_on (1 ∷ []) 0 7; signatures = [] }
      ∷ record { block = block_on [] 12 8; signatures = (5 ∷ []) ∷ [] }
      ∷ [];
}

display_tells_epochs_example : epochs chain.blocks ≡ epochs other_chain.blocks
unfolding streamlet_transparency_l.Blockchain.Chain.Display.display
display_tells_epochs_example =
    display_tells_epochs chain other_chain (omega arith, (omega arith, tt))
      (omega arith, (omega arith, tt)) refl

abbrev idle_behaviour : AppBehaviour
idle_behaviour = record { explicit_peers = []; app_channel = []; receiver_open = true }

abbrev event_1 : SwarmEvent
event_1 = SwarmEvent.gossipsub (GossipsubEvent.message (bytes "b") (bytes "id 1") (bytes "vote"))

abbrev event_2 : SwarmEvent
event_2 = SwarmEvent.mdns (MdnsEvent.discovered ((bytes "c", bytes "address") ∷ []))

abbrev event_3 : SwarmEvent
event_3 = SwarmEvent.gossipsub (GossipsubEvent.message (bytes "c") (bytes "id 2") (bytes "propose"))

abbrev after : AppBehaviour
after = record {
  explicit_peers = bytes "c" ∷ [];
  app_channel = bytes "propose" ∷ [];
  receiver_open = true;
}

-- The first message is read before the second one comes in.
flow : Flow idle_behaviour after (bytes "vote" ∷ []) (event_1 ∷ event_2 ∷ event_3 ∷ [])
unfolding inject_event
flow =
    Flow.inject event_3
      (Flow.receive (bytes "vote")
        (Flow.inject event_2 (Flow.inject event_1 Flow.begin refl refl) refl refl) refl refl refl)
      refl refl

Flow-contents_example :
    (after.receiver_open ≡ true)
    × (bytes "vote" ∷ [] ++ after.app_channel ≡ contents (event_1 ∷ event_2 ∷ event_3 ∷ []))
    × (after.explicit_peers
        ≡ idle_behaviour.explicit_peers ++ discoveries (event_1 ∷ event_2 ∷ event_3 ∷ []))
Flow-contents_example =
    Flow-contents idle_behaviour after (bytes "vote" ∷ []) (event_1 ∷ event_2 ∷ event_3 ∷ []) refl
      refl flow
