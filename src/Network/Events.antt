-- ===== src/Network/Events.antt =====
-- network/network.rs: `AppBehaviour`, which hands the messages of the swarm to the node and the
-- peers that mDNS discovers to gossipsub. The channel to the node is the list of the messages that
-- it has not read yet; reading it is the node's `receiver.recv()`.
use streamlet_transparency_l.Prelude.{◌≡◌, refl, sym, ap, ◌∙◌, Bool, true, List, [], ◌∷◌, ◌++◌}
use mathlib.Core.List.{append_assoc, append-nil}
use streamlet_transparency_l.Prelude.Tests.{if◌then◌else◌}
use streamlet_transparency_l.Prelude.Bytes.{Bytes, keys}

-- `explicit_peers` are the peers that gossipsub was given, and `receiver_open` tells whether the
-- node still holds its end of the channel.
pub record AppBehaviour : Type 0 where
  pub explicit_peers : List Bytes
  pub app_channel : List Bytes
  pub receiver_open : Bool

-- A message with its source, its id and its data; any other event.
pub data GossipsubEvent : Type 0 where
  message : Bytes → Bytes → Bytes → GossipsubEvent
  other : GossipsubEvent

-- Peers with their addresses.
pub data MdnsEvent : Type 0 where
  discovered : List (Bytes × Bytes) → MdnsEvent
  expired : List (Bytes × Bytes) → MdnsEvent

-- A message that the closed channel refuses is lost, and the error is logged.
unfoldable pub inject_gossipsub_event : AppBehaviour → GossipsubEvent → AppBehaviour
inject_gossipsub_event b (GossipsubEvent.message source id content) =
    if b.receiver_open then record b { app_channel = b.app_channel ++ content ∷ [] } else b
inject_gossipsub_event b GossipsubEvent.other = b

unfoldable pub add_explicit_peers : AppBehaviour → List (Bytes × Bytes) → AppBehaviour
add_explicit_peers b [] = b
add_explicit_peers b ((peer, addr) ∷ rest) =
    add_explicit_peers (record b { explicit_peers = b.explicit_peers ++ peer ∷ [] }) rest

unfoldable pub inject_mdns_event : AppBehaviour → MdnsEvent → AppBehaviour
unfolding add_explicit_peers
inject_mdns_event b (MdnsEvent.discovered discovered_list) = add_explicit_peers b discovered_list
inject_mdns_event b (MdnsEvent.expired expired_list) = b

-- What the derive macro dispatches: an event of either protocol.
pub data SwarmEvent : Type 0 where
  gossipsub : GossipsubEvent → SwarmEvent
  mdns : MdnsEvent → SwarmEvent

unfoldable pub inject_event : AppBehaviour → SwarmEvent → AppBehaviour
unfolding inject_gossipsub_event inject_mdns_event
inject_event b (SwarmEvent.gossipsub e) = inject_gossipsub_event b e
inject_event b (SwarmEvent.mdns e) = inject_mdns_event b e

-- The swarm injects events while the node reads its channel. At the end stand the behaviour, what
-- the node has read, and the events in their order.
pub data Flow (first : AppBehaviour) : AppBehaviour → List Bytes → List SwarmEvent → Type 0 where
  begin : Flow first first [] []
  inject :
      {b b' : AppBehaviour} {taken : List Bytes} {events events' : List SwarmEvent} (e : SwarmEvent)
      → Flow first b taken events
      → b' ≡ inject_event b e
      → events' ≡ events ++ e ∷ []
      → Flow first b' taken events'
  receive :
      {b b' : AppBehaviour} {taken taken' rest : List Bytes} {events : List SwarmEvent}
      (content : Bytes)
      → Flow first b taken events
      → b.app_channel ≡ content ∷ rest
      → b' ≡ record b { app_channel = rest }
      → taken' ≡ taken ++ content ∷ []
      → Flow first b' taken' events

-- The messages among the events.
abbrev pub contents : List SwarmEvent → List Bytes
contents [] = []
contents (SwarmEvent.gossipsub (GossipsubEvent.message source id content) ∷ rest) =
    content ∷ contents rest
contents (_ ∷ rest) = contents rest

-- The peers that the events discover.
abbrev pub discoveries : List SwarmEvent → List Bytes
discoveries [] = []
discoveries (SwarmEvent.mdns (MdnsEvent.discovered found) ∷ rest) = keys found ++ discoveries rest
discoveries (_ ∷ rest) = discoveries rest

contents-append : (xs ys : List SwarmEvent) → contents (xs ++ ys) ≡ contents xs ++ contents ys
contents-append [] ys = refl
contents-append (SwarmEvent.gossipsub (GossipsubEvent.message source id content) ∷ rest) ys =
    ap (λ t. content ∷ t) (contents-append rest ys)
contents-append (SwarmEvent.gossipsub GossipsubEvent.other ∷ rest) ys = contents-append rest ys
contents-append (SwarmEvent.mdns e ∷ rest) ys = contents-append rest ys

discoveries-append :
    (xs ys : List SwarmEvent) → discoveries (xs ++ ys) ≡ discoveries xs ++ discoveries ys
discoveries-append [] ys = refl
discoveries-append (SwarmEvent.mdns (MdnsEvent.discovered found) ∷ rest) ys =
    ap (λ t. keys found ++ t) (discoveries-append rest ys)
    ∙ sym (append_assoc (keys found) (discoveries rest) (discoveries ys))
discoveries-append (SwarmEvent.mdns (MdnsEvent.expired lost) ∷ rest) ys = discoveries-append rest ys
discoveries-append (SwarmEvent.gossipsub e ∷ rest) ys = discoveries-append rest ys

add_explicit_peers_lem :
    (b : AppBehaviour) (found : List (Bytes × Bytes))
    → add_explicit_peers b found ≡ record b { explicit_peers = b.explicit_peers ++ keys found }
unfolding add_explicit_peers
add_explicit_peers_lem b [] = rw (append-nil b.explicit_peers) refl
add_explicit_peers_lem b ((peer, addr) ∷ rest) =
    add_explicit_peers_lem (record b { explicit_peers = b.explicit_peers ++ peer ∷ [] }) rest
    ∙ ap (λ ps. record b { explicit_peers = ps })
        (append_assoc b.explicit_peers (peer ∷ []) (keys rest))

-- What an event adds.
inject_event_lem :
    (b : AppBehaviour) (e : SwarmEvent)
    → b.receiver_open ≡ true
    → ((inject_event b e).receiver_open ≡ true)
      × ((inject_event b e).app_channel ≡ b.app_channel ++ contents (e ∷ []))
      × ((inject_event b e).explicit_peers ≡ b.explicit_peers ++ discoveries (e ∷ []))
unfolding inject_event inject_gossipsub_event inject_mdns_event
inject_event_lem b (SwarmEvent.gossipsub (GossipsubEvent.message source id content)) up =
    rw up (refl, refl, sym (append-nil b.explicit_peers))
inject_event_lem b (SwarmEvent.gossipsub GossipsubEvent.other) up =
    (up, sym (append-nil b.app_channel), sym (append-nil b.explicit_peers))
inject_event_lem b (SwarmEvent.mdns (MdnsEvent.discovered found)) up =
    rw (add_explicit_peers_lem b found) (
      up,
      sym (append-nil b.app_channel),
      ap (λ ps. b.explicit_peers ++ ps) (sym (append-nil (keys found))),
    )
inject_event_lem b (SwarmEvent.mdns (MdnsEvent.expired lost)) up =
    (up, sym (append-nil b.app_channel), sym (append-nil b.explicit_peers))

-- While the node holds its end of the channel, it reads the messages that come in once each and in
-- their order, whatever is read in between: what it has read, and then what it has not read yet,
-- are the messages of all events. Gossipsub has been given all the peers that were discovered.
pub Flow-contents :
    (first b : AppBehaviour) (taken : List Bytes) (events : List SwarmEvent)
    → first.receiver_open ≡ true
    → first.app_channel ≡ []
    → Flow first b taken events
    → (b.receiver_open ≡ true)
      × (taken ++ b.app_channel ≡ contents events)
      × (b.explicit_peers ≡ first.explicit_peers ++ discoveries events)
Flow-contents first b taken events up empty begin =
    (up, empty, sym (append-nil first.explicit_peers))
Flow-contents first b' taken events' up empty (inject {b} {events = events} e flow step more) =
    let (open_now, order, peers) = Flow-contents first b taken events up empty flow in
    let (still, channel, added) = inject_event_lem b e open_now in
    rw (step, more)
      (
        still,
        ap (λ l. taken ++ l) channel
            ∙ sym (append_assoc taken b.app_channel (contents (e ∷ [])))
            ∙ ap (λ l. l ++ contents (e ∷ [])) order
            ∙ sym (contents-append events (e ∷ [])),
        added
            ∙ ap (λ l. l ++ discoveries (e ∷ [])) peers
            ∙ append_assoc first.explicit_peers (discoveries events) (discoveries (e ∷ []))
            ∙ ap (λ l. first.explicit_peers ++ l) (sym (discoveries-append events (e ∷ []))),
      )
Flow-contents first b' taken' events up empty
      (receive {b} {taken = taken} {rest = rest} content flow front step more) =
    let (open_now, order, peers) = Flow-contents first b taken events up empty flow in
    rw (step, more)
      (
        open_now,
        append_assoc taken (content ∷ []) rest ∙ ap (λ l. taken ++ l) (sym front) ∙ order,
        peers,
      )
