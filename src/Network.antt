-- ===== src/Network.antt =====
-- cs244b_project/src/network/network.rs: `NetworkStack` as the rest of the program sees it. What is
-- published is kept in a list, newest last. libp2p decides whether a publication, a subscription
-- or its end succeeds; `Gossip` is that decision, given what was published before. The set-up of the
-- transport is not modelled.
pub mod Peers
pub mod Events
use streamlet_transparency_l.Prelude.{ℕ, Bool, true, false, not, List, [], ◌∷◌, ◌++◌}
use streamlet_transparency_l.Prelude.Tests.{if◌then◌else◌}
use streamlet_transparency_l.Prelude.Lists.{retain}
use streamlet_transparency_l.Prelude.Outcome.{Outcome, done, panic}
use streamlet_transparency_l.Prelude.Bytes.{Bytes, bytes, bytes_eq}

-- A topic and the bytes published on it.
pub record Publication : Type 0 where
  pub topic : Bytes
  pub message : Bytes

pub record Gossip : Type 0 where
  pub publishes : List Publication → Publication → Bool
  pub subscribes : Bytes → Bool
  pub unsubscribes : Bytes → Bool

pub record NetworkStack : Type 0 where
  pub topic : Bytes
  pub init_topic : Bytes
  pub init_open : Bool
  pub subscriptions : List Bytes
  pub published : List Publication

unfoldable pub new : Bytes → NetworkStack
new topic_name = record {
  topic = topic_name;
  init_topic = bytes "init";
  init_open = false;
  subscriptions = topic_name ∷ [];
  published = [];
}

-- The stack after a successful `publish`.
unfoldable pub publish : NetworkStack → Publication → NetworkStack
publish net p = record net { published = net.published ++ p ∷ [] }

-- A refused publication panics.
unfoldable pub broadcast_to_topic : Gossip → NetworkStack → Bytes → Bytes → Outcome NetworkStack
unfolding publish
broadcast_to_topic g net topic message =
    if g.publishes net.published (record { topic = topic; message = message })
    then done (publish net (record { topic = topic; message = message }))
    else panic

unfoldable pub broadcast_message : Gossip → NetworkStack → Bytes → Outcome NetworkStack
unfolding publish
broadcast_message g net message =
    if g.publishes net.published (record { topic = net.topic; message = message })
    then done (publish net (record { topic = net.topic; message = message }))
    else panic

unfoldable pub add_topic : Gossip → NetworkStack → Bytes → Outcome NetworkStack
add_topic g net topic =
    if g.subscribes topic
    then done (record net { subscriptions = topic ∷ net.subscriptions })
    else panic

unfoldable pub open_init_channel : Gossip → NetworkStack → Outcome NetworkStack
open_init_channel g net =
    if g.subscribes net.init_topic
    then done (record net { subscriptions = net.init_topic ∷ net.subscriptions; init_open = true })
    else panic

unfoldable pub close_init_channel : Gossip → NetworkStack → Outcome NetworkStack
close_init_channel g net =
    if not net.init_open
    then done net
    else if g.unsubscribes net.init_topic
    then done (record net {
      subscriptions = retain (λ t. not (bytes_eq t net.init_topic)) net.subscriptions;
      init_open = false;
    })
    else panic

unfoldable pub init_channel_open : NetworkStack → Bool
init_channel_open net = net.init_open

-- Nothing is sent on a closed channel; a refused publication is only logged.
unfoldable pub send_init_channel : Gossip → NetworkStack → Bytes → NetworkStack
unfolding publish
send_init_channel g net message =
    if not net.init_open
    then net
    else if g.publishes net.published (record { topic = net.init_topic; message = message })
    then publish net (record { topic = net.init_topic; message = message })
    else net
