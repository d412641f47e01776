-- ===== src/Streamlet/Run/Faults.antt =====
-- What faulty nodes, and advertisements that anybody may send, can do to a node.
use streamlet_transparency_l.Prelude.{
  ◌+◌, ◌≤◌, ◌≡◌, refl, ap, ◌∙◌, true, some, [], ◌∷◌, ◌++◌, arith,
}
use streamlet_transparency_l.Prelude.Tests.{if◌then◌else◌}
use streamlet_transparency_l.Prelude.Lists.{length, length-append}
use streamlet_transparency_l.Prelude.Outcome.{done}
use streamlet_transparency_l.Prelude.Bytes.{
  Bytes, bytes_eq, bytes_eq_iff, bytes_eq_refl, Dict, insert, lookup,
}
use streamlet_transparency_l.Blockchain.Block.{Block}
use streamlet_transparency_l.Message.{Message, PeerAdvertisement}
use streamlet_transparency_l.Message
use streamlet_transparency_l.Network.Peers.{Draws}
use streamlet_transparency_l.Streamlet.{should_vote, is_notarized, threshold, add_public_key}
use streamlet_transparency_l.Streamlet.Votes.{should_vote_sound}
use streamlet_transparency_l.Streamlet.Node.{Env, Node, broadcast}
use streamlet_transparency_l.Streamlet.Handlers.{
  does_vote, cast_vote, vote_or_abstain, handle_peer_init,
}

-- The node that has voted counts every signature of the proposal, and its own.
vote_counts_all :
    (env : Env) (node : Node) (message signed : Message) (block : Block) (vote : Bytes)
    {voted : Node}
    → does_vote node.streamlet.compromise_type ≡ true
    → signed ≡ Message.sign_message message vote
    → vote_or_abstain env node block signed vote ≡ done voted
    → (voted.streamlet.seen_block_this_epoch ≡ some block.hash)
      × (voted.streamlet.sigs_on_seen_block_this_epoch
          ≡ node.streamlet.sigs_on_seen_block_this_epoch ++ (message.signatures ++ vote ∷ []))
      × (voted.streamlet.expected_peer_count ≡ node.streamlet.expected_peer_count)
unfolding vote_or_abstain cast_vote broadcast Message.sign_message
vote_counts_all env node message signed block vote votes e h = ground arith

-- A node that votes for a proposal, and is not compromised not to, takes the proposal for
-- notarized at once if it carries one signature fewer than the threshold or more, whatever
-- signatures these are.
pub unverified_signatures_notarize :
    (env : Env) (node voted : Node) (message signed : Message) (block : Block) (vote : Bytes)
    → does_vote node.streamlet.compromise_type ≡ true
    → should_vote env.crypto env.codec node.streamlet message node.vote_this_epoch
        node.current_epoch block
      ≡ done (signed, some vote)
    → vote_or_abstain env node block signed vote ≡ done voted
    → threshold (node.streamlet.expected_peer_count + 1) ≤ length message.signatures + 1
    → is_notarized env.crypto env.codec voted.streamlet block message ≡ true
unfolding is_notarized
unverified_signatures_notarize env node voted message signed block vote votes for h enough =
    let e : signed ≡ Message.sign_message message vote =
      (should_vote_sound env.crypto env.codec node.streamlet message node.vote_this_epoch
        node.current_epoch block for).5 in
    let (seen, sigs, count) = vote_counts_all env node message signed block vote votes e h in
    let many : threshold (voted.streamlet.expected_peer_count + 1)
        ≤ length voted.streamlet.sigs_on_seen_block_this_epoch =
      rw (sigs, count)
        (omega (
          arith,
          length-append node.streamlet.sigs_on_seen_block_this_epoch
              (message.signatures ++ vote ∷ []),
          length-append message.signatures (vote ∷ []),
        )) in
    ground (arith, bytes_eq_refl block.hash)

module _ {ℓ} {V : Type ℓ} where
  lookup-insert :
      (k j : Bytes) (v : V) (d : Dict V)
      → lookup j (insert k v d) ≡ (if bytes_eq k j then some v else lookup j d)
  lookup-insert k j v [] = refl
  lookup-insert k j v ((i, w) ∷ d) =
      ground (arith, bytes_eq_iff k j, bytes_eq_iff i k, bytes_eq_iff i j, lookup-insert k j v d)

handle_peer_init_keys :
    (env : Env) (node : Node) (ad : PeerAdvertisement) (draws : Draws) {node' : Node}
    → handle_peer_init env node ad draws ≡ done node'
    → node'.streamlet.public_keys ≡ insert ad.node_name ad.public_key node.streamlet.public_keys
unfolding handle_peer_init add_public_key
handle_peer_init_keys env node ad draws h = ground arith

-- Every advertisement that is handled replaces the key by which the node verifies the advertised
-- name, also of a name that it knew under another key; the key of any other name stays.
pub handle_peer_init_replaces_key :
    (env : Env) (node node' : Node) (ad : PeerAdvertisement) (draws : Draws) (name : Bytes)
    → handle_peer_init env node ad draws ≡ done node'
    → lookup name node'.streamlet.public_keys ≡ (
        if bytes_eq ad.node_name name
        then some ad.public_key
        else lookup name node.streamlet.public_keys)
handle_peer_init_replaces_key env node node' ad draws name h =
    ap (lookup name) (handle_peer_init_keys env node ad draws h)
    ∙ lookup-insert ad.node_name name ad.public_key node.streamlet.public_keys
