-- ===== src/Tests/Late.antt =====
-- A node that votes, and then starts its epoch late, with a proposal of its own.
use streamlet_transparency_l.Prelude.{◌≡◌, refl, true, some, List, [], ◌∷◌}
use streamlet_transparency_l.Prelude.Bytes.{Bytes}
use streamlet_transparency_l.Prelude.Outcome.{Outcome, done, panic}
use streamlet_transparency_l.Blockchain.Manager
use streamlet_transparency_l.Message.{serialize_payload}
use streamlet_transparency_l.Message
use streamlet_transparency_l.Streamlet.{CompromiseType, sign}
use streamlet_transparency_l.Streamlet.Node.{Node}
use streamlet_transparency_l.Streamlet.Handlers.{handle_propose}
use streamlet_transparency_l.Streamlet.Epoch.{handle_epoch_start}
use streamlet_transparency_l.Streamlet.Run.Casts.{start_cast}
use streamlet_transparency_l.Streamlet.Run.Vote.{VotesFor, epoch_start_votes_again}
use streamlet_transparency_l.Tests.Fixtures.{
  env, draws, first_block, proposal_b, node_a, streamlet_a,
}

abbrev result : Outcome Node → Node
result (done node) = node
result panic = node_a

abbrev vote_a : Bytes
vote_a = 1 ∷ 101 ∷ []

-- The node `a`, compromised to propose as well, which votes before it starts its epoch.
abbrev compromised : Node
compromised = record node_a {
  streamlet = record streamlet_a { compromise_type = CompromiseType.non_leader_propose };
  tick_pending = true;
}

abbrev compromised_voted : Node
compromised_voted = result (handle_propose env compromised (proposal_b 0 first_block) first_block)

abbrev compromised_later : Node
compromised_later = result (handle_epoch_start env compromised_voted 5 draws)

abbrev only : Outcome (List Bytes) → Bytes
only (done (payload ∷ _)) = payload
only _ = []

-- What it proposes.
abbrev own : Bytes
own = only (start_cast env compromised_voted 5)

votes_again :
    VotesFor env compromised (proposal_b 0 first_block) first_block vote_a
    × (handle_propose env compromised (proposal_b 0 first_block) first_block
        ≡ done compromised_voted)
    × (handle_epoch_start env compromised_voted 5 draws ≡ done compromised_later)
    × (start_cast env compromised_voted 5 ≡ done (own ∷ []))
unfolding streamlet_transparency_l.Streamlet.Epoch.handle_epoch_start
    streamlet_transparency_l.Streamlet.Epoch.reset_epoch
    streamlet_transparency_l.Streamlet.Epoch.proposes
    streamlet_transparency_l.Streamlet.Run.Casts.start_cast
    streamlet_transparency_l.Prelude.Bytes.bytes_eq
    streamlet_transparency_l.Streamlet.Handlers.handle_network_input
    streamlet_transparency_l.Message.deserialize
    streamlet_transparency_l.Streamlet.Handlers.handle_peer_init
    streamlet_transparency_l.Streamlet.add_public_key
    streamlet_transparency_l.Network.Peers.recv_advertisement
    streamlet_transparency_l.Network.Peers.is_done
    streamlet_transparency_l.Streamlet.Names.peer_names
    streamlet_transparency_l.Streamlet.Handlers.handle_propose
    streamlet_transparency_l.Streamlet.should_vote
    streamlet_transparency_l.Streamlet.check_from_leader
    streamlet_transparency_l.Streamlet.get_epoch_leader
    streamlet_transparency_l.Streamlet.Signatures.verify_signature
    streamlet_transparency_l.Message.serialize_payload
    streamlet_transparency_l.Blockchain.Manager.index_of_ancestor_chain
    streamlet_transparency_l.Blockchain.Manager.new streamlet_transparency_l.Blockchain.Chain.length
    streamlet_transparency_l.Blockchain.Chain.new streamlet_transparency_l.Blockchain.Chain.head
    streamlet_transparency_l.Blockchain.Chain.genesis_block
    streamlet_transparency_l.Blockchain.Block.new
    streamlet_transparency_l.App.Interface.data_is_valid
    streamlet_transparency_l.Streamlet.Handlers.vote_or_abstain
    streamlet_transparency_l.Streamlet.Handlers.cast_vote
    streamlet_transparency_l.Streamlet.Node.broadcast streamlet_transparency_l.Message.sign_message
    streamlet_transparency_l.Network.broadcast_message
    streamlet_transparency_l.Streamlet.Handlers.add_if_notarized
    streamlet_transparency_l.Streamlet.is_notarized
    streamlet_transparency_l.Streamlet.Signatures.verify_message
    streamlet_transparency_l.Streamlet.Signatures.first_signer
    streamlet_transparency_l.Streamlet.Handlers.drop_pending Manager.head Message.new
votes_again = ((Message.sign_message (proposal_b 0 first_block) vote_a, refl), refl, refl, refl)

epoch_start_votes_again_example :
    (compromised_later.current_epoch ≡ 1)
    × (compromised_voted.vote_this_epoch
        ≡ some (
            sign env.crypto compromised.streamlet
              (serialize_payload env.codec (proposal_b 0 first_block))))
    × (compromised_later.vote_this_epoch ≡ some (sign env.crypto compromised.streamlet own))
epoch_start_votes_again_example =
    epoch_start_votes_again env compromised compromised_voted compromised_later
      (proposal_b 0 first_block) first_block vote_a own 5 draws refl votes_again.0 votes_again.1
      votes_again.2 votes_again.3
