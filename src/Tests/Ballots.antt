-- ===== src/Tests/Ballots.antt =====
-- An epoch of four nodes, of which the leader `b` is faulty: `a`, `c` and `d` vote for its proposal,
-- `a` after the start of its epoch.
use streamlet_transparency_l.Prelude.{
  ℕ, ◌≡◌, refl, ap, some, inl, inr, Bool, true, false, not, ◌||◌, List, [], ◌∷◌, arith,
}
use streamlet_transparency_l.Prelude.Bytes.{Bytes, bytes, bytes_eq, contains}
use streamlet_transparency_l.Prelude.Tests.{if◌then◌else◌}
use streamlet_transparency_l.Prelude.Outcome.{Outcome, done, panic}
use streamlet_transparency_l.Blockchain.Block.{SignedBlock}
use streamlet_transparency_l.Blockchain.Chain.{genesis_block}
use streamlet_transparency_l.Blockchain.Manager
use streamlet_transparency_l.Message.{Message, serialize_payload}
use streamlet_transparency_l.Streamlet.Node.{Node}
use streamlet_transparency_l.Streamlet.Handlers.{handle_network_input}
use streamlet_transparency_l.Streamlet.Epoch.{handle_epoch_start}
use streamlet_transparency_l.Streamlet.Run.Casts.{start_cast}
use streamlet_transparency_l.Streamlet.Run.Ballots.{Polls}
use streamlet_transparency_l.Streamlet.Run.Agreement.{Voter, notarized_once}
use streamlet_transparency_l.Tests.Fixtures.{
  env, draws, first_block, proposal_of, node_a, streamlet_a,
}

abbrev signed_abc : Message
signed_abc = proposal_of first_block ((1 ∷ 101 ∷ []) ∷ (2 ∷ 101 ∷ []) ∷ (3 ∷ 101 ∷ []) ∷ [])

abbrev signed_bcd : Message
signed_bcd = proposal_of first_block ((2 ∷ 101 ∷ []) ∷ (3 ∷ 101 ∷ []) ∷ (4 ∷ 101 ∷ []) ∷ [])

-- The node with this key, which has not voted yet.
abbrev follower : ℕ → Node
follower key = record node_a {
  streamlet = record streamlet_a { keypair = record { secret = key ∷ []; public = key ∷ [] } };
}

abbrev result : Outcome Node → Node
result (done node) = node
result panic = node_a

-- The same before the start of the epoch.
abbrev waiting : ℕ → Node
waiting key = record (follower key) { tick_pending = true }

abbrev voted : ℕ → Node
voted key = result (handle_network_input env (follower key) (2 ∷ []) draws)

-- `a` does not lead, and proposes nothing.
started_a :
    (handle_epoch_start env (waiting 1) 5 draws ≡ done (follower 1))
    × (start_cast env (waiting 1) 5 ≡ done [])
unfolding streamlet_transparency_l.Streamlet.Epoch.handle_epoch_start bytes_eq
    streamlet_transparency_l.Streamlet.Epoch.reset_epoch
    streamlet_transparency_l.Streamlet.Epoch.proposes
    streamlet_transparency_l.Streamlet.get_epoch_leader
    streamlet_transparency_l.Streamlet.Run.Casts.start_cast
started_a = (refl, refl)

ran_a : Polls env (waiting 1) (voted 1) ((101 ∷ []) ∷ [])
unfolding streamlet_transparency_l.Streamlet.new streamlet_transparency_l.Streamlet.Node.start
    streamlet_transparency_l.Network.open_init_channel streamlet_transparency_l.App.Interface.new
    streamlet_transparency_l.Network.add_topic streamlet_transparency_l.Network.Peers.new
    streamlet_transparency_l.Prelude.Bytes.bytes_eq
    streamlet_transparency_l.Streamlet.Handlers.handle_network_input
    streamlet_transparency_l.Message.deserialize
    streamlet_transparency_l.Streamlet.Handlers.handle_peer_init
    streamlet_transparency_l.Streamlet.add_public_key
    streamlet_transparency_l.Network.Peers.recv_advertisement
    streamlet_transparency_l.Network.Peers.is_done
    streamlet_transparency_l.Streamlet.Names.peer_names
    streamlet_transparency_l.Streamlet.Handlers.handle_propose
    streamlet_transparency_l.Streamlet.should_vote
    streamlet_transparency_l.Streamlet.check_from_leader
    streamlet_transparency_l.Streamlet.get_epoch_leader
    streamlet_transparency_l.Streamlet.Signatures.verify_signature
    streamlet_transparency_l.Message.serialize_payload
    streamlet_transparency_l.Blockchain.Manager.index_of_ancestor_chain
    streamlet_transparency_l.Blockchain.Manager.new streamlet_transparency_l.Blockchain.Chain.length
    streamlet_transparency_l.Blockchain.Chain.new streamlet_transparency_l.Blockchain.Chain.head
    streamlet_transparency_l.Blockchain.Chain.genesis_block
    streamlet_transparency_l.Blockchain.Block.new
    streamlet_transparency_l.App.Interface.data_is_valid
    streamlet_transparency_l.Streamlet.Handlers.vote_or_abstain
    streamlet_transparency_l.Streamlet.Handlers.cast_vote
    streamlet_transparency_l.Streamlet.Node.broadcast streamlet_transparency_l.Message.sign_message
    streamlet_transparency_l.Network.broadcast_message
    streamlet_transparency_l.Streamlet.Handlers.add_if_notarized
    streamlet_transparency_l.Streamlet.is_notarized
    streamlet_transparency_l.Blockchain.Manager.observe_notarized
    streamlet_transparency_l.Blockchain.Manager.add_to_chain
    streamlet_transparency_l.Blockchain.Chain.append_block
    streamlet_transparency_l.Blockchain.Manager.Sort.sort_by_length
    streamlet_transparency_l.Blockchain.Manager.try_finalize
    streamlet_transparency_l.Streamlet.Handlers.drop_pending
    streamlet_transparency_l.Streamlet.Run.Ballots.cast_on
    streamlet_transparency_l.Streamlet.Run.Ballots.cast streamlet_transparency_l.Streamlet.sign
    streamlet_transparency_l.Streamlet.Handlers.dispatch
    streamlet_transparency_l.Streamlet.Signatures.verify_message
    streamlet_transparency_l.Streamlet.Signatures.first_signer
ran_a =
    Polls.network_input (2 ∷ []) draws
      (Polls.epoch_start {m = follower 1} {l' = []} 5 draws Polls.opened refl started_a.0
        started_a.1 (inl refl) refl)
      refl refl

ran_c : Polls env (follower 3) (voted 3) ((101 ∷ []) ∷ [])
unfolding streamlet_transparency_l.Streamlet.new streamlet_transparency_l.Streamlet.Node.start
    streamlet_transparency_l.Network.open_init_channel streamlet_transparency_l.App.Interface.new
    streamlet_transparency_l.Network.add_topic streamlet_transparency_l.Network.Peers.new
    streamlet_transparency_l.Prelude.Bytes.bytes_eq
    streamlet_transparency_l.Streamlet.Handlers.handle_network_input
    streamlet_transparency_l.Message.deserialize
    streamlet_transparency_l.Streamlet.Handlers.handle_peer_init
    streamlet_transparency_l.Streamlet.add_public_key
    streamlet_transparency_l.Network.Peers.recv_advertisement
    streamlet_transparency_l.Network.Peers.is_done
    streamlet_transparency_l.Streamlet.Names.peer_names
    streamlet_transparency_l.Streamlet.Handlers.handle_propose
    streamlet_transparency_l.Streamlet.should_vote
    streamlet_transparency_l.Streamlet.check_from_leader
    streamlet_transparency_l.Streamlet.get_epoch_leader
    streamlet_transparency_l.Streamlet.Signatures.verify_signature
    streamlet_transparency_l.Message.serialize_payload
    streamlet_transparency_l.Blockchain.Manager.index_of_ancestor_chain
    streamlet_transparency_l.Blockchain.Manager.new streamlet_transparency_l.Blockchain.Chain.length
    streamlet_transparency_l.Blockchain.Chain.new streamlet_transparency_l.Blockchain.Chain.head
    streamlet_transparency_l.Blockchain.Chain.genesis_block
    streamlet_transparency_l.Blockchain.Block.new
    streamlet_transparency_l.App.Interface.data_is_valid
    streamlet_transparency_l.Streamlet.Handlers.vote_or_abstain
    streamlet_transparency_l.Streamlet.Handlers.cast_vote
    streamlet_transparency_l.Streamlet.Node.broadcast streamlet_transparency_l.Message.sign_message
    streamlet_transparency_l.Network.broadcast_message
    streamlet_transparency_l.Streamlet.Handlers.add_if_notarized
    streamlet_transparency_l.Streamlet.is_notarized
    streamlet_transparency_l.Blockchain.Manager.observe_notarized
    streamlet_transparency_l.Blockchain.Manager.add_to_chain
    streamlet_transparency_l.Blockchain.Chain.append_block
    streamlet_transparency_l.Blockchain.Manager.Sort.sort_by_length
    streamlet_transparency_l.Blockchain.Manager.try_finalize
    streamlet_transparency_l.Streamlet.Handlers.drop_pending
    streamlet_transparency_l.Streamlet.Run.Ballots.cast_on
    streamlet_transparency_l.Streamlet.Run.Ballots.cast streamlet_transparency_l.Streamlet.sign
    streamlet_transparency_l.Streamlet.Handlers.dispatch
    streamlet_transparency_l.Streamlet.Signatures.verify_message
    streamlet_transparency_l.Streamlet.Signatures.first_signer
ran_c = Polls.network_input (2 ∷ []) draws Polls.opened refl refl

ran_d : Polls env (follower 4) (voted 4) ((101 ∷ []) ∷ [])
unfolding streamlet_transparency_l.Streamlet.new streamlet_transparency_l.Streamlet.Node.start
    streamlet_transparency_l.Network.open_init_channel streamlet_transparency_l.App.Interface.new
    streamlet_transparency_l.Network.add_topic streamlet_transparency_l.Network.Peers.new
    streamlet_transparency_l.Prelude.Bytes.bytes_eq
    streamlet_transparency_l.Streamlet.Handlers.handle_network_input
    streamlet_transparency_l.Message.deserialize
    streamlet_transparency_l.Streamlet.Handlers.handle_peer_init
    streamlet_transparency_l.Streamlet.add_public_key
    streamlet_transparency_l.Network.Peers.recv_advertisement
    streamlet_transparency_l.Network.Peers.is_done
    streamlet_transparency_l.Streamlet.Names.peer_names
    streamlet_transparency_l.Streamlet.Handlers.handle_propose
    streamlet_transparency_l.Streamlet.should_vote
    streamlet_transparency_l.Streamlet.check_from_leader
    streamlet_transparency_l.Streamlet.get_epoch_leader
    streamlet_transparency_l.Streamlet.Signatures.verify_signature
    streamlet_transparency_l.Message.serialize_payload
    streamlet_transparency_l.Blockchain.Manager.index_of_ancestor_chain
    streamlet_transparency_l.Blockchain.Manager.new streamlet_transparency_l.Blockchain.Chain.length
    streamlet_transparency_l.Blockchain.Chain.new streamlet_transparency_l.Blockchain.Chain.head
    streamlet_transparency_l.Blockchain.Chain.genesis_block
    streamlet_transparency_l.Blockchain.Block.new
    streamlet_transparency_l.App.Interface.data_is_valid
    streamlet_transparency_l.Streamlet.Handlers.vote_or_abstain
    streamlet_transparency_l.Streamlet.Handlers.cast_vote
    streamlet_transparency_l.Streamlet.Node.broadcast streamlet_transparency_l.Message.sign_message
    streamlet_transparency_l.Network.broadcast_message
    streamlet_transparency_l.Streamlet.Handlers.add_if_notarized
    streamlet_transparency_l.Streamlet.is_notarized
    streamlet_transparency_l.Blockchain.Manager.observe_notarized
    streamlet_transparency_l.Blockchain.Manager.add_to_chain
    streamlet_transparency_l.Blockchain.Chain.append_block
    streamlet_transparency_l.Blockchain.Manager.Sort.sort_by_length
    streamlet_transparency_l.Blockchain.Manager.try_finalize
    streamlet_transparency_l.Streamlet.Handlers.drop_pending
    streamlet_transparency_l.Streamlet.Run.Ballots.cast_on
    streamlet_transparency_l.Streamlet.Run.Ballots.cast streamlet_transparency_l.Streamlet.sign
    streamlet_transparency_l.Streamlet.Handlers.dispatch
    streamlet_transparency_l.Streamlet.Signatures.verify_message
    streamlet_transparency_l.Streamlet.Signatures.first_signer
ran_d = Polls.network_input (2 ∷ []) draws Polls.opened refl refl

abbrev honest : Bytes → Bool
honest name = bytes_eq name (bytes "a") || bytes_eq name (bytes "c") || bytes_eq name (bytes "d")

abbrev voter : (name : Bytes) → honest name ≡ true → Voter env
voter name good =
    if bytes_eq name (bytes "a")
    then (record { first = waiting 1; last = voted 1; ballots = (101 ∷ []) ∷ []; polls = ran_a })
    else if bytes_eq name (bytes "c")
    then (record { first = follower 3; last = voted 3; ballots = (101 ∷ []) ∷ []; polls = ran_c })
    else (record { first = follower 4; last = voted 4; ballots = (101 ∷ []) ∷ []; polls = ran_d })

voter_ballots :
    (name : Bytes) (good : honest name ≡ true) → (voter name good).ballots ≡ (101 ∷ []) ∷ []
voter_ballots name good = ground arith

notarized_once_example :
    serialize_payload env.codec signed_abc ≡ serialize_payload env.codec signed_bcd
unfolding bytes_eq serialize_payload streamlet_transparency_l.Streamlet.threshold
    streamlet_transparency_l.Streamlet.Signatures.verify_message
    streamlet_transparency_l.Streamlet.Signatures.first_signer
    streamlet_transparency_l.Streamlet.Signatures.verify_signature
notarized_once_example =
    notarized_once env streamlet_a signed_abc signed_bcd 1 honest voter refl (omega arith)
      (omega arith) (λ name good valid. ap (λ l. contains l (101 ∷ [])) (voter_ballots name good))
      (λ name good valid. ap (λ l. contains l (101 ∷ [])) (voter_ballots name good))
      (λ name good e. refl) (omega arith) (omega arith)
