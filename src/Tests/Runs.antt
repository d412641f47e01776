-- ===== src/Tests/Runs.antt =====
-- The node `a` from its start on: it meets `b`, votes for its proposal, and extends its chain.
use streamlet_transparency_l.Prelude.{ℕ, ◌<◌, ◌≡◌, ◌⊎◌, refl, true, some, List, [], ◌∷◌}
use streamlet_transparency_l.Prelude.Bytes.{Bytes, bytes}
use streamlet_transparency_l.Prelude.Outcome.{Outcome, done, panic}
use streamlet_transparency_l.Prelude.Lists.{length, take, get_elem?}
use streamlet_transparency_l.Blockchain.Chain.{LocalChain}
use streamlet_transparency_l.Blockchain.Chain.Links.{Linked}
use streamlet_transparency_l.Blockchain.Chain
use streamlet_transparency_l.Blockchain.Manager
use streamlet_transparency_l.Blockchain.Manager.Invariant.{genesis_entry, new-Inv}
use streamlet_transparency_l.Streamlet.Epoch.{propose, handle_epoch_start}
use streamlet_transparency_l.Streamlet.Run.Proposal.{proposed, proposal_block, propose_lem}
use streamlet_transparency_l.Message.{Message, serialize_payload}
use streamlet_transparency_l.Message
use streamlet_transparency_l.Streamlet
use streamlet_transparency_l.Streamlet.Node.{Node, start}
use streamlet_transparency_l.Streamlet.Handlers.{handle_network_input, handle_propose}
use streamlet_transparency_l.Streamlet.Run.{Step, Reach, here, next}
use streamlet_transparency_l.Streamlet.Run.Continues.{manager_of}
use streamlet_transparency_l.Streamlet.Run.Safety.{Starts, Reach-Linked, Reach-finalized_comparable}
use streamlet_transparency_l.Streamlet.Run.Vote.{Quiet, VotesFor, one_vote_per_epoch}
use streamlet_transparency_l.Tests.Fixtures.{
  toy_crypto, env, draws, first_block, proposal_b, node_a, key_a,
}

abbrev result : Outcome Node → Node
result (done node) = node
result panic = node_a

abbrev first : Node
first = result (start env (Streamlet.new toy_crypto (bytes "a") 1 key_a) (bytes "localhost") 0)

-- After the advertisement of `b`.
abbrev ready : Node
ready = result (handle_network_input env first (1 ∷ []) draws)

-- After the proposal of `b`.
abbrev grown : Node
grown = result (handle_network_input env ready (2 ∷ []) draws)

run : Starts env first × Reach env first ready × Step env ready grown
unfolding streamlet_transparency_l.Streamlet.new streamlet_transparency_l.Streamlet.Node.start
    streamlet_transparency_l.Network.open_init_channel streamlet_transparency_l.App.Interface.new
    streamlet_transparency_l.Network.add_topic streamlet_transparency_l.Network.Peers.new
    streamlet_transparency_l.Prelude.Bytes.bytes_eq
    streamlet_transparency_l.Streamlet.Handlers.handle_network_input
    streamlet_transparency_l.Message.deserialize
    streamlet_transparency_l.Streamlet.Handlers.handle_peer_init
    streamlet_transparency_l.Streamlet.add_public_key
    streamlet_transparency_l.Network.Peers.recv_advertisement
    streamlet_transparency_l.Network.Peers.is_done
    streamlet_transparency_l.Streamlet.Names.peer_names
    streamlet_transparency_l.Streamlet.Handlers.handle_propose
    streamlet_transparency_l.Streamlet.should_vote
    streamlet_transparency_l.Streamlet.check_from_leader
    streamlet_transparency_l.Streamlet.get_epoch_leader
    streamlet_transparency_l.Streamlet.Signatures.verify_signature
    streamlet_transparency_l.Message.serialize_payload
    streamlet_transparency_l.Blockchain.Manager.index_of_ancestor_chain
    streamlet_transparency_l.Blockchain.Manager.new streamlet_transparency_l.Blockchain.Chain.length
    streamlet_transparency_l.Blockchain.Chain.new streamlet_transparency_l.Blockchain.Chain.head
    streamlet_transparency_l.Blockchain.Chain.genesis_block
    streamlet_transparency_l.Blockchain.Block.new
    streamlet_transparency_l.App.Interface.data_is_valid
    streamlet_transparency_l.Streamlet.Handlers.vote_or_abstain
    streamlet_transparency_l.Streamlet.Handlers.cast_vote
    streamlet_transparency_l.Streamlet.Node.broadcast streamlet_transparency_l.Message.sign_message
    streamlet_transparency_l.Network.broadcast_message
    streamlet_transparency_l.Streamlet.Handlers.add_if_notarized
    streamlet_transparency_l.Streamlet.is_notarized
    streamlet_transparency_l.Blockchain.Manager.observe_notarized
    streamlet_transparency_l.Blockchain.Manager.add_to_chain
    streamlet_transparency_l.Blockchain.Chain.append_block
    streamlet_transparency_l.Blockchain.Manager.Sort.sort_by_length
    streamlet_transparency_l.Blockchain.Manager.try_finalize
run = (
  (bytes "a", 1, key_a, bytes "localhost", 0, refl),
  next here (Step.network_input (1 ∷ []) draws refl),
  Step.network_input (2 ∷ []) draws refl,
)

-- The run has extended the notarized chain, and finalized nothing yet.
grown_lengths :
    ((manager_of grown).longest_notarized_chain_length ≡ 2)
    × ((manager_of grown).finalized_chain_length ≡ 1)
unfolding streamlet_transparency_l.Streamlet.new streamlet_transparency_l.Streamlet.Node.start
    streamlet_transparency_l.Network.open_init_channel streamlet_transparency_l.App.Interface.new
    streamlet_transparency_l.Network.add_topic streamlet_transparency_l.Network.Peers.new
    streamlet_transparency_l.Prelude.Bytes.bytes_eq
    streamlet_transparency_l.Streamlet.Handlers.handle_network_input
    streamlet_transparency_l.Message.deserialize
    streamlet_transparency_l.Streamlet.Handlers.handle_peer_init
    streamlet_transparency_l.Streamlet.add_public_key
    streamlet_transparency_l.Network.Peers.recv_advertisement
    streamlet_transparency_l.Network.Peers.is_done
    streamlet_transparency_l.Streamlet.Names.peer_names
    streamlet_transparency_l.Streamlet.Handlers.handle_propose
    streamlet_transparency_l.Streamlet.should_vote
    streamlet_transparency_l.Streamlet.check_from_leader
    streamlet_transparency_l.Streamlet.get_epoch_leader
    streamlet_transparency_l.Streamlet.Signatures.verify_signature
    streamlet_transparency_l.Message.serialize_payload
    streamlet_transparency_l.Blockchain.Manager.index_of_ancestor_chain
    streamlet_transparency_l.Blockchain.Manager.new streamlet_transparency_l.Blockchain.Chain.length
    streamlet_transparency_l.Blockchain.Chain.new streamlet_transparency_l.Blockchain.Chain.head
    streamlet_transparency_l.Blockchain.Chain.genesis_block
    streamlet_transparency_l.Blockchain.Block.new
    streamlet_transparency_l.App.Interface.data_is_valid
    streamlet_transparency_l.Streamlet.Handlers.vote_or_abstain
    streamlet_transparency_l.Streamlet.Handlers.cast_vote
    streamlet_transparency_l.Streamlet.Node.broadcast streamlet_transparency_l.Message.sign_message
    streamlet_transparency_l.Network.broadcast_message
    streamlet_transparency_l.Streamlet.Handlers.add_if_notarized
    streamlet_transparency_l.Streamlet.is_notarized
    streamlet_transparency_l.Blockchain.Manager.observe_notarized
    streamlet_transparency_l.Blockchain.Manager.add_to_chain
    streamlet_transparency_l.Blockchain.Chain.append_block
    streamlet_transparency_l.Blockchain.Manager.Sort.sort_by_length
    streamlet_transparency_l.Blockchain.Manager.try_finalize
    streamlet_transparency_l.Streamlet.Handlers.drop_pending
grown_lengths = (refl, refl)

Reach-Linked_example :
    (chain : LocalChain) × (cut : ℕ) × ((manager_of grown).notarized_chains ≡ chain ∷ [])
    × Linked chain.blocks
    × (get_elem? chain.blocks 0 ≡ some (genesis_entry toy_crypto))
    × ((manager_of grown).longest_notarized_chain_length ≡ length chain.blocks)
    × (0 < cut)
    × ((manager_of grown).finalized_chain.blocks ≡ take cut chain.blocks)
    × Linked (manager_of grown).finalized_chain.blocks
    × ((manager_of grown).finalized_chain_length ≡ length (manager_of grown).finalized_chain.blocks)
Reach-Linked_example = Reach-Linked env first grown run.0 (next run.1 run.2)

Reach-finalized_comparable_example :
    ((k : ℕ) × ((manager_of ready).finalized_chain.blocks
        ≡ take k (manager_of grown).finalized_chain.blocks))
    ⊎ ((k : ℕ) × ((manager_of grown).finalized_chain.blocks
          ≡ take k (manager_of ready).finalized_chain.blocks))
Reach-finalized_comparable_example =
    Reach-finalized_comparable env first ready grown run.0 run.1 (next here run.2)

-- The node of four votes, hears an advertisement, and is asked to vote again.
-- Before the start of its epoch.
abbrev waiting : Node
waiting = record node_a { tick_pending = true }

abbrev voted : Node
voted = result (handle_propose env waiting (proposal_b 0 first_block) first_block)

-- After the start of the epoch, which `b` leads.
abbrev started : Node
started = result (handle_epoch_start env voted 5 draws)

abbrev later : Node
later = result (handle_network_input env started (1 ∷ []) draws)

abbrev vote_a : Bytes
vote_a = 1 ∷ 101 ∷ []

votes :
    VotesFor env waiting (proposal_b 0 first_block) first_block vote_a
    × (handle_propose env waiting (proposal_b 0 first_block) first_block ≡ done voted)
    × Quiet env voted later
    × VotesFor env later (proposal_b 1 first_block) first_block vote_a
unfolding streamlet_transparency_l.Streamlet.Epoch.handle_epoch_start
    streamlet_transparency_l.Streamlet.Epoch.reset_epoch
    streamlet_transparency_l.Streamlet.Epoch.proposes
    streamlet_transparency_l.Streamlet.Run.Casts.start_cast
    streamlet_transparency_l.Prelude.Bytes.bytes_eq
    streamlet_transparency_l.Streamlet.Handlers.handle_network_input
    streamlet_transparency_l.Message.deserialize
    streamlet_transparency_l.Streamlet.Handlers.handle_peer_init
    streamlet_transparency_l.Streamlet.add_public_key
    streamlet_transparency_l.Network.Peers.recv_advertisement
    streamlet_transparency_l.Network.Peers.is_done
    streamlet_transparency_l.Streamlet.Names.peer_names
    streamlet_transparency_l.Streamlet.Handlers.handle_propose
    streamlet_transparency_l.Streamlet.should_vote
    streamlet_transparency_l.Streamlet.check_from_leader
    streamlet_transparency_l.Streamlet.get_epoch_leader
    streamlet_transparency_l.Streamlet.Signatures.verify_signature
    streamlet_transparency_l.Message.serialize_payload
    streamlet_transparency_l.Blockchain.Manager.index_of_ancestor_chain
    streamlet_transparency_l.Blockchain.Manager.new streamlet_transparency_l.Blockchain.Chain.length
    streamlet_transparency_l.Blockchain.Chain.new streamlet_transparency_l.Blockchain.Chain.head
    streamlet_transparency_l.Blockchain.Chain.genesis_block
    streamlet_transparency_l.Blockchain.Block.new
    streamlet_transparency_l.App.Interface.data_is_valid
    streamlet_transparency_l.Streamlet.Handlers.vote_or_abstain
    streamlet_transparency_l.Streamlet.Handlers.cast_vote
    streamlet_transparency_l.Streamlet.Node.broadcast streamlet_transparency_l.Message.sign_message
    streamlet_transparency_l.Network.broadcast_message
    streamlet_transparency_l.Streamlet.Handlers.add_if_notarized
    streamlet_transparency_l.Streamlet.is_notarized
    streamlet_transparency_l.Streamlet.Signatures.verify_message
    streamlet_transparency_l.Streamlet.Signatures.first_signer
    streamlet_transparency_l.Streamlet.Handlers.drop_pending
votes = (
  (Message.sign_message (proposal_b 0 first_block) vote_a, refl),
  refl,
  Quiet.network_input (1 ∷ []) draws (Quiet.epoch_start 5 draws Quiet.still refl refl refl) refl,
  (Message.sign_message (proposal_b 1 first_block) vote_a, refl),
)

one_vote_per_epoch_example :
    (vote_a ≡ vote_a)
    × (serialize_payload env.codec (proposal_b 0 first_block)
        ≡ serialize_payload env.codec (proposal_b 1 first_block))
unfolding serialize_payload
one_vote_per_epoch_example =
    one_vote_per_epoch env waiting voted later (proposal_b 0 first_block) (proposal_b 1 first_block)
      first_block first_block vote_a vote_a refl votes.0 votes.1 votes.2 votes.3 (λ e. refl)

propose_lem_example :
    propose env node_a (bytes "tx") 5 draws
    ≡ done (
        proposed env node_a
          (proposal_block env node_a (genesis_entry toy_crypto) (bytes "tx") 1 5)
          draws)
unfolding Manager.new Chain.new
propose_lem_example =
    propose_lem env node_a (bytes "tx") 5 draws (Chain.new toy_crypto) (genesis_entry toy_crypto)
      (new-Inv toy_crypto) refl refl (λ published p. refl)
