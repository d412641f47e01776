-- ===== src/Tests/Nodes.antt =====
-- Votes, quorums, leaders and keys at concrete inputs.
use streamlet_transparency_l.Prelude.{
  not, ◌&&◌, ℕ, ◌+◌, ◌≡◌, ◌≢◌, ◌↔◌, ◌⊎◌, inl, inr, refl, Bool, true, false, Option, none, some,
  List, [], ◌∷◌, map, arith, ◌<◌, ap,
}
use streamlet_transparency_l.Prelude.Bytes.{
  values, Bytes, bytes, bytes_eq, lookup, keys, contains, contains_key,
}
use streamlet_transparency_l.Prelude.Outcome.{done}
use streamlet_transparency_l.Blockchain.Manager.{index_of_ancestor_chain}
use streamlet_transparency_l.Message.{Message, MessageKind, MessagePayload, PeerAdvertisement}
use streamlet_transparency_l.Message
use streamlet_transparency_l.Network.Peers.{Peers, InitStatus, is_done, permanently_delete_peer}
use streamlet_transparency_l.Streamlet.{is_notarized, get_epoch_leader, sign, CompromiseType}
use streamlet_transparency_l.Streamlet.Signatures.{verify_message, get_valid_new_signatures}
use streamlet_transparency_l.Streamlet.Signatures.Count.{signer_count, verify_message_counts}
use streamlet_transparency_l.Streamlet.Signatures.Fresh.{
  verifies_some, contains-get_valid_new_signatures,
}
use streamlet_transparency_l.Streamlet.Signatures.Quorum.{
  Signers, SharedSigners, verify_message-Signers,
}
use streamlet_transparency_l.Streamlet.Votes.{FromLeader, should_vote_sound, quorum_overlap}
use streamlet_transparency_l.Streamlet.Node.{Node}
use streamlet_transparency_l.Streamlet.Run.Faults.{
  unverified_signatures_notarize, handle_peer_init_replaces_key,
}
use streamlet_transparency_l.Tests.Fixtures.{
  toy_crypto, env, draws, advertisement_b, block_on, first_block, proposal_of, proposal_b, node_a,
  streamlet_a, peers_of_a, open_net,
}

-- A block of `first_block`'s height, and messages with three signatures each.
abbrev signed_abc : Message
signed_abc = proposal_of first_block ((1 ∷ 101 ∷ []) ∷ (2 ∷ 101 ∷ []) ∷ (3 ∷ 101 ∷ []) ∷ [])

abbrev signed_bcd : Message
signed_bcd = proposal_of (block_on [] 2 1) ((2 ∷ 102 ∷ []) ∷ (3 ∷ 102 ∷ []) ∷ (4 ∷ 102 ∷ []) ∷ [])

quorum_overlap_example :
    SharedSigners toy_crypto env.codec streamlet_a.public_keys signed_abc signed_bcd 2
unfolding verify_message streamlet_transparency_l.Streamlet.threshold
    streamlet_transparency_l.Streamlet.Signatures.first_signer
    streamlet_transparency_l.Streamlet.Signatures.verify_signature bytes_eq
    Message.serialize_payload
quorum_overlap_example =
    quorum_overlap toy_crypto env.codec streamlet_a signed_abc signed_bcd 1 refl (omega arith)
      (omega arith) (omega arith)

verify_message-Signers_example :
    Signers toy_crypto env.codec signed_abc streamlet_a.public_keys
      (verify_message toy_crypto env.codec streamlet_a.public_keys signed_abc)
verify_message-Signers_example =
    verify_message-Signers toy_crypto env.codec signed_abc streamlet_a.public_keys

verify_message_counts_example :
    verify_message toy_crypto env.codec streamlet_a.public_keys signed_abc
    ≡ signer_count toy_crypto env.codec signed_abc streamlet_a.public_keys signed_abc.signatures
unfolding bytes_eq streamlet_transparency_l.Streamlet.Signatures.verify_signature
    Message.serialize_payload
verify_message_counts_example =
    verify_message_counts toy_crypto env.codec signed_abc streamlet_a.public_keys
      (refl, (refl, (refl, (refl, tt)))) (omega arith, (omega arith, (omega arith, tt)))

-- `b` was seen, `c` is new, and the last signature is nobody's.
abbrev vote_bc : Message
vote_bc = proposal_of first_block ((2 ∷ 101 ∷ []) ∷ (3 ∷ 101 ∷ []) ∷ (0 ∷ []) ∷ [])

abbrev seen_b : List Bytes
seen_b = (2 ∷ 101 ∷ []) ∷ []

abbrev signature_c : Bytes
signature_c = 3 ∷ 101 ∷ []

contains-get_valid_new_signatures_example :
    contains
      (get_valid_new_signatures toy_crypto env.codec streamlet_a.public_keys seen_b vote_bc)
      signature_c
    ≡ (contains vote_bc.signatures signature_c
        && (not (contains seen_b signature_c)
            && verifies_some toy_crypto env.codec vote_bc
                (values streamlet_a.public_keys)
                signature_c))
contains-get_valid_new_signatures_example =
    contains-get_valid_new_signatures toy_crypto env.codec streamlet_a.public_keys seen_b vote_bc
      signature_c

abbrev proposal : Message
proposal = proposal_b 0 first_block

abbrev no_vote_yet : Option Bytes
no_vote_yet = none

-- The vote of `a` for it.
abbrev vote_a : Bytes
vote_a = 1 ∷ 101 ∷ []

should_vote_sound_example :
    FromLeader toy_crypto env.codec streamlet_a 1 proposal
    × (first_block.epoch ≡ 1)
    × ((idx : ℕ) × (index_of_ancestor_chain streamlet_a.blockchain_manager first_block
          ≡ done (some idx)))
    × (vote_a ≡ sign toy_crypto streamlet_a (101 ∷ []))
    × (contains proposal.signatures vote_a ≡ false)
    × (Message.sign_message proposal vote_a ≡ Message.sign_message proposal vote_a)
    × ((no_vote_yet ≡ none) ⊎ (no_vote_yet ≡ some vote_a))
unfolding streamlet_transparency_l.Streamlet.should_vote
    streamlet_transparency_l.Streamlet.check_from_leader get_epoch_leader bytes_eq
    streamlet_transparency_l.Streamlet.Signatures.verify_signature Message.serialize_payload
    index_of_ancestor_chain streamlet_transparency_l.Blockchain.Manager.new
    streamlet_transparency_l.Blockchain.Chain.length streamlet_transparency_l.Blockchain.Chain.new
    streamlet_transparency_l.Blockchain.Chain.head
    streamlet_transparency_l.Blockchain.Chain.genesis_block
    streamlet_transparency_l.Blockchain.Block.new
    streamlet_transparency_l.App.Interface.data_is_valid
should_vote_sound_example =
    should_vote_sound toy_crypto env.codec streamlet_a proposal no_vote_yet 1 first_block refl

-- The leader's signature and one that nobody made.
abbrev unverified : Message
unverified = proposal_of first_block ((2 ∷ 101 ∷ []) ∷ (0 ∷ []) ∷ [])

-- `a` has voted for it.
abbrev unverified_voted : Node
unverified_voted = record node_a {
  streamlet = record streamlet_a {
    seen_block_this_epoch = some (101 ∷ []);
    sigs_on_seen_block_this_epoch = (2 ∷ 101 ∷ []) ∷ (0 ∷ []) ∷ vote_a ∷ [];
  };
  vote_this_epoch = some vote_a;
  net_stack = record open_net {
    published = record { topic = bytes "streamlet"; message = 101 ∷ [] } ∷ [];
  };
}

unverified_signatures_notarize_example :
    is_notarized toy_crypto env.codec unverified_voted.streamlet first_block unverified ≡ true
unfolding streamlet_transparency_l.Streamlet.should_vote
    streamlet_transparency_l.Streamlet.check_from_leader
    streamlet_transparency_l.Streamlet.get_epoch_leader
    streamlet_transparency_l.Prelude.Bytes.bytes_eq
    streamlet_transparency_l.Streamlet.Signatures.verify_signature
    streamlet_transparency_l.Message.serialize_payload
    streamlet_transparency_l.Blockchain.Manager.index_of_ancestor_chain
    streamlet_transparency_l.Blockchain.Manager.new streamlet_transparency_l.Blockchain.Chain.length
    streamlet_transparency_l.Blockchain.Chain.new streamlet_transparency_l.Blockchain.Chain.head
    streamlet_transparency_l.Blockchain.Chain.genesis_block
    streamlet_transparency_l.Blockchain.Block.new
    streamlet_transparency_l.App.Interface.data_is_valid
    streamlet_transparency_l.Streamlet.Handlers.vote_or_abstain
    streamlet_transparency_l.Streamlet.Handlers.cast_vote
    streamlet_transparency_l.Streamlet.Node.broadcast streamlet_transparency_l.Message.serialize
    streamlet_transparency_l.Message.sign_message streamlet_transparency_l.Network.broadcast_message
    streamlet_transparency_l.Streamlet.threshold
unverified_signatures_notarize_example =
    unverified_signatures_notarize env node_a unverified_voted unverified
      (Message.sign_message unverified vote_a) first_block vote_a refl refl refl (omega arith)

-- Another key under the name of `b`.
abbrev impostor : PeerAdvertisement
impostor = record advertisement_b { public_key = 9 ∷ [] }

abbrev replaced : Node
replaced = record node_a {
  streamlet = record streamlet_a {
    public_keys =
        (bytes "a", 1 ∷ []) ∷ (bytes "b", 9 ∷ []) ∷ (bytes "c", 3 ∷ []) ∷ (bytes "d", 4 ∷ []) ∷ [];
  };
  peers = record peers_of_a { peer_list = (bytes "b", 9 ∷ []) ∷ [] };
}

handle_peer_init_replaces_key_example :
    lookup (bytes "b") replaced.streamlet.public_keys ≡ some (9 ∷ [])
unfolding streamlet_transparency_l.Streamlet.Handlers.handle_peer_init
    streamlet_transparency_l.Network.Peers.recv_advertisement is_done
    streamlet_transparency_l.Streamlet.add_public_key
    streamlet_transparency_l.Streamlet.Names.peer_names bytes_eq
handle_peer_init_replaces_key_example =
    handle_peer_init_replaces_key env node_a replaced impostor draws (bytes "b") refl
