-- ===== src/Streamlet/Votes.antt =====
-- When a node votes, and what it signs.
use streamlet_transparency_l.Prelude.{
  ℕ, ◌+◌, ◌*◌, ◌%◌, ◌≤◌, ◌<◌, ◌≡◌, refl, ◌⊎◌, inl, inr, true, false, Option, none, some, arith,
}
use streamlet_transparency_l.Prelude.Tests.{Option-cases}
use streamlet_transparency_l.Prelude.Lists.{length, get_elem?, get_elem?-some}
use streamlet_transparency_l.Prelude.Outcome.{done, >>=-eq-done}
use streamlet_transparency_l.Prelude.Bytes.{Bytes, bytes_eq_iff, contains, lookup, keys}
use streamlet_transparency_l.Crypto.{Crypto}
use streamlet_transparency_l.Blockchain.Block.{Block}
use streamlet_transparency_l.Blockchain.Manager.{index_of_ancestor_chain}
use streamlet_transparency_l.Message.{Message, Codec, serialize_payload}
use streamlet_transparency_l.Message
use streamlet_transparency_l.Streamlet.Signatures.{verify_message}
use streamlet_transparency_l.Streamlet.Signatures.Quorum.{SharedSigners, verify_message_overlap}
use streamlet_transparency_l.Streamlet.{
  StreamletInstance, sign, sign_message, threshold, get_epoch_leader, first_verifies,
  check_from_leader, may_vote, basic_checks, should_vote,
}

-- Two messages that each carry the threshold of valid signatures, at a node that expects
-- n = 3f + 1 nodes and knows no more keys than that, have at least f + 1 distinct signers in common:
-- one more than the f nodes that may be faulty.
pub quorum_overlap :
    (c : Crypto) (codec : Codec) (node : StreamletInstance) (m1 m2 : Message) (f : ℕ)
    → node.expected_peer_count + 1 ≡ 3 * f + 1
    → length (keys node.public_keys) ≤ node.expected_peer_count + 1
    → threshold (node.expected_peer_count + 1) ≤ verify_message c codec node.public_keys m1
    → threshold (node.expected_peer_count + 1) ≤ verify_message c codec node.public_keys m2
    → SharedSigners c codec node.public_keys m1 m2 (f + 1)
unfolding threshold
quorum_overlap c codec node m1 m2 f count known q1 q2 =
    verify_message_overlap c codec node.public_keys m1 m2 (f + 1) (omega arith)

-- A leader is found whenever as many names are known as nodes are expected, and it is one of them.
pub get_epoch_leader_total :
    (c : Crypto) (node : StreamletInstance) (epoch : ℕ)
    → node.expected_peer_count + 1 ≤ length node.sorted_peer_names
    → (i : ℕ) × (leader : Bytes) × (get_epoch_leader c node epoch ≡ done leader)
      × (get_elem? node.sorted_peer_names i ≡ some leader)
      × (i < node.expected_peer_count + 1)
unfolding get_epoch_leader
get_epoch_leader_total c node epoch enough =
    let i = c.hash_u64 epoch % (node.expected_peer_count + 1) in
    let below : i < node.expected_peer_count + 1 = grind arith in
    let (leader, e) = get_elem?-some node.sorted_peer_names i (omega arith) in
    (i, leader, rw e refl, e, below)

-- The message carries, as its first signature, one of the leader of the epoch.
abbrev pub FromLeader : Crypto → Codec → StreamletInstance → ℕ → Message → Type 0
FromLeader c codec node epoch message =
    (leader : Bytes) × (leader_pk : Bytes) × (get_epoch_leader c node epoch ≡ done leader)
    × (lookup leader node.public_keys ≡ some leader_pk)
    × (first_verifies c codec message leader_pk message.signatures ≡ true)

check_from_leader-FromLeader :
    (c : Crypto) (codec : Codec) (node : StreamletInstance) (epoch : ℕ) (message : Message)
    → check_from_leader c codec node epoch message ≡ done true
    → FromLeader c codec node epoch message
unfolding check_from_leader
check_from_leader-FromLeader c codec node epoch message h =
    let (leader, e, f) = >>=-eq-done (get_epoch_leader c node epoch) _ h in
    elim (Option-cases (lookup leader node.public_keys)) [
      | inl missing ↦ absurd (ground arith)
      | inr (leader_pk, g) ↦ (leader, leader_pk, e, g, ground arith)
    ]

basic_checks_pass :
    (c : Crypto) (codec : Codec) (node : StreamletInstance) (message : Message) (epoch : ℕ)
    (block : Block)
    → basic_checks c codec node message epoch block ≡ done true
    → (check_from_leader c codec node epoch message ≡ done true)
      × (block.epoch ≡ epoch)
      × ((idx : ℕ) × (index_of_ancestor_chain node.blockchain_manager block ≡ done (some idx)))
unfolding basic_checks
basic_checks_pass c codec node message epoch block h = ground arith

-- The part of `should_vote` behind the basic checks.
should_vote_signs :
    (c : Crypto) (codec : Codec) (node : StreamletInstance) (message : Message)
    (vote_this_epoch : Option Bytes) (epoch : ℕ) (block : Block) (signed : Message) (vote : Bytes)
    → should_vote c codec node message vote_this_epoch epoch block ≡ done (signed, some vote)
    → (basic_checks c codec node message epoch block ≡ done true)
      × (vote ≡ sign c node (serialize_payload codec message))
      × (contains message.signatures vote ≡ false)
      × (signed ≡ Message.sign_message message vote)
      × ((vote_this_epoch ≡ none) ⊎ (vote_this_epoch ≡ some vote))
unfolding should_vote sign_message may_vote
should_vote_signs c codec node message none epoch block signed vote h = ground arith
should_vote_signs c codec node message (some old) epoch block signed vote h =
    ground (arith, bytes_eq_iff old (sign c node (serialize_payload codec message)))

-- A node votes for a block only if the proposal's first signature is the epoch leader's, the block
-- has the node's epoch and extends a longest notarized chain, and the node's own signature was not
-- yet on the message. The vote is the node's signature on the payload, appended to the message, and
-- if the node has voted in this epoch already it is that same vote.
pub should_vote_sound :
    (c : Crypto) (codec : Codec) (node : StreamletInstance) (message : Message)
    (vote_this_epoch : Option Bytes) (epoch : ℕ) (block : Block) {signed : Message} {vote : Bytes}
    → should_vote c codec node message vote_this_epoch epoch block ≡ done (signed, some vote)
    → FromLeader c codec node epoch message
      × (block.epoch ≡ epoch)
      × ((idx : ℕ) × (index_of_ancestor_chain node.blockchain_manager block ≡ done (some idx)))
      × (vote ≡ sign c node (serialize_payload codec message))
      × (contains message.signatures vote ≡ false)
      × (signed ≡ Message.sign_message message vote)
      × ((vote_this_epoch ≡ none) ⊎ (vote_this_epoch ≡ some vote))
should_vote_sound c codec node message vote_this_epoch epoch block {signed} {vote} h =
    let (checks, r0, r1, r2, r3) =
      should_vote_signs c codec node message vote_this_epoch epoch block signed vote h in
    let (from_leader, same_epoch, ancestor) =
      basic_checks_pass c codec node message epoch block checks in
    (
      check_from_leader-FromLeader c codec node epoch message from_leader,
      same_epoch,
      ancestor,
      r0,
      r1,
      r2,
      r3,
    )
