-- ===== src/Streamlet.antt =====
-- cs244b_project/src/lib.rs: the state of a node, `StreamletInstance`, and its helpers.
pub mod Signatures
pub mod Names
pub mod Tcp
pub mod Votes
pub mod Run
pub mod Node
pub mod Handlers
pub mod Epoch
use streamlet_transparency_l.Prelude.{
  ℕ, ◌+◌, ◌*◌, ◌/◌, ◌%◌, Bool, true, false, not, ◌&&◌, ◌||◌, Option, none, some, List, [], ◌∷◌,
  ◌++◌,
}
use streamlet_transparency_l.Prelude.Tests.{leb, ◌==◌, if◌then◌else◌}
use streamlet_transparency_l.Prelude.Lists.{length, get_elem?}
use streamlet_transparency_l.Prelude.Outcome.{Outcome, done, panic, expect, ◌>>=◌}
use streamlet_transparency_l.Prelude.Bytes.{
  Bytes, bytes_eq, is_some_of, contains, Dict, lookup, insert,
}
use streamlet_transparency_l.Crypto.{Crypto, Keypair}
use streamlet_transparency_l.Blockchain.Block.{Block}
use streamlet_transparency_l.Blockchain.Manager.{BlockchainManager, index_of_ancestor_chain}
use streamlet_transparency_l.Blockchain.Manager
use streamlet_transparency_l.Message.{Message, Codec, serialize_payload}
use streamlet_transparency_l.Message
use streamlet_transparency_l.App.Interface.{data_is_valid}
use Signatures.{verify_signature, verify_message, get_valid_new_signatures}

pub data CompromiseType : Type 0 where
  wrong_parent_hash no_propose no_vote : CompromiseType
  non_leader_propose early_epoch late_epoch no_compromise : CompromiseType

pub record StreamletInstance : Type 0 where
  pub id : ℕ
  pub name : Bytes
  pub expected_peer_count : ℕ
  pub blockchain_manager : BlockchainManager
  pub pending_transactions : List Bytes
  pub keypair : Keypair
  pub public_keys : Dict Bytes
  pub sorted_peer_names : List Bytes
  pub seen_block_this_epoch : Option Bytes
  pub sigs_on_seen_block_this_epoch : List Bytes
  pub epoch_of_last_published_block : ℕ
  pub compromise_type : CompromiseType
  pub leader_count : ℕ

-- `Keypair::generate` is the argument `keypair`.
unfoldable pub new : Crypto → Bytes → ℕ → Keypair → StreamletInstance
new c name expected_peer_count keypair = record {
  id = 0;
  name = name;
  expected_peer_count = expected_peer_count;
  blockchain_manager = Manager.new c;
  pending_transactions = [];
  keypair = keypair;
  public_keys = (name, keypair.public) ∷ [];
  sorted_peer_names = [];
  seen_block_this_epoch = none;
  sigs_on_seen_block_this_epoch = [];
  epoch_of_last_published_block = 0;
  compromise_type = CompromiseType.no_compromise;
  leader_count = 0;
}

unfoldable pub sign : Crypto → StreamletInstance → Bytes → Bytes
sign c node message = c.sign node.keypair.secret message

-- The message afterwards, and the signature if it is new on the message.
unfoldable pub sign_message : Crypto → Codec → StreamletInstance → Message → Message × Option Bytes
unfolding sign
sign_message c codec node message =
    let signature = sign c node (serialize_payload codec message) in
    if contains message.signatures signature
    then (message, none)
    else (Message.sign_message message signature, some signature)

-- `(2.0 * n as f64 / 3.0).ceil() as usize`: the ceiling of two thirds, exact for n below 2^50.
unfoldable pub threshold : ℕ → ℕ
threshold n = (2 * n + 2) / 3

unfoldable pub is_notarized : Crypto → Codec → StreamletInstance → Block → Message → Bool
unfolding threshold
is_notarized c codec node block message =
    is_some_of node.seen_block_this_epoch block.hash
      && leb (threshold (node.expected_peer_count + 1)) (length node.sigs_on_seen_block_this_epoch)
    || leb (threshold (node.expected_peer_count + 1))
        (verify_message c codec node.public_keys message)

-- The name at the hashed index; an index out of range panics.
unfoldable pub get_epoch_leader : Crypto → StreamletInstance → ℕ → Outcome Bytes
get_epoch_leader c node epoch =
    expect (get_elem? node.sorted_peer_names (c.hash_u64 epoch % (node.expected_peer_count + 1)))

-- The first signature on a message is the one that a leader's key must verify.
unfoldable pub first_verifies : Crypto → Codec → Message → Bytes → List Bytes → Bool
first_verifies c codec message pk [] = false
first_verifies c codec message pk (signature ∷ rest) = verify_signature c codec message signature pk

unfoldable pub check_from_leader : Crypto → Codec → StreamletInstance → ℕ → Message → Outcome Bool
unfolding first_verifies
check_from_leader c codec node epoch message = do
  leader ← get_epoch_leader c node epoch
  elim (lookup leader node.public_keys) [
    | none ↦ done false
    | some leader_pk ↦ done (first_verifies c codec message leader_pk message.signatures)
  ]

-- The last test of `should_vote`: no vote yet in this epoch, or the same vote again.
unfoldable pub may_vote : Option Bytes → Bytes → Bool
may_vote none signature = true
may_vote (some vote) signature = bytes_eq vote signature

-- The four basic checks, each made only if those before it pass.
unfoldable pub basic_checks :
    Crypto → Codec → StreamletInstance → Message → ℕ → Block → Outcome Bool
basic_checks c codec node message epoch block = do
  from_leader ← check_from_leader c codec node epoch message
  if not from_leader then done false else if not (block.epoch == epoch) then done false else (do
    ancestor ← index_of_ancestor_chain node.blockchain_manager block
    elim ancestor [ none ↦ done false | some _ ↦ done (data_is_valid message) ])

-- The message as `should_vote` leaves it, and the signature to vote with.
unfoldable pub should_vote :
    Crypto
    → Codec
    → StreamletInstance
    → Message
    → Option Bytes
    → ℕ
    → Block
    → Outcome (Message × Option Bytes)
unfolding basic_checks sign_message may_vote
should_vote c codec node message vote_this_epoch epoch block = do
  passed ← basic_checks c codec node message epoch block
  if not passed
      then done (message, none)
      else (let (signed, sig) = sign_message c codec node message in
          elim sig [
            | none ↦ done (signed, none)
            | some signature ↦
                if may_vote vote_this_epoch signature
                then done (signed, some signature)
                else done (signed, none)
          ])

-- A key that is already there is replaced.
unfoldable pub add_public_key : StreamletInstance → Bytes → Bytes → StreamletInstance
add_public_key node instance_name pk = record node {
  public_keys = insert instance_name pk node.public_keys;
}

unfoldable pub get_public_key : StreamletInstance → Bytes
get_public_key node = node.keypair.public
