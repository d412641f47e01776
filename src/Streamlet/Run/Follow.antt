-- ===== src/Streamlet/Run/Follow.antt =====
-- lib.rs, a proposal at a node that does not lead the epoch: the vote that it gives.
use streamlet_transparency_l.Prelude.{
  ℕ, ◌+◌, ◌≤◌, ◌≡◌, refl, ap, inl, inr, true, false, Option, none, some, List, [], ◌∷◌, ◌++◌, arith,
}
use streamlet_transparency_l.Prelude.Tests.{==_iff, Option-cases}
use streamlet_transparency_l.Prelude.Lists.{length, get_last?}
use streamlet_transparency_l.Prelude.Outcome.{done}
use streamlet_transparency_l.Prelude.Bytes.{Bytes, Dict, lookup, contains, bytes_eq, bytes_eq_iff}
use streamlet_transparency_l.Crypto.{Crypto}
use streamlet_transparency_l.Blockchain.Block.{Block, SignedBlock}
use streamlet_transparency_l.Blockchain.Chain.{LocalChain}
use streamlet_transparency_l.Blockchain.Chain
use streamlet_transparency_l.Blockchain.Manager.{BlockchainManager, index_of_ancestor_chain}
use streamlet_transparency_l.Blockchain.Manager.Invariant.{Inv}
use streamlet_transparency_l.Message.{
  Message, Codec, MessageKind, MessagePayload, serialize, serialize_payload,
}
use streamlet_transparency_l.Message
use streamlet_transparency_l.Network.{Publication, broadcast_message, publish}
use streamlet_transparency_l.App.Interface.{data_is_valid}
use streamlet_transparency_l.Streamlet.{
  CompromiseType, sign, sign_message, threshold, is_notarized, get_epoch_leader, check_from_leader,
  basic_checks, should_vote, may_vote, first_verifies,
}
use streamlet_transparency_l.Streamlet.Signatures.{
  verify_signature, first_signer, count_signers, verify_message,
}
use streamlet_transparency_l.Streamlet.Node.{Env, Node, broadcast}
use streamlet_transparency_l.Streamlet.Handlers.{
  add_if_notarized, cast_vote, drop_pending, vote_or_abstain, act_on_vote, handle_propose,
}
use streamlet_transparency_l.Streamlet.Run.Continues.{manager_of}

-- A message has no more valid signers than signatures.
count_signers_le :
    (c : Crypto) (codec : Codec) (d : Dict Bytes) (message : Message) (signatures : List Bytes)
    (num : ℕ) (seen : List Bytes)
    → count_signers c codec d message signatures num seen ≤ num + length signatures
unfolding count_signers
count_signers_le c codec d message [] num seen = omega arith
count_signers_le c codec d message (signature ∷ rest) num seen =
    elim (Option-cases (first_signer c codec message signature seen d)) [
      | inl nobody ↦
          rw (nobody, count_signers)
            (omega (arith, count_signers_le c codec d message rest num seen))
      | inr (name, found) ↦
          rw (found, count_signers)
            (omega (arith, count_signers_le c codec d message rest (num + 1) (name ∷ seen)))
    ]

pub verify_message_le :
    (c : Crypto) (codec : Codec) (d : Dict Bytes) (message : Message)
    → verify_message c codec d message ≤ length message.signatures
unfolding verify_message
verify_message_le c codec d message =
    omega (arith, count_signers_le c codec d message message.signatures 0 [])

-- A block on the head of the only chain descends from it.
index_of_only :
    (c : Crypto) (m : BlockchainManager) (chain : LocalChain) (block : Block) (last : SignedBlock)
    → Inv c m chain
    → get_last? chain.blocks ≡ some last
    → last.block.hash ≡ block.parent_hash
    → index_of_ancestor_chain m block ≡ done (some 0)
unfolding index_of_ancestor_chain Chain.head Chain.length
index_of_only c m chain block last v e parent =
    let only = v.only in
    let longest = v.longest in
    let same = (bytes_eq_iff last.block.hash block.parent_hash).1 parent in ground arith

-- The node's own signature on the payload of a message.
abbrev pub own_signature : Env → Node → Message → Bytes
own_signature env node message =
    sign env.crypto node.streamlet (serialize_payload env.codec message)

-- What lets a node vote: the message is a proposal that only the leader signed, of the node's
-- epoch, on the head of its chain; and the node has not voted, nor is it compromised.
pub record Votable (env : Env) (node : Node) (message : Message) (block : Block) : Type 0 where
  pub leader : Bytes
  pub leader_pk : Bytes
  pub signature : Bytes
  pub chain : LocalChain
  pub last : SignedBlock
  pub leads : get_epoch_leader env.crypto node.streamlet node.current_epoch ≡ done leader
  pub known : lookup leader node.streamlet.public_keys ≡ some leader_pk
  pub signed : message.signatures ≡ signature ∷ []
  pub valid : verify_signature env.crypto env.codec message signature leader_pk ≡ true
  pub epoch : block.epoch ≡ node.current_epoch
  pub holds : Inv env.crypto (manager_of node) chain
  pub head : get_last? chain.blocks ≡ some last
  pub parent : last.block.hash ≡ block.parent_hash
  pub other : bytes_eq signature (own_signature env node message) ≡ false
  pub unset : node.vote_this_epoch ≡ none
  pub honest : node.streamlet.compromise_type ≡ CompromiseType.no_compromise

module _ (env : Env) (node : Node) (message : Message) (block : Block)
    (w : Votable env node message block) where
  check_passes :
      check_from_leader env.crypto env.codec node.streamlet node.current_epoch message ≡ done true
  unfolding check_from_leader first_verifies
  check_passes =
      let leads = w.leads in
      let known = w.known in let signed = w.signed in let valid = w.valid in ground arith

  checks_pass :
      basic_checks env.crypto env.codec node.streamlet message node.current_epoch block ≡ done true
  unfolding basic_checks data_is_valid
  checks_pass =
      let checked = check_passes in
      let index =
        index_of_only env.crypto (manager_of node) w.chain block w.last w.holds w.head w.parent in
      let same = (==_iff block.epoch node.current_epoch).1 w.epoch in rw (checked, same, index)

  signs : sign_message env.crypto env.codec node.streamlet message ≡ (
    Message.sign_message message (own_signature env node message),
    some (own_signature env node message),
  )
  unfolding sign_message
  signs =
      let signed = w.signed in
      let other = w.other in
      let fresh : contains message.signatures (own_signature env node message) ≡ false =
        ground arith in
      rw fresh refl

  pub should_vote_votes :
      should_vote env.crypto env.codec node.streamlet message node.vote_this_epoch
        node.current_epoch block
      ≡ done (
        Message.sign_message message (own_signature env node message),
        some (own_signature env node message),
      )
  unfolding should_vote
  should_vote_votes =
      let passed = checks_pass in
      let signing = signs in
      rw (passed, signing, w.unset, may_vote)
        (ap (λ (r : Message × Option Bytes). done (r.0, some (own_signature env node message)))
          signing)

-- The message that goes on with a node's signature, as a vote.
abbrev pub vote_message : Env → Node → Message → Message
vote_message env node message =
    record (Message.sign_message message (own_signature env node message)) {
      kind = MessageKind.vote;
    }

-- The node that has voted for a proposal, before it looks whether the block is notarized.
abbrev pub voted_node : Env → Node → Message → Block → Node
voted_node env node message block = record node {
  streamlet = record (node.streamlet) {
    seen_block_this_epoch = some block.hash;
    sigs_on_seen_block_this_epoch =
        node.streamlet.sigs_on_seen_block_this_epoch
        ++ (Message.sign_message message (own_signature env node message)).signatures;
  };
  net_stack = publish node.net_stack (record {
    topic = node.net_stack.topic;
    message = serialize env.codec (vote_message env node message);
  });
  vote_this_epoch = some (own_signature env node message);
}

module _ (env : Env) (node : Node) (message : Message) (block : Block)
    (takes : (published : List Publication) (p : Publication)
      → env.gossip.publishes published p ≡ true) where
  votes_out :
      node.streamlet.compromise_type ≡ CompromiseType.no_compromise
      → vote_or_abstain env node block
          (Message.sign_message message (own_signature env node message))
          (own_signature env node message)
        ≡ done (voted_node env node message block)
  unfolding vote_or_abstain cast_vote broadcast broadcast_message
  votes_out honest = rw (honest, takes) refl

  few_signatures :
      (signature : Bytes)
      → message.signatures ≡ signature ∷ []
      → node.streamlet.sigs_on_seen_block_this_epoch ≡ []
      → 3 ≤ threshold (node.streamlet.expected_peer_count + 1)
      → is_notarized env.crypto env.codec
          (voted_node env node message block).streamlet
          block
          message
        ≡ false
  unfolding is_notarized Message.sign_message
  few_signatures signature signed empty high =
      let one = ap length signed in
      let valid = verify_message_le env.crypto env.codec node.streamlet.public_keys message in
      rw (empty, signed) (ground arith)

-- A node that can vote for a proposal, has seen no signatures in the epoch, and wants three at
-- least for a block, does vote, where the network takes the message: its signature goes out behind
-- the leader's, both are remembered, and the proposed data is no longer pending.
pub handle_propose_follows :
    (env : Env) (node : Node) (message : Message) (block : Block)
    → Votable env node message block
    → ((published : List Publication) (p : Publication) → env.gossip.publishes published p ≡ true)
    → node.streamlet.sigs_on_seen_block_this_epoch ≡ []
    → 3 ≤ threshold (node.streamlet.expected_peer_count + 1)
    → handle_propose env node message block
      ≡ done (drop_pending (voted_node env node message block) block)
unfolding handle_propose act_on_vote add_if_notarized
handle_propose_follows env node message block w takes empty high =
    let decided = should_vote_votes env node message block w in
    let out = votes_out env node message block takes w.honest in
    let few = few_signatures env node message block takes w.signature w.signed empty high in
    rw (decided, out, few) refl
