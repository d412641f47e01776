-- ===== src/Streamlet/Run/Vote.antt =====
-- Two votes of a node with no tick of the timer between them: with no proposal of its own between
-- them either, and with the second vote on its own proposal.
use streamlet_transparency_l.Prelude.{
  ℕ, ◌∷◌, [], ◌≡◌, refl, sym, subst, ap, ◌∙◌, ◌⊎◌, inl, inr, true, false, Option, none, some, arith,
}
use streamlet_transparency_l.Prelude.Outcome.{Outcome, done, done-injective, ◌>>=◌, >>=-eq-done}
use streamlet_transparency_l.Prelude.Bytes.{Bytes}
use streamlet_transparency_l.Crypto.{Keypair}
use streamlet_transparency_l.Blockchain.Block.{Block}
use streamlet_transparency_l.Message.{Message, serialize_payload}
use streamlet_transparency_l.Network.Peers.{Draws}
use streamlet_transparency_l.Streamlet.{sign, should_vote}
use streamlet_transparency_l.Streamlet.Votes.{should_vote_sound}
use streamlet_transparency_l.Streamlet.Node.{Env, Node}
use streamlet_transparency_l.Streamlet.Handlers.{
  act_on_vote, add_if_notarized, drop_pending, vote_or_abstain, handle_propose,
  handle_network_input, does_vote,
}
use streamlet_transparency_l.Streamlet.Epoch.{
  handle_user_input, handle_tcp_request_chain, handle_tcp_request_block, handle_epoch_start,
}
use streamlet_transparency_l.Streamlet.Run.Casts.{start_cast, handle_epoch_start-Casts}
use streamlet_transparency_l.Streamlet.Run.Steady.{
  Steady, Steady-refl, Untouched, Untouched-Steady, handle_network_input-Steady,
  handle_propose-Steady, handle_user_input-Untouched, vote_or_abstain_sets,
  add_if_notarized-Untouched,
}

-- Events other than a tick of the timer. A signal of an earlier tick may start an epoch among them,
-- if the node then proposes nothing.
pub data Quiet (env : Env) (node : Node) : Node → Type 0 where
  still : Quiet env node node
  network_input :
      {n m : Node} (encoded : Bytes) (draws : Draws)
      → Quiet env node n
      → handle_network_input env n encoded draws ≡ done m
      → Quiet env node m
  user_input :
      {n m : Node} (line : Bytes) (draws end_draws : Draws)
      → Quiet env node n
      → handle_user_input env n line draws end_draws ≡ done m
      → Quiet env node m
  tcp_request_chain : {n : Node} → Quiet env node n → Quiet env node (handle_tcp_request_chain n)
  tcp_request_block :
      {n m : Node} → Quiet env node n → handle_tcp_request_block n ≡ done m → Quiet env node m
  epoch_start :
      {n m : Node} (rand : ℕ) (draws : Draws)
      → Quiet env node n
      → n.tick_pending ≡ true
      → handle_epoch_start env n rand draws ≡ done m
      → start_cast env n rand ≡ done []
      → Quiet env node m

Steady-trans : {n m o : Node} → Steady n m → Steady m o → Steady n o
Steady-trans s t = record {
  keypair = t.keypair ∙ s.keypair;
  epoch = t.epoch ∙ s.epoch;
  vote = elim s.vote [
    | inl unset ↦ inl unset
    | inr same ↦ elim t.vote [ inl unset ↦ inl (sym same ∙ unset) | inr same' ↦ inr (same' ∙ same) ]
  ];
}

-- The start of an epoch at which the node proposes nothing.
unproposed-Untouched :
    (env : Env) (node : Node) (rand : ℕ) (draws : Draws) {node' : Node}
    → handle_epoch_start env node rand draws ≡ done node'
    → start_cast env node rand ≡ done []
    → Untouched node node'
unproposed-Untouched env node rand draws e silent =
    let (cast, made, casts) = handle_epoch_start-Casts env node rand draws e in
    let nothing : cast ≡ [] = done-injective (sym made ∙ silent) in
    elim casts.vote [
      | inl (_, same) ↦ record { keypair = casts.keypair; epoch = casts.epoch; vote = same }
      | inr (payload, one, _) ↦ absurd (ground arith)
    ]

Quiet-Steady : (env : Env) {node node' : Node} → Quiet env node node' → Steady node node'
unfolding handle_tcp_request_chain handle_tcp_request_block
Quiet-Steady env still = Steady-refl refl
Quiet-Steady env (network_input {n} encoded draws before e) =
    Steady-trans (Quiet-Steady env before) (handle_network_input-Steady env n encoded draws e)
Quiet-Steady env (user_input {n} line draws end_draws before e) =
    Steady-trans (Quiet-Steady env before)
      (Untouched-Steady (handle_user_input-Untouched env n line draws end_draws e))
Quiet-Steady env (tcp_request_chain {n} before) =
    Steady-trans (Quiet-Steady env before)
      (record { keypair = refl; epoch = refl; vote = inr refl })
Quiet-Steady env (tcp_request_block {n} {m} before e) =
    Steady-trans (Quiet-Steady env before) (Untouched-Steady (ground arith))
Quiet-Steady env (epoch_start {n} rand draws before pending e silent) =
    Steady-trans (Quiet-Steady env before)
      (Untouched-Steady (unproposed-Untouched env n rand draws e silent))

-- The proposal makes the node vote with this signature.
abbrev pub VotesFor : Env → Node → Message → Block → Bytes → Type 0
VotesFor env node message block vote =
    (signed : Message) × (should_vote env.crypto env.codec node.streamlet message
        node.vote_this_epoch node.current_epoch block
      ≡ done (signed, some vote))

votes_after :
    (node voted added : Node) (vote : Bytes) (block : Block) {node' : Node}
    → does_vote node.streamlet.compromise_type ≡ true
    → (voted.streamlet.keypair ≡ node.streamlet.keypair)
      × (voted.current_epoch ≡ node.current_epoch)
      × ((does_vote node.streamlet.compromise_type ≡ true) × (voted.vote_this_epoch ≡ some vote)
          ⊎ (does_vote node.streamlet.compromise_type ≡ false)
            × (voted.vote_this_epoch ≡ node.vote_this_epoch))
    → Untouched voted added
    → node' ≡ drop_pending added block
    → (node'.vote_this_epoch ≡ some vote) × (node'.streamlet.keypair ≡ node.streamlet.keypair)
unfolding drop_pending
votes_after node voted added vote block votes sets kept e = ground arith

pub handle_propose_votes :
    (env : Env) (node : Node) (message : Message) (block : Block) (vote : Bytes) {node' : Node}
    → does_vote node.streamlet.compromise_type ≡ true
    → VotesFor env node message block vote
    → handle_propose env node message block ≡ done node'
    → (node'.vote_this_epoch ≡ some vote) × (node'.streamlet.keypair ≡ node.streamlet.keypair)
unfolding handle_propose act_on_vote
handle_propose_votes env node message block vote {node'} votes (signed, e) h =
    let acts : act_on_vote env node message block signed (some vote) ≡ done node' =
      subst
        (λ (r : Outcome (Message × Option Bytes)).
          (r >>= λ p. act_on_vote env node message block p.0 p.1) ≡ done node')
        e h in
    let (voted, f, g) = >>=-eq-done (vote_or_abstain env node block signed vote) _ acts in
    let (added, k, l) = >>=-eq-done (add_if_notarized env voted block message) _ g in
    let sets = vote_or_abstain_sets env node block signed vote f in
    let kept = add_if_notarized-Untouched env voted block message k in
    let same : node' ≡ drop_pending added block = sym (done-injective l) in
    votes_after node voted added vote block votes sets kept same

same_vote :
    (voted later : Node) (v1 v2 : Bytes)
    → voted.vote_this_epoch ≡ some v1
    → (voted.vote_this_epoch ≡ none) ⊎ (later.vote_this_epoch ≡ voted.vote_this_epoch)
    → (later.vote_this_epoch ≡ none) ⊎ (later.vote_this_epoch ≡ some v2)
    → v1 ≡ v2
same_vote voted later v1 v2 sets kept may = ground arith

-- A node that votes for a proposal, and some events later for another, with no tick of the timer
-- and no proposal of its own in between, signs the same bytes both times, unless the two payloads
-- are a collision of its signatures.
pub one_vote_per_epoch :
    (env : Env) (node voted later : Node) (m1 m2 : Message) (b1 b2 : Block) (v1 v2 : Bytes)
    → does_vote node.streamlet.compromise_type ≡ true
    → VotesFor env node m1 b1 v1
    → handle_propose env node m1 b1 ≡ done voted
    → Quiet env voted later
    → VotesFor env later m2 b2 v2
    → (sign env.crypto node.streamlet (serialize_payload env.codec m1)
          ≡ sign env.crypto node.streamlet (serialize_payload env.codec m2)
        → serialize_payload env.codec m1 ≡ serialize_payload env.codec m2)
    → (v1 ≡ v2) × (serialize_payload env.codec m1 ≡ serialize_payload env.codec m2)
unfolding sign
one_vote_per_epoch env node voted later m1 m2 b1 b2 v1 v2 votes for1 e quiet for2 injective =
    let (sets, key1) = handle_propose_votes env node m1 b1 v1 votes for1 e in
    let steady = Quiet-Steady env quiet in
    let sound1 =
      should_vote_sound env.crypto env.codec node.streamlet m1 node.vote_this_epoch
        node.current_epoch b1 for1.1 in
    let sound2 =
      should_vote_sound env.crypto env.codec later.streamlet m2 later.vote_this_epoch
        later.current_epoch b2 for2.1 in
    let same : v1 ≡ v2 = same_vote voted later v1 v2 sets steady.vote sound2.6 in
    let key : later.streamlet.keypair.secret ≡ node.streamlet.keypair.secret =
      ap (λ (k : Keypair). k.secret) (steady.keypair ∙ key1) in
    (
      same,
      injective (
          sym sound1.3
          ∙ same
          ∙ sound2.3
          ∙ ap (λ s. env.crypto.sign s (serialize_payload env.codec m2)) key),
    )

-- The start of an epoch does not look at the vote: a node that votes for a proposal, and then
-- handles a start of an epoch at which it makes a proposal of its own, has signed both payloads in
-- one epoch. Its vote was its signature on the payload it voted for, and is then the one on its own.
pub epoch_start_votes_again :
    (env : Env) (node voted later : Node) (message : Message) (block : Block) (v own : Bytes)
    (rand : ℕ) (draws : Draws)
    → does_vote node.streamlet.compromise_type ≡ true
    → VotesFor env node message block v
    → handle_propose env node message block ≡ done voted
    → handle_epoch_start env voted rand draws ≡ done later
    → start_cast env voted rand ≡ done (own ∷ [])
    → (later.current_epoch ≡ node.current_epoch)
      × (voted.vote_this_epoch
          ≡ some (sign env.crypto node.streamlet (serialize_payload env.codec message)))
      × (later.vote_this_epoch ≡ some (sign env.crypto node.streamlet own))
unfolding sign
epoch_start_votes_again env node voted later message block v own rand draws votes for1 e h c =
    let (sets, key) = handle_propose_votes env node message block v votes for1 e in
    let sound =
      should_vote_sound env.crypto env.codec node.streamlet message node.vote_this_epoch
        node.current_epoch block for1.1 in
    let (cast, made, casts) = handle_epoch_start-Casts env voted rand draws h in
    let one : cast ≡ own ∷ [] = done-injective (sym made ∙ c) in
    (
      casts.epoch ∙ (handle_propose-Steady env node message block e).epoch,
      sets ∙ ap some sound.3,
      elim casts.vote [
        | inl (nothing, _) ↦ absurd (ground arith)
        | inr (payload, is, vote) ↦
            let same : payload ≡ own = ground arith in
            vote
            ∙ ap (λ (k : Keypair). some (env.crypto.sign k.secret payload)) key
            ∙ ap (λ p. some (env.crypto.sign node.streamlet.keypair.secret p)) same
      ],
    )
