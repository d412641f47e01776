-- ===== src/Streamlet/Run/Cases.antt =====
-- How a proposal is handled, taken apart into its stages.
use streamlet_transparency_l.Prelude.{◌≡◌, refl, ap, sym, ◌∙◌, ◌⊎◌, inl, inr, Option, none, some}
use streamlet_transparency_l.Prelude.Outcome.{done, >>=-eq-done, done-injective}
use streamlet_transparency_l.Prelude.Bytes.{Bytes}
use streamlet_transparency_l.Blockchain.Block.{Block}
use streamlet_transparency_l.Message.{Message}
use streamlet_transparency_l.Streamlet.{should_vote}
use streamlet_transparency_l.Streamlet.Node.{Env, Node}
use streamlet_transparency_l.Streamlet.Handlers.{
  add_if_notarized, drop_pending, vote_or_abstain, act_on_vote, handle_propose,
}

act_on_vote_cases :
    (env : Env) (node : Node) (message : Message) (block : Block) (new_message : Message)
    (vote : Option Bytes) {node' : Node}
    → act_on_vote env node message block new_message vote ≡ done node'
    → (node' ≡ node)
      ⊎ ((signature : Bytes) × (voted added : Node) × (vote ≡ some signature)
          × (vote_or_abstain env node block new_message signature ≡ done voted)
          × (add_if_notarized env voted block message ≡ done added)
          × (node' ≡ drop_pending added block))
unfolding act_on_vote
act_on_vote_cases env node message block new_message none h = inl (sym (done-injective h))
act_on_vote_cases env node message block new_message (some signature) h =
    let (voted, e, f) = >>=-eq-done (vote_or_abstain env node block new_message signature) _ h in
    let (added, g, k) = >>=-eq-done (add_if_notarized env voted block message) _ f in
    inr (signature, voted, added, refl, e, g, sym (done-injective k))

-- Either nothing happens, or the node decides to vote and goes through the three stages.
pub handle_propose_cases :
    (env : Env) (node : Node) (message : Message) (block : Block) {node' : Node}
    → handle_propose env node message block ≡ done node'
    → (node' ≡ node)
      ⊎ ((new_message : Message) × (signature : Bytes) × (voted added : Node) × (should_vote
              env.crypto env.codec node.streamlet message node.vote_this_epoch node.current_epoch
              block
            ≡ done (new_message, some signature))
          × (vote_or_abstain env node block new_message signature ≡ done voted)
          × (add_if_notarized env voted block message ≡ done added)
          × (node' ≡ drop_pending added block))
unfolding handle_propose
handle_propose_cases env node message block h =
    let (decision, e, f) =
      >>=-eq-done
        (should_vote env.crypto env.codec node.streamlet message node.vote_this_epoch
          node.current_epoch block)
        _ h in
    elim (act_on_vote_cases env node message block decision.0 decision.1 f) [
      | inl same ↦ inl same
      | inr (signature, voted, added, p, e1, e2, e3) ↦
          inr
            (decision.0, signature, voted, added, e ∙ ap (λ v. done (decision.0, v)) p, e1, e2, e3)
    ]
