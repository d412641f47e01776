-- ===== src/Streamlet/Run/Casts.antt =====
-- lib.rs, the start of an epoch in `StreamletInstance::run`: what a node that proposes votes for.
use streamlet_transparency_l.Prelude.{
  ℕ, ◌%◌, ◌||◌, true, false, ◌≡◌, refl, sym, ap, ◌∙◌, ◌⊎◌, inl, inr, some, List, [], ◌∷◌, arith,
}
use streamlet_transparency_l.Prelude.Tests.{if_true, if◌then◌else◌, ◌==◌, Bool-cases}
use streamlet_transparency_l.Prelude.Outcome.{
  Outcome, done, ◌>>=◌, >>=-eq-done, done-injective, add_u64,
}
use streamlet_transparency_l.Prelude.Bytes.{Bytes}
use streamlet_transparency_l.Crypto.{Keypair}
use streamlet_transparency_l.Blockchain.Block.{Block, SignedBlock}
use streamlet_transparency_l.Blockchain.Manager.{
  BlockchainManager, export_local_finalized_chain_to_file,
}
use streamlet_transparency_l.Blockchain.Manager
use streamlet_transparency_l.Message.{Message, MessageKind, MessagePayload}
use streamlet_transparency_l.Message
use streamlet_transparency_l.Network.Peers.{Draws}
use streamlet_transparency_l.Streamlet.{get_epoch_leader, sign, sign_message}
use streamlet_transparency_l.Streamlet.Node.{Env, Node, broadcast}
use streamlet_transparency_l.Streamlet.Epoch.{
  publish_latest, export_log, lead, make_proposal, send_proposal, broadcast_signed, propose,
  propose_pending, reset_epoch, handle_epoch_start, proposes, publish_rate,
}
use streamlet_transparency_l.Streamlet.Run.Steady.{Untouched, Untouched-trans}

-- The payload that a node signs when it proposes the first of its pending transactions.
unfoldable pub proposal_cast : Env → Node → List Bytes → ℕ → Outcome (List Bytes)
unfolding make_proposal
proposal_cast env node [] rand = done []
proposal_cast env node (payload ∷ pending) rand = do
  (_, parent) ← Manager.head node.streamlet.blockchain_manager
  proposed_block ←
      make_proposal env node parent.block.hash payload
        node.streamlet.blockchain_manager.longest_notarized_chain_length rand
  done (env.codec.payload_bytes (MessagePayload.block proposed_block) ∷ [])

-- What the start of an epoch makes the node vote for: its own proposal, if it makes one.
unfoldable pub start_cast : Env → Node → ℕ → Outcome (List Bytes)
unfolding reset_epoch proposes lead proposal_cast
start_cast env node rand = do
  leader ← get_epoch_leader env.crypto (reset_epoch node).streamlet node.current_epoch
  if proposes node.streamlet leader
      then (lead (reset_epoch node) >>= λ led.
          proposal_cast env led led.streamlet.pending_transactions rand)
      else done []

-- What `cast` makes of a node's key and vote: nothing, or its signature on one payload.
pub record Casts (env : Env) (node node' : Node) (cast : List Bytes) : Type 0 where
  pub keypair : node'.streamlet.keypair ≡ node.streamlet.keypair
  pub epoch : node'.current_epoch ≡ node.current_epoch
  pub vote :
      ((cast ≡ []) × (node'.vote_this_epoch ≡ node.vote_this_epoch))
      ⊎ ((payload : Bytes) × (cast ≡ payload ∷ [])
          × (node'.vote_this_epoch ≡ some (env.crypto.sign node.streamlet.keypair.secret payload)))

module _ (env : Env) where
  publish_latest-Untouched :
      (node : Node) {node' : Node} → publish_latest node ≡ done node' → Untouched node node'
  unfolding publish_latest
  publish_latest-Untouched node h = ground arith

  export_log-Untouched :
      (node : Node) {node' : Node} → export_log node ≡ done node' → Untouched node node'
  unfolding export_log
  export_log-Untouched node h =
      let (result, e, f) =
        >>=-eq-done (export_local_finalized_chain_to_file node.streamlet.blockchain_manager) _ h in
      ground arith

  lead-Untouched : (node : Node) {node' : Node} → lead node ≡ done node' → Untouched node node'
  unfolding lead
  lead-Untouched node {node'} h =
      let (count, e, f) = >>=-eq-done (add_u64 node.streamlet.leader_count 1) _ h in
      let leading : Node = record node {
        streamlet = record (node.streamlet) { leader_count = count };
      } in
      elim (Bool-cases (node.current_epoch % publish_rate == 0 || count % publish_rate == 0)) [
        | inl due ↦
            let g : (publish_latest leading >>= λ published. export_log published) ≡ done node' =
              ground arith in
            let (published, k, l) = >>=-eq-done (publish_latest leading) _ g in
            let u = publish_latest-Untouched leading k in
            let w = export_log-Untouched published l in
            record {
              keypair = w.keypair ∙ u.keypair;
              epoch = w.epoch ∙ u.epoch;
              vote = w.vote ∙ u.vote;
            }
        | inr early ↦ ground arith
      ]

  broadcast-Untouched :
      (node : Node) (message : Message) {node' : Node}
      → broadcast env node message ≡ done node'
      → Untouched node node'
  unfolding broadcast
  broadcast-Untouched node message h = ground arith

  send_proposal-Casts :
      (node : Node) (block : Block) (draws : Draws) {node' : Node}
      → send_proposal env node block draws ≡ done node'
      → Casts env node node' (env.codec.payload_bytes (MessagePayload.block block) ∷ [])
  unfolding send_proposal broadcast_signed sign_message sign Message.new Message.serialize_payload
  send_proposal-Casts node block draws h =
      let (sent, e, f) = >>=-eq-done (broadcast env node _) _ h in
      let u = broadcast-Untouched node _ e in
      let same = sym (done-injective f) in
      record {
        keypair = ap (λ (n : Node). n.streamlet.keypair) same ∙ u.keypair;
        epoch = ap (λ (n : Node). n.current_epoch) same ∙ u.epoch;
        vote = inr (
          env.codec.payload_bytes (MessagePayload.block block),
          refl,
          ap (λ (n : Node). n.vote_this_epoch) same,
        );
      }

  Casts-behind :
      (node led : Node) (cast : List Bytes) {node' : Node}
      → Untouched node led
      → Casts env led node' cast
      → Casts env node node' cast
  Casts-behind node led cast u casts = record {
    keypair = casts.keypair ∙ u.keypair;
    epoch = casts.epoch ∙ u.epoch;
    vote = elim casts.vote [
      | inl (nothing, same) ↦ inl (nothing, same ∙ u.vote)
      | inr (payload, one, vote) ↦ inr (
        payload,
        one,
        vote ∙ ap (λ (k : Keypair). some (env.crypto.sign k.secret payload)) u.keypair,
      )
    ];
  }

  proposal_cast_made :
      (node : Node) (payload : Bytes) (pending : List Bytes) (rand : ℕ)
      (manager : BlockchainManager) (parent : SignedBlock) (block : Block)
      → Manager.head node.streamlet.blockchain_manager ≡ done (manager, parent)
      → make_proposal env node parent.block.hash payload
          node.streamlet.blockchain_manager.longest_notarized_chain_length rand
        ≡ done block
      → proposal_cast env node (payload ∷ pending) rand
        ≡ done (env.codec.payload_bytes (MessagePayload.block block) ∷ [])
  unfolding proposal_cast
  proposal_cast_made node payload pending rand manager parent block e g = rw (e, g) refl

  propose_pending-Casts :
      (node : Node) (pending : List Bytes) (rand : ℕ) (draws : Draws) {node' : Node}
      → propose_pending env node pending rand draws ≡ done node'
      → (cast : List Bytes) × (proposal_cast env node pending rand ≡ done cast)
        × Casts env node node' cast
  unfolding propose_pending propose proposal_cast make_proposal
  propose_pending-Casts node [] rand draws h =
      let same = sym (done-injective h) in
      (
        [],
        refl,
        record {
          keypair = ap (λ (n : Node). n.streamlet.keypair) same;
          epoch = ap (λ (n : Node). n.current_epoch) same;
          vote = inl (refl, ap (λ (n : Node). n.vote_this_epoch) same);
        },
      )
  propose_pending-Casts node (payload ∷ pending) rand draws {node'} h =
      let (headed, e, f) = >>=-eq-done (Manager.head node.streamlet.blockchain_manager) _ h in
      let cleaned : Node = record node {
        streamlet = record (node.streamlet) {
          blockchain_manager = headed.0;
          pending_transactions = pending;
        };
      } in
      let (block, g, k) =
        >>=-eq-done
          (make_proposal env cleaned headed.1.block.hash payload
            node.streamlet.blockchain_manager.longest_notarized_chain_length rand)
          _ f in
      let casts = send_proposal-Casts cleaned block draws k in
      (
        env.codec.payload_bytes (MessagePayload.block block) ∷ [],
        proposal_cast_made node payload pending rand headed.0 headed.1 block e g,
        record { keypair = casts.keypair; epoch = casts.epoch; vote = casts.vote },
      )

  reset_epoch-Untouched : (node : Node) → Untouched node (reset_epoch node)
  unfolding reset_epoch
  reset_epoch-Untouched node = record { keypair = refl; epoch = refl; vote = refl }

  start_cast_leads :
      (node led : Node) (leader : Bytes) (rand : ℕ) (cast : List Bytes)
      → get_epoch_leader env.crypto (reset_epoch node).streamlet node.current_epoch ≡ done leader
      → proposes node.streamlet leader ≡ true
      → lead (reset_epoch node) ≡ done led
      → proposal_cast env led led.streamlet.pending_transactions rand ≡ done cast
      → start_cast env node rand ≡ done cast
  unfolding start_cast
  start_cast_leads node led leader rand cast e leads k made = rw (e, leads, k) made

  start_cast_follows :
      (node : Node) (leader : Bytes) (rand : ℕ)
      → get_epoch_leader env.crypto (reset_epoch node).streamlet node.current_epoch ≡ done leader
      → proposes node.streamlet leader ≡ false
      → start_cast env node rand ≡ done []
  unfolding start_cast
  start_cast_follows node leader rand e follows = rw (e, follows) refl

  -- The start of an epoch makes the node vote for what `start_cast` returns.
  pub handle_epoch_start-Casts :
      (node : Node) (rand : ℕ) (draws : Draws) {node' : Node}
      → handle_epoch_start env node rand draws ≡ done node'
      → (cast : List Bytes) × (start_cast env node rand ≡ done cast) × Casts env node node' cast
  unfolding handle_epoch_start reset_epoch
  handle_epoch_start-Casts node rand draws {node'} h =
      let (leader, e, f) =
        >>=-eq-done (get_epoch_leader env.crypto (reset_epoch node).streamlet node.current_epoch) _
          h in
      elim (Bool-cases (proposes node.streamlet leader)) [
        | inl leads ↦
            let g : (lead (reset_epoch node) >>= λ led.
            propose_pending env led led.streamlet.pending_transactions rand draws)
                ≡ done node' =
              sym (if_true (proposes node.streamlet leader) _ _ leads) ∙ f in
            let (led, k, l) = >>=-eq-done (lead (reset_epoch node)) _ g in
            let u =
              Untouched-trans (reset_epoch-Untouched node) (lead-Untouched (reset_epoch node) k) in
            let (cast, made, casts) =
              propose_pending-Casts led led.streamlet.pending_transactions rand draws l in
            (
              cast,
              start_cast_leads node led leader rand cast e leads k made,
              Casts-behind node led cast u casts,
            )
        | inr follows ↦ (
          [],
          start_cast_follows node leader rand e follows,
          record { keypair = ground arith; epoch = ground arith; vote = inl (refl, ground arith) },
        )
      ]
