-- ===== src/Streamlet/Run/Loop.antt =====
-- Every event of the loop keeps the node's notarized chain, or extends it.
use streamlet_transparency_l.Prelude.{
  ℕ, ◌%◌, ◌||◌, ◌≡◌, sym, ap, ◌∙◌, inl, inr, Option, none, some, List, [], ◌∷◌, arith,
}
use streamlet_transparency_l.Prelude.Tests.{if_true, ◌==◌, Bool-cases}
use streamlet_transparency_l.Prelude.Outcome.{done, ◌>>=◌, >>=-eq-done, done-injective, add_u64}
use streamlet_transparency_l.Prelude.Bytes.{Bytes}
use streamlet_transparency_l.Blockchain.Manager.{
  BlockchainManager, cleanup_notarized_chains, observe_notarized,
  export_local_finalized_chain_to_file, get_latest_finalized_block,
}
use streamlet_transparency_l.Blockchain.Manager
use streamlet_transparency_l.Message.{Message}
use streamlet_transparency_l.Network.Peers.{Draws}
use streamlet_transparency_l.Streamlet.{get_epoch_leader}
use streamlet_transparency_l.Streamlet.Node.{Env, Node, broadcast}
use streamlet_transparency_l.Streamlet.Epoch.{
  tick, publish_latest, export_log, lead, make_proposal, send_proposal, broadcast_signed, propose,
  propose_pending, reset_epoch, handle_epoch_start, handle_user_input, compromise,
  handle_tcp_request_chain, handle_tcp_request_block, proposes, publish_rate,
}
use streamlet_transparency_l.Streamlet.Run.Continues.{
  manager_of, Continues, Continues-same, Continues-trans, Continues-head, Continues-logged,
}
use streamlet_transparency_l.Streamlet.Run.Messages.{
  broadcast_manager, handle_network_input-Continues,
}
use streamlet_transparency_l.Streamlet.Run.{
  Step, network_input, epoch_start, user_input, tcp_request_chain, tcp_request_block, timer_tick,
}

module _ (env : Env) where
  publish_latest_manager :
      (node : Node) {node' : Node}
      → publish_latest node ≡ done node'
      → manager_of node' ≡ manager_of node
  unfolding publish_latest
  publish_latest_manager node h = ground arith

  export_log-Continues :
      (node : Node) {node' : Node}
      → export_log node ≡ done node'
      → Continues env.crypto (manager_of node) (manager_of node')
  unfolding export_log export_local_finalized_chain_to_file
  export_log-Continues node {node'} h =
      let (result, e, f) =
        >>=-eq-done (export_local_finalized_chain_to_file (manager_of node)) _ h in
      let (latest, g, k) = >>=-eq-done (get_latest_finalized_block (manager_of node)) _ e in
      Continues-logged env.crypto latest.block.epoch
        (ap manager_of (sym (done-injective f)) ∙ ap (λ r. r.0) (sym (done-injective k)))

  lead-Continues :
      (node : Node) {node' : Node}
      → lead node ≡ done node'
      → Continues env.crypto (manager_of node) (manager_of node')
  unfolding lead
  lead-Continues node {node'} h =
      let (count, e, f) = >>=-eq-done (add_u64 node.streamlet.leader_count 1) _ h in
      let leading : Node = record node {
        streamlet = record (node.streamlet) { leader_count = count };
      } in
      elim (Bool-cases (node.current_epoch % publish_rate == 0 || count % publish_rate == 0)) [
        | inl due ↦
            let g : (publish_latest leading >>= λ published. export_log published) ≡ done node' =
              ground arith in
            let (published, k, l) = >>=-eq-done (publish_latest leading) _ g in
            Continues-trans env.crypto
              (Continues-same env.crypto (publish_latest_manager leading k))
              (export_log-Continues published l)
        | inr early ↦ Continues-same env.crypto (ground arith)
      ]

  broadcast_signed_manager :
      (node : Node) (signed : Message × Option Bytes) {node' : Node}
      → broadcast_signed env node signed ≡ done node'
      → manager_of node' ≡ manager_of node
  unfolding broadcast_signed
  broadcast_signed_manager node (signed, none) h = ground arith
  broadcast_signed_manager node (signed, some signature) h =
      let (sent, e, f) = >>=-eq-done (broadcast env node signed) _ h in
      ap manager_of (sym (done-injective f)) ∙ broadcast_manager env node signed e

  propose-Continues :
      (node : Node) (payload : Bytes) (rand : ℕ) (draws : Draws) {node' : Node}
      → propose env node payload rand draws ≡ done node'
      → Continues env.crypto (manager_of node) (manager_of node')
  unfolding propose send_proposal
  propose-Continues node payload rand draws {node'} h =
      let (result, e, f) = >>=-eq-done (Manager.head (manager_of node)) _ h in
      let cleaned : Node = record node {
        streamlet = record (node.streamlet) { blockchain_manager = result.0 };
      } in
      let (proposed, g, k) = >>=-eq-done (make_proposal env cleaned _ _ _ _) _ f in
      Continues-trans env.crypto (Continues-head env.crypto e)
        (Continues-same env.crypto (broadcast_signed_manager cleaned _ k))

  propose_pending-Continues :
      (node : Node) (pending : List Bytes) (rand : ℕ) (draws : Draws) {node' : Node}
      → propose_pending env node pending rand draws ≡ done node'
      → Continues env.crypto (manager_of node) (manager_of node')
  unfolding propose_pending
  propose_pending-Continues node [] rand draws h =
      Continues-same env.crypto (ap manager_of (sym (done-injective h)))
  propose_pending-Continues node (payload ∷ pending) rand draws h =
      propose-Continues
        (record node { streamlet = record (node.streamlet) { pending_transactions = pending } })
        payload rand draws h

  handle_epoch_start-Continues :
      (node : Node) (rand : ℕ) (draws : Draws) {node' : Node}
      → handle_epoch_start env node rand draws ≡ done node'
      → Continues env.crypto (manager_of node) (manager_of node')
  unfolding handle_epoch_start reset_epoch
  handle_epoch_start-Continues node rand draws {node'} h =
      let (leader, e, f) =
        >>=-eq-done (get_epoch_leader env.crypto (reset_epoch node).streamlet node.current_epoch) _
          h in
      elim (Bool-cases (proposes node.streamlet leader)) [
        | inl leads ↦
            let g : (lead (reset_epoch node) >>= λ led.
            propose_pending env led led.streamlet.pending_transactions rand draws)
                ≡ done node' =
              sym (if_true (proposes node.streamlet leader) _ _ leads) ∙ f in
            let (led, k, l) = >>=-eq-done (lead (reset_epoch node)) _ g in
            Continues-trans env.crypto (lead-Continues (reset_epoch node) k)
              (propose_pending-Continues led led.streamlet.pending_transactions rand draws l)
        | inr follows ↦ Continues-same env.crypto (ground arith)
      ]

  compromise_manager :
      (node : Node) (line : Bytes) → manager_of (compromise node line) ≡ manager_of node
  unfolding compromise
  compromise_manager node line = ground arith

  handle_user_input_manager :
      (node : Node) (line : Bytes) (draws end_draws : Draws) {node' : Node}
      → handle_user_input env node line draws end_draws ≡ done node'
      → manager_of node' ≡ manager_of node
  unfolding handle_user_input
  handle_user_input_manager node line draws end_draws {node'} h =
      ground (arith, compromise_manager node line)

  -- Every event, and every tick of the timer.
  pub Step-Continues :
      {node node' : Node}
      → Step env node node'
      → Continues env.crypto (manager_of node) (manager_of node')
  unfolding handle_tcp_request_chain handle_tcp_request_block tick
  Step-Continues {node} (network_input encoded draws h) =
      handle_network_input-Continues env node encoded draws h
  Step-Continues {node} (epoch_start rand draws pending h) =
      handle_epoch_start-Continues node rand draws h
  Step-Continues {node} (user_input line draws end_draws h) =
      Continues-same env.crypto (handle_user_input_manager node line draws end_draws h)
  Step-Continues {node} (tcp_request_chain h) = Continues-same env.crypto (ap manager_of h)
  Step-Continues {node} (tcp_request_block h) = Continues-same env.crypto (ground arith)
  Step-Continues {node} (timer_tick started h) = Continues-same env.crypto (ground arith)
