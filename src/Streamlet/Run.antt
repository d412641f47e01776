-- ===== src/Streamlet/Run.antt =====
-- lib.rs, `StreamletInstance::run`: the event loop and the timer thread as steps of a node. Which
-- event comes next, and what a message holds, is open; a step that panics is no step.
pub mod Cases
pub mod Continues
pub mod Messages
pub mod Loop
pub mod Safety
pub mod Faults
pub mod Steady
pub mod Casts
pub mod Ballots
pub mod Follow
pub mod Requests
pub mod Answers
pub mod Sends
pub mod Returns
pub mod Quorum
pub mod Exchange
pub mod Agreement
pub mod Proposal
pub mod Vote
use streamlet_transparency_l.Prelude.{ℕ, ◌≡◌, Bool, true}
use streamlet_transparency_l.Prelude.Outcome.{done}
use streamlet_transparency_l.Prelude.Bytes.{Bytes}
use streamlet_transparency_l.Network.Peers.{Draws}
use streamlet_transparency_l.Streamlet.Node.{Env, Node}
use streamlet_transparency_l.Streamlet.Handlers.{handle_network_input}
use streamlet_transparency_l.Streamlet.Epoch.{
  tick, handle_epoch_start, handle_user_input, handle_tcp_request_chain, handle_tcp_request_block,
}

-- The events of the loop, and the tick of the timer.
pub data Step (env : Env) (node node' : Node) : Type 0 where
  network_input :
      (encoded : Bytes) (draws : Draws)
      → handle_network_input env node encoded draws ≡ done node'
      → Step env node node'
  epoch_start :
      (rand : ℕ) (draws : Draws)
      → node.tick_pending ≡ true
      → handle_epoch_start env node rand draws ≡ done node'
      → Step env node node'
  user_input :
      (line : Bytes) (draws end_draws : Draws)
      → handle_user_input env node line draws end_draws ≡ done node'
      → Step env node node'
  tcp_request_chain : node' ≡ handle_tcp_request_chain node → Step env node node'
  tcp_request_block : handle_tcp_request_block node ≡ done node' → Step env node node'
  timer_tick : node.timer_started ≡ true → tick node ≡ done node' → Step env node node'

pub data Reach (env : Env) (node : Node) : Node → Type 0 where
  here : Reach env node node
  next : {n m : Node} → Reach env node n → Step env n m → Reach env node m
