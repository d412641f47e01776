-- ===== src/Streamlet/Run/Ballots.antt =====
-- The payloads that a node votes for between two ticks of the timer, as its event loop casts them.
pub mod Unique
use mathlib.Core.List.{append-nil}
use streamlet_transparency_l.Prelude.{
  ℕ, ◌≡◌, refl, sym, subst, ap, ◌∙◌, ◌⊎◌, inl, inr, Bool, true, false, Option, none, some, List, [],
  ◌∷◌, ◌++◌, arith,
}
use streamlet_transparency_l.Prelude.Tests.{Option-cases}
use streamlet_transparency_l.Prelude.Lists.{All, All-snoc}
use streamlet_transparency_l.Prelude.Outcome.{Outcome, done, panic}
use streamlet_transparency_l.Prelude.Bytes.{Bytes, contains}
use streamlet_transparency_l.Prelude.Sets.{All-contains}
use streamlet_transparency_l.Crypto.{Crypto, Keypair}
use streamlet_transparency_l.Blockchain.Block.{Block}
use streamlet_transparency_l.Message.{Message, MessageKind, MessagePayload, serialize_payload}
use streamlet_transparency_l.Message
use streamlet_transparency_l.Network.Peers.{Draws}
use streamlet_transparency_l.Streamlet.{sign, should_vote}
use streamlet_transparency_l.Streamlet.Votes.{should_vote_sound}
use streamlet_transparency_l.Streamlet.Node.{Env, Node}
use streamlet_transparency_l.Streamlet.Handlers.{
  does_vote, handle_propose, dispatch, handle_network_input,
}
use streamlet_transparency_l.Streamlet.Epoch.{
  handle_user_input, handle_tcp_request_chain, handle_tcp_request_block, handle_epoch_start,
}
use streamlet_transparency_l.Streamlet.Run.Casts.{start_cast}
use streamlet_transparency_l.Streamlet.Run.Steady.{
  Steady, handle_network_input-Steady, Untouched, handle_user_input-Untouched,
}
use streamlet_transparency_l.Streamlet.Run.Vote.{handle_propose_votes}

-- The payload that is voted for, given whether the node votes and what `should_vote` returns.
abbrev pub ballot_of : Bool → Bytes → Outcome (Message × Option Bytes) → List Bytes
ballot_of true payload (done (signed, some vote)) = payload ∷ []
ballot_of _ payload _ = []

-- What handling a message casts.
unfoldable pub cast : Env → Node → Message → MessageKind → MessagePayload → List Bytes
cast env node message MessageKind.propose (MessagePayload.block block) =
    ballot_of (does_vote node.streamlet.compromise_type) (serialize_payload env.codec message) (
      should_vote env.crypto env.codec node.streamlet message node.vote_this_epoch
        node.current_epoch block)
cast env node message _ _ = []

abbrev pub cast_decoded : Env → Node → Option Message → List Bytes
cast_decoded env node none = []
cast_decoded env node (some message) = cast env node message message.kind message.payload

-- What an input from the network makes the node vote for.
unfoldable pub cast_on : Env → Node → Bytes → List Bytes
unfolding cast
cast_on env node encoded = cast_decoded env node (env.codec.decode encoded)

-- Events between two ticks of the timer, with all that the node votes for from `first` on. The start
-- of an epoch may stand anywhere among them, but the node does not propose once it has voted.
pub data Polls (env : Env) (first : Node) : Node → List Bytes → Type 0 where
  opened : Polls env first first []
  network_input :
      {n m : Node} {l l' : List Bytes} (encoded : Bytes) (draws : Draws)
      → Polls env first n l
      → handle_network_input env n encoded draws ≡ done m
      → l' ≡ l ++ cast_on env n encoded
      → Polls env first m l'
  epoch_start :
      {n m : Node} {l l' own : List Bytes} (rand : ℕ) (draws : Draws)
      → Polls env first n l
      → n.tick_pending ≡ true
      → handle_epoch_start env n rand draws ≡ done m
      → start_cast env n rand ≡ done own
      → (own ≡ []) ⊎ (l ≡ [])
      → l' ≡ l ++ own
      → Polls env first m l'
  user_input :
      {n m : Node} {l : List Bytes} (line : Bytes) (draws end_draws : Draws)
      → Polls env first n l
      → handle_user_input env n line draws end_draws ≡ done m
      → Polls env first m l
  tcp_request_chain :
      {n m : Node} {l : List Bytes}
      → Polls env first n l
      → m ≡ handle_tcp_request_chain n
      → Polls env first m l
  tcp_request_block :
      {n m : Node} {l : List Bytes}
      → Polls env first n l
      → handle_tcp_request_block n ≡ done m
      → Polls env first m l

-- Nothing was voted for, or the node's vote is its signature on all of it.
abbrev pub Holds : Crypto → Bytes → Option Bytes → List Bytes → Type 0
Holds c secret vote ballots =
    (ballots ≡ []) ⊎ ((v : Bytes) × (vote ≡ some v) × All (λ p. c.sign secret p ≡ v) ballots)
