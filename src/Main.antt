-- ===== src/Main.antt =====
-- cs244b_project/src/main.rs: what the command line starts.
pub mod Laws
use streamlet_transparency_l.Prelude.{ℕ, ◌-◌, Bool, true, false, ◌&&◌, List, [], ◌∷◌}
use streamlet_transparency_l.Prelude.Tests.{leb, ◌==◌, if◌then◌else◌}
use streamlet_transparency_l.Prelude.Lists.{length, get_elem?}
use streamlet_transparency_l.Prelude.Outcome.{Outcome, done, panic, expect, ◌>>=◌}
use streamlet_transparency_l.Prelude.Bytes.{Bytes, bytes, starts_with}
use streamlet_transparency_l.Prelude.Decimal.{parse_usize}

abbrev pub default_num_hosts : ℕ
default_num_hosts = 2

-- The application, or a node with its name and the number of its peers.
pub data Command : Type 0 where
  app : Command
  streamlet : Bytes → ℕ → Command

-- `num_hosts - 1`, which panics at 0.
unfoldable pub peers_of_hosts : ℕ → Outcome ℕ
peers_of_hosts num_hosts = if num_hosts == 0 then panic else done (num_hosts - 1)

-- The number of peers; an argument that is no number panics.
unfoldable pub expected_peer_count : List Bytes → Outcome ℕ
unfolding peers_of_hosts
expected_peer_count (program ∷ hosts ∷ rest) = do
  num_hosts ← expect (parse_usize hosts)
  peers_of_hosts num_hosts
expected_peer_count _ = done (default_num_hosts - 1)

unfoldable pub host_name : List Bytes → Bytes
host_name (program ∷ hosts ∷ name ∷ rest) = name
host_name _ = []

unfoldable pub wants_app : List Bytes → Bool
wants_app (program ∷ first ∷ []) = starts_with first (bytes "app")
wants_app _ = false

-- The arguments are those of `std::env::args`, the program first.
unfoldable pub main : List Bytes → Outcome Command
unfolding expected_peer_count host_name wants_app
main args =
    if wants_app args
    then done Command.app
    else (expected_peer_count args >>= λ peers. done (Command.streamlet (host_name args) peers))
