-- ===== src/Main/Laws.antt =====
-- What the documented command lines start.
use streamlet_transparency_l.Prelude.{ℕ, ◌-◌, ◌<◌, ◌≡◌, [], ◌∷◌, arith}
use streamlet_transparency_l.Prelude.Tests.{◌==◌, if◌then◌else◌}
use streamlet_transparency_l.Prelude.Outcome.{done, panic, u64_limit}
use streamlet_transparency_l.Prelude.Bytes.{Bytes}
use streamlet_transparency_l.Prelude.Decimal.{decimal, parse_usize-decimal}
use streamlet_transparency_l.Main.{Command, main, expected_peer_count, peers_of_hosts}

-- `cargo run N NAME`, for any number of hosts that a `usize` holds, written in decimal, starts the
-- node NAME with N - 1 peers to wait for; for N = 0 it panics.
pub main_hosts :
    (program name : Bytes) (num_hosts : ℕ)
    → num_hosts < u64_limit
    → main (program ∷ decimal 20 num_hosts ∷ name ∷ [])
      ≡ (if num_hosts == 0 then panic else done (Command.streamlet name (num_hosts - 1)))
unfolding main expected_peer_count peers_of_hosts
main_hosts program name num_hosts small =
    rw (parse_usize-decimal 19 num_hosts (omega arith) small) (ground arith)
