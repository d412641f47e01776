-- ===== src/Streamlet/Names/Leader.antt =====
-- Nodes that have sorted the same names, and expect as many peers, agree on every leader.
use mathlib.Core.List.{Perm}
use streamlet_transparency_l.Prelude.{ℕ, ◌≡◌, sym, ap, ◌∙◌, not, [], arith, ◌%◌, ◌+◌}
use streamlet_transparency_l.Prelude.Outcome.{done, expect}
use streamlet_transparency_l.Prelude.Lists.{get_elem?, retain}
use streamlet_transparency_l.Prelude.Bytes.{bytes_eq, keys}
use streamlet_transparency_l.Message.{PeerAdvertisement}
use streamlet_transparency_l.Network.Peers.{Draws}
use streamlet_transparency_l.Streamlet.{get_epoch_leader}
use streamlet_transparency_l.Streamlet.Names.{peer_names}
use streamlet_transparency_l.Streamlet.Names.Canonical.{sorted-perm}
use streamlet_transparency_l.Streamlet.Node.{Env, Node}
use streamlet_transparency_l.Streamlet.Handlers.{handle_peer_init}

-- An advertisement leaves the names sorted.
pub handle_peer_init_sorts :
    (env : Env) (node node' : Node) (ad : PeerAdvertisement) (draws : Draws)
    → handle_peer_init env node ad draws ≡ done node'
    → node'.streamlet.sorted_peer_names ≡ peer_names node'.streamlet.public_keys
unfolding handle_peer_init
handle_peer_init_sorts env node node' ad draws h = ground arith

-- Two nodes that have each just handled an advertisement, that expect as many peers and that know
-- the same names, in whatever order their maps list them, name the same leader for every epoch.
pub same_leader :
    (env : Env) (n1 n2 n1' n2' : Node) (ad1 ad2 : PeerAdvertisement) (draws1 draws2 : Draws)
    (epoch : ℕ)
    → handle_peer_init env n1 ad1 draws1 ≡ done n1'
    → handle_peer_init env n2 ad2 draws2 ≡ done n2'
    → n1'.streamlet.expected_peer_count ≡ n2'.streamlet.expected_peer_count
    → Perm (keys n1'.streamlet.public_keys) (keys n2'.streamlet.public_keys)
    → get_epoch_leader env.crypto n1'.streamlet epoch
      ≡ get_epoch_leader env.crypto n2'.streamlet epoch
unfolding get_epoch_leader peer_names
same_leader env n1 n2 n1' n2' ad1 ad2 draws1 draws2 epoch h1 h2 count same =
    let names : n1'.streamlet.sorted_peer_names ≡ n2'.streamlet.sorted_peer_names =
      handle_peer_init_sorts env n1 n1' ad1 draws1 h1
      ∙ ap (retain (λ x. not (bytes_eq x []))) (sorted-perm same)
      ∙ sym (handle_peer_init_sorts env n2 n2' ad2 draws2 h2) in
    ap
      (λ xs.
        expect (get_elem? xs (env.crypto.hash_u64 epoch % (n1'.streamlet.expected_peer_count + 1))))
      names
    ∙ ap
        (λ count.
          expect
            (get_elem? n2'.streamlet.sorted_peer_names (env.crypto.hash_u64 epoch % (count + 1))))
        count
