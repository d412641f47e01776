-- ===== src/Streamlet/Names/Unnamed.antt =====
-- A node that runs under the empty name, which its own sorted names leave out.
use streamlet_transparency_l.Prelude.{
  ℕ, zero, suc, ◌+◌, ◌%◌, ◌≤◌, ◌<◌, ◌≡◌, refl, ap, Bool, true, not, none, List, [], ◌∷◌, arith,
}
use streamlet_transparency_l.Prelude.Lists.{length, get_elem?, retain}
use streamlet_transparency_l.Prelude.Outcome.{done, panic}
use streamlet_transparency_l.Prelude.Bytes.{Bytes, bytes_eq, contains, keys}
use streamlet_transparency_l.Message.{PeerAdvertisement}
use streamlet_transparency_l.Network.Peers.{Draws}
use streamlet_transparency_l.Streamlet.{get_epoch_leader}
use streamlet_transparency_l.Streamlet.Names.{bytes_le, insert_sorted, sorted, peer_names}
use streamlet_transparency_l.Streamlet.Node.{Env, Node}
use streamlet_transparency_l.Streamlet.Handlers.{handle_peer_init}
use streamlet_transparency_l.Streamlet.Epoch.{handle_epoch_start, reset_epoch}
use streamlet_transparency_l.Streamlet.Names.Leader.{handle_peer_init_sorts}

abbrev is_named : Bytes → Bool
is_named x = not (bytes_eq x [])

retain_le : (xs : List Bytes) → length (retain is_named xs) ≤ length xs
retain_le [] = omega arith
retain_le (x ∷ xs) = ground (arith, retain_le xs)

-- Insertion adds one entry to what is retained, or none, and never loses one.
length-retain-insert :
    (a : Bytes) (xs : List Bytes)
    → length (retain is_named (insert_sorted bytes_le a xs)) ≡ length (retain is_named (a ∷ xs))
unfolding insert_sorted
length-retain-insert a [] = refl
length-retain-insert a (x ∷ xs) = ground (arith, length-retain-insert a xs)

length-retain-sorted :
    (xs : List Bytes) → length (retain is_named (sorted bytes_le xs)) ≡ length (retain is_named xs)
unfolding sorted
length-retain-sorted [] = refl
length-retain-sorted (x ∷ xs) =
    ground (arith, length-retain-insert x (sorted bytes_le xs), length-retain-sorted xs)

length-retain_lt :
    (xs : List Bytes) → contains xs [] ≡ true → length (retain is_named xs) < length xs
unfolding bytes_eq
length-retain_lt [] h = cc
length-retain_lt (x ∷ xs) h = ground (arith, length-retain_lt xs, retain_le xs)

get_elem?_past : (xs : List Bytes) (i : ℕ) → length xs ≤ i → get_elem? xs i ≡ none
get_elem?_past [] i h = refl
get_elem?_past (x ∷ xs) zero h = absurd (omega arith)
get_elem?_past (x ∷ xs) (suc i) h = get_elem?_past xs i (omega arith)

-- A node without a name, which knows no more names than nodes are expected, its own empty one
-- included, panics at the start of every epoch whose hash selects the last of these nodes.
pub unnamed_node_panics :
    (env : Env) (node node' : Node) (ad : PeerAdvertisement) (draws draws' : Draws) (rand : ℕ)
    → handle_peer_init env node ad draws ≡ done node'
    → contains (keys node'.streamlet.public_keys) [] ≡ true
    → length (keys node'.streamlet.public_keys) ≤ node'.streamlet.expected_peer_count + 1
    → env.crypto.hash_u64 node'.current_epoch % (node'.streamlet.expected_peer_count + 1)
      ≡ node'.streamlet.expected_peer_count
    → handle_epoch_start env node' rand draws' ≡ panic
unfolding handle_epoch_start reset_epoch get_epoch_leader peer_names
unnamed_node_panics env node node' ad draws draws' rand h unnamed few last =
    let names = handle_peer_init_sorts env node node' ad draws h in
    let fewer = length-retain_lt (keys node'.streamlet.public_keys) unnamed in
    let past : get_elem? node'.streamlet.sorted_peer_names node'.streamlet.expected_peer_count
        ≡ none =
      get_elem?_past node'.streamlet.sorted_peer_names node'.streamlet.expected_peer_count
        (omega (arith, ap length names, length-retain-sorted (keys node'.streamlet.public_keys))) in
    rw (last, past) refl
