-- ===== src/Streamlet/Names.antt =====
-- lib.rs: `sorted_peer_names`, the names in the order of their bytes, and `parent_hash.sort()`.
pub mod Canonical
pub mod Leader
pub mod Unnamed
use streamlet_transparency_l.Prelude.{Bool, true, false, not, ◌&&◌, ◌||◌, List, [], ◌∷◌}
use streamlet_transparency_l.Prelude.Tests.{ltb, leb, ◌==◌, if◌then◌else◌}
use streamlet_transparency_l.Prelude.Lists.{retain}
use streamlet_transparency_l.Prelude.Bytes.{Bytes, bytes_eq, Dict, keys}

-- `<=` of strings.
unfoldable pub bytes_le : Bytes → Bytes → Bool
bytes_le [] ys = true
bytes_le (x ∷ xs) [] = false
bytes_le (x ∷ xs) (y ∷ ys) = ltb x y || x == y && bytes_le xs ys

unfoldable pub insert_sorted {ℓ} : {A : Type ℓ} → (A → A → Bool) → A → List A → List A
insert_sorted le a [] = a ∷ []
insert_sorted le a (x ∷ xs) = if le a x then a ∷ x ∷ xs else x ∷ insert_sorted le a xs

unfoldable pub sorted {ℓ} : {A : Type ℓ} → (A → A → Bool) → List A → List A
unfolding insert_sorted
sorted le [] = []
sorted le (x ∷ xs) = insert_sorted le x (sorted le xs)

-- The keys of the map, sorted, without the empty name.
unfoldable pub peer_names : Dict Bytes → List Bytes
unfolding sorted bytes_le
peer_names public_keys = retain (λ x. not (bytes_eq x [])) (sorted bytes_le (keys public_keys))

unfoldable pub sort_hash : Bytes → Bytes
unfolding sorted
sort_hash hash = sorted leb hash
