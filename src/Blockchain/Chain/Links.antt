-- ===== src/Blockchain/Chain/Links.antt =====
-- Chains whose blocks are linked by hash, and chains whose blocks carry their position as height.
use streamlet_transparency_l.Prelude.{ℕ, zero, suc, ◌+◌, ◌≡◌, ◌≢◌, some, List, [], ◌∷◌, ◌++◌, arith}
use streamlet_transparency_l.Prelude.Lists.{length, take, get_last?, get_elem?}
use streamlet_transparency_l.Blockchain.Block.{SignedBlock}

-- Every block names the hash of the block before it.
abbrev pub Linked : List SignedBlock → Type 0
Linked [] = Unit
Linked (x ∷ []) = Unit
Linked (x ∷ y ∷ rest) = (y.block.parent_hash ≡ x.block.hash) × Linked (y ∷ rest)

-- No block names the hash of the block before it.
abbrev pub Unlinked : List SignedBlock → Type 0
Unlinked [] = Unit
Unlinked (x ∷ []) = Unit
Unlinked (x ∷ y ∷ rest) = (y.block.parent_hash ≢ x.block.hash) × Unlinked (y ∷ rest)

-- The blocks have the heights `n`, `n + 1`, and so on.
abbrev pub HeightsFrom : ℕ → List SignedBlock → Type 0
HeightsFrom n [] = Unit
HeightsFrom n (x ∷ rest) = (x.block.height ≡ n) × HeightsFrom (suc n) rest

pub Linked-snoc :
    (xs : List SignedBlock) (b : SignedBlock) {last : SignedBlock}
    → Linked xs
    → get_last? xs ≡ some last
    → b.block.parent_hash ≡ last.block.hash
    → Linked (xs ++ b ∷ [])
Linked-snoc [] b h e p = tt
Linked-snoc (x ∷ []) b h e p = ground arith
Linked-snoc (x ∷ y ∷ rest) b h e p = (h.0, Linked-snoc (y ∷ rest) b h.1 e p)

pub Linked-take : (n : ℕ) (xs : List SignedBlock) → Linked xs → Linked (take n xs)
Linked-take zero xs h = tt
Linked-take (suc n) [] h = tt
Linked-take (suc zero) (x ∷ xs) h = tt
Linked-take (suc (suc n)) (x ∷ []) h = tt
Linked-take (suc (suc n)) (x ∷ y ∷ rest) h = (h.0, Linked-take (suc n) (y ∷ rest) h.1)

pub HeightsFrom-snoc :
    (n : ℕ) (xs : List SignedBlock) (b : SignedBlock)
    → HeightsFrom n xs
    → b.block.height ≡ n + length xs
    → HeightsFrom n (xs ++ b ∷ [])
HeightsFrom-snoc n [] b h e = (omega arith, tt)
HeightsFrom-snoc n (x ∷ xs) b h e = (h.0, HeightsFrom-snoc (suc n) xs b h.1 (omega arith))

pub HeightsFrom-get_elem? :
    (n : ℕ) (xs : List SignedBlock) (i : ℕ) {b : SignedBlock}
    → HeightsFrom n xs
    → get_elem? xs i ≡ some b
    → b.block.height ≡ n + i
HeightsFrom-get_elem? n [] i h e = cc
HeightsFrom-get_elem? n (x ∷ xs) zero h e = ground arith
HeightsFrom-get_elem? n (x ∷ xs) (suc i) h e =
    omega (arith, HeightsFrom-get_elem? (suc n) xs i h.1 e)
