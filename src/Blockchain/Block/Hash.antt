-- ===== src/Blockchain/Block/Hash.antt =====
-- What the hash of `Block::new` covers.
use streamlet_transparency_l.Prelude.{ℕ, ◌<◌, ◌≡◌, refl, sym, ◌∙◌, ap, List, [], ◌∷◌, ◌++◌, arith}
use streamlet_transparency_l.Prelude.Lists.{length, length-append}
use streamlet_transparency_l.Prelude.Outcome.{u64_limit}
use streamlet_transparency_l.Prelude.Bytes.{Bytes}
use streamlet_transparency_l.Crypto.{Crypto, to_ne_bytes, length-to_ne_bytes, to_ne_bytes-injective}
use streamlet_transparency_l.Blockchain.Block.{hashed_bytes, new}

-- Lists whose first parts are equally long are equal part by part.
append-injective_left {ℓ} :
    {A : Type ℓ} (xs ys : List A) {us vs : List A}
    → length xs ≡ length ys
    → xs ++ us ≡ ys ++ vs
    → (xs ≡ ys) × (us ≡ vs)
append-injective_left [] [] h e = (refl, e)
append-injective_left [] (y ∷ ys) h e = absurd (omega arith)
append-injective_left (x ∷ xs) [] h e = absurd (omega arith)
append-injective_left {A} (x ∷ xs) (y ∷ ys) {us} {vs} h e =
    let tails : xs ++ us ≡ ys ++ vs = cc in
    let heads : x ≡ y = cc in
    let rest = append-injective_left xs ys (omega arith) tails in (cc, rest.1)

append-injective_right {ℓ} :
    {A : Type ℓ} (xs ys us vs : List A)
    → length us ≡ length vs
    → xs ++ us ≡ ys ++ vs
    → (xs ≡ ys) × (us ≡ vs)
append-injective_right xs ys us vs h e =
    append-injective_left xs ys
      (omega (arith, ap length e, length-append xs us, length-append ys vs)) e

-- The hash of a block commits to its epoch, parent hash, data and nonce: two blocks made with
-- parent hashes of 32 bytes and with numbers of 64 bits, whose hashes agree, agree in all four,
-- unless their hashed bytes are a collision of the hash function.
pub hash_binds :
    (c : Crypto) (e1 e2 : ℕ) (p1 p2 d1 d2 : Bytes) (h1 h2 n1 n2 : ℕ)
    → (c.sha256 (hashed_bytes e1 p1 d1 n1) ≡ c.sha256 (hashed_bytes e2 p2 d2 n2)
        → hashed_bytes e1 p1 d1 n1 ≡ hashed_bytes e2 p2 d2 n2)
    → length p1 ≡ 32
    → length p2 ≡ 32
    → e1 < u64_limit
    → e2 < u64_limit
    → n1 < u64_limit
    → n2 < u64_limit
    → (new c e1 p1 d1 h1 n1).hash ≡ (new c e2 p2 d2 h2 n2).hash
    → (e1 ≡ e2) × (p1 ≡ p2) × (d1 ≡ d2) × (n1 ≡ n2)
unfolding new hashed_bytes
hash_binds c e1 e2 p1 p2 d1 d2 h1 h2 n1 n2 collision_free l1 l2 b1 b2 b3 b4 same =
    let parents = append-injective_left p1 p2 (l1 ∙ sym l2) (collision_free same) in
    let epochs =
      append-injective_left (to_ne_bytes e1) (to_ne_bytes e2)
        (length-to_ne_bytes e1 ∙ sym (length-to_ne_bytes e2)) parents.1 in
    let rest =
      append-injective_right d1 d2 (to_ne_bytes n1) (to_ne_bytes n2)
        (length-to_ne_bytes n1 ∙ sym (length-to_ne_bytes n2)) epochs.1 in
    (
      to_ne_bytes-injective e1 e2 b1 b2 epochs.0,
      parents.0,
      rest.0,
      to_ne_bytes-injective n1 n2 b3 b4 rest.1,
    )

-- The height is not hashed: blocks that differ in nothing else have the same hash.
pub height_unbound :
    (c : Crypto) (epoch : ℕ) (parent_hash payload : Bytes) (h1 h2 nonce : ℕ)
    → (new c epoch parent_hash payload h1 nonce).hash
      ≡ (new c epoch parent_hash payload h2 nonce).hash
unfolding new
height_unbound c epoch parent_hash payload h1 h2 nonce = refl
