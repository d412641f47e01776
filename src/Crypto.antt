-- ===== src/Crypto.antt =====
-- cs244b_project/src/utils/mod.rs and the standard hasher: the cryptography that the program calls.
-- A `Sha256Hash` is 32 bytes, an ed25519 `Signature` 64 and a `PublicKey` 32; all three are byte
-- strings here. The functions are parameters: nothing below says what they compute.
use streamlet_transparency_l.Prelude.{ℕ, zero, suc, ◌/◌, ◌%◌, ◌<◌, ◌≡◌, refl, [], ◌∷◌, Bool, arith}
use Prim.Native.Nat.{◌^◌}
use native.Mathlib.Nat.{pow-suc}
use streamlet_transparency_l.Prelude.Lists.{length}
use streamlet_transparency_l.Prelude.Outcome.{u64_limit}
use streamlet_transparency_l.Prelude.Bytes.{Bytes}

pub record Crypto : Type 0 where
  -- `Sha256` over the concatenation of all that `update` was given.
  pub sha256 : Bytes → Bytes
  -- `Keypair::sign`: the secret key, then the message. Signing with ed25519 is deterministic.
  pub sign : Bytes → Bytes → Bytes
  -- `PublicKey::verify(message, signature).is_ok()`.
  pub verify : Bytes → Bytes → Bytes → Bool
  -- `DefaultHasher` after one `write_u64`.
  pub hash_u64 : ℕ → ℕ

pub record Keypair : Type 0 where
  pub secret : Bytes
  pub public : Bytes

-- `to_ne_bytes` of a `u64` on a little-endian machine.
le_bytes : ℕ → ℕ → Bytes
le_bytes zero n = []
le_bytes (suc k) n = (n % 256) ∷ le_bytes k (n / 256)

unfoldable pub to_ne_bytes : ℕ → Bytes
unfolding le_bytes
to_ne_bytes n = le_bytes 8 n

pub length-to_ne_bytes : (n : ℕ) → length (to_ne_bytes n) ≡ 8
unfolding to_ne_bytes
length-to_ne_bytes n = refl

quotient_below : (k n : ℕ) → n < 256 ^ suc k → n / 256 < 256 ^ k
quotient_below k n h = omega (arith, pow-suc 256 k)

le_bytes-injective : (k m n : ℕ) → m < 256 ^ k → n < 256 ^ k → le_bytes k m ≡ le_bytes k n → m ≡ n
unfolding le_bytes
le_bytes-injective zero m n h1 h2 e = omega arith
le_bytes-injective (suc k) m n h1 h2 e =
    let low : m % 256 ≡ n % 256 = cc in
    let high : le_bytes k (m / 256) ≡ le_bytes k (n / 256) = cc in
    let rest : m / 256 ≡ n / 256 =
      le_bytes-injective k (m / 256) (n / 256) (quotient_below k m h1) (quotient_below k n h2)
        high in
    omega arith

pub to_ne_bytes-injective :
    (m n : ℕ) → m < u64_limit → n < u64_limit → to_ne_bytes m ≡ to_ne_bytes n → m ≡ n
unfolding to_ne_bytes
to_ne_bytes-injective m n h1 h2 e = le_bytes-injective 8 m n h1 h2 e
