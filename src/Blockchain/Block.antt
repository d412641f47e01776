-- ===== src/Blockchain/Block.antt =====
-- cs244b_project/src/blockchain/block.rs: blocks, and the hash that `Block::new` gives them.
pub mod Hash
use streamlet_transparency_l.Prelude.{ℕ, List, ◌++◌}
use streamlet_transparency_l.Prelude.Bytes.{Bytes, bytes}
use streamlet_transparency_l.Crypto.{Crypto, to_ne_bytes}

-- The field `data` of the source is `payload`: `data` is a reserved word here.
pub record Block : Type 0 where
  pub epoch : ℕ
  pub hash : Bytes
  pub parent_hash : Bytes
  pub payload : Bytes
  pub height : ℕ
  pub nonce : ℕ

pub record SignedBlock : Type 0 where
  pub block : Block
  pub signatures : List Bytes

-- What `hasher` has been fed when it is finalized.
unfoldable pub hashed_bytes : ℕ → Bytes → Bytes → ℕ → Bytes
unfolding to_ne_bytes
hashed_bytes epoch parent_hash payload nonce =
    parent_hash ++ (to_ne_bytes epoch ++ (payload ++ to_ne_bytes nonce))

-- `Block::new`
unfoldable pub new : Crypto → ℕ → Bytes → Bytes → ℕ → ℕ → Block
unfolding hashed_bytes
new c epoch parent_hash payload height nonce = record {
  epoch = epoch;
  hash = c.sha256 (hashed_bytes epoch parent_hash payload nonce);
  parent_hash = parent_hash;
  payload = payload;
  height = height;
  nonce = nonce;
}

unfoldable pub generate_test_block : Crypto → Bytes → Block
unfolding new
generate_test_block c payload = new c 0 (c.sha256 (bytes "hello world")) payload 0 0
