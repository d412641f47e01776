-- ===== src/Streamlet/Signatures.antt =====
-- lib.rs: counting the valid signatures on a message.
pub mod Quorum
pub mod Count
pub mod Fresh
use streamlet_transparency_l.Prelude.{
  ℕ, ◌+◌, Bool, true, false, not, ◌&&◌, Option, none, some, List, [], ◌∷◌, ◌++◌,
}
use streamlet_transparency_l.Prelude.Tests.{if◌then◌else◌}
use streamlet_transparency_l.Prelude.Bytes.{Bytes, bytes_eq, contains, Dict, values}
use streamlet_transparency_l.Crypto.{Crypto}
use streamlet_transparency_l.Message.{Message, Codec, serialize_payload}

unfoldable pub verify_signature : Crypto → Codec → Message → Bytes → Bytes → Bool
verify_signature c codec message signature pk =
    c.verify pk (serialize_payload codec message) signature

-- One copy of the signature for every key that verifies it.
unfoldable pub valid_copies : Crypto → Codec → Message → Bytes → List Bytes → List Bytes
valid_copies c codec message signature [] = []
valid_copies c codec message signature (pk ∷ pks) =
    let rest = valid_copies c codec message signature pks in
    if verify_signature c codec message signature pk then signature ∷ rest else rest

-- The loop of `get_valid_new_signatures`, over the signatures that are left.
unfoldable pub valid_new :
    Crypto → Codec → Dict Bytes → List Bytes → Message → List Bytes → List Bytes
unfolding valid_copies
valid_new c codec public_keys seen message [] = []
valid_new c codec public_keys seen message (signature ∷ rest) =
    let others = valid_new c codec public_keys seen message rest in
    if contains seen signature
    then others
    else valid_copies c codec message signature (values public_keys) ++ others

unfoldable pub get_valid_new_signatures :
    Crypto → Codec → Dict Bytes → List Bytes → Message → List Bytes
unfolding valid_new
get_valid_new_signatures c codec public_keys seen message =
    valid_new c codec public_keys seen message message.signatures

-- `Vec::dedup` drops an entry that equals the one before it.
unfoldable pub dedup : List Bytes → List Bytes
dedup [] = []
dedup (x ∷ []) = x ∷ []
dedup (x ∷ y ∷ rest) = let others = dedup (y ∷ rest) in if bytes_eq x y then others else x ∷ others

-- The first known name, in the order of the map, that is not yet seen and verifies the signature.
unfoldable pub first_signer :
    Crypto → Codec → Message → Bytes → List Bytes → Dict Bytes → Option Bytes
first_signer c codec message signature seen [] = none
first_signer c codec message signature seen ((name, pk) ∷ rest) =
    let other = first_signer c codec message signature seen rest in
    if not (contains seen name) && verify_signature c codec message signature pk
    then some name
    else other

-- The loop of `verify_message`: the number so far and the names seen.
unfoldable pub count_signers :
    Crypto → Codec → Dict Bytes → Message → List Bytes → ℕ → List Bytes → ℕ
count_signers c codec public_keys message [] num_valid_signatures seen = num_valid_signatures
count_signers c codec public_keys message (signature ∷ rest) num_valid_signatures seen =
    elim (first_signer c codec message signature seen public_keys) [
      | none ↦ count_signers c codec public_keys message rest num_valid_signatures seen
      | some name ↦
          count_signers c codec public_keys message rest (num_valid_signatures + 1) (name ∷ seen)
    ]

unfoldable pub verify_message : Crypto → Codec → Dict Bytes → Message → ℕ
unfolding count_signers
verify_message c codec public_keys message =
    count_signers c codec public_keys message message.signatures 0 []
