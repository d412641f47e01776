-- ===== src/Streamlet/Signatures/Fresh.antt =====
-- lib.rs, `get_valid_new_signatures`: which signatures of a vote a node echoes.
use streamlet_transparency_l.Prelude.{
  ◌≡◌, refl, ap, inl, inr, Bool, true, false, not, ◌&&◌, ◌||◌, List, [], ◌∷◌, ◌++◌, arith,
}
use streamlet_transparency_l.Prelude.Tests.{Bool-cases}
use streamlet_transparency_l.Prelude.Bytes.{Bytes, bytes_eq, bytes_eq_iff, contains, Dict, values}
use streamlet_transparency_l.Crypto.{Crypto}
use streamlet_transparency_l.Message.{Message, Codec}
use streamlet_transparency_l.Streamlet.Signatures.{
  verify_signature, valid_copies, valid_new, get_valid_new_signatures,
}

contains-append :
    (xs ys : List Bytes) (a : Bytes) → contains (xs ++ ys) a ≡ (contains xs a || contains ys a)
contains-append [] ys a = refl
contains-append (x ∷ xs) ys a = ground (arith, contains-append xs ys a)

module _ (c : Crypto) (codec : Codec) (message : Message) where
  -- One of the keys verifies the signature on the message.
  unfoldable pub verifies_some : List Bytes → Bytes → Bool
  verifies_some [] signature = false
  verifies_some (pk ∷ pks) signature =
      verify_signature c codec message signature pk || verifies_some pks signature

  contains-valid_copies :
      (signature : Bytes) (pks : List Bytes) (a : Bytes)
      → contains (valid_copies c codec message signature pks) a
        ≡ (bytes_eq signature a && verifies_some pks signature)
  unfolding valid_copies verifies_some
  contains-valid_copies signature [] a = ground arith
  contains-valid_copies signature (pk ∷ pks) a =
      ground (arith, contains-valid_copies signature pks a)

  -- A byte string that equals the signature in hand is judged as it is.
  same_verdict :
      (seen pks : List Bytes) (signature a : Bytes)
      → bytes_eq signature a ≡ true
      → (contains seen signature ≡ contains seen a)
        × (verifies_some pks signature ≡ verifies_some pks a)
  same_verdict seen pks signature a e =
      let same = (bytes_eq_iff signature a).0 e in
      (ap (contains seen) same, ap (verifies_some pks) same)

  contains-valid_new :
      (d : Dict Bytes) (seen signatures : List Bytes) (a : Bytes)
      → contains (valid_new c codec d seen message signatures) a
        ≡ (contains signatures a && (not (contains seen a) && verifies_some (values d) a))
  unfolding valid_new
  contains-valid_new d seen [] a = refl
  contains-valid_new d seen (signature ∷ rest) a =
      let copies = contains-valid_copies signature (values d) a in
      let hyp = contains-valid_new d seen rest a in
      let joined =
        contains-append (valid_copies c codec message signature (values d))
          (valid_new c codec d seen message rest) a in
      elim (Bool-cases (bytes_eq signature a)) [
        | inl e ↦ let (s, v) = same_verdict seen (values d) signature a e in ground arith
        | inr e ↦ ground arith
      ]

-- A vote's signature is taken for new exactly if it is on the message, the node has not seen it yet,
-- and one of the keys that the node knows verifies it.
pub contains-get_valid_new_signatures :
    (c : Crypto) (codec : Codec) (d : Dict Bytes) (seen : List Bytes) (message : Message)
    (signature : Bytes)
    → contains (get_valid_new_signatures c codec d seen message) signature ≡ (
        contains message.signatures signature
        && (not (contains seen signature) && verifies_some c codec message (values d) signature))
unfolding get_valid_new_signatures
contains-get_valid_new_signatures c codec d seen message signature =
    contains-valid_new c codec message d seen message.signatures signature
