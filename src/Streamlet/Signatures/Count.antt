-- ===== src/Streamlet/Signatures/Count.antt =====
-- `verify_message` against its plain description: the number of known keys that verify something.
use streamlet_transparency_l.Prelude.{
  ℕ, ◌+◌, ◌≤◌, ◌≡◌, refl, true, false, not, ◌&&◌, none, some, List, [], ◌∷◌, arith, inl, inr,
}
use streamlet_transparency_l.Prelude.Tests.{Option-cases}
use streamlet_transparency_l.Prelude.Lists.{length, All, retain}
use streamlet_transparency_l.Prelude.Bytes.{
  Bytes, bytes_eq, bytes_eq_iff, bytes_eq_refl, contains, Distinct, Dict, keys,
}
use streamlet_transparency_l.Crypto.{Crypto}
use streamlet_transparency_l.Message.{Message, Codec}
use streamlet_transparency_l.Streamlet.Signatures.{
  verify_signature, first_signer, count_signers, verify_message,
}
use streamlet_transparency_l.Streamlet.Signatures.Quorum.{any_verifies}

bytes_eq_sym : (x y : Bytes) → bytes_eq x y ≡ bytes_eq y x
unfolding bytes_eq
bytes_eq_sym [] [] = refl
bytes_eq_sym [] (y ∷ ys) = refl
bytes_eq_sym (x ∷ xs) [] = refl
bytes_eq_sym (x ∷ xs) (y ∷ ys) = ground (arith, bytes_eq_sym xs ys)

module _ (c : Crypto) (codec : Codec) (message : Message) where
  -- The number of known keys that verify the signature.
  abbrev pub verifiers : Dict Bytes → Bytes → ℕ
  verifiers d signature =
      length (retain (λ (e : Bytes × Bytes). verify_signature c codec message signature e.1) d)

  -- The number of known keys that verify one of the signatures.
  abbrev pub signer_count : Dict Bytes → List Bytes → ℕ
  signer_count d signatures =
      length (retain (λ (e : Bytes × Bytes). any_verifies c codec message e.1 signatures) d)

  -- The same, of those whose names are not yet seen.
  abbrev open_count : List Bytes → List Bytes → Dict Bytes → ℕ
  open_count signatures seen d = length (
      retain
        (λ (e : Bytes × Bytes).
          not (contains seen e.0) && any_verifies c codec message e.1 signatures)
        d)

  module _ (s : Bytes) (rest seen : List Bytes) where
    first_signer-none :
        (d : Dict Bytes)
        → first_signer c codec message s seen d ≡ none
        → open_count (s ∷ rest) seen d ≡ open_count rest seen d
    unfolding first_signer any_verifies
    first_signer-none [] e = refl
    first_signer-none ((j, pk) ∷ d) e = ground (arith, first_signer-none d)

    first_signer-known :
        (d : Dict Bytes) {name : Bytes}
        → first_signer c codec message s seen d ≡ some name
        → contains (keys d) name ≡ true
    unfolding first_signer
    first_signer-known [] e = cc
    first_signer-known ((j, pk) ∷ d) {name} e =
        ground (arith, first_signer-known d {name = name}, bytes_eq_refl j)

    -- Nothing of `s` is left behind the name that it was counted for.
    counted :
        (name : Bytes) (d : Dict Bytes)
        → contains (keys d) name ≡ false
        → verifiers d s ≤ 0
        → open_count (s ∷ rest) seen d ≡ open_count rest (name ∷ seen) d
    unfolding any_verifies
    counted name [] fresh once = refl
    counted name ((j, pk) ∷ d) fresh once = ground (arith, counted name d, bytes_eq_sym name j)

    first_signer-some :
        (d : Dict Bytes) {name : Bytes}
        → Distinct (keys d)
        → verifiers d s ≤ 1
        → first_signer c codec message s seen d ≡ some name
        → open_count (s ∷ rest) seen d ≡ 1 + open_count rest (name ∷ seen) d
    unfolding first_signer any_verifies
    first_signer-some [] distinct once e = cc
    first_signer-some ((j, pk) ∷ d) {name} distinct once e = ground (
      arith,
      first_signer-some d {name = name},
      counted j d distinct.0,
      first_signer-known d {name = name},
      bytes_eq_iff name j,
      bytes_eq_refl j,
    )

  open_count-none : (seen : List Bytes) (d : Dict Bytes) → open_count [] seen d ≡ 0
  unfolding any_verifies
  open_count-none seen [] = refl
  open_count-none seen ((j, pk) ∷ d) = ground (arith, open_count-none seen d)

  open_count-all :
      (signatures : List Bytes) (d : Dict Bytes)
      → open_count signatures [] d ≡ signer_count d signatures
  open_count-all signatures [] = refl
  open_count-all signatures ((j, pk) ∷ d) = ground (arith, open_count-all signatures d)

  module _ (d : Dict Bytes) (distinct : Distinct (keys d)) where
    count_signers-open_count :
        (signatures : List Bytes) (n : ℕ) (seen : List Bytes)
        → All (λ s. verifiers d s ≤ 1) signatures
        → count_signers c codec d message signatures n seen ≡ n + open_count signatures seen d
    unfolding count_signers
    count_signers-open_count [] n seen once = omega (arith, open_count-none seen d)
    count_signers-open_count (s ∷ rest) n seen once =
        elim (Option-cases (first_signer c codec message s seen d)) [
          | inl e ↦
              rw (e, count_signers)
                (omega (
                  arith,
                  count_signers-open_count rest n seen once.1,
                  first_signer-none s rest seen d e,
                ))
          | inr (name, e) ↦
              rw (e, count_signers)
                (omega (
                  arith,
                  count_signers-open_count rest (n + 1) (name ∷ seen) once.1,
                  first_signer-some s rest seen d {name = name} distinct once.0 e,
                ))
        ]

-- Where no two known keys verify the same signature of the message, what `verify_message` returns
-- does not depend on the order of the signatures or of the map: it is the number of the known keys
-- that verify one of the signatures.
pub verify_message_counts :
    (c : Crypto) (codec : Codec) (message : Message) (d : Dict Bytes)
    → Distinct (keys d)
    → All (λ s. verifiers c codec message d s ≤ 1) message.signatures
    → verify_message c codec d message ≡ signer_count c codec message d message.signatures
unfolding verify_message
verify_message_counts c codec message d distinct once = omega (
  arith,
  count_signers-open_count c codec message d distinct message.signatures 0 [] once,
  open_count-all c codec message message.signatures d,
)
