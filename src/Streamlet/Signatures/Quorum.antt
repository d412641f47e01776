-- ===== src/Streamlet/Signatures/Quorum.antt =====
-- `verify_message` counts distinct signers, and two quorums share signers.
use streamlet_transparency_l.Prelude.{
  ℕ, ◌+◌, ◌≤◌, ◌≡◌, refl, Bool, true, false, ◌&&◌, ◌||◌, some, List, [], ◌∷◌, arith, inl, inr,
}
use streamlet_transparency_l.Prelude.Tests.{Option-cases}
use streamlet_transparency_l.Prelude.Lists.{length, All}
use streamlet_transparency_l.Prelude.Bytes.{
  Bytes, bytes_eq, bytes_eq_iff, bytes_eq_refl, contains, Distinct, Dict, keys,
}
use streamlet_transparency_l.Prelude.Sets.{
  Within, Within-refl, All-mono, common, common_overlap, common-Distinct, common-All, All-contains,
}
use streamlet_transparency_l.Crypto.{Crypto}
use streamlet_transparency_l.Message.{Message, Codec}
use streamlet_transparency_l.Streamlet.Signatures.{
  verify_signature, first_signer, count_signers, verify_message,
}

module _ (c : Crypto) (codec : Codec) (message : Message) where
  -- The key verifies one of the signatures.
  unfoldable pub any_verifies : Bytes → List Bytes → Bool
  any_verifies pk [] = false
  any_verifies pk (signature ∷ rest) =
      verify_signature c codec message signature pk || any_verifies pk rest

  -- The name is known with a key that verifies a signature on the message.
  unfoldable pub is_signer : Dict Bytes → Bytes → Bool
  is_signer [] name = false
  is_signer ((j, pk) ∷ d) name =
      bytes_eq j name && any_verifies pk message.signatures || is_signer d name

  any_verifies-contains :
      (pk signature : Bytes) (signatures : List Bytes)
      → contains signatures signature ≡ true
      → verify_signature c codec message signature pk ≡ true
      → any_verifies pk signatures ≡ true
  unfolding any_verifies
  any_verifies-contains pk signature [] h v = cc
  any_verifies-contains pk signature (s ∷ rest) h v =
      ground (arith, any_verifies-contains pk signature rest, bytes_eq_iff s signature)

  first_signer-is_signer :
      (signature : Bytes) (seen : List Bytes) (d : Dict Bytes) {name : Bytes}
      → contains message.signatures signature ≡ true
      → first_signer c codec message signature seen d ≡ some name
      → (contains seen name ≡ false) × (is_signer d name ≡ true)
  unfolding first_signer is_signer
  first_signer-is_signer signature seen [] h e = cc
  first_signer-is_signer signature seen ((j, pk) ∷ d) {name} h e = ground (
    arith,
    first_signer-is_signer signature seen d {name = name} h,
    any_verifies-contains pk signature message.signatures,
    bytes_eq_refl j,
  )

  pub is_signer-known :
      (d : Dict Bytes) (name : Bytes) → is_signer d name ≡ true → contains (keys d) name ≡ true
  unfolding is_signer
  is_signer-known [] name h = cc
  is_signer-known ((j, pk) ∷ d) name h = ground (arith, is_signer-known d name)

  -- Distinct signers, as many as `num`.
  abbrev pub Signers : Dict Bytes → ℕ → Type 0
  Signers d num =
      (names : List Bytes) × (length names ≡ num)
      × Distinct names
      × All (λ name. is_signer d name ≡ true) names

  count_signers-Signers :
      (d : Dict Bytes) (signatures : List Bytes) (num : ℕ) (seen : List Bytes)
      → Within message.signatures signatures
      → length seen ≡ num
      → Distinct seen
      → All (λ name. is_signer d name ≡ true) seen
      → Signers d (count_signers c codec d message signatures num seen)
  unfolding count_signers
  count_signers-Signers d [] num seen w e distinct signers = (seen, e, distinct, signers)
  count_signers-Signers d (signature ∷ rest) num seen w e distinct signers =
      elim (Option-cases (first_signer c codec message signature seen d)) [
        | inl none_left ↦
            rw (none_left, count_signers)
              (count_signers-Signers d rest num seen w.1 e distinct signers)
        | inr (name, found) ↦
            let new = first_signer-is_signer signature seen d w.0 found in
            rw (found, count_signers)
              (count_signers-Signers d rest (num + 1) (name ∷ seen) w.1 (omega arith)
                (new.0, distinct) (new.1, signers))
      ]

  -- What `verify_message` returns is the number of some distinct known names, each with a key that
  -- verifies a signature on the message: no signer is counted twice, and no invalid signature.
  pub verify_message-Signers : (d : Dict Bytes) → Signers d (verify_message c codec d message)
  unfolding verify_message
  verify_message-Signers d =
      count_signers-Signers d message.signatures 0 [] (Within-refl message.signatures) refl tt tt

  pub Signers-Within :
      (d : Dict Bytes) (names : List Bytes)
      → All (λ name. is_signer d name ≡ true) names
      → Within (keys d) names
  Signers-Within d names h =
      All-mono (λ name. is_signer d name ≡ true) (λ name. contains (keys d) name ≡ true) names
        (λ name. is_signer-known d name) h

-- Distinct names that signed both messages.
abbrev pub SharedSigners : Crypto → Codec → Dict Bytes → Message → Message → ℕ → Type 0
SharedSigners c codec d m1 m2 num =
    (names : List Bytes) × (num ≤ length names)
    × Distinct names
    × All (λ name. (is_signer c codec m1 d name ≡ true) × (is_signer c codec m2 d name ≡ true))
        names

-- Two messages with `a` and `b` valid signers, where the node knows `n` keys, have at least
-- a + b - n signers in common.
pub verify_message_overlap :
    (c : Crypto) (codec : Codec) (d : Dict Bytes) (m1 m2 : Message) (num : ℕ)
    → num + length (keys d) ≤ verify_message c codec d m1 + verify_message c codec d m2
    → SharedSigners c codec d m1 m2 num
verify_message_overlap c codec d m1 m2 num many =
    let (xs, ex, dx, sx) = verify_message-Signers c codec m1 d in
    let (ys, ey, dy, sy) = verify_message-Signers c codec m2 d in
    (
      common xs ys,
      omega (
        arith,
        common_overlap xs ys (keys d) dx dy (Signers-Within c codec m1 d xs sx)
            (Signers-Within c codec m2 d ys sy),
      ),
      common-Distinct xs ys dx,
      All-mono _ _ (common xs ys)
          (λ name h. (h.0, All-contains (λ n. is_signer c codec m2 d n ≡ true) ys name sy h.1))
          (common-All (λ name. is_signer c codec m1 d name ≡ true) xs ys sx),
    )
