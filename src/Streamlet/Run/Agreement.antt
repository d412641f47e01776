-- ===== src/Streamlet/Run/Agreement.antt =====
-- Several nodes between two ticks: for which messages the votes of the honest ones allow a quorum.
use streamlet_transparency_l.Prelude.{
  ℕ, ◌+◌, ◌*◌, ◌≤◌, ◌≡◌, refl, ◌⊎◌, inl, inr, Bool, true, not, List, [], ◌∷◌, arith,
}
use streamlet_transparency_l.Prelude.Tests.{Bool-cases}
use streamlet_transparency_l.Prelude.Lists.{length, All, retain}
use streamlet_transparency_l.Prelude.Bytes.{Bytes, contains, keys, Dict, Distinct, bytes_eq_refl}
use streamlet_transparency_l.Prelude.Sets.{
  Within, All-mono, All-contains, Distinct-length_le, contains-retain_of,
}
use streamlet_transparency_l.Message.{Message, serialize_payload}
use streamlet_transparency_l.Streamlet.{StreamletInstance, threshold}
use streamlet_transparency_l.Streamlet.Signatures.{verify_message}
use streamlet_transparency_l.Streamlet.Signatures.Quorum.{is_signer, is_signer-known}
use streamlet_transparency_l.Streamlet.Votes.{quorum_overlap}
use streamlet_transparency_l.Streamlet.Node.{Env, Node}
use streamlet_transparency_l.Streamlet.Run.Ballots.{Polls}
use streamlet_transparency_l.Streamlet.Run.Ballots.Unique.{one_ballot}

-- What an honest node does between two ticks: it runs its event loop from `first` to `last`, and votes
-- for `ballots`, without proposing once it has voted.
pub record Voter (env : Env) : Type 0 where
  pub first : Node
  pub last : Node
  pub ballots : List Bytes
  pub polls : Polls env first last ballots

-- A voter's signature on the payload of this message is valid only if the voter voted for it.
abbrev pub Unforged : (env : Env) → Dict Bytes → Message → Bytes → Voter env → Type 0
Unforged env d message name voter =
    is_signer env.crypto env.codec message d name ≡ true
    → contains voter.ballots (serialize_payload env.codec message) ≡ true

-- The voter's signatures on the payloads of two messages do not collide.
abbrev pub NoCollision : (env : Env) → Message → Message → Voter env → Type 0
NoCollision env m1 m2 voter =
    env.crypto.sign voter.first.streamlet.keypair.secret (serialize_payload env.codec m1)
      ≡ env.crypto.sign voter.first.streamlet.keypair.secret (serialize_payload env.codec m2)
    → serialize_payload env.codec m1 ≡ serialize_payload env.codec m2

-- Some name of the list is honest, or none is.
find_honest :
    (honest : Bytes → Bool) (names : List Bytes)
    → ((name : Bytes) × (contains names name ≡ true) × (honest name ≡ true))
      ⊎ All (λ name. not (honest name) ≡ true) names
find_honest honest [] = inr tt
find_honest honest (x ∷ xs) = elim (Bool-cases (honest x)) [
  | inl good ↦ inl (x, ground (arith, bytes_eq_refl x), good)
  | inr bad ↦ elim (find_honest honest xs) [
    | inl (name, among, good) ↦ inl (name, ground arith, good)
    | inr all ↦ inr (rw bad refl, all)
  ]
]

-- Faulty names that are known are among the faulty known names.
Within-faulty :
    (honest : Bytes → Bool) (known names : List Bytes)
    → Within known names
    → All (λ name. not (honest name) ≡ true) names
    → Within (retain (λ name. not (honest name)) known) names
Within-faulty honest known [] w all = tt
Within-faulty honest known (x ∷ xs) w all = (
  contains-retain_of (λ name. not (honest name)) known x w.0 all.0,
  Within-faulty honest known xs w.1 all.1,
)

-- Distinct known names, one more than are faulty, have an honest one among them.
honest_among :
    (honest : Bytes → Bool) (known names : List Bytes) (f : ℕ)
    → length (retain (λ name. not (honest name)) known) ≤ f
    → f + 1 ≤ length names
    → Distinct names
    → Within known names
    → (name : Bytes) × (contains names name ≡ true) × (honest name ≡ true)
honest_among honest known names f few many distinct w = elim (find_honest honest names) [
  | inl found ↦ found
  | inr all ↦ absurd (
      omega (
        arith,
        Distinct-length_le names (retain (λ name. not (honest name)) known) distinct
            (Within-faulty honest known names w all),
      ))
]

-- Two messages have the same payload, if on each `verify_message` by itself counts the threshold of
-- signatures at a node that expects n = 3f + 1 nodes and knows no more keys than that, at most f of
-- the known names being faulty. Signatures that the node has cached (the first option of
-- `is_notarized`) are not counted here. The other names stand for honest nodes, which run their
-- event loops between two ticks and do not propose once they have voted, whose signatures are not
-- forged, and do not collide on the two payloads.
pub notarized_once :
    (env : Env) (node : StreamletInstance) (m1 m2 : Message) (f : ℕ) (honest : Bytes → Bool)
    (voter : (name : Bytes) → honest name ≡ true → Voter env)
    → node.expected_peer_count + 1 ≡ 3 * f + 1
    → length (keys node.public_keys) ≤ node.expected_peer_count + 1
    → length (retain (λ name. not (honest name)) (keys node.public_keys)) ≤ f
    → ((name : Bytes) (good : honest name ≡ true)
        → Unforged env node.public_keys m1 name (voter name good))
    → ((name : Bytes) (good : honest name ≡ true)
        → Unforged env node.public_keys m2 name (voter name good))
    → ((name : Bytes) (good : honest name ≡ true) → NoCollision env m1 m2 (voter name good))
    → threshold (node.expected_peer_count + 1)
      ≤ verify_message env.crypto env.codec node.public_keys m1
    → threshold (node.expected_peer_count + 1)
      ≤ verify_message env.crypto env.codec node.public_keys m2
    → serialize_payload env.codec m1 ≡ serialize_payload env.codec m2
notarized_once env node m1 m2 f honest voter count known few unforged1 unforged2 apart q1 q2 =
    let (names, many, distinct, signed) =
      quorum_overlap env.crypto env.codec node m1 m2 f count known q1 q2 in
    let within =
      All-mono
        (λ name.
          (is_signer env.crypto env.codec m1 node.public_keys name ≡ true)
          × (is_signer env.crypto env.codec m2 node.public_keys name ≡ true))
        (λ name. contains (keys node.public_keys) name ≡ true) names
        (λ name h. is_signer-known env.crypto env.codec m1 node.public_keys name h.0) signed in
    let (name, among, good) =
      honest_among honest (keys node.public_keys) names f few many distinct within in
    let (s1, s2) =
      All-contains
        (λ n.
          (is_signer env.crypto env.codec m1 node.public_keys n ≡ true)
          × (is_signer env.crypto env.codec m2 node.public_keys n ≡ true))
        names name signed among in
    let v = voter name good in
    one_ballot env v.first v.last v.ballots (serialize_payload env.codec m1)
      (serialize_payload env.codec m2) v.polls (unforged1 name good s1) (unforged2 name good s2)
      (apart name good)
