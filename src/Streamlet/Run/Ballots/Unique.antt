-- ===== src/Streamlet/Run/Ballots/Unique.antt =====
-- All that a node votes for between two ticks, not proposing after a vote, is one payload.
use mathlib.Core.List.{append-nil}
use streamlet_transparency_l.Prelude.{
  ◌≡◌, refl, sym, subst, ap, ◌∙◌, ◌⊎◌, inl, inr, Bool, true, false, Option, none, some, List, [],
  ◌∷◌, ◌++◌, arith,
}
use streamlet_transparency_l.Prelude.Tests.{Option-cases}
use streamlet_transparency_l.Prelude.Lists.{All, All-snoc}
use streamlet_transparency_l.Prelude.Outcome.{Outcome, done, panic, done-injective}
use streamlet_transparency_l.Prelude.Bytes.{Bytes, contains}
use streamlet_transparency_l.Prelude.Sets.{All-contains}
use streamlet_transparency_l.Crypto.{Crypto, Keypair}
use streamlet_transparency_l.Blockchain.Block.{Block}
use streamlet_transparency_l.Message.{Message, MessageKind, MessagePayload, serialize_payload}
use streamlet_transparency_l.Message
use streamlet_transparency_l.Network.Peers.{Draws}
use streamlet_transparency_l.Streamlet.{sign, should_vote}
use streamlet_transparency_l.Streamlet.Votes.{should_vote_sound}
use streamlet_transparency_l.Streamlet.Node.{Env, Node}
use streamlet_transparency_l.Streamlet.Handlers.{
  does_vote, handle_propose, dispatch, handle_network_input,
}
use streamlet_transparency_l.Streamlet.Epoch.{handle_tcp_request_chain, handle_tcp_request_block}
use streamlet_transparency_l.Streamlet.Run.Steady.{
  Steady, handle_network_input-Steady, Untouched, handle_user_input-Untouched,
}
use streamlet_transparency_l.Streamlet.Run.Casts.{Casts, handle_epoch_start-Casts}
use streamlet_transparency_l.Streamlet.Run.Vote.{handle_propose_votes}
use streamlet_transparency_l.Streamlet.Run.Ballots.{
  opened, network_input, user_input, tcp_request_chain, tcp_request_block, ballot_of, cast, cast_on,
  epoch_start, Polls, Holds,
}

-- A step that casts nothing.
Holds-Steady :
    (c : Crypto) (secret : Bytes) (before after : Option Bytes) (l : List Bytes)
    → (before ≡ none) ⊎ (after ≡ before)
    → Holds c secret before l
    → Holds c secret after l
Holds-Steady c secret before after l keeps (inl empty) = inl empty
Holds-Steady c secret before after l (inl unset) (inr (v, e, all)) = absurd (ground arith)
Holds-Steady c secret before after l (inr same) (inr (v, e, all)) = inr (v, same ∙ e, all)

-- A vote on top of what was voted for.
Holds-snoc :
    (c : Crypto) (secret : Bytes) (before after : Option Bytes) (l : List Bytes) (payload v : Bytes)
    → v ≡ c.sign secret payload
    → after ≡ some v
    → (before ≡ none) ⊎ (before ≡ some v)
    → Holds c secret before l
    → Holds c secret after (l ++ payload ∷ [])
Holds-snoc c secret before after l payload v signs sets may (inl empty) = inr (
  v,
  sets,
  subst (λ k. All (λ p. c.sign secret p ≡ v) (k ++ payload ∷ [])) (sym empty) (sym signs, tt),
)
Holds-snoc c secret before after l payload v signs sets may (inr (w, e, all)) =
    let same : w ≡ v = ground arith in
    inr (
      v,
      sets,
      All-snoc (λ p. c.sign secret p ≡ v) l payload
          (subst (λ u. All (λ p. c.sign secret p ≡ u) l) same all) (sym signs),
    )

-- What a ballot comes from.
ballot_of_cases :
    (votes : Bool) (payload : Bytes) (r : Outcome (Message × Option Bytes))
    → (ballot_of votes payload r ≡ [])
      ⊎ ((signed : Message) × (vote : Bytes) × (votes ≡ true)
          × (r ≡ done (signed, some vote))
          × (ballot_of votes payload r ≡ payload ∷ []))
ballot_of_cases true payload (done (signed, some vote)) = inr (signed, vote, refl, refl, refl)
ballot_of_cases true payload (done (signed, none)) = inl refl
ballot_of_cases true payload panic = inl refl
ballot_of_cases false payload r = inl refl

Holds-nothing :
    (c : Crypto) (secret : Bytes) (before after : Option Bytes) (l : List Bytes)
    → (before ≡ none) ⊎ (after ≡ before)
    → Holds c secret before l
    → Holds c secret after (l ++ [])
Holds-nothing c secret before after l keeps h =
    subst (Holds c secret after) (sym (append-nil l)) (Holds-Steady c secret before after l keeps h)

module _ (env : Env) (n m : Node) (l : List Bytes) (steady : Steady n m)
    (h : Holds env.crypto n.streamlet.keypair.secret n.vote_this_epoch l) where
  Holds-propose :
      (message : Message) (block : Block)
      → handle_propose env n message block ≡ done m
      → Holds env.crypto n.streamlet.keypair.secret m.vote_this_epoch
          (l ++ cast env n message MessageKind.propose (MessagePayload.block block))
  unfolding cast sign
  Holds-propose message block e =
      elim (ballot_of_cases (does_vote n.streamlet.compromise_type)
        (serialize_payload env.codec message)
        (should_vote env.crypto env.codec n.streamlet message n.vote_this_epoch n.current_epoch
          block)) [
            | inl nothing ↦ rw nothing (
                Holds-nothing env.crypto n.streamlet.keypair.secret n.vote_this_epoch
                  m.vote_this_epoch l steady.vote h)
            | inr (signed, vote, votes, f, one) ↦
                let sound =
                  should_vote_sound env.crypto env.codec n.streamlet message n.vote_this_epoch
                    n.current_epoch block f in
                let (sets, _) = handle_propose_votes env n message block vote votes (signed, f) e in
                rw one (
                  Holds-snoc env.crypto n.streamlet.keypair.secret n.vote_this_epoch
                    m.vote_this_epoch l (serialize_payload env.codec message) vote sound.3 sets
                    sound.6 h)
          ]

  Holds-cast :
      (message : Message) (kind : MessageKind) (payload : MessagePayload) (draws : Draws)
      → dispatch env n message kind payload draws ≡ done m
      → Holds env.crypto n.streamlet.keypair.secret m.vote_this_epoch
          (l ++ cast env n message kind payload)
  unfolding cast dispatch
  Holds-cast message MessageKind.propose (MessagePayload.block block) draws e =
      Holds-propose message block e
  Holds-cast message _ _ draws e =
      Holds-nothing env.crypto n.streamlet.keypair.secret n.vote_this_epoch m.vote_this_epoch l
        steady.vote h

  Holds-cast_on :
      (encoded : Bytes) (draws : Draws)
      → handle_network_input env n encoded draws ≡ done m
      → Holds env.crypto n.streamlet.keypair.secret m.vote_this_epoch (l ++ cast_on env n encoded)
  unfolding cast_on handle_network_input Message.deserialize
  Holds-cast_on encoded draws e = elim (Option-cases (env.codec.decode encoded)) [
    | inl garbage ↦ absurd (ground arith)
    | inr (message, f) ↦ rw f (Holds-cast message message.kind message.payload draws (rw f at e))
  ]

-- A step that adds `more` to what was voted for, under the key that the node had at first.
Holds-keyed :
    (env : Env) (first n m : Node) (l l' more : List Bytes)
    → n.streamlet.keypair ≡ first.streamlet.keypair
    → l' ≡ l ++ more
    → Holds env.crypto first.streamlet.keypair.secret n.vote_this_epoch l
    → (Holds env.crypto n.streamlet.keypair.secret n.vote_this_epoch l
        → Holds env.crypto n.streamlet.keypair.secret m.vote_this_epoch (l ++ more))
    → Holds env.crypto first.streamlet.keypair.secret m.vote_this_epoch l'
Holds-keyed env first n m l l' more key e holds step =
    let secret : n.streamlet.keypair.secret ≡ first.streamlet.keypair.secret =
      ap (λ (k : Keypair). k.secret) key in
    rw e (
      subst (λ s. Holds env.crypto s m.vote_this_epoch (l ++ more)) secret
        (step (subst (λ s. Holds env.crypto s n.vote_this_epoch l) (sym secret) holds)))

-- The start of an epoch, at a node that proposes only if it has voted for nothing.
Holds-start :
    (env : Env) (n m : Node) (l own : List Bytes)
    → Casts env n m own
    → (own ≡ []) ⊎ (l ≡ [])
    → Holds env.crypto n.streamlet.keypair.secret n.vote_this_epoch l
    → Holds env.crypto n.streamlet.keypair.secret m.vote_this_epoch (l ++ own)
Holds-start env n m l own casts unvoted h = elim casts.vote [
  | inl (nothing, same) ↦ rw nothing (
      Holds-nothing env.crypto n.streamlet.keypair.secret n.vote_this_epoch m.vote_this_epoch l
        (inr same) h)
  | inr (payload, one, vote) ↦ elim unvoted [
    | inl nothing ↦ absurd (ground arith)
    | inr empty ↦
        rw (one, empty) (inr (env.crypto.sign n.streamlet.keypair.secret payload, vote, (refl, tt)))
  ]
]

-- The node's key stays, and its vote is its signature on all that it voted for.
Polls-Holds :
    (env : Env) (first n : Node) (l : List Bytes)
    → Polls env first n l
    → (n.streamlet.keypair ≡ first.streamlet.keypair)
      × Holds env.crypto first.streamlet.keypair.secret n.vote_this_epoch l
unfolding handle_tcp_request_chain handle_tcp_request_block
Polls-Holds env first n l opened = (refl, inl refl)
Polls-Holds env first m l' (network_input {n} {l = l} encoded draws polls e more) =
    let (key, holds) = Polls-Holds env first n l polls in
    let steady = handle_network_input-Steady env n encoded draws e in
    (
      steady.keypair ∙ key,
      Holds-keyed env first n m l l' (cast_on env n encoded) key more holds
          (λ h. Holds-cast_on env n m l steady h encoded draws e),
    )
Polls-Holds env first m l'
      (epoch_start {n} {l = l} {own = own} rand draws polls _ e c unvoted more) =
    let (key, holds) = Polls-Holds env first n l polls in
    let (cast, made, casts) = handle_epoch_start-Casts env n rand draws e in
    let same : cast ≡ own = done-injective (sym made ∙ c) in
    (
      casts.keypair ∙ key,
      Holds-keyed env first n m l l' own key more holds
          (Holds-start env n m l own (subst (Casts env n m) same casts) unvoted),
    )
Polls-Holds env first m l (user_input {n} line draws end_draws polls e) =
    let (key, holds) = Polls-Holds env first n l polls in
    let u = handle_user_input-Untouched env n line draws end_draws e in
    (
      u.keypair ∙ key,
      subst (λ v. Holds env.crypto first.streamlet.keypair.secret v l) (sym u.vote) holds,
    )
Polls-Holds env first m l (tcp_request_chain {n} polls e) =
    let (key, holds) = Polls-Holds env first n l polls in
    (
      ap (λ (k : Node). k.streamlet.keypair) e ∙ key,
      subst (λ v. Holds env.crypto first.streamlet.keypair.secret v l)
          (sym (ap (λ (k : Node). k.vote_this_epoch) e)) holds,
    )
Polls-Holds env first m l (tcp_request_block {n} polls e) =
    let (key, holds) = Polls-Holds env first n l polls in
    let u : Untouched n m = ground arith in
    (
      u.keypair ∙ key,
      subst (λ v. Holds env.crypto first.streamlet.keypair.secret v l) (sym u.vote) holds,
    )

all_same :
    (c : Crypto) (secret : Bytes) (vote : Option Bytes) (l : List Bytes) (p q : Bytes)
    → Holds c secret vote l
    → contains l p ≡ true
    → contains l q ≡ true
    → c.sign secret p ≡ c.sign secret q
all_same c secret vote l p q (inl empty) hp hq = absurd (ground arith)
all_same c secret vote l p q (inr (v, _, all)) hp hq =
    All-contains (λ x. c.sign secret x ≡ v) l p all hp
    ∙ sym (All-contains (λ x. c.sign secret x ≡ v) l q all hq)

-- All payloads that a node votes for are the same, its own proposal included, unless its signatures
-- on two of them collide.
pub one_ballot :
    (env : Env) (first n : Node) (l : List Bytes) (p q : Bytes)
    → Polls env first n l
    → contains l p ≡ true
    → contains l q ≡ true
    → (env.crypto.sign first.streamlet.keypair.secret p
          ≡ env.crypto.sign first.streamlet.keypair.secret q
        → p ≡ q)
    → p ≡ q
one_ballot env first n l p q polls hp hq injective = injective (
    all_same env.crypto first.streamlet.keypair.secret n.vote_this_epoch l p q
      (Polls-Holds env first n l polls).1 hp hq)
