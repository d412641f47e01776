-- ===== src/Network/Peers/Laws.antt =====
-- Peer discovery: the peer list never outgrows what is expected, the first key of a peer stays, and
-- the epoch timer is started at most once.
use streamlet_transparency_l.Prelude.{
  ◌+◌, ◌-◌, ◌≤◌, ◌≡◌, ◌≢◌, refl, ◌∙◌, true, false, some, [], ◌∷◌, ◌⊎◌, inl, inr, arith,
}
use streamlet_transparency_l.Prelude.Tests.{Bool-cases}
use streamlet_transparency_l.Prelude.Lists.{length}
use streamlet_transparency_l.Prelude.Outcome.{done}
use streamlet_transparency_l.Prelude.Bytes.{
  Bytes, bytes_eq, bytes_eq_iff, Dict, Distinct, insert, remove, lookup, contains, contains_key,
  keys,
}
use streamlet_transparency_l.Message.{PeerAdvertisement, Codec}
use streamlet_transparency_l.Network.{Gossip, NetworkStack, init_channel_open}
use streamlet_transparency_l.Network.Peers.{
  Peers, InitStatus, Draws, is_done, recv_advertisement, permanently_delete_peer,
}

module _ {ℓ} {V : Type ℓ} where
  length-insert_new :
      (k : Bytes) (v : V) (d : Dict V)
      → contains_key k d ≡ false
      → length (insert k v d) ≡ length d + 1
  length-insert_new k v [] h = omega arith
  length-insert_new k v ((j, w) ∷ d) h = ground (arith, length-insert_new k v d)

  length-remove :
      (k : Bytes) (d : Dict V) → contains_key k d ≡ true → length (remove k d) + 1 ≡ length d
  length-remove k [] h = cc
  length-remove k ((j, w) ∷ d) h = ground (arith, length-remove k d)

  contains_key-keys : (k : Bytes) (d : Dict V) → contains_key k d ≡ contains (keys d) k
  contains_key-keys k [] = refl
  contains_key-keys k ((j, w) ∷ d) = ground (arith, contains_key-keys k d)

  -- In a map that lists no key twice, a key that is removed is gone.
  contains_key-remove :
      (k : Bytes) (d : Dict V) → Distinct (keys d) → contains_key k (remove k d) ≡ false
  contains_key-remove k [] h = refl
  contains_key-remove k ((j, w) ∷ d) h =
      ground (arith, contains_key-remove k d, contains_key-keys k d, bytes_eq_iff j k)

  lookup-remove :
      (j k : Bytes) (d : Dict V) → bytes_eq j k ≡ false → lookup k (remove j d) ≡ lookup k d
  lookup-remove j k [] h = refl
  lookup-remove j k ((i, w) ∷ d) h =
      ground (arith, lookup-remove j k d, bytes_eq_iff i j, bytes_eq_iff i k, bytes_eq_iff j k)

  lookup-insert_new :
      (j k : Bytes) (v w : V) (d : Dict V)
      → contains_key k d ≡ false
      → lookup j d ≡ some w
      → lookup j (insert k v d) ≡ some w
  lookup-insert_new j k v w [] h e = cc
  lookup-insert_new j k v w ((i, u) ∷ d) h e = ground (arith, lookup-insert_new j k v w d)

-- No more peers than expected.
abbrev pub Fits : Peers → Type 0
Fits p = length p.peer_list ≤ p.num_expected

module _ (codec : Codec) (g : Gossip) (p : Peers) (ad : PeerAdvertisement) (net : NetworkStack)
    (draws : Draws) {p' : Peers} {net' : NetworkStack} {status : InitStatus}
    (received : recv_advertisement codec g p ad net draws ≡ done (p', net', status)) where
  -- An advertisement never makes the peer list longer than `num_expected`, which it leaves alone.
  pub recv_advertisement-Fits : Fits p → Fits p' × (p'.num_expected ≡ p.num_expected)
  unfolding recv_advertisement is_done
  recv_advertisement-Fits fits =
      ground (arith, length-insert_new ad.node_name ad.public_key p.peer_list)

  -- A key once recorded for a name is never replaced.
  pub recv_advertisement_keeps_key :
      (name key : Bytes) → lookup name p.peer_list ≡ some key → lookup name p'.peer_list ≡ some key
  unfolding recv_advertisement is_done
  recv_advertisement_keeps_key name key e =
      ground (arith, lookup-insert_new name ad.node_name ad.public_key key p.peer_list)

-- A node is told to start its timer only at the advertisement that completes its peer list, and
-- while its init channel is open.
start_completes :
    (codec : Codec) (g : Gossip) (p : Peers) (ad : PeerAdvertisement) (net : NetworkStack)
    (draws : Draws) {p' : Peers} {net' : NetworkStack}
    → recv_advertisement codec g p ad net draws ≡ done (p', net', InitStatus.done_start_timer)
    → (is_done p ≡ false) × (is_done p' ≡ true) × (net'.init_open ≡ true)
unfolding recv_advertisement init_channel_open
start_completes codec g p ad net draws h = ground arith

-- A node that has its peers keeps them, and answers every advertisement with `Done`.
finished_stays :
    (codec : Codec) (g : Gossip) (p : Peers) (ad : PeerAdvertisement) (net : NetworkStack)
    (draws : Draws) {p' : Peers} {net' : NetworkStack} {status : InitStatus}
    → is_done p ≡ true
    → recv_advertisement codec g p ad net draws ≡ done (p', net', status)
    → (p' ≡ p) × (status ≡ InitStatus.finished)
unfolding recv_advertisement
finished_stays codec g p ad net draws complete h = ground arith

-- Advertisements received one after the other, each with the network as it then is.
pub data Receives (codec : Codec) (g : Gossip) (p : Peers) : Peers → Type 0 where
  none_yet : Receives codec g p p
  one_more :
      {q r : Peers} (ad : PeerAdvertisement) (net net' : NetworkStack) (draws : Draws)
      (status : InitStatus)
      → Receives codec g p q
      → recv_advertisement codec g q ad net draws ≡ done (r, net', status)
      → Receives codec g p r

Receives-finished :
    {codec : Codec} {g : Gossip} {p q : Peers} → is_done p ≡ true → Receives codec g p q → q ≡ p
Receives-finished complete none_yet = refl
Receives-finished {codec} {g} {p} complete (one_more {q} {r} ad net net' draws status before e) =
    let same : q ≡ p = Receives-finished complete before in
    (finished_stays codec g q ad net draws (rw same complete) e).0 ∙ same

-- The epoch timer is started once at most: it is started only by an advertisement that completes
-- the peer list, over an open init channel, and no advertisement received at any later time starts
-- it again.
pub start_timer_once :
    (codec : Codec) (g : Gossip) (p p' q q' : Peers) (ad ad' : PeerAdvertisement)
    (net net' now now' : NetworkStack) (draws draws' : Draws) (status : InitStatus)
    → recv_advertisement codec g p ad net draws ≡ done (p', net', InitStatus.done_start_timer)
    → Receives codec g p' q
    → recv_advertisement codec g q ad' now draws' ≡ done (q', now', status)
    → (is_done p ≡ false)
      × (is_done p' ≡ true)
      × (net'.init_open ≡ true)
      × (status ≢ InitStatus.done_start_timer)
start_timer_once codec g p p' q q' ad ad' net net' now now' draws draws' status started more e =
    let starts = start_completes codec g p ad net draws started in
    let complete : is_done q ≡ true = rw (Receives-finished starts.1 more) (starts.1) in
    let last = finished_stays codec g q ad' now draws' complete e in
    (starts.0, starts.1, starts.2, λ s. cc)

-- Deleting a peer never underflows `num_expected` while no more peers are held than expected, and
-- keeps that. Where the list of peers names none twice, the name is not held afterwards, and any other
-- name keeps its key; and if the name was held, the list is shorter by one, and one peer fewer is
-- expected, while else nothing changes.
pub permanently_delete_peer_lem :
    (p : Peers) (name other : Bytes)
    → Fits p
    → Distinct (keys p.peer_list)
    → bytes_eq name other ≡ false
    → (p' : Peers) × (permanently_delete_peer p name ≡ done p')
      × Fits p'
      × (contains_key name p'.peer_list ≡ false)
      × (lookup other p'.peer_list ≡ lookup other p.peer_list)
      × (((contains_key name p.peer_list ≡ false) × (p' ≡ p))
          ⊎ ((contains_key name p.peer_list ≡ true)
              × (length p'.peer_list + 1 ≡ length p.peer_list)
              × (p'.num_expected + 1 ≡ p.num_expected)))
unfolding permanently_delete_peer
permanently_delete_peer_lem p name other fits distinct apart =
    elim (Bool-cases (contains_key name p.peer_list)) [
      | inl held ↦ (
        record p { peer_list = remove name p.peer_list; num_expected = p.num_expected - 1 },
        ground (arith, length-remove name p.peer_list),
        ground (arith, length-remove name p.peer_list),
        contains_key-remove name p.peer_list distinct,
        lookup-remove name other p.peer_list apart,
        inr (ground (arith, length-remove name p.peer_list)),
      )
      | inr unknown ↦ (p, ground arith, fits, unknown, refl, inl (unknown, refl))
    ]
