-- ===== src/Dht/Retrieve/Gather.antt =====
-- The peers that `send_get_providers` of src/core/protocol/p2p/node.cpp returns.
use testshop.Prelude.{
  ℕ, ◌<◌, ◌%◌, ◌^◌, ◌≡◌, refl, Bool, true, false, not, ◌&&◌, ◌||◌, List, [], ◌∷◌, ◌++◌, Text,
  text_eq_iff, ok, >>=-eq-ok, ◌==◌, arith, Bool-cases, inl, inr, All, All-append, subst,
}
use testshop.Dht.Table.{Contact, Table}
use testshop.Dht.Table.Closest.{Sorting, find_closest_nodes}
use testshop.Dht.Providers.{Peer, is_peer}
use testshop.Dht.Publish.{Shuffling}
use testshop.Dht.Retrieve.{
  ProvidersReply, refused, timed_out, unreadable, other_message, peers, Gathered, has_peer,
  add_unique, providers_round, gather, max_closest_nodes, send_get_providers,
}

-- No two peers have the same address and port.
unfoldable pub distinct_peers : List Peer → Bool
unfolding has_peer
distinct_peers [] = true
distinct_peers (peer ∷ rest) = not (has_peer peer.address peer.port rest) && distinct_peers rest

-- The peers are distinct, and their ports have 16 bits.
abbrev pub IsPeerList : List Peer → Type 0
IsPeerList found = (distinct_peers found ≡ true) × All (λ (q : Peer). q.port < 65536) found

has_peer-append :
    (address : Text) (port : ℕ) (found : List Peer) (q : Peer)
    → has_peer address port (found ++ (q ∷ []))
      ≡ (has_peer address port found || is_peer address port q)
unfolding has_peer
has_peer-append address port [] q = ground arith
has_peer-append address port (r ∷ rest) q = ground (arith, has_peer-append address port rest q)

distinct_peers-append :
    (found : List Peer) (q : Peer)
    → has_peer q.address q.port found ≡ false
    → distinct_peers found ≡ true
    → distinct_peers (found ++ (q ∷ [])) ≡ true
unfolding distinct_peers has_peer
distinct_peers-append [] q h d = refl
distinct_peers-append (r ∷ rest) q h d = ground (
  arith,
  distinct_peers-append rest q,
  has_peer-append r.address r.port rest q,
  text_eq_iff q.address r.address,
  text_eq_iff r.address q.address,
)

add_unique-IsPeerList : (ns found : List Peer) → IsPeerList found → IsPeerList (add_unique ns found)
unfolding add_unique
add_unique-IsPeerList [] found v = v
add_unique-IsPeerList (n ∷ ns) found v =
    elim (Bool-cases (has_peer n.address (n.port % 2 ^ 16) found)) [
      | inl there ↦ rw there (add_unique-IsPeerList ns found v)
      | inr new ↦
          let q : Peer = record { address = n.address; port = n.port % 2 ^ 16 } in
          rw new (
            add_unique-IsPeerList ns (found ++ (q ∷ [])) (
              distinct_peers-append found q new v.0,
              All-append (λ (r : Peer). r.port < 65536) found (q ∷ []) v.1 (omega arith, tt),
            ))
    ]

providers_round-IsPeerList :
    (node : Contact) (reply : ProvidersReply) (g : Gathered)
    → IsPeerList g.found
    → IsPeerList (providers_round node reply g).found
unfolding providers_round
providers_round-IsPeerList node refused g v = v
providers_round-IsPeerList node timed_out g v = v
providers_round-IsPeerList node unreadable g v = v
providers_round-IsPeerList node other_message g v = v
providers_round-IsPeerList node (peers ns) g v = add_unique-IsPeerList ns g.found v

module _ (reply : Contact → ProvidersReply) where
  gather-IsPeerList :
      (nodes : List Contact) (g : Gathered)
      → IsPeerList g.found
      → IsPeerList (gather reply nodes g).found
  unfolding gather
  gather-IsPeerList [] g v = v
  gather-IsPeerList (node ∷ nodes) g v = elim (Bool-cases (node.check_counter == 0)) [
    | inl active ↦
        rw (gather, active)
          (gather-IsPeerList nodes (providers_round node (reply node) g)
            (providers_round-IsPeerList node (reply node) g v))
    | inr idle ↦ rw (gather, idle) (gather-IsPeerList nodes g v)
  ]

  -- No two of the peers that `send_get_providers` returns have the same address and port, and each
  -- port has 16 bits.
  pub send_get_providers-IsPeerList :
      (memory : ℕ → ℕ) (std : Sorting) (rng : Shuffling) (t : Table) (key : Text) (g : Gathered)
      → send_get_providers memory std rng reply t key ≡ ok g
      → IsPeerList g.found
  unfolding send_get_providers distinct_peers
  send_get_providers-IsPeerList memory std rng t key g h =
      let (closest, e, h') =
        >>=-eq-ok (find_closest_nodes memory std t key max_closest_nodes) _ h in
      let start : Gathered = record { found = []; raised = [] } in
      let last : Gathered = gather reply (rng.shuffle closest) start in
      let same : last ≡ g = ground arith in
      subst (λ (x : Gathered). IsPeerList x.found) same
        (gather-IsPeerList (rng.shuffle closest) start (refl, tt))
