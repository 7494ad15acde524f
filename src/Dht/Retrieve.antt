-- ===== src/Dht/Retrieve.antt =====
-- src/core/protocol/p2p/node.cpp: `send_get`, which looks a key up in the node's own tables, then at its
-- providers, then at the providers that the nodes of `find_closest_nodes` name, and `send_get_providers`. What
-- the others answer is a parameter; the waiting and the identifiers of the requests are not modelled.
pub mod Found
pub mod Gather
use testshop.Prelude.{
  ℕ, ◌+◌, ◌%◌, ◌^◌, Bool, true, false, not, ◌&&◌, ◌||◌, Option, none, some, List, [], ◌∷◌, ◌++◌,
  Text, bytes, lookup, has_key, Outcome, ok, throws, faults, ◌>>=◌, ◌==◌, if◌then◌else◌,
}
use testshop.Dht.Platform.{Platform}
use testshop.Dht.Table.{Contact, Table}
use testshop.Dht.Table.Closest.{Sorting, find_closest_nodes}
use testshop.Dht.Providers.{Peer, Providers, is_peer, remove_provider, get_providers}
use testshop.Dht.Store.{Store, validate}
use testshop.Dht.Store.Put.{get}
use testshop.Dht.Publish.{Shuffling}

-- What a `get` request to a peer comes to: `send_query` throws, no answer in time, an answer that is
-- no message, an error, a value, a message with no value.
pub data GetReply : Type 0 where
  refused timed_out unreadable error no_value : GetReply
  value : Text → GetReply

-- What `send_get` reads and changes of the node.
pub record Local : Type 0 where
  pub store : Store
  pub providers : Providers

abbrev pub without : Text → Peer → Local → Local
without key peer l = record l { providers = remove_provider key peer.address peer.port l.providers }

abbrev pub or_empty : Option Text → Text
or_empty none = []
or_empty (some v) = v

module _ (p : Platform) (now : ℕ) (key : Text) where
  -- One round of the loops over providers: the value that the call returns, or the next round.
  unfoldable pub get_round :
      Peer
      → GetReply
      → Local
      → (Local → Outcome (Option Text × Local))
      → Outcome (Option Text × Local)
  get_round peer refused l next = next l
  get_round peer timed_out l next = next (without key peer l)
  get_round peer unreadable l next = next l
  get_round peer error l next = next (without key peer l)
  get_round peer no_value l next = next l
  get_round peer (value v) l next = do
    (valid, store) ← validate p now key v l.store
    let l' : Local = record l { store = store }
    elim valid [ true ↦ ok (some v, l') | false ↦ next l' ]

  unfoldable pub get_from : (Peer → GetReply) → List Peer → Local → Outcome (Option Text × Local)
  get_from reply [] l = ok (none, l)
  get_from reply (peer ∷ peers) l = get_round peer (reply peer) l (get_from reply peers)

  -- The third option, when the second found nothing: `providers` is what `send_get_providers`
  -- returns. No value is the empty text.
  unfoldable pub get_from_others :
      (Peer → GetReply) → Outcome (List Peer) → Option Text × Local → Outcome (Text × Local)
  get_from_others reply providers (some v, l) = ok (v, l)
  get_from_others reply providers (none, l) = do
    peers ← providers
    (found, l') ← get_from reply peers l
    ok (or_empty found, l')

  -- `ours` is what our providers answer, `theirs` what those answer that others name.
  unfoldable pub send_get :
      (Peer → GetReply) → (Peer → GetReply) → Outcome (List Peer) → Local → Outcome (Text × Local)
  send_get ours theirs providers l =
      if has_key key l.store.stored
      then ok (get key l.store, l)
      else (elim (lookup key l.store.hash_table) [
        | some cached ↦ ok (cached, l)
        | none ↦ get_from ours (get_providers key l.providers) l >>= λ r.
            get_from_others theirs providers r
      ])

-- What a `get_providers` request to a node comes to.
pub data ProvidersReply : Type 0 where
  refused timed_out unreadable other_message : ProvidersReply
  peers : List Peer → ProvidersReply

-- The peers that were found, and the nodes whose `check_counter` rose.
pub record Gathered : Type 0 where
  pub found : List Peer
  pub raised : List Contact

unfoldable pub has_peer : Text → ℕ → List Peer → Bool
has_peer address port [] = false
has_peer address port (peer ∷ rest) = is_peer address port peer || has_peer address port rest

-- The nodes of one answer: a pair of address and port is added once, the port cut to 16 bits.
unfoldable pub add_unique : List Peer → List Peer → List Peer
add_unique [] found = found
add_unique (n ∷ ns) found =
    let port = n.port % 2 ^ 16 in
    add_unique ns (
      if has_peer n.address port found
      then found
      else found ++ (record { address = n.address; port = port } ∷ []))

unfoldable pub providers_round : Contact → ProvidersReply → Gathered → Gathered
providers_round node refused g = g
providers_round node timed_out g = record g { raised = node ∷ g.raised }
providers_round node unreadable g = g
providers_round node other_message g = g
providers_round node (peers ns) g = record g { found = add_unique ns g.found }

-- Only an active node is asked: its `check_counter` is 0.
unfoldable pub gather : (Contact → ProvidersReply) → List Contact → Gathered → Gathered
gather reply [] g = g
gather reply (node ∷ nodes) g =
    gather reply nodes (if node.check_counter == 0 then providers_round node (reply node) g else g)

abbrev pub max_closest_nodes : ℕ
max_closest_nodes = 20

unfoldable pub send_get_providers :
    (ℕ → ℕ) → Sorting → Shuffling → (Contact → ProvidersReply) → Table → Text → Outcome Gathered
send_get_providers memory std rng reply t key = do
  closest ← find_closest_nodes memory std t key max_closest_nodes
  ok (gather reply (rng.shuffle closest) (record { found = []; raised = [] }))
