-- ===== src/Dht/Publish.antt =====
-- src/core/protocol/p2p/node.cpp: `send_put`, which sends a value to the nodes that
-- `find_closest_nodes` returns for its key, and `republish_once`. What a node answers is a parameter; the waiting and the identifiers of
-- the requests are not modelled. A `Node*` is the contact of the routing table, told from the others
-- by its identifier.
pub mod Rounds
pub mod Republish
pub mod Sent
pub mod Kept
use mathlib.Core.List.{Perm}
use testshop.Prelude.{
  ℕ, ◌+◌, ◌-◌, Bool, true, false, not, ◌&&◌, Option, none, some, List, [], ◌∷◌, ◌++◌, Text, bytes,
  text_eq, Dict, Outcome, ok, throws, faults, ◌>>=◌, ltb, leb, if◌then◌else◌, length, take,
}
use testshop.Dht.Platform.{Platform, string_at}
use testshop.Dht.Table.{Contact, Table, has_id, get_node_count}
use testshop.Dht.Table.Closest.{Sorting, find_closest_nodes}
use testshop.Dht.Providers.{Peer, Providers, add_provider}

-- NEROSHOP_DHT_REPLICATION_FACTOR
abbrev pub replication_factor : ℕ
replication_factor = 3

-- What a request comes to: `send_query` throws, no answer in time, an answer that is no message, a
-- response, another message.
pub data Reply : Type 0 where
  refused timed_out unreadable response other_message : Reply

-- `std::shuffle` returns a permutation.
pub record Shuffling : Type 0 where
  pub shuffle : List Contact → List Contact
  pub shuffle-perm : (cs : List Contact) → Perm (shuffle cs) cs

-- The state of one `send_put`: the node's providers, the nodes that were asked, in their order, the
-- two sets, the count, and the nodes whose `check_counter` rose, once for each rise.
pub record Sending : Type 0 where
  pub providers : Providers
  pub asked : List Contact
  pub sent_nodes : List Contact
  pub failed_nodes : List Contact
  pub nodes_sent_count : ℕ
  pub raised : List Contact

abbrev pub started : Providers → Sending
started providers = record {
  providers = providers;
  asked = [];
  sent_nodes = [];
  failed_nodes = [];
  nodes_sent_count = 0;
  raised = [];
}

abbrev peer_of : Contact → Peer
peer_of node = record { address = node.address; port = node.port }

-- One round of the first loop.
unfoldable pub put_closest : Text → Contact → Reply → Sending → Sending
put_closest key node refused s = record s {
  asked = s.asked ++ node ∷ [];
  failed_nodes = node ∷ s.failed_nodes;
}
put_closest key node timed_out s = record s {
  asked = s.asked ++ node ∷ [];
  failed_nodes = node ∷ s.failed_nodes;
}
put_closest key node unreadable s = record s { asked = s.asked ++ node ∷ [] }
put_closest key node response s = record s {
  providers = add_provider key (peer_of node) s.providers;
  asked = s.asked ++ node ∷ [];
  sent_nodes = node ∷ s.sent_nodes;
  nodes_sent_count = s.nodes_sent_count + 1;
}
put_closest key node other_message s = record s {
  asked = s.asked ++ node ∷ [];
  sent_nodes = node ∷ s.sent_nodes;
  nodes_sent_count = s.nodes_sent_count + 1;
}

-- One round of the second loop.
unfoldable pub put_replacement : Text → Contact → Reply → Sending → Sending
put_replacement key node refused s = record s {
  asked = s.asked ++ node ∷ [];
  raised = node ∷ s.raised;
}
put_replacement key node timed_out s = record s {
  asked = s.asked ++ node ∷ [];
  raised = node ∷ s.raised;
}
put_replacement key node unreadable s = record s { asked = s.asked ++ node ∷ [] }
put_replacement key node response s = record s {
  providers = add_provider key (peer_of node) s.providers;
  asked = s.asked ++ node ∷ [];
  nodes_sent_count = s.nodes_sent_count + 1;
}
put_replacement key node other_message s = record s {
  asked = s.asked ++ node ∷ [];
  nodes_sent_count = s.nodes_sent_count + 1;
}

-- A round for each node.
unfoldable pub put_each :
    (Contact → Reply → Sending → Sending) → (Contact → Reply) → List Contact → Sending → Sending
put_each round reply [] s = s
put_each round reply (node ∷ nodes) s = put_each round reply nodes (round node (reply node) s)

unfoldable pub replacement_nodes : List Contact → Sending → List Contact → List Contact
replacement_nodes closest s [] = []
replacement_nodes closest s (node ∷ nodes) =
    let rest = replacement_nodes closest s nodes in
    if not (has_id node.id closest)
      && not (has_id node.id s.failed_nodes)
      && not (has_id node.id s.sent_nodes)
    then node ∷ rest
    else rest

-- The second half of `send_put`, with the nodes that `find_node` returned.
unfoldable pub put_remaining :
    Text → (Contact → Reply) → List Contact → Sending → List Contact → Sending
put_remaining key reply closest s all =
    let remaining_nodes = replication_factor - s.nodes_sent_count in
    let replacements = replacement_nodes closest s all in
    let asked_too = put_each (put_replacement key) reply (take remaining_nodes replacements) s in
    if ltb (length replacements) remaining_nodes then s else asked_too

-- The request to the nodes of `find_closest_nodes`, in the order of the shuffle, and to replacements.
unfoldable pub send_to_closest :
    Text → (Contact → Reply) → Outcome (List Contact) → List Contact → Sending → Outcome Sending
send_to_closest key reply all closest s =
    let first = put_each (put_closest key) reply closest s in
    if ltb (length closest) replication_factor
    then ok first
    else if ltb first.nodes_sent_count replication_factor
    then (all >>= λ nodes. ok (put_remaining key reply closest first nodes))
    else ok first

module _ (p : Platform) where
  open p use {Value, parse, is_out_of_range, is_object}

  unfoldable pub is_value_publishable : Text → Bool
  is_value_publishable value = elim (parse value) [
    | none ↦ false
    | some json ↦ elim (string_at p json (bytes "metadata")) [
      | none ↦ false
      | some metadata ↦ is_object json && not (text_eq metadata (bytes "listing"))
    ]
  ]

  -- The value is not publishable, or the exception of a number that is too large passes
  -- `is_value_publishable`.
  unfoldable pub not_published : Option Value → Text → Providers → Outcome Sending
  not_published none value providers =
      if is_out_of_range value then throws else ok (started providers)
  not_published (some json) value providers = ok (started providers)

  module _ (memory : ℕ → ℕ) (std : Sorting) (rng : Shuffling) (reply : Contact → Reply)
      (t : Table) where
    -- `send_put`: what it returns is the count.
    unfoldable pub send_put : Text → Text → Providers → Outcome Sending
    send_put key value providers =
        if is_value_publishable value
        then (do
          closest ← find_closest_nodes memory std t key replication_factor
          send_to_closest key reply (find_closest_nodes memory std t key (get_node_count t))
              (rng.shuffle closest) (started providers))
        else not_published (parse value) value providers

-- What `republish_once` counts.
pub record Report : Type 0 where
  pub total_responses : ℕ
  pub successful_puts : ℕ
  pub partial_puts : ℕ
  pub failed_puts : ℕ

abbrev pub no_puts : Report
no_puts = record { total_responses = 0; successful_puts = 0; partial_puts = 0; failed_puts = 0 }

-- The counters after a `send_put` that returned `put_responses`.
unfoldable pub count_put : ℕ → Report → Report
count_put put_responses r =
    let r' : Report = record r { total_responses = r.total_responses + put_responses } in
    if leb replication_factor put_responses
    then record r' { successful_puts = r.successful_puts + 1 }
    else if ltb 0 put_responses
    then record r' { partial_puts = r.partial_puts + 1 }
    else record r' { failed_puts = r.failed_puts + 1 }

module _ (p : Platform) (memory : ℕ → ℕ) (std : Sorting) (rng : Shuffling)
    (reply : Text → Contact → Reply) (t : Table) where
  -- `republish_once`, over the entries of the hash table; `reply key` is what the nodes answer to
  -- the request for that key.
  unfoldable pub republish_once : Dict Text → Providers → Report → Outcome (Report × Providers)
  republish_once [] providers r = ok (r, providers)
  republish_once ((key, value) ∷ data') providers r = do
    s ← send_put p memory std rng (reply key) t key value providers
    republish_once data' s.providers (count_put s.nodes_sent_count r)
