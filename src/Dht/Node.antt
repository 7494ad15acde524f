-- ===== src/Dht/Node.antt =====
-- src/core/protocol/p2p/node.cpp: the state of a node, and the operations that act on several parts of
-- it at once. What other nodes answer is a parameter.
pub mod Counters
pub mod Kept
use testshop.Prelude.{
  ℕ, ◌+◌, Bool, true, false, Option, none, some, List, [], ◌∷◌, Text, text_eq, Dict, lookup,
  has_key, Outcome, ok, throws, faults, ◌>>=◌, if◌then◌else◌,
}
use testshop.Dht.Platform.{Platform}
use testshop.Dht.Table.{Contact, Bucket, Table}
use testshop.Dht.Table.Closest.{Sorting}
use testshop.Dht.Providers.{Peer, Providers, get_providers}
use testshop.Dht.Store.{Store}
use testshop.Dht.Publish.{Reply, Shuffling, Sending, send_put}
use testshop.Dht.Retrieve.{
  GetReply, ProvidersReply, Gathered, Local, get_from, send_get, send_get_providers,
}
use testshop.Dht.KeyMapper.{KeyMapper, add}

-- What the operations read and change of a `Node`.
pub record Node : Type 0 where
  pub id : Text
  pub address : Text
  pub port : ℕ
  pub store : Store
  pub providers : Providers
  pub table : Table
  pub key_mapper : KeyMapper

-- What other nodes answer to the requests of one call: to `put`, to `get` by our providers and by
-- those that others name, and to `get_providers`.
pub record Network : Type 0 where
  pub put_reply : Contact → Reply
  pub ours : Peer → GetReply
  pub theirs : Peer → GetReply
  pub named : Contact → ProvidersReply

-- `check_counter.fetch_add(1)`, on the node of that identifier.
unfoldable pub raise_nodes : Text → List Contact → List Contact
raise_nodes id [] = []
raise_nodes id (c ∷ cs) =
    let rest = raise_nodes id cs in
    if text_eq c.id id then record c { check_counter = c.check_counter + 1 } ∷ rest else c ∷ rest

unfoldable pub raise_buckets : Text → List Bucket → List Bucket
raise_buckets id [] = []
raise_buckets id (b ∷ bs) =
    record { nodes = raise_nodes id b.nodes; last_changed = b.last_changed } ∷ raise_buckets id bs

unfoldable pub raise_counters : List Contact → Table → Table
raise_counters [] t = t
raise_counters (c ∷ cs) t =
    raise_counters cs (record { id = t.id; buckets = raise_buckets c.id t.buckets })

-- The nodes whose counter `send_get` raises: those of the third option, when it comes to that.
abbrev raised_by_others : Outcome (Option Text × Local) → Outcome Gathered → List Contact
raised_by_others (ok (none, l)) (ok g) = g.raised
raised_by_others (ok (none, l)) throws = []
raised_by_others (ok (none, l)) faults = []
raised_by_others (ok (some v, l)) gathered = []
raised_by_others throws gathered = []
raised_by_others faults gathered = []

-- `Node::map`
unfoldable pub map_value : (p : Platform) → Text → Text → Node → Outcome Node
map_value p key value n = do
  (m, rows) ← add p key value n.key_mapper n.store.mappings
  ok (record n { store = record n.store { mappings = rows }; key_mapper = m })

module _ (p : Platform) (memory : ℕ → ℕ) (now : ℕ) (std : Sorting) (rng : Shuffling)
    (net : Network) where
  -- `send_put` on the node: the count of the nodes that were sent the value.
  unfoldable pub publish : Text → Text → Node → Outcome (ℕ × Node)
  publish key value n = do
    s ← send_put p memory std rng net.put_reply n.table key value n.providers
    ok (
      s.nodes_sent_count,
      record n { providers = s.providers; table = raise_counters s.raised n.table },
    )

  unfoldable pub raised_by_get : Text → Node → List Contact
  raised_by_get key n =
      if has_key key n.store.stored then [] else (elim (lookup key n.store.hash_table) [
        | some cached ↦ []
        | none ↦
            raised_by_others
              (get_from p now key net.ours (get_providers key n.providers)
                (record { store = n.store; providers = n.providers }))
              (send_get_providers memory std rng net.named n.table key)
      ])

  -- `send_get` on the node: the value, empty where none was found.
  unfoldable pub retrieve : Text → Node → Outcome (Text × Node)
  retrieve key n = do
    (value, l) ←
        send_get p now key net.ours net.theirs
          (send_get_providers memory std rng net.named n.table key >>= λ g. ok g.found)
          (record { store = n.store; providers = n.providers })
    ok (
      value,
      record n {
        store = l.store;
        providers = l.providers;
        table = raise_counters (raised_by_get key n) n.table;
      },
    )
