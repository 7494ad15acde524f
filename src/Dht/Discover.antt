-- ===== src/Dht/Discover.antt =====
-- src/core/protocol/p2p/node.cpp: how a node learns of others: `send_find_node` and, with it, `join`, one
-- pass of `refresh`, and `rebuild_routing_table`. What other nodes answer to a ping and to `find_node`
-- is a parameter, without an answer no nodes.
pub mod Total
pub mod Self
pub mod Kept
use testshop.Prelude.{
  ℕ, zero, suc, ◌+◌, ◌-◌, ◌*◌, ◌%◌, ◌^◌, Bool, true, false, ◌||◌, not, Option, none, some, List, [],
  ◌∷◌, Text, Outcome, ok, throws, faults, ◌>>=◌, ◌==◌, ltb, if◌then◌else◌,
}
use testshop.Dht.Id.{node_id_to_hex_string, generate_random_node_id}
use testshop.Dht.Table.{Contact, Bucket, Table, bucket_at, bucket_count, has_node, add_node}
use testshop.Dht.Table.Closest.{Sorting, find_closest_nodes}
use testshop.Dht.Health.{BootstrapNode, is_hardcoded}
use testshop.Dht.Retrieve.{max_closest_nodes}
use testshop.Dht.Message.{NodeInfo}
use testshop.Dht.Listener.{Wire, remote_node}

-- Whether a node at an address and port answers a ping, and the nodes that it names for a target.
pub record Others : Type 0 where
  pub ping : Text → ℕ → Bool
  pub find_node : Text → ℕ → Text → List NodeInfo

-- One hour, in the units of the clock.
abbrev pub one_hour : ℕ
one_hour = 3600

-- A port of 32 bits, cut to 16.
abbrev pub named_node : Wire → NodeInfo → Contact
named_node w info = remote_node w info.address (info.port % 2 ^ 16)

abbrev is_nil : List Contact → Bool
is_nil [] = true
is_nil (c ∷ cs) = false

-- The bucket is empty, was never changed, or changed in the last hour.
abbrev pub is_fresh : ℕ → Bucket → Bool
is_fresh now bucket =
    is_nil bucket.nodes || bucket.last_changed == 0 || ltb (now - bucket.last_changed) one_hour

module _ (memory : ℕ → ℕ) (now : ℕ) (w : Wire) (others : Others) where
  open others use {ping, find_node}

  -- `send_find_node`: of the nodes that are named, those that the table has not.
  unfoldable pub unknown_nodes : Table → List NodeInfo → Outcome (List Contact)
  unknown_nodes t [] = ok []
  unknown_nodes t (info ∷ infos) = do
    known ← has_node memory t (named_node w info).id
    nodes ← unknown_nodes t infos
    ok (if known then nodes else named_node w info ∷ nodes)

  -- The nodes that answer a ping enter the table.
  unfoldable pub add_pinged : List Contact → Table → Outcome Table
  add_pinged [] t = ok t
  add_pinged (node ∷ nodes) t =
      let added : Outcome Table =
        (add_node memory now t (some node) >>= λ r. add_pinged nodes r.0) in
      let skipped = add_pinged nodes t in if ping node.address node.port then added else skipped

  -- The nodes that a node names for a target, where they answer a ping.
  unfoldable pub ask : Text → ℕ → Text → Table → Outcome Table
  ask address port target t = do
    nodes ← unknown_nodes t (find_node address port target)
    add_pinged nodes t

  unfoldable pub join : Text → List BootstrapNode → Table → Outcome Table
  join id [] t = ok t
  join id (b ∷ bs) t =
      let asked : Outcome Table = (ask b.address b.port id t >>= λ t'. join id bs t') in
      let skipped = join id bs t in if ping b.address b.port then asked else skipped

  unfoldable pub ask_each : Text → List Contact → Table → Outcome Table
  ask_each target [] t = ok t
  ask_each target (neighbor ∷ neighbors) t = do
    t' ← ask neighbor.address neighbor.port target t
    ask_each target neighbors t'

  module _ (std : Sorting) (coin : ℕ → ℕ → Bool) where
    -- One bucket of `refresh`: the nodes that `find_closest_nodes` returns for a random identifier of its
    -- range are asked.
    unfoldable pub refresh_bucket : ℕ → Table → Outcome Table
    refresh_bucket i t = if is_fresh now (bucket_at t i) then ok t else (do
      random_id ← generate_random_node_id (coin i) t.id i
      let target = node_id_to_hex_string random_id
      closest_nodes ← find_closest_nodes memory std t target max_closest_nodes
      ask_each target closest_nodes t)

    -- The buckets from number `i`, of which `n` are left.
    unfoldable pub refresh_buckets : ℕ → ℕ → Table → Outcome Table
    refresh_buckets zero i t = ok t
    refresh_buckets (suc n) i t = refresh_bucket i t >>= λ t'. refresh_buckets n (i + 1) t'

    unfoldable pub refresh : Table → Outcome Table
    refresh t = refresh_buckets bucket_count 0 t

  -- The rows of the table `routing_table`: those that are left, and the routing table.
  unfoldable pub rebuild_rows : List (Text × ℕ) → Table → Outcome (List (Text × ℕ) × Table)
  rebuild_rows [] t = ok ([], t)
  rebuild_rows ((address, port) ∷ rows) t =
      let node = remote_node w address port in
      let deleted = rebuild_rows rows t in
      let kept : Table → Outcome (List (Text × ℕ) × Table) =
        λ t'. (rebuild_rows rows t' >>= λ (rows', t''). ok ((address, port) ∷ rows', t'')) in
      let added : Outcome (List (Text × ℕ) × Table) =
        (add_node memory now t (some node) >>= λ r. kept r.0) in
      let left = kept t in
      if not (ping address port)
      then deleted
      else if is_hardcoded w.bootstrap_nodes node
      then left
      else added

  -- Only a seed keeps its nodes in the database.
  unfoldable pub rebuild_routing_table :
      Contact → List (Text × ℕ) → Table → Outcome (List (Text × ℕ) × Table)
  rebuild_routing_table self rows t =
      let rebuilt = rebuild_rows rows t in
      if is_hardcoded w.bootstrap_nodes self then rebuilt else ok (rows, t)
