-- ===== src/Dht/Health.antt =====
-- src/core/protocol/p2p/node.cpp: the health checks of the nodes in the routing table, by `heartbeat`. Whether
-- a node answers a ping is a parameter, and the table of the bootstrap nodes another. One pass of the
-- loop is modelled, without the waiting.
pub mod Round
pub mod Survivors
pub mod Passed
use testshop.Prelude.{
  ℕ, zero, suc, ◌+◌, Bool, true, false, ◌&&◌, ◌||◌, List, [], ◌∷◌, Text, text_eq, Outcome, ok,
  throws, faults, ◌>>=◌, ◌==◌, leb, if◌then◌else◌, length, set,
}
use testshop.Dht.Table.{Contact, Bucket, Table, bucket_at, bucket_count, remove_node, get_nodes}

-- NEROSHOP_DHT_MAX_HEALTH_CHECKS
abbrev pub max_health_checks : ℕ
max_health_checks = 3

pub data NodeStatus : Type 0 where
  dead inactive active : NodeStatus

-- `get_status` and `is_dead`, of the value of `check_counter`.
unfoldable pub get_status : ℕ → NodeStatus
get_status value =
    if value == 0
    then active
    else if leb value 2
    then inactive
    else if leb max_health_checks value
    then dead
    else inactive

abbrev pub is_dead : ℕ → Bool
is_dead value = leb max_health_checks value

pub record BootstrapNode : Type 0 where
  pub address : Text
  pub port : ℕ

unfoldable pub is_hardcoded : List BootstrapNode → Contact → Bool
is_hardcoded [] node = false
is_hardcoded (b ∷ bs) node =
    (text_eq b.address node.address && b.port == node.port) || is_hardcoded bs node

-- `check_counter.store`, on the node of that identifier in a bucket.
unfoldable pub set_counter : Text → ℕ → List Contact → List Contact
set_counter id counter [] = []
set_counter id counter (c ∷ cs) =
    let rest = set_counter id counter cs in
    if text_eq c.id id then record c { check_counter = counter } ∷ rest else c ∷ rest

unfoldable pub store_counter : Text → ℕ → ℕ → Table → Table
store_counter id counter i t =
    let b = bucket_at t i in
    record t {
      buckets =
          set t.buckets i
            (record { nodes = set_counter id counter b.nodes; last_changed = b.last_changed });
    }

-- The counter after a check.
abbrev pub checked : Bool → ℕ → ℕ
checked pinged counter = if pinged then 0 else counter + 1

module _ (memory : ℕ → ℕ) (now : ℕ) (bootstrap_nodes : List BootstrapNode)
    (ping : Contact → Bool) where
  -- One node of the snapshot of bucket `i`.
  unfoldable pub check_node : ℕ → Contact → Table → Outcome Table
  check_node i node t =
      let counter = checked (ping node) node.check_counter in
      let t' = store_counter node.id counter i t in
      let removed : Outcome Table = remove_node memory now t' node.id >>= λ r. ok r.0 in
      if is_hardcoded bootstrap_nodes node then ok t else if is_dead counter then removed else ok t'

  unfoldable pub check_nodes : ℕ → List Contact → Table → Outcome Table
  check_nodes i [] t = ok t
  check_nodes i (node ∷ nodes) t = check_node i node t >>= λ t'. check_nodes i nodes t'

  -- The buckets from number `i`, of which `n` are left.
  unfoldable pub check_buckets : ℕ → ℕ → Table → Outcome Table
  check_buckets zero i t = ok t
  check_buckets (suc n) i t =
      check_nodes i (bucket_at t i).nodes t >>= λ t'. check_buckets n (i + 1) t'

  unfoldable pub heartbeat : Table → Outcome Table
  heartbeat t = check_buckets bucket_count 0 t

-- `get_active_peer_count` and `get_idle_peer_count`.
unfoldable pub count_active : List Contact → ℕ
count_active [] = 0
count_active (c ∷ cs) = (elim (get_status c.check_counter) [ active ↦ 1 | _ ↦ 0 ]) + count_active cs

unfoldable pub count_idle : List Contact → ℕ
count_idle [] = 0
count_idle (c ∷ cs) = (elim (get_status c.check_counter) [ inactive ↦ 1 | _ ↦ 0 ]) + count_idle cs

unfoldable pub get_active_peer_count : Table → ℕ
get_active_peer_count t = count_active (get_nodes t)

unfoldable pub get_idle_peer_count : Table → ℕ
get_idle_peer_count t = count_idle (get_nodes t)
