-- ===== src/Dht/Table.antt =====
-- src/core/protocol/p2p/routing_table.{hpp,cpp}: the routing table, 256 buckets of at most 20 nodes. The
-- locks are not modelled: each operation runs whole. `memory` is what an identifier's bytes hold
-- before `hex_string_to_node_id` writes them, `now` what the clock returns.
pub mod Contacts
pub mod Valid
pub mod Add
pub mod Remove
pub mod Lookup
pub mod Count
pub mod Closest
use testshop.Prelude.{
  ℕ, zero, suc, ◌+◌, ◌<◌, ◌≡◌, Bool, true, false, ◌&&◌, Option, none, some, List, [], ◌∷◌, ◌++◌,
  map, Text, text_eq, Outcome, ok, throws, faults, ◌>>=◌, ◌==◌, ltb, leb, if◌then◌else◌, length,
  get_or, set, take, replicate,
}
use testshop.Dht.Id.{XorId, hex_string_to_node_id, xor_distance_bit_index}

-- A remote `Node`: what the table reads of it, and the counter of its failed checks.
pub record Contact : Type 0 where
  pub address : Text
  pub port : ℕ
  pub id : Text
  pub check_counter : ℕ

pub record Bucket : Type 0 where
  pub nodes : List Contact
  pub last_changed : ℕ

pub record Table : Type 0 where
  pub id : XorId
  pub buckets : List Bucket

abbrev pub bucket_count : ℕ
bucket_count = 256

abbrev pub nodes_per_bucket : ℕ
nodes_per_bucket = 20

abbrev pub empty_bucket : Bucket
empty_bucket = record { nodes = []; last_changed = 0 }

abbrev pub bucket_at : Table → ℕ → Bucket
bucket_at t i = get_or t.buckets i empty_bucket

-- The constructor from an identifier.
unfoldable pub new_table : XorId → Table
new_table id = record { id = id; buckets = replicate bucket_count empty_bucket }

unfoldable pub has_id : Text → List Contact → Bool
has_id hex [] = false
has_id hex (c ∷ cs) = let rest = has_id hex cs in if text_eq c.id hex then true else rest

unfoldable pub has_address : Text → List Contact → Bool
has_address address [] = false
has_address address (c ∷ cs) =
    let rest = has_address address cs in if text_eq c.address address then true else rest

unfoldable pub find_id : Text → List Contact → Option Contact
find_id hex [] = none
find_id hex (c ∷ cs) = let rest = find_id hex cs in if text_eq c.id hex then some c else rest

-- `erase` of the first node with the identifier.
unfoldable pub erase_id : Text → List Contact → List Contact
erase_id hex [] = []
erase_id hex (c ∷ cs) = let rest = c ∷ erase_id hex cs in if text_eq c.id hex then cs else rest

-- `remove_if`, then `erase`: every node at the address.
unfoldable pub erase_address : Text → List Contact → List Contact
erase_address address [] = []
erase_address address (c ∷ cs) =
    let rest = erase_address address cs in if text_eq c.address address then rest else c ∷ rest

module _ (memory : ℕ → ℕ) where
  unfoldable pub add_identified : ℕ → Table → Contact → XorId → Table × Bool
  add_identified now t node node_id =
      let bucket_index = xor_distance_bit_index t.id node_id in
      let bucket = bucket_at t bucket_index in
      if text_eq node_id t.id
      then (t, false)
      else if leb bucket_count bucket_index
      then (t, false)
      else if has_id node.id bucket.nodes
      then (t, false)
      else if leb nodes_per_bucket (length bucket.nodes)
      then (t, false)
      else (
        record t {
          buckets =
              set t.buckets bucket_index
                (record { nodes = bucket.nodes ++ node ∷ []; last_changed = now });
        },
        true,
      )

  unfoldable pub add_node : ℕ → Table → Option Contact → Outcome (Table × Bool)
  unfolding add_identified
  add_node now t none = ok (t, false)
  add_node now t (some node) = do
    node_id ← hex_string_to_node_id memory node.id
    ok (add_identified now t node node_id)

  -- `buckets[bucket_index]` of the identifier's bucket: index 256 is out of bounds.
  pub bucket_index_of : Table → XorId → Outcome ℕ
  bucket_index_of t node_id =
      let i = xor_distance_bit_index t.id node_id in if ltb i bucket_count then ok i else faults

  pub remove_at : ℕ → Table → Text → ℕ → Table × Bool
  remove_at now t hex i =
      let bucket = bucket_at t i in
      if has_id hex bucket.nodes
      then (
        record t {
          buckets =
              set t.buckets i (record { nodes = erase_id hex bucket.nodes; last_changed = now });
        },
        true,
      )
      else (t, false)

  pub remove_identified : ℕ → Table → Text → Outcome XorId → Outcome (Table × Bool)
  unfolding remove_at bucket_index_of
  remove_identified now t hex throws = ok (t, false)
  remove_identified now t hex faults = faults
  remove_identified now t hex (ok node_id) = do
    i ← bucket_index_of t node_id
    ok (remove_at now t hex i)

  -- `remove_node(node_id)`: an identifier of another length is caught, and removes nothing.
  pub remove_node : ℕ → Table → Text → Outcome (Table × Bool)
  unfolding remove_identified
  remove_node now t hex = remove_identified now t hex (hex_string_to_node_id memory hex)

  pub has_node : Table → Text → Outcome Bool
  unfolding bucket_index_of
  has_node t hex = do
    node_id ← hex_string_to_node_id memory hex
    i ← bucket_index_of t node_id
    ok (has_id hex (bucket_at t i).nodes)

  -- `none` is the expired pointer.
  pub get_node : Table → Text → Outcome (Option Contact)
  unfolding bucket_index_of
  get_node t hex = do
    node_id ← hex_string_to_node_id memory hex
    i ← bucket_index_of t node_id
    ok (find_id hex (bucket_at t i).nodes)

  pub get_bucket_index : Table → Text → Outcome ℕ
  get_bucket_index t hex = do
    node_id ← hex_string_to_node_id memory hex
    ok (xor_distance_bit_index t.id node_id)

pub erase_from : ℕ → Text → List Bucket → List Bucket × Bool
erase_from now address [] = ([], false)
erase_from now address (b ∷ bs) =
    let (bs', removed) = erase_from now address bs in
    let rest : List Bucket × Bool = (b ∷ bs', removed) in
    if has_address address b.nodes
    then (record { nodes = erase_address address b.nodes; last_changed = now } ∷ bs, true)
    else rest

-- `remove_node(address, port)`: the first bucket with a node at the address; the port is not read.
pub remove_node_at : ℕ → Table → Text → ℕ → Table × Bool
unfolding erase_from
remove_node_at now t address port =
    let (buckets, removed) = erase_from now address t.buckets in
    (record t { buckets = buckets }, removed)

unfoldable pub all_nodes : List Bucket → List Contact
all_nodes [] = []
all_nodes (b ∷ bs) = b.nodes ++ all_nodes bs

unfoldable pub get_nodes : Table → List Contact
unfolding all_nodes
get_nodes t = all_nodes t.buckets

-- `has_node(address, port)`: the port is not read here either.
pub any_address : Text → List Bucket → Bool
any_address address [] = false
any_address address (b ∷ bs) =
    let rest = any_address address bs in if has_address address b.nodes then true else rest

pub has_node_at : Table → Text → ℕ → Bool
unfolding any_address
has_node_at t address port = any_address address t.buckets

pub count_nodes : List Bucket → ℕ
count_nodes [] = 0
count_nodes (b ∷ bs) = length b.nodes + count_nodes bs

pub get_node_count : Table → ℕ
unfolding count_nodes
get_node_count t = count_nodes t.buckets

-- `get_node_count(bucket_index)`, with its assertion.
pub get_bucket_node_count : Table → ℕ → Outcome ℕ
get_bucket_node_count t i = if ltb i bucket_count then ok (length (bucket_at t i).nodes) else faults

pub is_bucket_full : Table → ℕ → Outcome Bool
is_bucket_full t i =
    if ltb i bucket_count then ok (leb nodes_per_bucket (length (bucket_at t i).nodes)) else faults

pub all_full : List Bucket → Bool
all_full [] = true
all_full (b ∷ bs) =
    let rest = all_full bs in if leb nodes_per_bucket (length b.nodes) then rest else false

pub are_buckets_full : Table → Bool
unfolding all_full
are_buckets_full t = all_full t.buckets
