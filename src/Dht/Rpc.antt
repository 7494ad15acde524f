-- ===== src/Dht/Rpc.antt =====
-- src/core/protocol/rpc/protobuf.cpp: `protobuf_process`, which answers a request of another node or, in
-- IPC mode, of the user's own programs. Of a request it takes what `ParseFromArray` reads, `none`
-- where that fails, and it returns the reply before `SerializeToArray`.
pub mod Ipc
pub mod Process
pub mod Methods
pub mod Remote
pub mod Replies
pub mod Local
use testshop.Prelude.{
  ℕ, ◌+◌, Bool, true, false, ◌&&◌, ◌||◌, not, Option, none, some, List, [], ◌∷◌, ◌++◌, map, Text,
  bytes, text_eq, Dict, lookup, erase, has_key, Outcome, ok, throws, faults, ◌>>=◌, ◌==◌, ltb,
  if◌then◌else◌, length,
}
use testshop.Dht.Platform.{Platform}
use testshop.Dht.Id.{hex_string_to_node_id, xor_distance_bit_index}
use testshop.Dht.Table.{Contact, get_nodes, get_node_count}
use testshop.Dht.Table.Closest.{Sorting, find_closest_nodes}
use testshop.Dht.Providers.{Peer, get_providers}
use testshop.Dht.Store.{Store, validate}
use testshop.Dht.Store.Put.{put, get, remove, remove_all, cache}
use testshop.Dht.Health.{
  NodeStatus, dead, inactive, active, get_status, get_active_peer_count, get_idle_peer_count,
}
use testshop.Dht.Publish.{replication_factor, Shuffling, is_value_publishable}
use testshop.Dht.Retrieve.{max_closest_nodes, or_empty}
use testshop.Dht.Message.{
  NodeInfo, Query, Response, DhtMessage, not_set, query, response, error, new_response,
  mutable_error, set_version, set_error, set_data, add_nodes, DhtResultCode, success, store_failed,
  store_partial, store_to_self, retrieve_failed, parse_error, remove_failed, code_number,
  get_dht_result_code_as_string, is_success,
}
use testshop.Dht.Node.{Node, Network, map_value}

-- NEROSHOP_DHT_VERSION
abbrev pub version : Text
version = bytes "1.0"

-- What a method comes to: the code, the reply so far, and the node after it.
pub record Answer : Type 0 where
  pub code : DhtResultCode
  pub reply : DhtMessage
  pub node : Node

abbrev pub answer : DhtResultCode → DhtMessage → Node → Outcome Answer
answer code reply n = ok (record { code = code; reply = reply; node = n })

-- An error is set, then the version of a response.
abbrev pub refusal : DhtResultCode → Text → Response → DhtMessage
refusal code message resp =
    set_version version (set_error (code_number code) message (response resp))

abbrev pub node_info : Text → ℕ → NodeInfo
node_info address port = record {
  address = address;
  port = port;
  id = [];
  status = 0;
  distance = 0;
}

abbrev info_of_node : Contact → NodeInfo
info_of_node c = node_info c.address c.port

abbrev info_of_peer : Peer → NodeInfo
info_of_peer peer = node_info peer.address peer.port

unfoldable pub get_providers_method : Dict Text → Response → Node → Outcome Answer
get_providers_method args resp n = elim (lookup (bytes "key") args) [
  | none ↦ answer parse_error (response resp) n
  | some key ↦
      let peers = get_providers key n.providers in
      let self : Peer = record { address = n.address; port = n.port } in
      let all =
        if has_key key n.store.stored || has_key key n.store.hash_table
        then self ∷ peers
        else peers in
      answer success (response (add_nodes (map info_of_peer all) resp)) n
]

-- The value of a key for another node: from the hash table, else from the database, else empty.
unfoldable pub local_value : Text → Store → Text
local_value key s = if has_key key s.stored then get key s else or_empty (lookup key s.hash_table)

unfoldable pub reply_value : Text → Response → Node → Outcome Answer
reply_value value resp n =
    if text_eq value []
    then answer retrieve_failed (refusal retrieve_failed (bytes "Key not found") resp) n
    else answer success (response (set_data (bytes "value") value resp)) n

-- `node.remove(key)`, where the key is there.
abbrev pub remove_stored : Text → Store → DhtResultCode × Store
remove_stored key s =
    let (gone, s') = remove key s in
    if has_key key s.stored then (if gone then success else remove_failed, s') else (success, s)

-- DELETE FROM hash_table, and from mappings, where the row is there.
abbrev pub remove_row : Text → DhtResultCode × Store → DhtResultCode × Store
remove_row key (code, s) =
    if has_key key s.hash_table
    then (success, record s { hash_table = erase key s.hash_table })
    else (code, s)

abbrev pub remove_mapping : Text → DhtResultCode × Store → DhtResultCode × Store
remove_mapping key (code, s) =
    if has_key key s.mappings
    then (success, record s { mappings = erase key s.mappings })
    else (code, s)

abbrev reply_code : DhtResultCode → Response → Node → Outcome Answer
reply_code code resp n =
    answer code
      (if is_success code
        then response resp
        else refusal code (get_dht_result_code_as_string code) resp)
      n

unfoldable pub remove_method : Dict Text → Response → Node → Outcome Answer
remove_method args resp n = elim (lookup (bytes "key") args) [
  | none ↦ answer parse_error (response resp) n
  | some key ↦
      let (code, s) = remove_mapping key (remove_row key (remove_stored key n.store)) in
      reply_code code resp (record n { store = s })
]

unfoldable pub clear_method : Response → Node → Outcome Answer
clear_method resp n =
    let (cleared, s) = remove_all n.store in
    reply_code (if cleared then success else remove_failed) resp (record n { store = s })

-- static_cast<int> of the status
abbrev status_number : NodeStatus → ℕ
status_number dead = 0
status_number inactive = 1
status_number active = 2

module _ (p : Platform) (memory : ℕ → ℕ) (now : ℕ) (std : Sorting) where
  unfoldable pub find_node_method : Dict Text → Response → Node → Outcome Answer
  find_node_method args resp n = elim (lookup (bytes "target") args) [
    | none ↦ answer parse_error (response resp) n
    | some target ↦ do
      nodes ← find_closest_nodes memory std n.table target max_closest_nodes
      answer success (response (add_nodes (map info_of_node nodes) resp)) n
  ]

  unfoldable pub get_method : Dict Text → Response → Node → Outcome Answer
  get_method args resp n = elim (lookup (bytes "key") args) [
    | none ↦ answer parse_error (response resp) n
    | some key ↦ reply_value (local_value key n.store) resp n
  ]

  unfoldable pub put_method : Dict Text → Response → Node → Outcome Answer
  put_method args resp n = elim (lookup (bytes "key") args) [
    | none ↦ answer parse_error (response resp) n
    | some key ↦ elim (lookup (bytes "value") args) [
      | none ↦ answer parse_error (response resp) n
      | some value ↦ do
        (stored, s) ← put p now key value n.store
        reply_code (if stored then success else store_failed) resp (record n { store = s })
    ]
  ]

  unfoldable pub map_method : Dict Text → Response → Node → Outcome Answer
  map_method args resp n = elim (lookup (bytes "key") args) [
    | none ↦ answer parse_error (response resp) n
    | some key ↦ elim (lookup (bytes "value") args) [
      | none ↦ answer parse_error (response resp) n
      | some value ↦ do
        (valid, s) ← validate p now key value n.store
        let n' : Node = record n { store = s }
        let skip : Outcome Answer = answer success (response resp) n'
        let mapped : Outcome Answer =
            (map_value p key value n' >>= λ n''. answer success (response resp) n'')
        if valid then mapped else skip
    ]
  ]
