-- ===== src/Dht/Rpc/Ipc.antt =====
-- src/core/protocol/rpc/protobuf.cpp: the methods as the user's own programs call them (`ipc_mode`).
use testshop.Prelude.{
  ℕ, ◌&&◌, Option, none, some, List, [], ◌∷◌, Text, bytes, text_eq, Dict, lookup, Outcome, ok,
  ◌>>=◌, ◌==◌, ltb, if◌then◌else◌, length,
}
use testshop.Dht.Platform.{Platform}
use testshop.Dht.Id.{hex_string_to_node_id, xor_distance_bit_index}
use testshop.Dht.Table.{Contact, get_nodes, get_node_count}
use testshop.Dht.Table.Closest.{Sorting}
use testshop.Dht.Store.{Store}
use testshop.Dht.Store.Put.{put, cache}
use testshop.Dht.Health.{get_status, get_active_peer_count, get_idle_peer_count}
use testshop.Dht.Publish.{replication_factor, Shuffling, is_value_publishable}
use testshop.Dht.Message.{
  NodeInfo, Response, DhtMessage, response, set_data, add_nodes, DhtResultCode, success,
  store_failed, store_partial, store_to_self, parse_error, get_dht_result_code_as_string,
}
use testshop.Dht.Node.{Node, Network, map_value, publish, retrieve}
use testshop.Dht.Rpc.{Answer, answer, refusal, reply_value, status_number}

-- What a "status" reply reads of the standard library, the memory and the transport.
pub record Host : Type 0 where
  -- `std::to_string`
  pub to_string : ℕ → Text
  pub get_data_ram_usage : Store → ℕ
  pub network_type : Text
  -- The progress of Tor's bootstrap, where there is a manager of it.
  pub tor_bootstrap_progress : Option ℕ

abbrev set_progress : (ℕ → Text) → Option ℕ → Response → Response
set_progress to_string none r = r
set_progress to_string (some n) r = set_data (bytes "tor_bootstrap_percent") (to_string n) r

-- The code after `send_put`, which sent the value to that number of nodes.
unfoldable pub sent_code : ℕ → DhtResultCode
sent_code put_messages_sent =
    let code = if ltb 0 put_messages_sent then success else store_failed in
    if ltb put_messages_sent replication_factor && ltb 0 put_messages_sent
    then store_partial
    else code

abbrev pub put_reply : DhtResultCode → Response → DhtMessage
put_reply success resp = response resp
put_reply store_partial resp = response resp
put_reply code resp = refusal code (get_dht_result_code_as_string code) resp

module _ (memory : ℕ → ℕ) where
  -- `get_peers`, with `get_distance` of each node to this one.
  unfoldable pub get_peers : Text → List Contact → Outcome (List NodeInfo)
  get_peers id [] = ok []
  get_peers id (c ∷ cs) =
      let rest = get_peers id cs in
      (do
        node_id ← hex_string_to_node_id memory c.id
        own_id ← hex_string_to_node_id memory id
        infos ← rest
        ok (
            record {
              address = c.address;
              port = c.port;
              id = c.id;
              status = status_number (get_status c.check_counter);
              distance = xor_distance_bit_index node_id own_id;
            }
            ∷ infos))

  -- The reply to `get` of the key "status".
  unfoldable pub status_reply : Host → Response → Node → Outcome Answer
  status_reply host resp n = do
    infos ← get_peers n.id (get_nodes n.table)
    let number = λ (name : Text) (value : ℕ) (r : Response). set_data name (host.to_string value) r
    let r₁ = number (bytes "connected_peers") (get_node_count n.table) resp
    let r₂ = number (bytes "active_peers") (get_active_peer_count n.table) r₁
    let r₃ = number (bytes "idle_peers") (get_idle_peer_count n.table) r₂
    let r₄ = number (bytes "data_count") (length n.store.stored) r₃
    let r₅ = number (bytes "data_ram_usage") (host.get_data_ram_usage n.store) r₄
    let r₆ = set_data (bytes "host") n.address r₅
    let r₇ = number (bytes "port") n.port r₆
    let r₈ = set_data (bytes "network_type") host.network_type r₇
    let r₉ = set_progress host.to_string host.tor_bootstrap_progress r₈
    answer success (response (add_nodes infos r₉)) n

module _ (p : Platform) (memory : ℕ → ℕ) (now : ℕ) (std : Sorting) (rng : Shuffling)
    (net : Network) where
  unfoldable pub ipc_get : Host → Dict Text → Response → Node → Outcome Answer
  ipc_get host args resp n = elim (lookup (bytes "key") args) [
    | none ↦ answer parse_error (response resp) n
    | some key ↦
        if text_eq key (bytes "status")
        then status_reply memory host resp n
        else (retrieve p memory now std rng net key n >>= λ (value, n'). reply_value value resp n')
  ]

  -- The value is stored in the node itself, cached and mapped, after it was sent.
  unfoldable pub store_self : Text → Text → ℕ → Response → DhtResultCode → Node → Outcome Answer
  store_self key value put_messages_sent resp code n = do
    (stored, s) ← put p now key value n.store
    let code' = if put_messages_sent == 0 then store_to_self else code
    let code'' = if is_value_publishable p value then code' else success
    let n' : Node = record n { store = s }
    let mapped : Outcome Answer =
        (map_value p key value (record n { store = cache key value s }) >>= λ n''.
        answer code'' (put_reply code'' resp) n'')
    if stored then mapped else answer code (put_reply code resp) n'

  unfoldable pub ipc_put : Dict Text → Response → Node → Outcome Answer
  ipc_put args resp n = elim (lookup (bytes "key") args) [
    | none ↦ answer parse_error (response resp) n
    | some key ↦ elim (lookup (bytes "value") args) [
      | none ↦ answer parse_error (response resp) n
      | some value ↦ do
        (put_messages_sent, n') ← publish p memory now std rng net key value n
        store_self key value put_messages_sent resp (sent_code put_messages_sent) n'
    ]
  ]
