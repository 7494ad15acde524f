-- ===== src/Dht/Rpc/Process.antt =====
-- src/core/protocol/rpc/protobuf.cpp: the tests that a request passes, the choice of its method, and the
-- reply.
use testshop.Prelude.{
  ℕ, Bool, ◌&&◌, not, Option, none, some, [], Text, bytes, text_eq, has_key, Outcome, ok, ◌>>=◌,
  if◌then◌else◌,
}
use testshop.Dht.Platform.{Platform}
use testshop.Dht.Table.Closest.{Sorting}
use testshop.Dht.Publish.{Shuffling}
use testshop.Dht.Message.{
  Query, Response, DhtMessage, not_set, query, response, error, new_response, mutable_error,
  set_version, set_error, set_data, DhtResultCode, success, parse_error, code_number,
  get_dht_result_code_as_string, is_success,
}
use testshop.Dht.Node.{Node, Network}
use testshop.Dht.Rpc.{
  version, Answer, answer, refusal, get_providers_method, remove_method, clear_method,
  find_node_method, get_method, put_method, map_method,
}
use testshop.Dht.Rpc.Ipc.{Host, ipc_get, ipc_put}

-- The reply to a request that is refused before its method is looked at.
unfoldable pub early : Text → DhtMessage
early message = set_version version (set_error (code_number parse_error) message not_set)

-- The response that a method starts from.
unfoldable pub prepared : Query → Node → Response
prepared q n = set_data (bytes "id") n.id (record new_response { tid = q.tid; version = version })

-- An error takes the place of the reply where the code is not `Success`.
unfoldable pub finished : DhtResultCode → DhtMessage → DhtMessage
finished code reply =
    let e = mutable_error reply in
    let message = if text_eq e.message [] then get_dht_result_code_as_string code else e.message in
    if is_success code
    then reply
    else error (record e { code = code_number code; message = message })

-- The version is set where there is neither a response nor an error.
unfoldable pub with_version : DhtMessage → DhtMessage
with_version not_set = set_version version not_set
with_version (query q) = set_version version (query q)
with_version (response r) = response r
with_version (error e) = error e

module _ (p : Platform) (memory : ℕ → ℕ) (now : ℕ) (std : Sorting) (rng : Shuffling) (net : Network)
    (host : Host) where
  unfoldable pub call_method : Bool → Query → Response → Node → Outcome Answer
  call_method ipc_mode q resp n =
      if text_eq q.query (bytes "ping")
      then answer success (response resp) n
      else if text_eq q.query (bytes "find_node")
      then find_node_method p memory now std q.args resp n
      else if text_eq q.query (bytes "get_providers")
      then get_providers_method q.args resp n
      else if text_eq q.query (bytes "get")
      then (if ipc_mode
          then ipc_get p memory now std rng net host q.args resp n
          else get_method p memory now std q.args resp n)
      else if text_eq q.query (bytes "put")
      then (if ipc_mode
          then ipc_put p memory now std rng net q.args resp n
          else put_method p memory now std q.args resp n)
      else if text_eq q.query (bytes "map")
      then map_method p memory now std q.args resp n
      else if text_eq q.query (bytes "remove") && ipc_mode
      then remove_method q.args resp n
      else if text_eq q.query (bytes "clear") && ipc_mode
      then clear_method resp n
      else answer parse_error (refusal parse_error (bytes "Unknown method") resp) n

  unfoldable pub process_query : Bool → Query → Node → Outcome (DhtMessage × Node)
  process_query ipc_mode q n =
      if not (text_eq q.version version)
      then ok (early (bytes "Version mismatch"), n)
      else if not ipc_mode && not (has_key (bytes "id") q.args)
      then ok (early (bytes "Missing id in args"), n)
      else (do
        a ← call_method ipc_mode q (prepared q n) n
        ok (with_version (finished a.code a.reply), a.node))

  unfoldable pub protobuf_process : Bool → Option DhtMessage → Node → Outcome (DhtMessage × Node)
  protobuf_process ipc_mode none n = ok (early (bytes "Parse error"), n)
  protobuf_process ipc_mode (some (query q)) n = process_query ipc_mode q n
  protobuf_process ipc_mode (some not_set) n = ok (early (bytes "No query message"), n)
  protobuf_process ipc_mode (some (response r)) n = ok (early (bytes "No query message"), n)
  protobuf_process ipc_mode (some (error e)) n = ok (early (bytes "No query message"), n)
