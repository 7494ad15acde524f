-- ===== src/Dht/Tests/Requests.antt =====
-- Requests and messages on a concrete node.
use testshop.Prelude.{
  ◌≡◌, refl, true, false, Option, none, some, [], ◌∷◌, Text, bytes, text_eq, Dict, lookup, insert,
  ok, throws, ◌⊎◌, arith,
}
use testshop.Dht.Id.{node_id_to_hex_string}
use testshop.Dht.Store.{
  Store, is_valid_metadata, validate_fields, verify, check_expiry, validate_json, validate,
  signed_parts, is_signed,
}
use testshop.Dht.Store.Put.{write, put_valid, put}
use testshop.Dht.Message.{Query, DhtMessage, query, response, new_response, set_data}
use testshop.Dht.Node.{Node, Network}
use testshop.Dht.Rpc.{version, put_method}
use testshop.Dht.Rpc.Ipc.{Host}
use testshop.Dht.Rpc.Process.{
  prepared, finished, with_version, call_method, process_query, protobuf_process,
}
use testshop.Dht.Rpc.Remote.{protobuf_process_entry}
use testshop.Dht.Rpc.Replies.{IsAdmitted, early_error_lost, find_node_throws, put_then_get}
use testshop.Dht.Registry.{IsAccepted}
use testshop.Dht.System.{new_node}
use testshop.Dht.Tests.Fixture.{platform, key, memory, own}
use testshop.Dht.Tests.Sorting.{sorting}
use testshop.Dht.Tests.Network.{same_order, all_respond, no_answer, one_peer}
use testshop.Dht.KeyMapper.{new_mapper}

abbrev pub host : Host
host = record {
  to_string = λ n. [];
  get_data_ram_usage = λ s. 0;
  network_type = bytes "Tor";
  tor_bootstrap_progress = none;
}

abbrev pub net : Network
net = record { put_reply = all_respond; ours = no_answer; theirs = no_answer; named = one_peer }

abbrev pub node : Node
node = new_node (node_id_to_hex_string own) own (bytes "a.onion") 50881 new_mapper

abbrev request : Text → Dict Text → Query
request method args = record {
  version = version;
  query = method;
  args = (bytes "id", bytes "sender") ∷ args;
  tid = bytes "t1";
}

abbrev pub put_request : Query
put_request = request (bytes "put") ((bytes "key", key) ∷ (bytes "value", bytes "listing-1") ∷ [])

abbrev pub get_request : Query
get_request = request (bytes "get") ((bytes "key", key) ∷ [])

pub IsAdmitted-put_request : IsAdmitted put_request
unfolding bytes text_eq lookup
IsAdmitted-put_request = record { same_version = refl; identified = refl }

pub IsAdmitted-get_request : IsAdmitted get_request
unfolding bytes text_eq lookup
IsAdmitted-get_request = record { same_version = refl; identified = refl }

abbrev pub listing_stored : Store
listing_stored = record { stored = (key, bytes "listing-1") ∷ []; hash_table = []; mappings = [] }

abbrev pub after_put : Node
after_put = record node { store = listing_stored }

pub put_run : put platform 0 key (bytes "listing-1") node.store ≡ ok (true, listing_stored)
unfolding put put_valid write insert validate validate_json check_expiry validate_fields verify
    is_valid_metadata is_signed signed_parts bytes text_eq lookup
put_run = refl

pub process_run :
    protobuf_process platform memory 0 sorting same_order net host false
      (some (query put_request))
      node
    ≡ ok (response (prepared put_request node), after_put)
unfolding protobuf_process process_query call_method put_method finished with_version put put_valid
    write insert validate validate_json check_expiry validate_fields verify is_valid_metadata
    is_signed signed_parts bytes text_eq lookup
process_run = refl

protobuf_process_entry_example :
    (q : Query) × (◌≡◌ {A = Option DhtMessage} (some (query put_request)) (some (query q)))
    × (text_eq q.query (bytes "put") ≡ true)
    × (lookup (bytes "key") q.args ≡ some key)
    × (lookup (bytes "value") q.args ≡ some (bytes "listing-1"))
    × IsAccepted platform key (bytes "listing-1")
unfolding lookup text_eq bytes
protobuf_process_entry_example =
    protobuf_process_entry platform memory 0 sorting same_order net host (some (query put_request))
      node (response (prepared put_request node), after_put) key (bytes "listing-1") process_run
      refl (λ e. ground arith)

abbrev old_request : Query
old_request = record put_request { version = bytes "0.9" }

early_error_lost_example :
    protobuf_process platform memory 0 sorting same_order net host false
      (some (query old_request))
      node
    ≡ ok (response (record new_response { version = version }), node)
unfolding text_eq bytes
early_error_lost_example =
    early_error_lost platform memory 0 sorting same_order net host (some (query old_request)) node
      refl

abbrev short_request : Query
short_request = request (bytes "find_node") ((bytes "target", bytes "abc") ∷ [])

IsAdmitted-short_request : IsAdmitted short_request
unfolding bytes text_eq lookup
IsAdmitted-short_request = record { same_version = refl; identified = refl }

find_node_throws_example :
    protobuf_process platform memory 0 sorting same_order net host false
      (some (query short_request))
      node
    ≡ throws
unfolding lookup text_eq bytes
find_node_throws_example =
    find_node_throws platform memory 0 sorting same_order net host short_request node (bytes "abc")
      IsAdmitted-short_request refl refl (λ e. omega (arith, e))

put_then_get_example :
    (v : Text) × (lookup key after_put.store.stored ≡ some v)
    × ((v ≡ bytes "listing-1") ⊎ (lookup key node.store.stored ≡ some v))
    × (protobuf_process platform memory 9 sorting same_order net host false
          (some (query get_request))
          after_put
        ≡ ok (response (set_data (bytes "value") v (prepared get_request after_put)), after_put))
unfolding lookup text_eq bytes
put_then_get_example =
    put_then_get platform memory 0 9 sorting same_order net host put_request get_request node
      after_put (prepared put_request node) key (bytes "listing-1") refl
      (λ k v at. absurd (ground arith)) IsAdmitted-put_request refl refl refl IsAdmitted-get_request
      refl refl process_run
