-- ===== src/Dht/Tests/Network.antt =====
-- `send_put`, `send_get` and `send_get_providers` on a concrete table and concrete answers.
use mathlib.Core.List.Perm
use testshop.Prelude.{◌≡◌, refl, List, [], ◌∷◌, bytes, text_eq, lookup, ok, arith}
use testshop.Dht.Byte.{msb_index_from_left}
use testshop.Dht.Id.{
  hex_char_to_byte, hex_string_to_node_id, node_id_to_hex_string, xor_distance_bit_index,
}
use testshop.Dht.Id.Hex.{hex_string_to_node_id-node_id_to_hex_string}
use testshop.Dht.Table.{Contact, new_table, get_nodes, all_nodes}
use testshop.Dht.Table.Closest.{find_closest_nodes, score}
use testshop.Dht.Providers.{Peer, IsProviders, get_providers}
use testshop.Dht.Store.{
  Store, is_valid_metadata, validate_fields, verify, check_expiry, validate_json, validate,
  signed_parts, is_signed,
}
use testshop.Dht.Publish.{
  replication_factor, Reply, response, Shuffling, Sending, is_value_publishable, send_put,
}
use testshop.Dht.Publish.Sent.{IsSent, send_put-IsSent}
use testshop.Dht.Retrieve.{
  GetReply, value, timed_out, Local, get_from, get_from_others, get_round, send_get, ProvidersReply,
  peers, Gathered, gather, providers_round, add_unique, has_peer, send_get_providers,
}
use testshop.Dht.Retrieve.Found.{Passes, send_get-Passes}
use testshop.Dht.Tests.Fixture.{memory, far, far-IsXorId, platform, key}
use testshop.Dht.Tests.Sorting.{sorting, insertion_sort, insert_node}
use testshop.Dht.Tests.Tables.{table, table-IsTable}

abbrev pub same_order : Shuffling
same_order = record { shuffle = λ cs. cs; shuffle-perm = λ cs. Perm.refl cs }

abbrev pub all_respond : Contact → Reply
all_respond c = response

send_put-IsSent_example :
    (s : Sending) × (closest : List Contact) × (more : List Contact) × (find_closest_nodes memory
        sorting table
        (node_id_to_hex_string far)
        replication_factor
      ≡ ok closest)
    × (send_put platform memory sorting same_order all_respond table
          (node_id_to_hex_string far)
          (bytes "order-1")
          []
        ≡ ok s)
    × IsSent all_respond closest more s
unfolding is_value_publishable bytes text_eq lookup
send_put-IsSent_example =
    send_put-IsSent platform memory sorting same_order all_respond table (node_id_to_hex_string far)
      (bytes "order-1") far [] table-IsTable
      (hex_string_to_node_id-node_id_to_hex_string memory far far-IsXorId) refl

pub no-IsProviders : IsProviders []
unfolding lookup
no-IsProviders h = refl

abbrev holder : Peer
holder = record { address = bytes "10.0.0.9"; port = 1 }

abbrev empty_store : Store
empty_store = record { stored = []; hash_table = []; mappings = [] }

abbrev before : Local
before = record { store = empty_store; providers = [] }

abbrev pub no_answer : Peer → GetReply
no_answer peer = timed_out

abbrev listing_answer : Peer → GetReply
listing_answer peer = value (bytes "listing-1")

get_run :
    send_get platform 0 key no_answer listing_answer (ok (holder ∷ [])) before
    ≡ ok (bytes "listing-1", before)
unfolding send_get get_from get_from_others get_round get_providers validate validate_json
    check_expiry validate_fields verify is_valid_metadata is_signed signed_parts bytes text_eq
    lookup
get_run = refl

send_get-Passes_example : Passes platform 0 key (bytes "listing-1")
unfolding lookup bytes
send_get-Passes_example =
    send_get-Passes platform 0 key no_answer listing_answer (ok (holder ∷ [])) before
      (bytes "listing-1", before) no-IsProviders refl refl get_run (λ e. ground arith)

abbrev pub one_peer : Contact → ProvidersReply
one_peer c = peers (holder ∷ holder ∷ [])

abbrev one_found : Gathered
one_found = record { found = holder ∷ []; raised = [] }

-- The peer is named twice and found once.
gather_run :
    send_get_providers memory sorting same_order one_peer table (node_id_to_hex_string far)
    ≡ ok one_found
unfolding send_get_providers find_closest_nodes score get_nodes all_nodes insertion_sort insert_node
    gather providers_round add_unique has_peer hex_string_to_node_id hex_char_to_byte new_table
    node_id_to_hex_string xor_distance_bit_index msb_index_from_left text_eq bytes
gather_run = refl
