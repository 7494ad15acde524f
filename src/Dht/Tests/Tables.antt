-- ===== src/Dht/Tests/Tables.antt =====
-- The routing table on a concrete node.
use mathlib.Core.List.{Perm}
use testshop.Prelude.{
  ◌+◌, ◌≤◌, min, ◌≡◌, ◌≢◌, ◌↔◌, refl, Bool, true, false, Option, some, is_some, List, ◌++◌, map,
  bytes, text_eq, ok, length, All, if◌then◌else◌,
}
use testshop.Dht.Byte.{msb_index_from_left}
use testshop.Dht.Id.{
  hex_char_to_byte, hex_string_to_node_id, node_id_to_hex_string, xor_distance_bit_index,
}
use testshop.Dht.Id.Hex.{hex_string_to_node_id-node_id_to_hex_string}
use testshop.Dht.Table.{
  Contact, Table, new_table, has_id, add_identified, add_node, remove_node, has_node, get_node,
  get_nodes, get_node_count, are_buckets_full,
}
use testshop.Dht.Table.Valid.{IsTable, IsTable-new_table}
use testshop.Dht.Table.Add.{add_node-IsTable, with_node}
use testshop.Dht.Table.Remove.{remove_node_lem}
use testshop.Dht.Table.Lookup.{IsNodeOf, has_node-get_nodes}
use testshop.Dht.Table.Count.{get_node_count_bound}
use testshop.Dht.Table.Closest.{
  ScoredNode, IsSorted, IsScored, IsCovered, find_closest_nodes, find_closest_nodes_lem,
}
use testshop.Dht.Tests.Fixture.{
  memory, own, near, far, own-IsXorId, near-IsXorId, far-IsXorId, id_ne,
}
use testshop.Dht.Tests.Sorting.{sorting}

near_ne_own : near ≢ own
unfolding text_eq
near_ne_own = id_ne near own refl

abbrev pub contact : Contact
contact = record {
  address = bytes "10.0.0.1";
  port = 50881;
  id = node_id_to_hex_string near;
  check_counter = 0;
}

abbrev pub empty_table : Table
empty_table = new_table own

abbrev pub table : Table
table = with_node 7 empty_table contact 11

add_run : add_node memory 7 empty_table (some contact) ≡ ok (table, true)
unfolding add_node add_identified new_table hex_string_to_node_id hex_char_to_byte
    node_id_to_hex_string xor_distance_bit_index msb_index_from_left has_id text_eq
add_run = refl

pub table-IsTable : IsTable memory table
table-IsTable =
    add_node-IsTable memory 7 empty_table table (some contact) true
      (IsTable-new_table memory own own-IsXorId) add_run

add_node-IsTable_example : IsTable memory table
add_node-IsTable_example =
    add_node-IsTable memory 7 empty_table table (some contact) true
      (IsTable-new_table memory own own-IsXorId) add_run

remove_node_example :
    (t' : Table) × (removed : Bool) × (remove_node memory 8 table (node_id_to_hex_string near)
      ≡ ok (t', removed))
    × IsTable memory t'
    × (has_node memory table (node_id_to_hex_string near) ≡ ok removed)
    × (has_node memory t' (node_id_to_hex_string near) ≡ ok false)
    × (get_node_count table ≡ get_node_count t' + (if removed then 1 else 0))
unfolding new_table
remove_node_example =
    remove_node_lem memory 8 table (node_id_to_hex_string near) near table-IsTable
      (hex_string_to_node_id-node_id_to_hex_string memory near near-IsXorId) near-IsXorId
      near_ne_own

has_node-get_nodes_example :
    (found : Option Contact) × (get_node memory table (node_id_to_hex_string near) ≡ ok found)
    × (has_node memory table (node_id_to_hex_string near) ≡ ok (is_some found))
    × (is_some found ≡ has_id (node_id_to_hex_string near) (get_nodes table))
    × IsNodeOf (node_id_to_hex_string near) found
unfolding new_table
has_node-get_nodes_example =
    has_node-get_nodes memory table (node_id_to_hex_string near) near table-IsTable
      (hex_string_to_node_id-node_id_to_hex_string memory near near-IsXorId) near-IsXorId
      near_ne_own

get_node_count_example :
    (get_node_count table ≡ length (get_nodes table))
    × (get_node_count table ≤ 5120)
    × ((are_buckets_full table ≡ true) ↔ (get_node_count table ≡ 5120))
get_node_count_example = get_node_count_bound memory table table-IsTable

find_closest_nodes_example :
    (scored : List ScoredNode) × (chosen : List ScoredNode) × (rest : List ScoredNode) × All
      (IsScored memory far)
      scored
    × All (IsCovered memory far scored) (get_nodes table)
    × (find_closest_nodes memory sorting table (node_id_to_hex_string far) 20
        ≡ ok (map (λ s. s.node) chosen))
    × Perm (chosen ++ rest) scored
    × (length chosen ≡ min 20 (length scored))
    × IsSorted chosen
    × All (λ (s : ScoredNode). All (λ (r : ScoredNode). s.distance ≤ r.distance) rest) chosen
find_closest_nodes_example =
    find_closest_nodes_lem memory sorting table (node_id_to_hex_string far) far 20 table-IsTable
      (hex_string_to_node_id-node_id_to_hex_string memory far far-IsXorId)
