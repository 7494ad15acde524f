-- ===== src/Dht/Tests/Ids.antt =====
-- Identifiers, their distances and their hexadecimal texts, on concrete values.
use testshop.Prelude.{
  ℕ, zero, suc, arith, ◌≡◌, refl, inr, true, ◌∷◌, ◌++◌, Text, ok, get_or, replicate, All,
}
use testshop.Dht.Byte.{msb_index_from_left}
use testshop.Dht.Id.{
  XorId, IsXorId, hex_char_to_byte, hex_string_to_node_id, node_id_to_hex_string,
  xor_distance_bit_index, generate_random_node_id, id_bits,
}
use testshop.Dht.Id.Prefix.{common_prefix}
use testshop.Dht.Id.Distance.{xor_distance_bit_index-common_prefix}
use testshop.Dht.Id.Hex.{
  IsHex, hex_string_to_node_id-node_id_to_hex_string, hex_string_to_node_id_bad,
}
use testshop.Dht.Id.Random.{generate_random_node_id-distance}
use testshop.Dht.Tests.Fixture.{memory, own, near, own-IsXorId, near-IsXorId}

distance_run : xor_distance_bit_index own near ≡ 11
unfolding xor_distance_bit_index msb_index_from_left
distance_run = refl

xor_distance_bit_index-common_prefix_example :
    xor_distance_bit_index own near ≡ common_prefix (id_bits own) (id_bits near)
xor_distance_bit_index-common_prefix_example =
    xor_distance_bit_index-common_prefix own near own-IsXorId near-IsXorId

round_trip_example : hex_string_to_node_id memory (node_id_to_hex_string near) ≡ ok near
round_trip_example = hex_string_to_node_id-node_id_to_hex_string memory near near-IsXorId

abbrev hex : Text
hex = replicate 64 b'a'

All-IsHex : (n : ℕ) → All IsHex (replicate n b'a')
unfolding hex_char_to_byte
All-IsHex zero = tt
All-IsHex (suc n) = ((10, refl), All-IsHex n)

abbrev bad_hex : Text
bad_hex = replicate 5 b'a' ++ b'g' ∷ replicate 58 b'a'

hex_string_to_node_id_bad_example :
    (id : XorId) × (hex_string_to_node_id memory bad_hex ≡ ok id) × (get_or id 2 0 ≡ memory 2)
unfolding hex_char_to_byte
hex_string_to_node_id_bad_example =
    hex_string_to_node_id_bad memory 2 bad_hex refl (omega arith) (inr refl)

generate_random_node_id-distance_example :
    (r : XorId) × (generate_random_node_id (λ i. true) own 11 ≡ ok r)
    × IsXorId r
    × (xor_distance_bit_index own r ≡ 11)
generate_random_node_id-distance_example =
    generate_random_node_id-distance (λ i. true) own 11 own-IsXorId (omega arith)
