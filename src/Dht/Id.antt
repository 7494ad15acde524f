-- ===== src/Dht/Id.antt =====
-- src/core/protocol/p2p/routing_table.cpp: node identifiers (`xor_id`, 32 bytes), their hexadecimal
-- form, the distance of two identifiers, and a random identifier for a bucket.
pub mod Prefix
pub mod Distance
pub mod Metric
pub mod Hex
pub mod Random
use Prim.Native.Nat.{bit_or}
use testshop.Prelude.{
  ℕ, zero, suc, ◌+◌, ◌-◌, ◌*◌, ◌/◌, ◌%◌, ◌^◌, ◌<◌, ◌≡◌, bit_xor, Bool, ◌&&◌, Option, none, some,
  List, [], ◌∷◌, ◌++◌, Text, Outcome, ok, throws, faults, ◌>>=◌, ◌==◌, ltb, leb, if◌then◌else◌,
  length, get_or, set, All,
}
use testshop.Dht.Byte.{msb_index_from_left, byte_bits}

-- `std::array<uint8_t, 32>`.
abbrev pub XorId : Type 0
XorId = List ℕ

pub record IsXorId (id : XorId) : Type 0 where
  pub size : length id ≡ 32
  pub in_byte : All (λ b. b < 256) id

unfoldable pub hex_char_to_byte : ℕ → Outcome ℕ
hex_char_to_byte c =
    if leb b'0' c && leb c b'9'
    then ok (c - b'0')
    else if leb b'a' c && leb c b'f'
    then ok (10 + (c - b'a'))
    else if leb b'A' c && leb c b'F'
    then ok (10 + (c - b'A'))
    else throws

-- The handler of the loop logs the error and leaves the byte as it was, which is what the memory
-- of the array held before: the array is not initialised.
abbrev caught : ℕ → Outcome ℕ → ℕ
caught before (ok b) = b
caught before throws = before
caught before faults = before

hex_byte : ℕ → ℕ → ℕ → ℕ
unfolding hex_char_to_byte
hex_byte before high low =
    caught before
      (do h ← hex_char_to_byte high; l ← hex_char_to_byte low; ok (bit_or (h * 2 ^ 4) l))

hex_bytes : (ℕ → ℕ) → ℕ → Text → XorId
hex_bytes memory i (high ∷ low ∷ hex) = hex_byte (memory i) high low ∷ hex_bytes memory (i + 1) hex
hex_bytes memory i _ = []

-- `memory` is what the 32 bytes hold before the loop.
unfoldable pub hex_string_to_node_id : (ℕ → ℕ) → Text → Outcome XorId
unfolding hex_bytes hex_byte
hex_string_to_node_id memory hex = if length hex == 64 then ok (hex_bytes memory 0 hex) else throws

hex_digit : ℕ → ℕ
hex_digit d = if ltb d 10 then b'0' + d else b'a' + (d - 10)

-- `setw(2)`, `setfill('0')` and `hex` on each byte.
unfoldable pub node_id_to_hex_string : XorId → Text
unfolding hex_digit
node_id_to_hex_string [] = []
node_id_to_hex_string (b ∷ id) = hex_digit (b / 16) ∷ hex_digit (b % 16) ∷ node_id_to_hex_string id

-- `(i * 8) + j` in `uint32_t`; -1 is the index of no bit.
abbrev bit_index : ℕ → Option ℕ → ℕ
bit_index i none = (i * 8 + (2 ^ 32 - 1)) % 2 ^ 32
bit_index i (some j) = i * 8 + j

distance_from : ℕ → ℕ → XorId → XorId → ℕ
distance_from size i (a ∷ as') (b ∷ bs) =
    let rest = distance_from size (i + 1) as' bs in
    if bit_xor a b == 0 then rest else bit_index i (msb_index_from_left (bit_xor a b))
distance_from size i _ _ = size * 8

unfoldable pub xor_distance_bit_index : XorId → XorId → ℕ
unfolding distance_from
xor_distance_bit_index a b = distance_from (length a) 0 a b

-- `result[i / 8] ^= 1 << (7 - i % 8)`.
flip_bit : ℕ → XorId → XorId
flip_bit i id = set id (i / 8) (bit_xor (get_or id (i / 8) 0) (2 ^ (7 - i % 8)))

flip_below : (ℕ → Bool) → ℕ → ℕ → XorId → XorId
flip_below coin zero i id = id
flip_below coin (suc n) i id = flip_below coin n (i + 1) (if coin i then flip_bit i id else id)

-- `coin i` is the draw of round `i`. A negative index is not modelled: the callers count from 0.
unfoldable pub generate_random_node_id : (ℕ → Bool) → XorId → ℕ → Outcome XorId
unfolding flip_below flip_bit
generate_random_node_id coin id bucket_index =
    if leb 256 bucket_index
    then throws
    else ok (flip_below coin (255 - bucket_index) (bucket_index + 1) (flip_bit bucket_index id))

-- The 256 bits of an identifier, from the left.
unfoldable pub id_bits : XorId → List ℕ
id_bits [] = []
id_bits (b ∷ id) = byte_bits b ++ id_bits id
