-- ===== src/Dht/Id/Hex.antt =====
-- `hex_string_to_node_id` and `node_id_to_hex_string` of routing_table.cpp: the round trip, and what
-- becomes of a text that is not hexadecimal.
use Prim.Native.Nat.{bit_or}
use testshop.Prelude.{
  ℕ, zero, suc, ◌+◌, ◌*◌, ◌/◌, ◌%◌, ◌<◌, ◌≡◌, refl, ap, ◌∙◌, ◌⊎◌, true, [], ◌∷◌, arith, Text, ok,
  throws, ◌==◌, ==_iff, leb, length, get_or, All, all_below, all_below_sound,
}
use testshop.Dht.Id.{
  XorId, IsXorId, hex_char_to_byte, hex_byte, hex_bytes, hex_string_to_node_id, hex_digit,
  node_id_to_hex_string,
}

hex_byte_table :
    (before : ℕ)
    → all_below 256 (λ b. hex_byte before (hex_digit (b / 16)) (hex_digit (b % 16)) == b) ≡ true
unfolding all_below hex_byte hex_digit
hex_byte_table before = refl

hex_byte_of_digits :
    (before b : ℕ) → b < 256 → hex_byte before (hex_digit (b / 16)) (hex_digit (b % 16)) ≡ b
hex_byte_of_digits before b h = (==_iff _ b).0 (all_below_sound _ 256 b h (hex_byte_table before))

hex_bytes-node_id_to_hex_string :
    (memory : ℕ → ℕ) (i : ℕ) (id : XorId)
    → All (λ b. b < 256) id
    → hex_bytes memory i (node_id_to_hex_string id) ≡ id
unfolding hex_bytes node_id_to_hex_string
hex_bytes-node_id_to_hex_string memory i [] h = refl
hex_bytes-node_id_to_hex_string memory i (b ∷ id) h =
    cc (hex_byte_of_digits (memory i) b h.0, hex_bytes-node_id_to_hex_string memory (i + 1) id h.1)

length-node_id_to_hex_string : (id : XorId) → length (node_id_to_hex_string id) ≡ length id * 2
unfolding node_id_to_hex_string
length-node_id_to_hex_string [] = refl
length-node_id_to_hex_string (b ∷ id) = omega (arith, length-node_id_to_hex_string id)

-- An identifier is read back from the text that it is written as, whatever the memory held.
pub hex_string_to_node_id-node_id_to_hex_string :
    (memory : ℕ → ℕ) (id : XorId)
    → IsXorId id
    → hex_string_to_node_id memory (node_id_to_hex_string id) ≡ ok id
unfolding hex_string_to_node_id
hex_string_to_node_id-node_id_to_hex_string memory id v =
    ground (
      arith,
      length-node_id_to_hex_string id,
      hex_bytes-node_id_to_hex_string memory 0 id v.in_byte,
    )

-- The characters that `hex_char_to_byte` takes.
abbrev pub IsHex : ℕ → Type 0
IsHex c = (d : ℕ) × (hex_char_to_byte c ≡ ok d)

hex_char_to_byte-lt : (c d : ℕ) → hex_char_to_byte c ≡ ok d → d < 16
unfolding hex_char_to_byte
hex_char_to_byte-lt c d h = ground arith

or_table : all_below 16 (λ h. all_below 16 (λ l. leb (bit_or (h * 16) l) 255)) ≡ true
unfolding all_below
or_table = refl

or-lt-256 : (h l : ℕ) → h < 16 → l < 16 → bit_or (h * 16) l < 256
or-lt-256 h l p q =
    let row : all_below 16 (λ l. leb (bit_or (h * 16) l) 255) ≡ true =
      all_below_sound (λ h. all_below 16 (λ l. leb (bit_or (h * 16) l) 255)) 16 h p or_table in
    let e = all_below_sound (λ l. leb (bit_or (h * 16) l) 255) 16 l q row in ground arith

-- A byte of two hexadecimal characters does not depend on the memory, and is a byte.
hex_byte_good :
    (before before' high low : ℕ)
    → IsHex high
    → IsHex low
    → (hex_byte before high low ≡ hex_byte before' high low) × (hex_byte before high low < 256)
unfolding hex_byte
hex_byte_good before before' high low (h, eh) (l, el) = (
  rw (eh, el),
  rw (eh, el) (or-lt-256 h l (hex_char_to_byte-lt high h eh) (hex_char_to_byte-lt low l el)),
)

hex_bytes_good :
    (memory memory' : ℕ → ℕ) (n i : ℕ) (hex : Text)
    → length hex ≡ n * 2
    → All IsHex hex
    → (hex_bytes memory i hex ≡ hex_bytes memory' i hex)
      × (length (hex_bytes memory i hex) ≡ n)
      × All (λ b. b < 256) (hex_bytes memory i hex)
unfolding hex_bytes
hex_bytes_good memory memory' zero i [] l h = (refl, refl, tt)
hex_bytes_good memory memory' (suc n) i [] l h = absurd (omega arith)
hex_bytes_good memory memory' zero i (c ∷ []) l h = absurd (omega arith)
hex_bytes_good memory memory' (suc n) i (c ∷ []) l h = absurd (omega arith)
hex_bytes_good memory memory' zero i (high ∷ low ∷ hex) l h = absurd (omega arith)
hex_bytes_good memory memory' (suc n) i (high ∷ low ∷ hex) l (hh, (hl, hr)) =
    let (e, b) = hex_byte_good (memory i) (memory' i) high low hh hl in
    let (es, ls, bs) = hex_bytes_good memory memory' n (i + 1) hex (omega arith) hr in
    (cc (e, es), omega (arith, ls), (b, bs))

-- A text of 64 hexadecimal characters gives one identifier, whatever the memory held.
pub hex_string_to_node_id_total :
    (hex : Text)
    → length hex ≡ 64
    → All IsHex hex
    → (id : XorId) × IsXorId id × ((memory : ℕ → ℕ) → hex_string_to_node_id memory hex ≡ ok id)
unfolding hex_string_to_node_id
hex_string_to_node_id_total hex l h =
    let zeros : ℕ → ℕ = λ i. 0 in
    let (e, s, b) = hex_bytes_good zeros zeros 32 0 hex l h in
    (
      hex_bytes zeros 0 hex,
      record { size = s; in_byte = b },
      λ memory. let (same, s', b') = hex_bytes_good memory zeros 32 0 hex l h in ground arith,
    )

bad_byte :
    (before high low : ℕ)
    → (hex_char_to_byte high ≡ throws) ⊎ (hex_char_to_byte low ≡ throws)
    → hex_byte before high low ≡ before
unfolding hex_byte hex_char_to_byte
bad_byte before high low h = ground arith

hex_bytes_bad :
    (memory : ℕ → ℕ) (i k : ℕ) (hex : Text)
    → k * 2 + 1 < length hex
    → (hex_char_to_byte (get_or hex (k * 2) 0) ≡ throws)
      ⊎ (hex_char_to_byte (get_or hex (k * 2 + 1) 0) ≡ throws)
    → get_or (hex_bytes memory i hex) k 0 ≡ memory (i + k)
unfolding hex_bytes
hex_bytes_bad memory i k [] l h = absurd (omega arith)
hex_bytes_bad memory i k (c ∷ []) l h = absurd (omega arith)
hex_bytes_bad memory i zero (high ∷ low ∷ hex) l h =
    bad_byte (memory i) high low h ∙ ap memory (omega arith)
hex_bytes_bad memory i (suc k) (high ∷ low ∷ hex) l h =
    let e : suc k * 2 ≡ suc (suc (k * 2)) = omega arith in
    let e' : suc k * 2 + 1 ≡ suc (suc (k * 2 + 1)) = omega arith in
    hex_bytes_bad memory (i + 1) k hex (omega arith) (rw (e', e) at h) ∙ ap memory (omega arith)

-- A character that is not hexadecimal is not refused: in a text of 64 bytes its byte of the
-- identifier is what the memory held before the call.
pub hex_string_to_node_id_bad :
    (memory : ℕ → ℕ) (k : ℕ) (hex : Text)
    → length hex ≡ 64
    → k < 32
    → (hex_char_to_byte (get_or hex (k * 2) 0) ≡ throws)
      ⊎ (hex_char_to_byte (get_or hex (k * 2 + 1) 0) ≡ throws)
    → (id : XorId) × (hex_string_to_node_id memory hex ≡ ok id) × (get_or id k 0 ≡ memory k)
unfolding hex_string_to_node_id
hex_string_to_node_id_bad memory k hex l p h = (
  hex_bytes memory 0 hex,
  ground arith,
  hex_bytes_bad memory 0 k hex (omega arith) h ∙ ap memory (omega arith),
)
