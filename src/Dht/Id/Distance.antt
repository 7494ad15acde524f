-- ===== src/Dht/Id/Distance.antt =====
-- `xor_distance_bit_index` of routing_table.cpp against the bits of the two identifiers.
use testshop.Prelude.{
  ℕ, ◌+◌, ◌*◌, ◌<◌, ◌≡◌, refl, sym, ◌∙◌, bit_xor, none, some, [], ◌∷◌, arith, ◌==◌, if◌then◌else◌,
  length, length-append, All,
}
use testshop.Dht.Byte.{bit_xor_zero, msb_index_from_left, byte_bits, msb_index_from_left-bit_xor}
use testshop.Dht.Id.{XorId, IsXorId, distance_from, xor_distance_bit_index, id_bits}
use testshop.Dht.Id.Prefix.{common_prefix, first_difference-eq, common_prefix-append}

length-byte_bits : (b : ℕ) → length (byte_bits b) ≡ 8
unfolding byte_bits
length-byte_bits b = refl

pub length-id_bits : (id : XorId) → length (id_bits id) ≡ length id * 8
unfolding id_bits
length-id_bits [] = refl
length-id_bits (b ∷ id) =
    omega (arith, length-append (byte_bits b) (id_bits id), length-byte_bits b, length-id_bits id)

-- One byte: the test that skips it, and the index of the scan, by the prefix of the two bytes.
msb_by_prefix :
    (a b : ℕ)
    → a < 256
    → b < 256
    → msb_index_from_left (bit_xor a b) ≡ (
        if common_prefix (byte_bits a) (byte_bits b) == 8
        then none
        else some (common_prefix (byte_bits a) (byte_bits b)))
msb_by_prefix a b p q =
    msb_index_from_left-bit_xor a b p q
    ∙ first_difference-eq (byte_bits a) (byte_bits b)
        (length-byte_bits a ∙ sym (length-byte_bits b))
    ∙ rw (length-byte_bits a)

distance_from-eq :
    (size i : ℕ) (a b : XorId)
    → length a ≡ length b
    → size ≡ i + length a
    → All (λ x. x < 256) a
    → All (λ x. x < 256) b
    → distance_from size i a b ≡ i * 8 + common_prefix (id_bits a) (id_bits b)
unfolding distance_from id_bits common_prefix
distance_from-eq size i [] [] l s va vb = omega arith
distance_from-eq size i [] (b ∷ bs) l s va vb = absurd (omega arith)
distance_from-eq size i (a ∷ as') [] l s va vb = absurd (omega arith)
distance_from-eq size i (a ∷ as') (b ∷ bs) l s va vb = ground (
  arith,
  bit_xor_zero a b va.0 vb.0,
  msb_by_prefix a b va.0 vb.0,
  common_prefix-append (byte_bits a) (byte_bits b) (id_bits as') (id_bits bs),
  length-byte_bits a,
  length-byte_bits b,
  distance_from-eq size (i + 1) as' bs (omega arith) (omega arith) va.1 vb.1,
)

-- The distance of two identifiers is the number of leading bits that they share: 256, the number
-- of all their bits, where they share them all.
pub xor_distance_bit_index-common_prefix :
    (a b : XorId)
    → IsXorId a
    → IsXorId b
    → xor_distance_bit_index a b ≡ common_prefix (id_bits a) (id_bits b)
unfolding xor_distance_bit_index
xor_distance_bit_index-common_prefix a b va vb =
    distance_from-eq (length a) 0 a b (va.size ∙ sym vb.size) (omega arith) va.in_byte vb.in_byte
    ∙ omega arith
