-- ===== src/Dht/Id/Metric.antt =====
-- The laws of the distance of identifiers (routing_table.cpp): when it is 256, symmetry, and the
-- ultrametric law, which makes the buckets a partition by prefix.
use testshop.Prelude.{
  ℕ, ◌≤◌, ◌<◌, min, ◌≡◌, refl, sym, ◌∙◌, ap, ◌↔◌, List, [], ◌∷◌, ◌++◌, arith, length, All,
}
use testshop.Dht.Byte.{byte_bits}
use testshop.Dht.Id.{XorId, IsXorId, xor_distance_bit_index, id_bits}
use testshop.Dht.Id.Prefix.{
  common_prefix, common_prefix-le, common_prefix_self, common_prefix_comm, common_prefix_ultra,
  eq_of_common_prefix,
}
use testshop.Dht.Id.Distance.{length-id_bits, xor_distance_bit_index-common_prefix}

-- A byte is the sum of its bits.
byte_bits-injective :
    (a b : ℕ) (xs ys : List ℕ)
    → a < 256
    → b < 256
    → byte_bits a ++ xs ≡ byte_bits b ++ ys
    → (a ≡ b) × (xs ≡ ys)
unfolding byte_bits
byte_bits-injective a b xs ys p q e = ground arith

id_bits-injective :
    (a b : XorId)
    → length a ≡ length b
    → All (λ x. x < 256) a
    → All (λ x. x < 256) b
    → id_bits a ≡ id_bits b
    → a ≡ b
unfolding id_bits
id_bits-injective [] [] l va vb e = refl
id_bits-injective [] (b ∷ bs) l va vb e = absurd (omega arith)
id_bits-injective (a ∷ as') [] l va vb e = absurd (omega arith)
id_bits-injective (a ∷ as') (b ∷ bs) l va vb e =
    let (same, rest) = byte_bits-injective a b (id_bits as') (id_bits bs) va.0 vb.0 e in
    cc (same, id_bits-injective as' bs (omega arith) va.1 vb.1 rest)

module _ (a b : XorId) (va : IsXorId a) (vb : IsXorId b) where
  -- The distance of two identifiers is at most 256, and is 256 exactly when they are the same.
  pub xor_distance_bit_index_bound :
      (xor_distance_bit_index a b ≤ 256) × ((xor_distance_bit_index a b ≡ 256) ↔ (a ≡ b))
  xor_distance_bit_index_bound =
      let d = xor_distance_bit_index-common_prefix a b va vb in
      let top : length (id_bits a) ≡ 256 = omega (arith, length-id_bits a, va.size) in
      let same : length (id_bits a) ≡ length (id_bits b) =
        omega (arith, length-id_bits a, length-id_bits b, va.size, vb.size) in
      (
        omega (arith, d, common_prefix-le (id_bits a) (id_bits b)),
        (
          (λ e.
              id_bits-injective a b (va.size ∙ sym vb.size) va.in_byte vb.in_byte
                (eq_of_common_prefix (id_bits a) (id_bits b) same (omega arith))),
          (λ e.
              d
              ∙ ap (λ (x : XorId). common_prefix (id_bits a) (id_bits x)) (sym e)
              ∙ common_prefix_self (id_bits a)
              ∙ top),
        ),
      )

  -- The distance of two identifiers is the same both ways.
  pub xor_distance_bit_index_comm : xor_distance_bit_index a b ≡ xor_distance_bit_index b a
  xor_distance_bit_index_comm = omega (
    arith,
    xor_distance_bit_index-common_prefix a b va vb,
    xor_distance_bit_index-common_prefix b a vb va,
    common_prefix_comm (id_bits a) (id_bits b),
  )

  -- Of any three identifiers, the first and the last share at least as many leading bits as the
  -- smaller of the two distances to the one between.
  pub xor_distance_bit_index_ultra :
      (c : XorId)
      → IsXorId c
      → min (xor_distance_bit_index a b) (xor_distance_bit_index b c) ≤ xor_distance_bit_index a c
  xor_distance_bit_index_ultra c vc = omega (
    arith,
    xor_distance_bit_index-common_prefix a b va vb,
    xor_distance_bit_index-common_prefix b c vb vc,
    xor_distance_bit_index-common_prefix a c va vc,
    common_prefix_ultra (id_bits a) (id_bits b) (id_bits c),
  )
