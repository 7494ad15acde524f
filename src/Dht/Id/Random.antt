-- ===== src/Dht/Id/Random.antt =====
-- `generate_random_node_id` of routing_table.cpp: the identifier lies in the bucket asked for,
-- whatever is drawn.
use Prim.Native.Nat.{differ}
use testshop.Prelude.{
  ℕ, zero, suc, ◌+◌, ◌-◌, ◌*◌, ◌/◌, ◌%◌, ◌^◌, ◌≤◌, ◌<◌, ◌≡◌, ◌≢◌, refl, ap, ◌∙◌, inl, inr, bit_xor,
  Bool, true, false, List, [], ◌∷◌, ◌++◌, arith, ok, ◌==◌, ==_iff, leb, if◌then◌else◌, Bool-cases,
  length, get_or, length-set, get_or-set_self, get_or-set_ne, All-set, All-get_or, all_below,
  all_below_sound,
}
use testshop.Dht.Byte.{byte_bits, bit_xor-bit, bit_xor-lt-256, differ-eq}
use testshop.Dht.Id.{
  XorId, IsXorId, id_bits, flip_bit, flip_below, generate_random_node_id, xor_distance_bit_index,
}
use testshop.Dht.Id.Prefix.{common_prefix_unique}
use testshop.Dht.Id.Distance.{length-id_bits, xor_distance_bit_index-common_prefix}

-- Bit `i` of an identifier by its byte.
abbrev bit_at : XorId → ℕ → ℕ
bit_at id i = get_or id (i / 8) 0 / 2 ^ (7 - i % 8) % 2

byte_bits_at :
    (b i : ℕ) (rest : List ℕ) → i < 8 → get_or (byte_bits b ++ rest) i 0 ≡ b / 2 ^ (7 - i) % 2
unfolding byte_bits
byte_bits_at b zero rest h = refl
byte_bits_at b (suc zero) rest h = refl
byte_bits_at b (suc (suc zero)) rest h = refl
byte_bits_at b (suc (suc (suc zero))) rest h = refl
byte_bits_at b (suc (suc (suc (suc zero)))) rest h = refl
byte_bits_at b (suc (suc (suc (suc (suc zero))))) rest h = refl
byte_bits_at b (suc (suc (suc (suc (suc (suc zero)))))) rest h = refl
byte_bits_at b (suc (suc (suc (suc (suc (suc (suc zero))))))) rest h = omega arith
byte_bits_at b (suc (suc (suc (suc (suc (suc (suc (suc i)))))))) rest h = absurd (omega arith)

byte_bits_past :
    (b i : ℕ) (rest : List ℕ) → get_or (byte_bits b ++ rest) (8 + i) 0 ≡ get_or rest i 0
unfolding byte_bits
byte_bits_past b i rest =
    let e : 8 + i ≡ suc (suc (suc (suc (suc (suc (suc (suc i))))))) = omega arith in rw e

id_bits_at : (id : XorId) (i : ℕ) → get_or (id_bits id) i 0 ≡ bit_at id i
unfolding id_bits
id_bits_at [] i = omega arith
id_bits_at (b ∷ id) i = elim (Bool-cases (leb 8 i)) [
  | inl far ↦
      let e : i ≡ 8 + (i - 8) = ground arith in
      let q : i / 8 ≡ suc ((i - 8) / 8) = ground arith in
      let r : i % 8 ≡ (i - 8) % 8 = ground arith in
      ap (λ (j : ℕ). get_or (byte_bits b ++ id_bits id) j 0) e
      ∙ byte_bits_past b (i - 8) (id_bits id)
      ∙ id_bits_at id (i - 8)
      ∙ rw (q, r) refl
  | inr near ↦
      let q : i / 8 ≡ 0 = ground arith in
      let r : i % 8 ≡ i = ground arith in
      byte_bits_at b i (id_bits id) (ground arith) ∙ rw (q, r) refl
]

power_table :
    all_below 8 (λ m. all_below 8 (λ k. (2 ^ m / 2 ^ k % 2) == (if m == k then 1 else 0))) ≡ true
unfolding all_below
power_table = refl

power_bit : (m k : ℕ) → m < 8 → k < 8 → 2 ^ m / 2 ^ k % 2 ≡ (if m == k then 1 else 0)
power_bit m k p q =
    let row =
      all_below_sound (λ m. all_below 8 (λ k. (2 ^ m / 2 ^ k % 2) == (if m == k then 1 else 0))) 8 m
        p power_table in
    (==_iff _ _).0
      (all_below_sound (λ k. (2 ^ m / 2 ^ k % 2) == (if m == k then 1 else 0)) 8 k q row)

-- Bit `j` after the flip of bit `i`.
bit_at-flip_bit :
    (i j : ℕ) (id : XorId)
    → i < length id * 8
    → bit_at (flip_bit i id) j ≡ differ (bit_at id j) (if i == j then 1 else 0)
unfolding flip_bit
bit_at-flip_bit i j id h = elim (Bool-cases (i / 8 == j / 8)) [
  | inl same ↦
      let e : j / 8 ≡ i / 8 = ground arith in
      let v = bit_xor (get_or id (i / 8) 0) (2 ^ (7 - i % 8)) in
      let c : (7 - i % 8 == 7 - j % 8) ≡ (i == j) = ground arith in
      rw (e, get_or-set_self id (i / 8) v 0 (omega arith))
        (bit_xor-bit (7 - j % 8) (get_or id (i / 8) 0) (2 ^ (7 - i % 8))
          ∙ ap (differ (get_or id (i / 8) 0 / 2 ^ (7 - j % 8) % 2)) (
              power_bit (7 - i % 8) (7 - j % 8) (omega arith) (omega arith)
              ∙ ap (λ (b : Bool). if b then 1 else 0) c))
  | inr other ↦
      let n : i / 8 ≢ j / 8 = ground arith in
      let d : (i == j) ≡ false = ground arith in
      let v = bit_xor (get_or id (i / 8) 0) (2 ^ (7 - i % 8)) in
      rw (get_or-set_ne id (i / 8) (j / 8) v 0 n, d) (omega (arith, differ-eq (bit_at id j) 0))
]

power-lt : (m : ℕ) → m < 8 → 2 ^ m < 256
unfolding all_below
power-lt m h = let e = all_below_sound (λ m. leb (2 ^ m) 255) 8 m h refl in ground arith

flip_bit-IsXorId : (i : ℕ) (id : XorId) → IsXorId id → IsXorId (flip_bit i id)
unfolding flip_bit
flip_bit-IsXorId i id v = record {
  size = length-set id (i / 8) _ ∙ v.size;
  in_byte =
      All-set (λ b. b < 256) id (i / 8) _
        (bit_xor-lt-256 _ _ (All-get_or (λ b. b < 256) id (i / 8) 0 (omega arith) v.in_byte)
          (power-lt (7 - i % 8) (omega arith)))
        v.in_byte;
}

flip_below-IsXorId :
    (coin : ℕ → Bool) (n i : ℕ) (id : XorId) → IsXorId id → IsXorId (flip_below coin n i id)
unfolding flip_below
flip_below-IsXorId coin zero i id v = v
flip_below-IsXorId coin (suc n) i id v = elim (Bool-cases (coin i)) [
  | inl heads ↦ rw heads (flip_below-IsXorId coin n (i + 1) _ (flip_bit-IsXorId i id v))
  | inr tails ↦ rw tails (flip_below-IsXorId coin n (i + 1) id v)
]

-- The rounds of the loop leave every bit before their first one alone.
bit_at-flip_below :
    (coin : ℕ → Bool) (n i j : ℕ) (id : XorId)
    → IsXorId id
    → i + n ≤ 256
    → j < i
    → bit_at (flip_below coin n i id) j ≡ bit_at id j
unfolding flip_below
bit_at-flip_below coin zero i j id v h p = refl
bit_at-flip_below coin (suc n) i j id v h p = elim (Bool-cases (coin i)) [
  | inl heads ↦ rw heads (
      bit_at-flip_below coin n (i + 1) j (flip_bit i id) (flip_bit-IsXorId i id v) (omega arith)
        (omega arith)
      ∙ kept)
  | inr tails ↦ rw tails (bit_at-flip_below coin n (i + 1) j id v (omega arith) (omega arith))
]
  where
    kept : bit_at (flip_bit i id) j ≡ bit_at id j
    kept =
        let d : (i == j) ≡ false = ground arith in
        bit_at-flip_bit i j id (omega (arith, v.size))
        ∙ rw d (omega (arith, differ-eq (bit_at id j) 0))

-- A random identifier for bucket `k` is an identifier at distance `k` from the node's own.
pub generate_random_node_id-distance :
    (coin : ℕ → Bool) (id : XorId) (k : ℕ)
    → IsXorId id
    → k < 256
    → (r : XorId) × (generate_random_node_id coin id k ≡ ok r)
      × IsXorId r
      × (xor_distance_bit_index id r ≡ k)
unfolding generate_random_node_id
generate_random_node_id-distance coin id k v h = (
  r,
  ground arith,
  vr,
  xor_distance_bit_index-common_prefix id r v vr
      ∙ common_prefix_unique k (id_bits id) (id_bits r) (omega (arith, length-id_bits id, v.size))
          (omega (arith, length-id_bits id, length-id_bits r, v.size, vr.size)) same differs,
)
  where
    r : XorId
    r = flip_below coin (255 - k) (k + 1) (flip_bit k id)

    vf : IsXorId (flip_bit k id)
    vf = flip_bit-IsXorId k id v

    vr : IsXorId r
    vr = flip_below-IsXorId coin (255 - k) (k + 1) (flip_bit k id) vf

    at : (j : ℕ) → j ≤ k → bit_at r j ≡ differ (bit_at id j) (if k == j then 1 else 0)
    at j p =
        bit_at-flip_below coin (255 - k) (k + 1) j (flip_bit k id) vf (omega arith) (omega arith)
        ∙ bit_at-flip_bit k j id (omega (arith, v.size))

    same : (j : ℕ) → j < k → get_or (id_bits id) j 0 ≡ get_or (id_bits r) j 0
    same j p =
        let d : (k == j) ≡ false = ground arith in
        let e : bit_at r j ≡ differ (bit_at id j) 0 =
          at j (omega arith) ∙ ap (λ (b : Bool). differ (bit_at id j) (if b then 1 else 0)) d in
        omega (arith, id_bits_at id j, id_bits_at r j, e, differ-eq (bit_at id j) 0)

    differs : get_or (id_bits id) k 0 ≢ get_or (id_bits r) k 0
    differs e =
        let d : (k == k) ≡ true = ground arith in
        let e' : bit_at r k ≡ differ (bit_at id k) 1 =
          at k (omega arith) ∙ ap (λ (b : Bool). differ (bit_at id k) (if b then 1 else 0)) d in
        absurd (omega (arith, e, id_bits_at id k, id_bits_at r k, e', differ-eq (bit_at id k) 1))
