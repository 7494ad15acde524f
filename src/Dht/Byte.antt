-- ===== src/Dht/Byte.antt =====
-- src/core/protocol/p2p/routing_table.cpp: `msb_index_from_left`, and what `^` does to one byte. The
-- bits of a byte are read from the left, the most significant first.
use Prim.Native.Nat.{differ, digits, bit_xor-bitwise}
use native.Mathlib.Nat.{le_refl, pow-suc, mul_comm, div-div-eq-div-mul, div-one}
use testshop.Prelude.{
  ℕ, zero, suc, ◌+◌, ◌-◌, ◌*◌, ◌/◌, ◌%◌, ◌^◌, ◌≤◌, ◌<◌, bit_xor, bit_and, ◌≡◌, refl, ap, ◌∙◌, Bool,
  true, false, Option, none, some, List, [], ◌∷◌, arith, ◌==◌, all_below, all_below_sound,
  if◌then◌else◌, is_some, not,
}

-- The rounds of the loop that are left, and its `i`.
msb_scan : ℕ → ℕ → ℕ → Option ℕ
msb_scan zero i byte = none
msb_scan (suc n) i byte =
    let rest = msb_scan n (i + 1) byte in if bit_and byte (2 ^ (7 - i)) == 0 then rest else some i

-- `none` is the result -1.
unfoldable pub msb_index_from_left : ℕ → Option ℕ
unfolding msb_scan
msb_index_from_left byte = if byte == 0 then none else msb_scan 8 0 byte

-- The bits of a byte from the left.
unfoldable pub byte_bits : ℕ → List ℕ
byte_bits b =
    b / 128 % 2
    ∷ b / 64 % 2
    ∷ b / 32 % 2
    ∷ b / 16 % 2
    ∷ b / 8 % 2
    ∷ b / 4 % 2
    ∷ b / 2 % 2
    ∷ b % 2
    ∷ []

abbrev shifted : Option ℕ → Option ℕ
shifted none = none
shifted (some i) = some (suc i)

-- The first place where two lists of bits differ.
unfoldable pub first_difference : List ℕ → List ℕ → Option ℕ
first_difference [] bs = none
first_difference (a ∷ as') [] = none
first_difference (a ∷ as') (b ∷ bs) =
    let rest = shifted (first_difference as' bs) in if a == b then rest else some 0

first_set : List ℕ → Option ℕ
first_set [] = none
first_set (a ∷ as') = let rest = shifted (first_set as') in if a == 0 then rest else some 0

abbrev differ_all : List ℕ → List ℕ → List ℕ
differ_all [] bs = []
differ_all (a ∷ as') [] = []
differ_all (a ∷ as') (b ∷ bs) = differ a b ∷ differ_all as' bs

pub differ-eq : (a b : ℕ) → differ a b ≡ (a - b) + (b - a)
differ-eq zero b = omega arith
differ-eq (suc a) zero = omega arith
differ-eq (suc a) (suc b) = omega (arith, differ-eq a b)

differ_zero : (a b : ℕ) → (differ a b == 0) ≡ (a == b)
differ_zero a b = ground (arith, differ-eq a b)

first_set-differ_all : (as' bs : List ℕ) → first_set (differ_all as' bs) ≡ first_difference as' bs
unfolding first_set first_difference
first_set-differ_all [] bs = refl
first_set-differ_all (a ∷ as') [] = refl
first_set-differ_all (a ∷ as') (b ∷ bs) = rw (differ_zero a b, first_set-differ_all as' bs)

-- `^` by its lowest digit: the native operation is a recursion on binary digits with fuel.
digits-enough :
    (x y k l : ℕ) → x ≤ k → x ≤ l → digits (λ d. d) differ k x y ≡ digits (λ d. d) differ l x y
digits-enough (suc x) y (suc k) (suc l) hk hl =
    rw (digits-enough (suc x / 2) (y / 2) k l (omega arith) (omega arith))
digits-enough (suc x) y zero l hk hl = absurd (omega arith)
digits-enough (suc x) y (suc k) zero hk hl = absurd (omega arith)
digits-enough zero y zero zero hk hl = refl
digits-enough zero y zero (suc l) hk hl = refl
digits-enough zero y (suc k) zero hk hl = refl
digits-enough zero y (suc k) (suc l) hk hl = refl

bit_xor_step : (a b : ℕ) → bit_xor a b ≡ bit_xor (a / 2) (b / 2) * 2 + differ (a % 2) (b % 2)
bit_xor_step zero b = simp bit_xor-bitwise (omega arith)
bit_xor_step (suc a) b =
    simp bit_xor-bitwise
      (omega (arith, digits-enough (suc a / 2) (b / 2) a (suc a / 2) (omega arith) (le_refl _)))

-- One step of the recursion, in the form that chains: the quotient and the digit.
bit_xor_halves :
    (a b : ℕ)
    → (bit_xor a b / 2 ≡ bit_xor (a / 2) (b / 2)) × (bit_xor a b % 2 ≡ differ (a % 2) (b % 2))
bit_xor_halves a b = (
  omega (arith, bit_xor_step a b, differ-eq (a % 2) (b % 2)),
  omega (arith, bit_xor_step a b, differ-eq (a % 2) (b % 2)),
)

half_shift : (k a : ℕ) → a / 2 ^ suc k ≡ a / 2 / 2 ^ k
half_shift k a = rw (div-div-eq-div-mul a 2 (2 ^ k), pow-suc 2 k, mul_comm 2 (2 ^ k)) refl

bit_xor-shift : (k a b : ℕ) → bit_xor a b / 2 ^ k ≡ bit_xor (a / 2 ^ k) (b / 2 ^ k)
bit_xor-shift zero a b = rw (div-one a, div-one b, div-one (bit_xor a b)) refl
bit_xor-shift (suc k) a b =
    rw (half_shift k a, half_shift k b, half_shift k (bit_xor a b), (bit_xor_halves a b).0)
      (bit_xor-shift k (a / 2) (b / 2))

-- Each bit of `a ^ b` is the exclusive or of the bits.
pub bit_xor-bit : (k a b : ℕ) → bit_xor a b / 2 ^ k % 2 ≡ differ (a / 2 ^ k % 2) (b / 2 ^ k % 2)
bit_xor-bit k a b =
    ap (λ (x : ℕ). x % 2) (bit_xor-shift k a b) ∙ (bit_xor_halves (a / 2 ^ k) (b / 2 ^ k)).1

byte_bits-bit_xor : (a b : ℕ) → byte_bits (bit_xor a b) ≡ differ_all (byte_bits a) (byte_bits b)
unfolding byte_bits
byte_bits-bit_xor a b = cc (
  bit_xor-bit 7 a b,
  bit_xor-bit 6 a b,
  bit_xor-bit 5 a b,
  bit_xor-bit 4 a b,
  bit_xor-bit 3 a b,
  bit_xor-bit 2 a b,
  bit_xor-bit 1 a b,
  (bit_xor_halves a b).1,
)

pub bit_xor-lt-256 : (a b : ℕ) → a < 256 → b < 256 → bit_xor a b < 256
bit_xor-lt-256 a b p q =
    let ea : a / 2 ^ 8 ≡ 0 = omega arith in
    let eb : b / 2 ^ 8 ≡ 0 = omega arith in
    let e : bit_xor a b / 2 ^ 8 ≡ 0 = rw (bit_xor-shift 8 a b, ea, eb) refl in omega arith

same_option : Option ℕ → Option ℕ → Bool
same_option none none = true
same_option none (some j) = false
same_option (some i) none = false
same_option (some i) (some j) = i == j

same_option_sound : (x y : Option ℕ) → same_option x y ≡ true → x ≡ y
unfolding same_option
same_option_sound none none h = refl
same_option_sound none (some j) h = cc
same_option_sound (some i) none h = cc
same_option_sound (some i) (some j) h = ground arith

msb_table :
    all_below 256 (λ x. same_option (msb_index_from_left x) (first_set (byte_bits x))) ≡ true
unfolding all_below same_option msb_index_from_left first_set byte_bits
msb_table = refl

-- On two bytes, the scan of `a ^ b` finds the first bit where they differ.
pub msb_index_from_left-bit_xor :
    (a b : ℕ)
    → a < 256
    → b < 256
    → msb_index_from_left (bit_xor a b) ≡ first_difference (byte_bits a) (byte_bits b)
msb_index_from_left-bit_xor a b p q =
    same_option_sound _ _ (all_below_sound _ 256 (bit_xor a b) (bit_xor-lt-256 a b p q) msb_table)
    ∙ ap first_set (byte_bits-bit_xor a b)
    ∙ first_set-differ_all (byte_bits a) (byte_bits b)

same_bool : Bool → Bool → Bool
same_bool true b = b
same_bool false b = not b

same_bool_sound : (a b : Bool) → same_bool a b ≡ true → a ≡ b
unfolding same_bool
same_bool_sound a b h = ground arith

zero_table : all_below 256 (λ x. same_bool (x == 0) (not (is_some (msb_index_from_left x)))) ≡ true
unfolding all_below same_bool msb_index_from_left
zero_table = refl

-- The test that skips a byte passes when the scan would find no bit.
pub bit_xor_zero :
    (a b : ℕ)
    → a < 256
    → b < 256
    → (bit_xor a b == 0) ≡ not (is_some (msb_index_from_left (bit_xor a b)))
bit_xor_zero a b p q =
    same_bool_sound _ _ (all_below_sound _ 256 (bit_xor a b) (bit_xor-lt-256 a b p q) zero_table)
