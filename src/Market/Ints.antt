-- ===== src/Market/Ints.antt =====
-- An `int` of C++ by the 32 bits of its two's complement, as src/core/market/cart.cpp computes with it.
use testshop.Prelude.{
  ℕ, ◌+◌, ◌-◌, ◌%◌, ◌^◌, ◌<◌, ◌≤◌, ◌≡◌, Bool, ◌&&◌, not, arith, Outcome, ok, faults, ltb, leb,
  if◌then◌else◌,
}

abbrev pub is_negative : ℕ → Bool
is_negative a = leb (2 ^ 31) a

-- `a + b`; the overflow of a signed sum leaves the defined behaviour.
unfoldable pub int_add : ℕ → ℕ → Outcome ℕ
int_add a b =
    if not (is_negative a) && not (is_negative b) && is_negative (a + b)
    then faults
    else if is_negative a && is_negative b && ltb (a + b) (2 ^ 32 + 2 ^ 31)
    then faults
    else ok ((a + b) % 2 ^ 32)

-- `a - b`
unfoldable pub int_sub : ℕ → ℕ → Outcome ℕ
int_sub a b =
    let difference = (a + 2 ^ 32 - b) % 2 ^ 32 in
    if not (is_negative a) && is_negative b && is_negative difference
    then faults
    else if is_negative a && not (is_negative b) && not (is_negative difference)
    then faults
    else ok difference

-- `a < b`
unfoldable pub int_less : ℕ → ℕ → Bool
int_less a b = ltb ((a + 2 ^ 31) % 2 ^ 32) ((b + 2 ^ 31) % 2 ^ 32)

pub int_add_lem : (a b : ℕ) → a + b < 2 ^ 31 → int_add a b ≡ ok (a + b)
unfolding int_add
int_add_lem a b h = ground arith

pub int_add_overflow : (a b : ℕ) → a < 2 ^ 31 → b < 2 ^ 31 → 2 ^ 31 ≤ a + b → int_add a b ≡ faults
unfolding int_add
int_add_overflow a b ha hb h = ground arith

pub int_less_lem : (a b : ℕ) → a < 2 ^ 31 → b < 2 ^ 31 → int_less a b ≡ ltb a b
unfolding int_less
int_less_lem a b ha hb = ground arith

pub int_sub_lem : (a b : ℕ) → a < 2 ^ 31 → b < 2 ^ 31 → int_sub a b ≡ ok ((a + 2 ^ 32 - b) % 2 ^ 32)
unfolding int_sub
int_sub_lem a b ha hb = ground arith

-- `b + (a - b)`
pub int_add-int_sub :
    (a b : ℕ) → a < 2 ^ 31 → b < 2 ^ 31 → int_add b ((a + 2 ^ 32 - b) % 2 ^ 32) ≡ ok a
unfolding int_add
int_add-int_sub a b ha hb = ground arith
