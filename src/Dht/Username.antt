-- ===== src/Dht/Username.antt =====
-- `is_valid_username` of src/core/tools/string.hpp.
use testshop.Prelude.{
  ℕ, zero, suc, ◌+◌, ◌≤◌, ◌≡◌, Bool, true, false, ◌&&◌, ◌||◌, [], ◌∷◌, arith, Text, ◌==◌, leb,
  length,
}

is_alpha : ℕ → Bool
is_alpha c = leb b'a' c && leb c b'z' || leb b'A' c && leb c b'Z'

is_alnum : ℕ → Bool
unfolding is_alpha
is_alnum c = is_alpha c || leb b'0' c && leb c b'9'

-- [a-zA-Z0-9._-]
is_username_char : ℕ → Bool
unfolding is_alnum
is_username_char c = is_alnum c || c == b'.' || c == b'_' || c == b'-'

-- [a-zA-Z0-9._-]{0,n}[a-zA-Z0-9]: the last character, after at most `n` others.
matches_rest : ℕ → Text → Bool
matches_rest n [] = false
matches_rest n (c ∷ []) = is_alnum c
matches_rest zero (c ∷ d ∷ s) = false
matches_rest (suc n) (c ∷ d ∷ s) = is_username_char c && matches_rest n (d ∷ s)

matches_first : Text → Bool
matches_first [] = false
matches_first (c ∷ s) = is_alpha c && matches_rest 28 s

-- ^[a-zA-Z][a-zA-Z0-9._-]{0,28}[a-zA-Z0-9]$
unfoldable pub is_valid_username : Text → Bool
unfolding matches_first matches_rest is_alpha is_alnum is_username_char
is_valid_username username = matches_first username

matches_rest-length :
    (n : ℕ) (s : Text) → matches_rest n s ≡ true → (1 ≤ length s) × (length s ≤ n + 1)
unfolding matches_rest
matches_rest-length n [] h = cc
matches_rest-length n (c ∷ []) h = omega arith
matches_rest-length zero (c ∷ d ∷ s) h = cc
matches_rest-length (suc n) (c ∷ d ∷ s) h =
    let (lo, hi) = matches_rest-length n (d ∷ s) (ground arith) in omega arith

-- A valid username has 2 to 30 characters.
pub is_valid_username-length :
    (username : Text)
    → is_valid_username username ≡ true
    → (2 ≤ length username) × (length username ≤ 30)
unfolding is_valid_username
is_valid_username-length [] h = cc
is_valid_username-length (c ∷ s) h =
    let (lo, hi) = matches_rest-length 28 s (ground arith) in omega arith
