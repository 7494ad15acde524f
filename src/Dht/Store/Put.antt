-- ===== src/Dht/Store/Put.antt =====
-- `Node::put`, `set`, `get`, `remove` and `remove_all` of src/core/protocol/p2p/node.cpp.
pub mod Validated
pub mod Changes
pub mod Entry
pub mod Lookups
pub mod Found
use testshop.Prelude.{
  ℕ, ◌≡◌, ◌≢◌, refl, sym, ap, ◌∙◌, ◌⊎◌, inl, inr, Bool, true, false, ◌&&◌, not, Option, none, some,
  List, [], ◌∷◌, arith, Text, bytes, text_eq, text_eq_iff, text_eq_refl, Dict, lookup, insert,
  erase, has_key, lookup-insert, lookup-erase, Outcome, ok, throws, faults, ◌>>=◌, >>=-eq-ok, ◌==◌,
  if◌then◌else◌, is_some, Bool-cases, Option-cases, length,
}
use testshop.Dht.Platform.{Platform, string_at}
use testshop.Dht.Store.{
  Store, is_valid_metadata, validate_fields, verify, drop_key, check_expiry, validate_json,
  validate,
}
use testshop.Dht.Store.Verdict.{Verdict, reject, keep, replace, set_verdict, IsSuccessor}

-- data[key] = value; return (data.count(key) > 0)
unfoldable pub write : Text → Text → Store → Bool × Store
write key value s =
    let after = insert key value s.stored in (has_key key after, record s { stored = after })

apply_verdict : Text → Text → Store → Verdict → Bool × Store
unfolding write
apply_verdict key value s reject = (false, s)
apply_verdict key value s keep = (true, s)
apply_verdict key value s replace = write key value s

-- data.find(key), with the empty text for no entry
unfoldable pub get : Text → Store → Text
get key s = elim (lookup key s.stored) [ none ↦ [] | some value ↦ value ]

unfoldable pub remove : Text → Store → Bool × Store
remove key s =
    let after = erase key s.stored in (not (has_key key after), record s { stored = after })

unfoldable pub remove_all : Store → Bool × Store
remove_all s = (true, record s { stored = [] })

-- INSERT ... ON CONFLICT(key) DO UPDATE
unfoldable pub cache : Text → Text → Store → Store
cache key value s = record s { hash_table = insert key value s.hash_table }

-- The key is there with that very value.
abbrev pub holds : Text → Text → Store → Bool
holds key value s = elim (lookup key s.stored) [ none ↦ false | some v ↦ text_eq v value ]

module _ (p : Platform) where
  open p use {Value, parse}

  -- `set`, with the value that is stored under the key.
  unfoldable pub set_value : Text → Text → Text → Store → Outcome (Bool × Store)
  unfolding apply_verdict
  set_value key value current s = elim (parse value) [
    | none ↦ throws
    | some json ↦ elim (parse current) [
      | none ↦ throws
      | some current_json ↦
          set_verdict p json current_json >>= λ v. ok (apply_verdict key value s v)
    ]
  ]

  -- The second half of `put`, after a validation that changed the store to `s`.
  unfoldable pub put_valid : Text → Text → Bool × Store → Outcome (Bool × Store)
  unfolding set_value write
  put_valid key value (false, s) = ok (false, s)
  put_valid key value (true, s) = elim (lookup key s.stored) [
    | none ↦ ok (write key value s)
    | some current ↦
        if text_eq current value then ok (write key value s) else set_value key value current s
  ]

  unfoldable pub put : ℕ → Text → Text → Store → Outcome (Bool × Store)
  unfolding put_valid
  put now key value s =
      if holds key value s
      then ok (true, s)
      else (validate p now key value s >>= λ r. put_valid key value r)
