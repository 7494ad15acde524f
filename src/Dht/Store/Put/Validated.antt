-- ===== src/Dht/Store/Put/Validated.antt =====
-- What the validation before a `put` (src/core/protocol/p2p/node.cpp) leaves of the value and the store.
use testshop.Prelude.{
  ℕ, ◌≡◌, ◌≢◌, refl, ap, ◌⊎◌, inl, inr, Bool, true, false, ◌&&◌, not, Option, none, some, [], arith,
  Text, bytes, text_eq, text_eq_iff, text_eq_refl, lookup, lookup-insert, lookup-erase, ok, ◌==◌,
  if◌then◌else◌, Bool-cases, Option-cases, length,
}
use testshop.Dht.Platform.{Platform, string_at}
use testshop.Dht.Store.{
  Store, is_valid_metadata, verify, drop_key, check_expiry, validate_json, validate,
}
use testshop.Dht.Store.Put.{write}

module _ (p : Platform) where
  open p use {Value, parse}

  -- What a validation that returns `r` says of the value, and of the store after it.
  pub record IsValidated (key value : Text) (s : Store) (r : Bool × Store) : Type 0 where
    pub unchanged : r.0 ≡ true → r.1 ≡ s
    pub checked :
        r.0 ≡ true
        → (json : Value) × (m : Text) × (length key ≡ 64)
          × (parse value ≡ some json)
          × (string_at p json (bytes "metadata") ≡ some m)
          × (is_valid_metadata m ≡ true)
          × (verify p m json ≡ true)
    pub dropped : (r.1 ≡ s) ⊎ (r.1 ≡ drop_key key s)

  pub check_expiry-eq :
      (now : ℕ) (key : Text) (o : Option Value) (s : Store)
      → ((check_expiry p now key o s).0 ≡ true → (check_expiry p now key o s).1 ≡ s)
        × (((check_expiry p now key o s).1 ≡ s) ⊎ ((check_expiry p now key o s).1 ≡ drop_key key s))
  unfolding check_expiry
  check_expiry-eq now key none s = (λ h. refl, inl refl)
  check_expiry-eq now key (some v) s = (λ h. ground arith, ground arith)

  validate_json-IsValidated :
      (now : ℕ) (key value : Text) (json : Value) (s : Store) (r : Bool × Store)
      → length key ≡ 64
      → parse value ≡ some json
      → validate_json p now key json s ≡ ok r
      → IsValidated key value s r
  unfolding validate_json
  validate_json-IsValidated now key value json s r l e h =
      let last = check_expiry-eq now key (p.member json (bytes "expiration_date")) s in
      record {
        unchanged = λ t. ground (arith, last);
        checked = λ t. elim (Option-cases (string_at p json (bytes "metadata"))) [
          | inl miss ↦ absurd (ground arith)
          | inr (m, em) ↦ (json, m, l, e, em, ground arith, ground arith)
        ];
        dropped = ground (arith, last);
      }

  pub validate-IsValidated :
      (now : ℕ) (key value : Text) (s : Store) (r : Bool × Store)
      → validate p now key value s ≡ ok r
      → IsValidated key value s r
  unfolding validate
  validate-IsValidated now key value s r h = elim (Option-cases (parse value)) [
    | inl miss ↦ refused (ground arith)
    | inr (json, e) ↦ elim (Bool-cases (length key == 64 && not (text_eq value []))) [
      | inl fits ↦ validate_json-IsValidated now key value json s r (ground arith) e (ground arith)
      | inr unfit ↦ refused (ground arith)
    ]
  ]
    where
      refused : r ≡ (false, s) → IsValidated key value s r
      refused e = record {
        unchanged = λ t. ap (λ (x : Bool × Store). x.1) e;
        checked = λ t. absurd (ground arith);
        dropped = inl (ap (λ (x : Bool × Store). x.1) e);
      }

pub lookup-drop_key :
    (key j : Text) (s : Store) → j ≢ key → lookup j (drop_key key s).stored ≡ lookup j s.stored
unfolding drop_key
lookup-drop_key key j s n = ground (arith, lookup-erase key j s.stored, text_eq_iff key j)

pub lookup-write :
    (key value j : Text) (s : Store)
    → lookup j (write key value s).1.stored
      ≡ (if text_eq key j then some value else lookup j s.stored)
unfolding write
lookup-write key value j s = lookup-insert key j value s.stored

pub lookup-drop_key_self : (key : Text) (s : Store) → lookup key (drop_key key s).stored ≡ none
unfolding drop_key
lookup-drop_key_self key s = ground (arith, lookup-erase key key s.stored, text_eq_refl key)
