-- ===== src/Dht/Store/Signed.antt =====
-- `Node::verify` and the kinds of value that need no signature (src/core/protocol/p2p/node.cpp).
use testshop.Prelude.{
  ℕ, ◌≡◌, ◌≢◌, refl, ap, ◌⊎◌, inl, inr, Bool, true, false, ◌||◌, none, some, arith, Text, bytes,
  text_eq, text_eq_iff, text_eq_refl, lookup, lookup-insert, [], ok, ◌==◌, Bool-cases, Option-cases,
  length,
}
use testshop.Dht.Platform.{Platform, string_at}
use testshop.Dht.Store.{
  Store, is_valid_metadata, validate_fields, signed_parts, signature_of, is_signed, verify,
  check_expiry, validate_json, validate,
}
use testshop.Dht.Store.Verdict.{replace, immutable_fields, by_last_updated, set_verdict}
use testshop.Dht.Store.Put.{write, set_value, put}

-- The kinds that `verify` lets pass.
abbrev pub is_unsigned : Text → Bool
is_unsigned m = text_eq m (bytes "order") || text_eq m (bytes "message")

-- The two tests on a kind that is unsigned fail for every other kind.
unsigned_ne :
    (m other : Text) → is_unsigned m ≡ true → is_unsigned other ≡ false → text_eq m other ≡ false
unsigned_ne m other r o = elim (Bool-cases (text_eq m other)) [
  | inl e ↦
      let e' : m ≡ other = (text_eq_iff m other).0 e in cc (ap (λ (t : Text). is_unsigned t) e')
  | inr n ↦ n
]

lookup-write_self :
    (key value : Text) (s : Store) → lookup key (write key value s).1.stored ≡ some value
unfolding write
lookup-write_self key value s =
    ground (arith, lookup-insert key key value s.stored, text_eq_refl key)

module _ (p : Platform) where
  open p use {Value, parse, is_object, member, is_valid_address, verify_message}

  is_signed_parts :
      (message address signature : Text)
      → is_signed p message address signature ≡ true
      → (is_valid_address address ≡ true)
        × ((length signature ≡ 93) × (verify_message message address signature ≡ true))
  unfolding is_signed
  is_signed_parts message address signature h = ground arith

  -- A value that passes `verify` is an order or a message, or it carries a signature of its
  -- message by its address: the address is valid, the signature has 93 characters and is
  -- verified.
  pub verify_lem :
      (m : Text) (json : Value)
      → verify p m json ≡ true
      → (is_unsigned m ≡ true)
        ⊎ ((message : Text) × (address : Text) × (signature : Text) × (signed_parts p m json
              ≡ some (message, address))
            × (signature_of p (member json (bytes "signature")) ≡ some signature)
            × (is_valid_address address ≡ true)
            × (length signature ≡ 93)
            × (verify_message message address signature ≡ true))
  unfolding verify
  verify_lem m json h = elim (Bool-cases (is_unsigned m)) [
    | inl u ↦ inl u
    | inr n ↦ elim (Option-cases (signed_parts p m json)) [
      | inl miss ↦ absurd (ground arith)
      | inr ((message, address), parts) ↦
          elim (Option-cases (signature_of p (member json (bytes "signature")))) [
            | inl miss ↦ absurd (ground arith)
            | inr (signature, e) ↦
                let good : is_signed p message address signature ≡ true = ground arith in
                let (a, (l, v)) = is_signed_parts message address signature good in
                inr (message, address, signature, parts, e, a, l, v)
          ]
    ]
  ]

  pub unsigned_tests :
      (m : Text) (json cj : Value)
      → is_unsigned m ≡ true
      → (is_valid_metadata m ≡ true)
        × (validate_fields p m json ≡ ok true)
        × (verify p m json ≡ true)
        × (immutable_fields p m json cj ≡ ok true)
  unfolding is_valid_metadata validate_fields verify immutable_fields bytes text_eq
  unsigned_tests m json cj u =
      ground (arith, text_eq_iff m (bytes "order"), text_eq_iff m (bytes "message"))

  unsigned_validate :
      (now : ℕ) (key value m : Text) (s : Store) (json : Value)
      → length key ≡ 64
      → value ≢ []
      → is_unsigned m ≡ true
      → parse value ≡ some json
      → is_object json ≡ true
      → string_at p json (bytes "metadata") ≡ some m
      → member json (bytes "expiration_date") ≡ none
      → validate p now key value s ≡ ok (true, s)
  unfolding validate validate_json check_expiry
  unsigned_validate now key value m s json l n u e o em x =
      let (known, fields, verified, same) = unsigned_tests m json json u in
      let filled : text_eq value [] ≡ false = ground (arith, text_eq_iff value []) in
      let k : (length key == 64) ≡ true = ground arith in
      rw (k, filled, e) (rw (o, em) (rw known (rw (fields, verified, x) refl)))

  unsigned_verdict :
      (m : Text) (json cj : Value)
      → is_unsigned m ≡ true
      → string_at p json (bytes "metadata") ≡ some m
      → string_at p cj (bytes "metadata") ≡ some m
      → member json (bytes "signature") ≡ none
      → member json (bytes "last_updated") ≡ none
      → member cj (bytes "last_updated") ≡ none
      → set_verdict p json cj ≡ ok replace
  unfolding set_verdict by_last_updated
  unsigned_verdict m json cj u em ec sg lj lc =
      let (known, fields, verified, same) = unsigned_tests m json cj u in
      rw (em, ec, text_eq_refl m) (rw (same, sg, lj, lc) refl)

  set_value-replace :
      (key value current : Text) (s : Store) (json cj : Value)
      → parse value ≡ some json
      → parse current ≡ some cj
      → set_verdict p json cj ≡ ok replace
      → set_value p key value current s ≡ ok (write key value s)
  unfolding set_value
  set_value-replace key value current s json cj e ec v = ground arith

  -- An order or a message that is stored under a key of 64 bytes and has no `last_updated` gives
  -- way to a `put` of any other value of its kind (a text, not empty, that parses to an object)
  -- that has no `signature`, no `expiration_date` and no `last_updated`: nothing ties the new
  -- value to the author of the old one.
  pub unsigned_replaced :
      (now : ℕ) (key value current m : Text) (s : Store) (json cj : Value)
      → length key ≡ 64
      → value ≢ []
      → is_unsigned m ≡ true
      → lookup key s.stored ≡ some current
      → current ≢ value
      → parse value ≡ some json
      → parse current ≡ some cj
      → is_object json ≡ true
      → string_at p json (bytes "metadata") ≡ some m
      → string_at p cj (bytes "metadata") ≡ some m
      → member json (bytes "signature") ≡ none
      → member json (bytes "expiration_date") ≡ none
      → member json (bytes "last_updated") ≡ none
      → member cj (bytes "last_updated") ≡ none
      → (put p now key value s ≡ ok (write key value s))
        × (lookup key (write key value s).1.stored ≡ some value)
  unfolding put
  unsigned_replaced now key value current m s json cj l n u at d e ec o em emc sg x lj lc =
      let differs : text_eq current value ≡ false = ground (arith, text_eq_iff current value) in
      let valid = unsigned_validate now key value m s json l n u e o em x in
      let verdict = unsigned_verdict m json cj u em emc sg lj lc in
      let stored = set_value-replace key value current s json cj e ec verdict in
      (ground arith, lookup-write_self key value s)
