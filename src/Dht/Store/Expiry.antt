-- ===== src/Dht/Store/Expiry.antt =====
-- Values with an expiration date: `validate` and `expire` of src/core/protocol/p2p/node.cpp.
use testshop.Prelude.{
  ℕ, ◌≡◌, ◌≢◌, ◌⊎◌, refl, true, false, none, some, [], ◌&&◌, arith, Text, bytes, text_eq,
  text_eq_iff, text_eq_refl, Dict, lookup, erase, has_key, lookup-erase, ok, ◌==◌, if◌then◌else◌,
  Bool-cases, Option-cases, inl, inr, length,
}
use testshop.Dht.Platform.{Platform, string_at, is_expired}
use testshop.Dht.Store.{Store, drop_key, check_expiry, validate_json, validate}
use testshop.Dht.Store.Put.{remove, put_valid, put}
use testshop.Dht.Store.Signed.{is_unsigned, unsigned_tests}

-- `remove(key)`, and the key's rows where that succeeds.
pub remove_rows : Text → Store → Store
remove_rows key s =
    let (gone, s') = remove key s in
    if gone
    then record s' { hash_table = erase key s'.hash_table; mappings = erase key s'.mappings }
    else s'

-- In each of the three tables the key has no entry, and the entries of the others are what they
-- were.
abbrev pub WithoutKey : Text → Store → Store → Type 0
WithoutKey key s s' =
    (j : Text)
    → (lookup j s'.stored ≡ (if text_eq key j then none else lookup j s.stored))
      × (lookup j s'.hash_table ≡ (if text_eq key j then none else lookup j s.hash_table))
      × (lookup j s'.mappings ≡ (if text_eq key j then none else lookup j s.mappings))

-- Erasing under the test that the key is there.
erase_if_there {ℓ} :
    {V : Type ℓ} (key j : Text) (m : Dict V)
    → lookup j (if has_key key m then erase key m else m)
      ≡ (if text_eq key j then none else lookup j m)
erase_if_there key j m = ground (arith, lookup-erase key j m, text_eq_iff key j)

drop_key-WithoutKey : (key : Text) (s : Store) → WithoutKey key s (drop_key key s)
unfolding drop_key
drop_key-WithoutKey key s j = (
  erase_if_there key j s.stored,
  erase_if_there key j s.hash_table,
  erase_if_there key j s.mappings,
)

pub remove_rows-WithoutKey : (key : Text) (s : Store) → WithoutKey key s (remove_rows key s)
unfolding remove_rows remove
remove_rows-WithoutKey key s j =
    let gone : lookup key (erase key s.stored) ≡ none =
      ground (arith, lookup-erase key key s.stored, text_eq_refl key) in
    rw gone
      (lookup-erase key j s.stored, lookup-erase key j s.hash_table, lookup-erase key j s.mappings)

module _ (p : Platform) where
  open p use {Value, parse, is_object, member, as_string}

  expire_date : ℕ → Text → Value → Store → Store
  unfolding remove_rows
  expire_date now key v s = elim (as_string v) [
    | none ↦ remove_rows key s
    | some date ↦ if is_expired p now date && has_key key s.stored then remove_rows key s else s
  ]

  -- `expire`: a text that is no JSON is left alone.
  pub expire : ℕ → Text → Text → Store → Store
  unfolding expire_date
  expire now key value s = elim (parse value) [
    | none ↦ s
    | some json ↦ elim (member json (bytes "expiration_date")) [
      | none ↦ s
      | some v ↦ expire_date now key v s
    ]
  ]

  pub expire-cases :
      (now : ℕ) (key value : Text) (s : Store)
      → (expire now key value s ≡ s) ⊎ (expire now key value s ≡ remove_rows key s)
  unfolding expire expire_date
  expire-cases now key value s = elim (Option-cases (parse value)) [
    | inl miss ↦ inl (rw (expire, miss) refl)
    | inr (json, e) ↦ elim (Option-cases (member json (bytes "expiration_date"))) [
      | inl undated ↦ inl (rw (expire, e, undated) refl)
      | inr (v, d) ↦ ground arith
    ]
  ]

  -- For a stored value with a date of expiration, `expire` removes the key from the hash table and
  -- from the database when the date has passed, and changes nothing when it has not.
  pub expire_lem :
      (now : ℕ) (key value date : Text) (s : Store) (json : Value)
      → lookup key s.stored ≡ some value
      → parse value ≡ some json
      → string_at p json (bytes "expiration_date") ≡ some date
      → if is_expired p now date
        then WithoutKey key s (expire now key value s)
        else expire now key value s ≡ s
  unfolding expire expire_date
  expire_lem now key value date s json at e d = elim (Bool-cases (is_expired p now date)) [
    | inl past ↦
        let same : expire now key value s ≡ remove_rows key s = ground arith in
        rw past (rw same (remove_rows-WithoutKey key s))
    | inr fresh ↦ rw fresh (ground arith)
  ]

  expired_check :
      (now : ℕ) (key date : Text) (s : Store) (json : Value)
      → string_at p json (bytes "expiration_date") ≡ some date
      → is_expired p now date ≡ true
      → check_expiry p now key (member json (bytes "expiration_date")) s ≡ (false, drop_key key s)
  unfolding check_expiry
  expired_check now key date s json ed x =
      elim (Option-cases (member json (bytes "expiration_date"))) [
        | inl miss ↦ absurd (ground arith)
        | inr (v, e) ↦ ground arith
      ]

  expired_validate :
      (now : ℕ) (key value m date : Text) (s : Store) (json : Value)
      → length key ≡ 64
      → value ≢ []
      → is_unsigned m ≡ true
      → parse value ≡ some json
      → is_object json ≡ true
      → string_at p json (bytes "metadata") ≡ some m
      → string_at p json (bytes "expiration_date") ≡ some date
      → is_expired p now date ≡ true
      → validate p now key value s ≡ ok (false, drop_key key s)
  unfolding validate validate_json
  expired_validate now key value m date s json l n u e o em ed x =
      let (known, fields, verified, same) = unsigned_tests p m json json u in
      let filled : text_eq value [] ≡ false = ground (arith, text_eq_iff value []) in
      let k : (length key == 64) ≡ true = ground arith in
      let checked = expired_check now key date s json ed x in
      rw (k, filled, e) (rw (o, em) (rw known (rw (fields, verified, checked) refl)))

  -- A `put` of an order or a message (a text, not empty, that parses to an object of that kind)
  -- whose date of expiration has passed, under a key of 64 bytes that holds another text, fails,
  -- and removes what the key holds, of any kind and any owner: such a value needs no signature.
  pub expired_put_erases :
      (now : ℕ) (key value current m date : Text) (s : Store) (json : Value)
      → length key ≡ 64
      → value ≢ []
      → lookup key s.stored ≡ some current
      → current ≢ value
      → is_unsigned m ≡ true
      → parse value ≡ some json
      → is_object json ≡ true
      → string_at p json (bytes "metadata") ≡ some m
      → string_at p json (bytes "expiration_date") ≡ some date
      → is_expired p now date ≡ true
      → (put p now key value s ≡ ok (false, drop_key key s)) × WithoutKey key s (drop_key key s)
  unfolding put put_valid
  expired_put_erases now key value current m date s json l n at d u e o em ed x =
      let valid = expired_validate now key value m date s json l n u e o em ed x in
      let differs : text_eq current value ≡ false = ground (arith, text_eq_iff current value) in
      (ground arith, drop_key-WithoutKey key s)
