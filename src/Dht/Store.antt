-- ===== src/Dht/Store.antt =====
-- src/core/protocol/p2p/node.cpp: the data that a node stores, and what it lets in. The locks are not
-- modelled: each operation runs whole. A text is parsed once where the code parses it again.
pub mod Verdict
pub mod Put
pub mod Signed
pub mod Expiry
use testshop.Prelude.{
  ℕ, ◌*◌, Bool, true, false, ◌&&◌, ◌||◌, not, Option, none, some, List, [], ◌∷◌, Text, bytes,
  text_eq, Dict, lookup, insert, erase, has_key, Outcome, ok, throws, faults, ◌>>=◌, is_some, ◌==◌,
  ltb, leb, if◌then◌else◌, length, take,
}
use testshop.Dht.Platform.{
  Platform, contains, string_at, string_of, get_string, is_expired, get_most_recent_timestamp,
}
use testshop.Dht.Mappings.{Mappings}
use testshop.Dht.Username.{is_valid_username}

-- The node's hash table, and the tables `hash_table` and `mappings` of its database.
pub record Store : Type 0 where
  pub stored : Dict Text
  pub hash_table : Dict Text
  pub mappings : Mappings

abbrev pub max_image_size : ℕ
max_image_size = 2 * 1024 * 1024

-- What the chain of checks goes on with: a failed check returns false at once.
infixr 3 ◌then_check◌
abbrev pub ◌then_check◌ : Outcome Bool → Outcome Bool → Outcome Bool
a then_check b = a >>= λ passed. if passed then b else ok false

unfoldable pub is_valid_metadata : Text → Bool
is_valid_metadata metadata =
    text_eq metadata (bytes "user")
    || text_eq metadata (bytes "listing")
    || text_eq metadata (bytes "product_rating")
    || text_eq metadata (bytes "seller_rating")
    || text_eq metadata (bytes "order")
    || text_eq metadata (bytes "message")

abbrev pub is_rating : Text → Bool
is_rating metadata =
    text_eq metadata (bytes "product_rating") || text_eq metadata (bytes "seller_rating")

-- What `validate` removes of an expired value: from the hash table and from the database.
unfoldable pub drop_key : Text → Store → Store
drop_key key s = record {
  stored = if has_key key s.stored then erase key s.stored else s.stored;
  hash_table = if has_key key s.hash_table then erase key s.hash_table else s.hash_table;
  mappings = if has_key key s.mappings then erase key s.mappings else s.mappings;
}

module _ (p : Platform) where
  open p use {
    Value, parse, is_out_of_range, is_object, member, as_string, as_size, is_valid_address,
    verify_message,
  }

  -- `!json.contains(f) && !json[f].is_string()` returns false. The second test is made only for a
  -- missing member, which `json[f]` makes null.
  required : Value → Text → Outcome Bool
  required json f = ok (not (not (contains p json f) && not (is_some (string_at p json f))))

  -- The same on the constant `avatar`, where `avatar[f]` of a missing member is undefined.
  required_const : Value → Text → Outcome Bool
  required_const avatar f = if contains p avatar f then ok true else faults

  abbrev size_of : Option Value → Outcome ℕ
  size_of none = throws
  size_of (some v) = elim (as_size v) [ none ↦ throws | some n ↦ ok n ]

  avatar_fields : Value → Outcome Bool
  unfolding required_const
  avatar_fields avatar =
      if is_object avatar
      then required_const avatar (bytes "name")
        then_check required_const avatar (bytes "size")
        then_check (do
          size ← size_of (member avatar (bytes "size"))
          ok (not (ltb max_image_size size)))
        then_check required_const avatar (bytes "pieces")
        then_check required_const avatar (bytes "piece_size")
      else ok false

  display_name_field : Value → Outcome Bool
  display_name_field v = elim (as_string v) [
    | none ↦ ok false
    | some display_name ↦ ok (
        is_valid_username display_name
        && not (ltb (length display_name) 2 || ltb 30 (length display_name)))
  ]

  abbrev optional : Option Value → (Value → Outcome Bool) → Outcome Bool
  optional none check = ok true
  optional (some v) check = check v

  -- `validate_fields`, for a value of that metadata.
  unfoldable pub validate_fields : Text → Value → Outcome Bool
  unfolding required avatar_fields display_name_field
  validate_fields metadata json =
      if text_eq metadata (bytes "user")
      then required json (bytes "created_at")
        then_check required json (bytes "monero_address")
        then_check required json (bytes "public_key")
        then_check required json (bytes "signature")
        then_check optional (member json (bytes "avatar")) avatar_fields
        then_check optional (member json (bytes "display_name")) display_name_field
      else ok true

  -- The signature of a message by an address: the tail of `verify`.
  unfoldable pub is_signed : Text → Text → Text → Bool
  is_signed signed_message signing_address signature =
      is_valid_address signing_address
      && length signature == 93
      && text_eq (take 3 signature) (bytes "Sig")
      && verify_message signed_message signing_address signature

  -- The signature field: empty when missing, refused when it is no string.
  abbrev pub signature_of : Option Value → Option Text
  signature_of none = some []
  signature_of (some v) = as_string v

  -- The signed message and the signing address of each kind of value, empty for any other.
  unfoldable pub signed_parts : Text → Value → Option (Text × Text)
  signed_parts metadata json =
      if text_eq metadata (bytes "user")
      then (elim (string_at p json (bytes "monero_address")) [ none ↦ none | some a ↦ some (a, a) ])
      else if text_eq metadata (bytes "listing")
      then (elim (string_at p json (bytes "id")) [
        | none ↦ none
        | some id ↦ elim (string_at p json (bytes "seller_id")) [
          | none ↦ none
          | some a ↦ some (id, a)
        ]
      ])
      else if is_rating metadata
      then (elim (string_at p json (bytes "comments")) [
        | none ↦ none
        | some c ↦ elim (string_at p json (bytes "rater_id")) [ none ↦ none | some a ↦ some (c, a) ]
      ])
      else some ([], [])

  unfoldable pub verify : Text → Value → Bool
  verify metadata json =
      if text_eq metadata (bytes "order")
      then true
      else if text_eq metadata (bytes "message")
      then true
      else (elim (signed_parts metadata json) [
        | none ↦ false
        | some (signed_message, signing_address) ↦
            elim (signature_of (member json (bytes "signature"))) [
              | none ↦ false
              | some signature ↦ is_signed signed_message signing_address signature
            ]
      ])

  unfoldable pub check_expiry : ℕ → Text → Option Value → Store → Bool × Store
  check_expiry now key none s = (true, s)
  check_expiry now key (some v) s = elim (as_string v) [
    | none ↦ (false, s)
    | some date ↦ if is_expired p now date then (false, drop_key key s) else (true, s)
  ]

  unfoldable pub validate_json : ℕ → Text → Value → Store → Outcome (Bool × Store)
  validate_json now key json s =
      if is_object json
      then (elim (string_at p json (bytes "metadata")) [
        | none ↦ ok (false, s)
        | some metadata ↦
            if is_valid_metadata metadata
            then (do
              fields ← validate_fields metadata json
              ok (
                  if fields && verify metadata json
                  then check_expiry now key (member json (bytes "expiration_date")) s
                  else (false, s)))
            else ok (false, s)
      ])
      else ok (false, s)

  unfoldable pub validate : ℕ → Text → Text → Store → Outcome (Bool × Store)
  validate now key value s =
      if length key == 64 && not (text_eq value [])
      then (elim (parse value) [
        | none ↦ if is_out_of_range value then throws else ok (false, s)
        | some json ↦ validate_json now key json s
      ])
      else ok (false, s)
