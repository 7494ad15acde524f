-- ===== src/Dht/Store/Verdict.antt =====
-- `Node::set` of src/core/protocol/p2p/node.cpp: whether a new value may take the place of the stored one.
pub mod Successor
use testshop.Prelude.{
  ◌<◌, ◌≡◌, ◌≢◌, refl, ap, Bool, true, false, ◌&&◌, not, Option, none, some, arith, Text, bytes,
  text_eq, text_eq_iff, Outcome, ok, throws, faults, ◌>>=◌, >>=-eq-ok, Bool-cases, Option-cases,
  ◌⊎◌, inl, inr, if◌then◌else◌,
}
use testshop.Dht.Platform.{
  Platform, contains, string_at, get_string, got, get_most_recent_timestamp,
}
use testshop.Dht.Store.{is_rating}

-- `set` returns false, returns true with nothing written, or writes.
pub data Verdict : Type 0 where
  reject keep replace : Verdict

-- The fields of the new value come first, those of the stored one after them. The new value has a
-- string, and it is the stored one.
pub same_field : Option Text → Option Text → Outcome Bool
same_field none current = ok false
same_field (some a) current = do b ← got current; ok (text_eq a b)

pub same_listing : Option Text → Option Text → Option Text → Option Text → Outcome Bool
same_listing none seller_id current_id current_seller = ok false
same_listing (some id) none current_id current_seller = ok false
same_listing (some id) (some seller_id) current_id current_seller = do
  b ← got current_id
  if text_eq id b then (do c ← got current_seller; ok (text_eq seller_id c)) else ok false

pub updated_signature : Option Text → Option Text → Outcome Bool
updated_signature none current = ok true
updated_signature (some signature) current = do
  current_signature ← got current
  ok (not (text_eq signature current_signature))

module _ (p : Platform) where
  open p use {Value, seconds}

  unfoldable pub immutable_fields : Text → Value → Value → Outcome Bool
  unfolding same_field same_listing
  immutable_fields metadata json current =
      let of_new = string_at p json in
      let of_current = string_at p current in
      if text_eq metadata (bytes "user")
      then same_field (of_new (bytes "monero_address")) (of_current (bytes "monero_address"))
      else if text_eq metadata (bytes "listing")
      then same_listing (of_new (bytes "id")) (of_new (bytes "seller_id")) (of_current (bytes "id"))
          (of_current (bytes "seller_id"))
      else if is_rating metadata
      then same_field (of_new (bytes "rater_id")) (of_current (bytes "rater_id"))
      else ok true

  unfoldable pub by_last_updated : Value → Value → Verdict
  unfolding get_most_recent_timestamp
  by_last_updated json current =
      if not (contains p json (bytes "last_updated")) && contains p current (bytes "last_updated")
      then keep
      else (elim (string_at p json (bytes "last_updated")) [
        | none ↦ replace
        | some last_updated ↦ elim (string_at p current (bytes "last_updated")) [
          | none ↦ replace
          | some current_last_updated ↦
              if text_eq (get_most_recent_timestamp p last_updated current_last_updated)
                current_last_updated
              then keep
              else replace
        ]
      ])

  pub settled : Value → Value → Outcome Bool → Outcome Verdict
  settled json current fresh =
      fresh >>= λ f. ok (if f then by_last_updated json current else reject)

  unfoldable pub set_verdict : Value → Value → Outcome Verdict
  unfolding settled updated_signature
  set_verdict json current = do
    metadata ← get_string p json (bytes "metadata")
    current_metadata ← get_string p current (bytes "metadata")
    if text_eq metadata current_metadata
        then (immutable_fields metadata json current >>= λ same.
            if same
            then settled json current (
                updated_signature (string_at p json (bytes "signature"))
                  (string_at p current (bytes "signature")))
            else ok reject)
        else ok reject

  -- The fields that name the owner of a value of kind `m` are the same.
  abbrev pub SameOwner : Text → Value → Value → Type 0
  SameOwner m json current =
      if text_eq m (bytes "user")
      then string_at p json (bytes "monero_address") ≡ string_at p current (bytes "monero_address")
      else if text_eq m (bytes "listing")
      then (string_at p json (bytes "id") ≡ string_at p current (bytes "id"))
        × (string_at p json (bytes "seller_id") ≡ string_at p current (bytes "seller_id"))
      else if is_rating m
      then string_at p json (bytes "rater_id") ≡ string_at p current (bytes "rater_id")
      else Unit

  -- A value of kind `m` that may take the place of `current`: `current` is of that kind, the
  -- fields that name the owner are the same, a signature is another one, and of two times of the
  -- last update the new one is the later.
  pub record IsSuccessor (m : Text) (json current : Value) : Type 0 where
    pub metadata : string_at p json (bytes "metadata") ≡ some m
    pub current_metadata : string_at p current (bytes "metadata") ≡ some m
    pub owner : SameOwner m json current
    pub signature :
        (string_at p json (bytes "signature") ≡ none)
        ⊎ (string_at p json (bytes "signature") ≢ string_at p current (bytes "signature"))
    pub newer :
        (string_at p json (bytes "last_updated") ≡ none)
        ⊎ (string_at p current (bytes "last_updated") ≡ none)
        ⊎ ((l : Text) × (c : Text) × (string_at p json (bytes "last_updated") ≡ some l)
            × (string_at p current (bytes "last_updated") ≡ some c)
            × (seconds c < seconds l))
