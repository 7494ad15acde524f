-- ===== src/Dht/KeyMapper.antt =====
-- src/core/protocol/p2p/key_mapper.cpp: the index of the stored keys by the search terms of their values.
-- `add` ends with `sync`, which copies the index to the database and empties it.
pub mod Added
pub mod Synced
use testshop.Prelude.{
  Bool, true, false, Option, none, some, List, [], ◌∷◌, ◌++◌, map, Text, bytes, text_eq, Dict,
  lookup, insert, Outcome, ok, throws, ◌>>=◌, if◌then◌else◌,
}
use testshop.Dht.Mappings.{Mappings, sync_indexes}
use testshop.Dht.Platform.{Platform, string_at, string_of, get_string}

-- `std::unordered_map<std::string, std::vector<std::string>>`, by search term.
abbrev pub Index : Type 0
Index = Dict (List Text)

pub record KeyMapper : Type 0 where
  pub user_ids : Index
  pub display_names : Index
  pub product_ids : Index
  pub product_names : Index
  pub product_categories : Index
  pub product_tags : Index
  pub product_codes : Index
  pub listing_ids : Index
  pub seller_ids : Index
  pub listing_locations : Index
  pub order_ids : Index
  pub order_recipients : Index
  pub product_ratings : Index
  pub seller_ratings : Index
  pub messages : Index

abbrev pub keys_of : Option (List Text) → List Text
keys_of none = []
keys_of (some keys) = keys

-- index[term], which is empty where the term has no entry.
abbrev pub keys_at : Text → Index → List Text
keys_at term index = keys_of (lookup term index)

-- index[term].push_back(key)
unfoldable pub push : Text → Text → Index → Index
push key term index = insert term (keys_at term index ++ key ∷ []) index

-- A term that is a string is pushed.
unfoldable pub push_string : Text → Option Text → Index → Index
push_string key none index = index
push_string key (some term) index = push key term index

-- The strings among the items of an array are pushed, in their order.
unfoldable pub push_each : Text → List (Option Text) → Index → Index
push_each key [] index = index
push_each key (term ∷ terms) index = push_each key terms (push_string key term index)

-- `clear_cache`: every index is emptied.
abbrev pub new_mapper : KeyMapper
new_mapper = record {
  user_ids = [];
  display_names = [];
  product_ids = [];
  product_names = [];
  product_categories = [];
  product_tags = [];
  product_codes = [];
  listing_ids = [];
  seller_ids = [];
  listing_locations = [];
  order_ids = [];
  order_recipients = [];
  product_ratings = [];
  seller_ratings = [];
  messages = [];
}

-- The indexes in the order of `sync`, each with the kind of its values.
unfoldable pub indexes : KeyMapper → List (Text × Index)
indexes m =
    (bytes "user", m.user_ids)
    ∷ (bytes "user", m.display_names)
    ∷ (bytes "listing", m.product_ids)
    ∷ (bytes "listing", m.product_names)
    ∷ (bytes "listing", m.product_categories)
    ∷ (bytes "listing", m.product_tags)
    ∷ (bytes "listing", m.product_codes)
    ∷ (bytes "listing", m.listing_ids)
    ∷ (bytes "listing", m.listing_locations)
    ∷ (bytes "listing", m.seller_ids)
    ∷ (bytes "order", m.order_ids)
    ∷ (bytes "order", m.order_recipients)
    ∷ (bytes "product_rating", m.product_ratings)
    ∷ (bytes "seller_rating", m.seller_ratings)
    ∷ (bytes "message", m.messages)
    ∷ []

unfoldable pub sync : KeyMapper → Mappings → KeyMapper × Mappings
sync m rows = (new_mapper, sync_indexes (indexes m) rows)

abbrev items_of {ℓ} : {A : Type ℓ} → Option (List A) → List A
items_of none = []
items_of (some items) = items

module _ (p : Platform) where
  open p use {Value, parse, is_out_of_range, is_object, member, as_string, as_array}

  -- The strings of an array member.
  unfoldable pub strings_at : Value → Text → List (Option Text)
  strings_at json name = elim (member json name) [
    | none ↦ []
    | some v ↦ map as_string (items_of (as_array v))
  ]

  abbrev seller_of : Value → Option Text
  seller_of item = if is_object item then string_at p item (bytes "seller_id") else none

  -- The sellers of an order's items.
  unfoldable pub sellers_at : Value → Text → List (Option Text)
  sellers_at json name = elim (member json name) [
    | none ↦ []
    | some v ↦ map seller_of (items_of (as_array v))
  ]

  unfoldable pub add_user : Text → Value → KeyMapper → KeyMapper
  add_user key json m = record m {
    user_ids = push_string key (string_at p json (bytes "monero_address")) m.user_ids;
    display_names = push_string key (string_at p json (bytes "display_name")) m.display_names;
  }

  -- The product of a listing, when it is an object.
  unfoldable pub add_product : Text → Value → KeyMapper → KeyMapper
  add_product key product m = record m {
    product_ids = push_string key (string_at p product (bytes "id")) m.product_ids;
    product_names = push_string key (string_at p product (bytes "name")) m.product_names;
    product_categories =
        push_each key (strings_at product (bytes "subcategories"))
          (push_string key (string_at p product (bytes "category")) m.product_categories);
    product_tags = push_each key (strings_at product (bytes "tags")) m.product_tags;
    product_codes = push_string key (string_at p product (bytes "code")) m.product_codes;
  }

  unfoldable pub product_part : Text → Option Value → KeyMapper → KeyMapper
  product_part key none m = m
  product_part key (some product) m = if is_object product then add_product key product m else m

  unfoldable pub add_listing : Text → Value → KeyMapper → KeyMapper
  add_listing key json m =
      let m' = product_part key (member json (bytes "product")) m in
      record m' {
        listing_ids = push_string key (string_at p json (bytes "id")) m'.listing_ids;
        seller_ids = push_string key (string_at p json (bytes "seller_id")) m'.seller_ids;
        listing_locations =
            push_string key (string_at p json (bytes "location")) m'.listing_locations;
      }

  unfoldable pub add_order : Text → Value → KeyMapper → KeyMapper
  add_order key json m = record m {
    order_ids = push_string key (string_at p json (bytes "id")) m.order_ids;
    order_recipients = push_each key (sellers_at json (bytes "items")) m.order_recipients;
  }

  -- The index after `add` of a value of that kind.
  unfoldable pub add_kind : Text → Text → Value → KeyMapper → KeyMapper
  add_kind key metadata json m =
      if text_eq metadata (bytes "user")
      then add_user key json m
      else if text_eq metadata (bytes "listing")
      then add_listing key json m
      else if text_eq metadata (bytes "order")
      then add_order key json m
      else if text_eq metadata (bytes "product_rating")
      then record m {
        product_ratings = push_string key (string_at p json (bytes "product_id")) m.product_ratings;
      }
      else if text_eq metadata (bytes "seller_rating")
      then record m {
        seller_ratings = push_string key (string_at p json (bytes "seller_id")) m.seller_ratings;
      }
      else if text_eq metadata (bytes "message")
      then record m {
        messages = push_string key (string_at p json (bytes "recipient_id")) m.messages;
      }
      else m

  -- `add` up to its `sync`; a value whose metadata is no string throws.
  unfoldable pub add_terms : Text → Value → KeyMapper → Outcome KeyMapper
  add_terms key json m = do
    metadata ← get_string p json (bytes "metadata")
    ok (add_kind key metadata json m)

  -- A text that is no JSON adds nothing; one with a number that is too large throws.
  unfoldable pub add : Text → Text → KeyMapper → Mappings → Outcome (KeyMapper × Mappings)
  add key value m rows = elim (parse value) [
    | none ↦ if is_out_of_range value then throws else ok (m, rows)
    | some json ↦ do m' ← add_terms key json m; ok (sync m' rows)
  ]
