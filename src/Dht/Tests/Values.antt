-- ===== src/Dht/Tests/Values.antt =====
-- `put`, `set`, `validate` and `expire` on concrete values.
use testshop.Prelude.{
  ◌≡◌, ◌≢◌, refl, true, false, none, some, [], Text, bytes, text_eq, lookup, insert, take, drop,
  ◌⊎◌, arith, length, ok, text_eq_iff,
}
use testshop.Dht.Platform.{string_at, is_expired, get_most_recent_timestamp}
use testshop.Dht.Store.{
  Store, is_valid_metadata, validate_fields, verify, drop_key, check_expiry, validate_json,
  validate, signed_parts, is_signed, signature_of,
}
use testshop.Dht.Store.Verdict.Successor.{set_verdict-IsSuccessor}
use testshop.Dht.Store.Verdict.{set_verdict, immutable_fields, by_last_updated, IsSuccessor}
use testshop.Dht.Store.Put.{write, put, put_valid, set_value}
use testshop.Dht.Store.Put.Changes.{Replaces}
use testshop.Dht.Store.Signed.{is_unsigned, verify_lem, unsigned_replaced}
use testshop.Dht.Store.Expiry.{WithoutKey, expire, expire_lem, expired_put_erases}
use testshop.Dht.Store.Put.Entry.{put_entry, put-Replaces}
use testshop.Dht.Tests.Fixture.{
  Json, str, obj, platform, key, stored_under_key, parse_document, member_of, order, past_order,
}

abbrev before : Store
before = stored_under_key (bytes "listing-1")

abbrev after : Store
after = stored_under_key (bytes "listing-2")

abbrev changed : Store
changed = record after { hash_table = before.hash_table }

abbrev listing_1 : Json
listing_1 = elim (parse_document (bytes "listing-1")) [ none ↦ str [] | some j ↦ j ]

abbrev listing_2 : Json
listing_2 = elim (parse_document (bytes "listing-2")) [ none ↦ str [] | some j ↦ j ]

abbrev ordered : Store
ordered = stored_under_key (bytes "order-1")

ne : (a b : Text) → text_eq a b ≡ false → a ≢ b
ne a b h e = ground (arith, text_eq_iff a b)

some_ne : (a b : Text) → text_eq a b ≡ false → some a ≢ some b
some_ne a b h e = ground (arith, text_eq_iff a b)

put_run : put platform 0 key (bytes "listing-2") before ≡ ok (true, changed)
unfolding put put_valid set_value write set_verdict immutable_fields by_last_updated validate
    validate_json check_expiry validate_fields verify is_valid_metadata is_signed signed_parts bytes
    text_eq lookup insert get_most_recent_timestamp
put_run = refl

-- The older listing does not take the place of the newer one.
stale_run : put platform 0 key (bytes "listing-1") after ≡ ok (true, after)
unfolding put put_valid set_value write set_verdict immutable_fields by_last_updated validate
    validate_json check_expiry validate_fields verify is_valid_metadata is_signed signed_parts bytes
    text_eq lookup insert get_most_recent_timestamp
stale_run = refl

put_entry_example :
    (bytes "listing-2" ≡ bytes "listing-2")
    × (json : Json) × (m : Text) × (length key ≡ 64)
    × (parse_document (bytes "listing-2") ≡ some json)
    × (string_at platform json (bytes "metadata") ≡ some m)
    × (is_valid_metadata m ≡ true)
    × (verify platform m json ≡ true)
unfolding bytes text_eq lookup
put_entry_example =
    put_entry platform 0 key (bytes "listing-2") (bytes "listing-2") before (true, changed) put_run
      refl (some_ne (bytes "listing-1") (bytes "listing-2") refl)

put-Replaces_example : Replaces platform (bytes "listing-2") (bytes "listing-1")
unfolding bytes text_eq lookup
put-Replaces_example =
    put-Replaces platform 0 key (bytes "listing-2") (bytes "listing-1") (bytes "listing-2") before
      (true, changed) refl put_run refl (ne (bytes "listing-2") (bytes "listing-1") refl)

set_verdict-IsSuccessor_example : (m : Text) × IsSuccessor platform m listing_2 listing_1
unfolding set_verdict immutable_fields by_last_updated bytes text_eq lookup
    get_most_recent_timestamp
set_verdict-IsSuccessor_example = set_verdict-IsSuccessor platform listing_2 listing_1 refl

verify_example :
    (is_unsigned (bytes "listing") ≡ true)
    ⊎ ((message : Text) × (address : Text) × (signature : Text) × (signed_parts platform
            (bytes "listing")
            listing_1
          ≡ some (message, address))
        × (signature_of platform (member_of listing_1 (bytes "signature")) ≡ some signature)
        × (text_eq address (bytes "4A") ≡ true)
        × (length signature ≡ 93)
        × (text_eq message (take (length message) (drop 3 signature)) ≡ true))
unfolding verify is_signed signed_parts bytes text_eq lookup
verify_example = verify_lem platform (bytes "listing") listing_1 refl

unsigned_replaced_example :
    (put platform 0 key (bytes "order-2") ordered ≡ ok (write key (bytes "order-2") ordered))
    × (lookup key (write key (bytes "order-2") ordered).1.stored ≡ some (bytes "order-2"))
unfolding bytes text_eq lookup
unsigned_replaced_example =
    unsigned_replaced platform 0 key (bytes "order-2") (bytes "order-1") (bytes "order") ordered
      (obj order) (obj order) refl (ne (bytes "order-2") [] refl) refl refl
      (ne (bytes "order-1") (bytes "order-2") refl) refl refl refl refl refl refl refl refl refl

expired_put_erases_example :
    (put platform 5 key (bytes "order-3") before ≡ ok (false, drop_key key before))
    × WithoutKey key before (drop_key key before)
unfolding bytes text_eq lookup is_expired
expired_put_erases_example =
    expired_put_erases platform 5 key (bytes "order-3") (bytes "listing-1") (bytes "order")
      (bytes "0") before (obj past_order) refl (ne (bytes "order-3") [] refl) refl
      (ne (bytes "listing-1") (bytes "order-3") refl) refl refl refl refl refl refl

expire_example :
    WithoutKey key
      (stored_under_key (bytes "order-3"))
      (expire platform 5 key (bytes "order-3") (stored_under_key (bytes "order-3")))
unfolding bytes text_eq lookup is_expired
expire_example =
    expire_lem platform 5 key (bytes "order-3") (bytes "0") (stored_under_key (bytes "order-3"))
      (obj past_order) refl refl refl
