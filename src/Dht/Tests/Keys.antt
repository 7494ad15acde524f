-- ===== src/Dht/Tests/Keys.antt =====
-- `KeyMapper::add` on a concrete listing.
use testshop.Prelude.{
  ◌≡◌, refl, true, ◌&&◌, ◌||◌, [], ◌∷◌, bytes, text_eq, lookup, insert, ok, some, none, length,
  ◌==◌,
}
use testshop.Dht.Mappings.{Mappings, has_row, sync_key, sync_keys, sync_index, sync_indexes}
use testshop.Dht.Mappings.Rows.{is_listed, distinct}
use testshop.Dht.KeyMapper.{
  KeyMapper, new_mapper, push, push_string, product_part, add_listing, add_kind, add_terms, indexes,
  sync, add,
}
use testshop.Dht.KeyMapper.Added.{ExtendsAll, add_terms-ExtendsAll}
use testshop.Dht.KeyMapper.Synced.{sync_lem, add_listing_mapped}
use testshop.Dht.Tests.Fixture.{Json, str, platform, key, parse_document}

abbrev listing_json : Json
listing_json = elim (parse_document (bytes "listing-1")) [ none ↦ str [] | some j ↦ j ]

abbrev mapped : KeyMapper
mapped = record new_mapper {
  listing_ids = (bytes "i1", key ∷ []) ∷ [];
  seller_ids = (bytes "4A", key ∷ []) ∷ [];
}

terms_run : add_terms platform key listing_json new_mapper ≡ ok mapped
unfolding add_terms add_kind add_listing product_part push_string push bytes text_eq lookup insert
terms_run = refl

add_terms-ExtendsAll_example : ExtendsAll key new_mapper mapped
add_terms-ExtendsAll_example =
    add_terms-ExtendsAll platform key listing_json new_mapper mapped terms_run

-- The listing by its identifier and by its seller.
abbrev rows : Mappings
rows =
    (key, record { search_term = bytes "i1"; content = bytes "listing" })
    ∷ (key, record { search_term = bytes "4A"; content = bytes "listing" })
    ∷ []

map_run : add platform key (bytes "listing-1") new_mapper [] ≡ ok (new_mapper, rows)
unfolding add sync indexes sync_indexes sync_index sync_keys sync_key has_row add_terms add_kind
    add_listing product_part push_string push bytes text_eq lookup insert
map_run = refl

sync_lem_example :
    ((sync mapped []).0 ≡ new_mapper)
    × (has_row (bytes "i1") key (sync mapped []).1 ≡ (
        has_row (bytes "i1") key []
        || (length key == 64 && is_listed (bytes "i1") key (indexes mapped))))
    × (distinct (sync mapped []).1 ≡ true)
unfolding distinct
sync_lem_example = sync_lem (bytes "i1") key mapped [] refl

add_listing_mapped_example :
    (rows' : Mappings) × (add platform key (bytes "listing-1") new_mapper []
      ≡ ok (new_mapper, rows'))
    × (has_row (bytes "i1") key rows' ≡ true)
    × (has_row (bytes "4A") key rows' ≡ true)
unfolding bytes text_eq lookup
add_listing_mapped_example =
    add_listing_mapped platform key (bytes "listing-1") (bytes "i1") (bytes "4A") listing_json
      new_mapper [] refl refl refl refl refl
