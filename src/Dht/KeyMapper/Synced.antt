-- ===== src/Dht/KeyMapper/Synced.antt =====
-- `KeyMapper::sync` (src/core/protocol/p2p/key_mapper.cpp) and the whole of `add`.
use testshop.Prelude.{
  split_if, ◌≡◌, refl, sym, ap, inl, inr, true, ◌&&◌, ◌||◌, some, List, [], ◌∷◌, ◌++◌, arith, Text,
  bytes, text_eq_refl, lookup, ok, >>=-eq-ok, ok_injective, ◌==◌, length, Option-cases,
}
use testshop.Dht.Platform.{Platform, string_at}
use testshop.Dht.Mappings.{Mappings, has_row, sync_indexes}
use testshop.Dht.Mappings.Rows.{
  is_in, is_indexed, is_listed, distinct, has_row-sync_indexes, distinct-sync_indexes,
  sync_indexes_idem,
}
use testshop.Dht.KeyMapper.{Index, KeyMapper, keys_at, new_mapper, indexes, sync, add_terms, add}
use testshop.Dht.KeyMapper.Added.{add_listing_terms}

-- `sync` leaves the indexes empty; the table then has a row for each term and key that had one, and for
-- each key of 64 characters that an index had under the term, and no others; and where no two
-- rows had one term and one key, no two have.
pub sync_lem :
    (t k : Text) (m : KeyMapper) (rows : Mappings)
    → distinct rows ≡ true
    → ((sync m rows).0 ≡ new_mapper)
      × (has_row t k (sync m rows).1
          ≡ (has_row t k rows || (length k == 64 && is_listed t k (indexes m))))
      × (distinct (sync m rows).1 ≡ true)
unfolding sync
sync_lem t k m rows d =
    (refl, has_row-sync_indexes t k (indexes m) rows, distinct-sync_indexes (indexes m) rows d)

is_indexed-keys_at :
    (t k : Text) (i : Index) → is_in k (keys_at t i) ≡ true → is_indexed t k i ≡ true
unfolding is_in is_indexed lookup
is_indexed-keys_at t k [] h = h
is_indexed-keys_at t k ((term, keys) ∷ i) h = ground (arith, is_indexed-keys_at t k i)

is_in_last : (k : Text) (ks : List Text) → is_in k (ks ++ k ∷ []) ≡ true
unfolding is_in
is_in_last k [] = ground (arith, text_eq_refl k)
is_in_last k (j ∷ ks) = ground (arith, is_in_last k ks)

module _ (p : Platform) where
  open p use {Value, parse}

  -- A listing that `add` maps under a key of 64 characters is found in the table: its identifier and
  -- its seller have a row with the key, and the indexes are left empty.
  pub add_listing_mapped :
      (key value id seller : Text) (json : Value) (m : KeyMapper) (rows : Mappings)
      → length key ≡ 64
      → parse value ≡ some json
      → string_at p json (bytes "metadata") ≡ some (bytes "listing")
      → string_at p json (bytes "id") ≡ some id
      → string_at p json (bytes "seller_id") ≡ some seller
      → (rows' : Mappings) × (add p key value m rows ≡ ok (new_mapper, rows'))
        × (has_row id key rows' ≡ true)
        × (has_row seller key rows' ≡ true)
  unfolding add sync indexes is_listed
  add_listing_mapped key value id seller json m rows l e em ei es =
      let (m', done, ids, sellers) = add_listing_terms p key id seller json m em ei es in
      let long : (length key == 64) ≡ true = ground arith in
      let i : is_indexed id key m'.listing_ids ≡ true =
        is_indexed-keys_at id key m'.listing_ids
          (rw ids (is_in_last key (keys_at id m.listing_ids))) in
      let s : is_indexed seller key m'.seller_ids ≡ true =
        is_indexed-keys_at seller key m'.seller_ids
          (rw sellers (is_in_last key (keys_at seller m.seller_ids))) in
      (
        sync_indexes (indexes m') rows,
        rw (add, e, done) refl,
        ground (arith, has_row-sync_indexes id key (indexes m') rows),
        ground (arith, has_row-sync_indexes seller key (indexes m') rows),
      )

  -- A value that is mapped again under its key changes nothing.
  pub add_idem :
      (key value : Text) (m : KeyMapper) (rows rows' : Mappings)
      → add p key value new_mapper rows ≡ ok (m, rows')
      → add p key value m rows' ≡ ok (m, rows')
  unfolding add sync
  add_idem key value m rows rows' h = elim (Option-cases (parse value)) [
    | inl miss ↦
        split_if (p.is_out_of_range value) (λ bad absurd'. cc)
          (λ fine same. rw (add, miss, fine) refl) (rw (add, miss) at h)
    | inr (json, e) ↦
        let (m₁, done, h') = >>=-eq-ok (add_terms p key json new_mapper) _ (rw (add, e) at h) in
        let same : new_mapper ≡ m = ap (λ (x : KeyMapper × Mappings). x.0) (ok_injective h') in
        let same' : sync_indexes (indexes m₁) rows ≡ rows' =
          ap (λ (x : KeyMapper × Mappings). x.1) (ok_injective h') in
        rw (sym same, sym same') (rw (add, e, done, sync_indexes_idem (indexes m₁) rows) refl)
  ]
