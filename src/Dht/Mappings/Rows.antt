-- ===== src/Dht/Mappings/Rows.antt =====
-- src/core/protocol/p2p/key_mapper.cpp: the rows of the table `mappings` after `sync`.
use testshop.Prelude.{
  ◌≡◌, refl, Bool, true, false, ◌&&◌, ◌||◌, not, List, [], ◌∷◌, ◌++◌, arith, Text, text_eq,
  text_eq_iff, text_eq_refl, Dict, ◌==◌, length,
}
use testshop.Dht.Mappings.{
  Mapping, Mappings, has_row, sync_key, sync_keys, sync_index, sync_indexes,
}

-- The key is among the keys.
unfoldable pub is_in : Text → List Text → Bool
is_in key [] = false
is_in key (k ∷ ks) = text_eq k key || is_in key ks

-- An index has the key under the term.
unfoldable pub is_indexed : Text → Text → Dict (List Text) → Bool
is_indexed term key [] = false
is_indexed term key ((t, keys) ∷ index) =
    (text_eq t term && is_in key keys) || is_indexed term key index

-- One of the indexes has it.
unfoldable pub is_listed : Text → Text → List (Text × Dict (List Text)) → Bool
is_listed term key [] = false
is_listed term key ((content, index) ∷ indexes) =
    is_indexed term key index || is_listed term key indexes

-- No two rows have one term and one key.
unfoldable pub distinct : Mappings → Bool
unfolding has_row
distinct [] = true
distinct ((key, row) ∷ rows) = not (has_row row.search_term key rows) && distinct rows

has_row-append :
    (t k : Text) (rows : Mappings) (key : Text) (row : Mapping)
    → has_row t k (rows ++ ((key, row) ∷ []))
      ≡ (has_row t k rows || (text_eq key k && text_eq row.search_term t))
unfolding has_row
has_row-append t k [] key row = ground arith
has_row-append t k ((j, r) ∷ rows) key row = ground (arith, has_row-append t k rows key row)

distinct-append :
    (rows : Mappings) (key : Text) (row : Mapping)
    → has_row row.search_term key rows ≡ false
    → distinct rows ≡ true
    → distinct (rows ++ ((key, row) ∷ [])) ≡ true
unfolding distinct has_row
distinct-append [] key row h d = refl
distinct-append ((j, r) ∷ rows) key row h d = ground (
  arith,
  distinct-append rows key row,
  has_row-append r.search_term j rows key row,
  text_eq_iff key j,
  text_eq_iff j key,
  text_eq_iff row.search_term r.search_term,
  text_eq_iff r.search_term row.search_term,
)

module _ (content : Text) where
  has_row-sync_key :
      (t k term key : Text) (rows : Mappings)
      → has_row t k (sync_key content term key rows)
        ≡ (has_row t k rows || (length k == 64 && (text_eq term t && text_eq key k)))
  unfolding sync_key
  has_row-sync_key t k term key rows = ground (
    arith,
    has_row-append t k rows key (record { search_term = term; content = content }),
    text_eq_iff term t,
    text_eq_iff key k,
  )

  distinct-sync_key :
      (term key : Text) (rows : Mappings)
      → distinct rows ≡ true
      → distinct (sync_key content term key rows) ≡ true
  unfolding sync_key
  distinct-sync_key term key rows d =
      ground (arith, distinct-append rows key (record { search_term = term; content = content }))

  has_row-sync_keys :
      (t k term : Text) (keys : List Text) (rows : Mappings)
      → has_row t k (sync_keys content term keys rows)
        ≡ (has_row t k rows || (length k == 64 && (text_eq term t && is_in k keys)))
  unfolding sync_keys is_in
  has_row-sync_keys t k term [] rows = ground arith
  has_row-sync_keys t k term (key ∷ keys) rows = ground (
    arith,
    has_row-sync_keys t k term keys (sync_key content term key rows),
    has_row-sync_key t k term key rows,
  )

  distinct-sync_keys :
      (term : Text) (keys : List Text) (rows : Mappings)
      → distinct rows ≡ true
      → distinct (sync_keys content term keys rows) ≡ true
  unfolding sync_keys
  distinct-sync_keys term [] rows d = d
  distinct-sync_keys term (key ∷ keys) rows d =
      distinct-sync_keys term keys (sync_key content term key rows)
        (distinct-sync_key term key rows d)

  has_row-sync_index :
      (t k : Text) (index : Dict (List Text)) (rows : Mappings)
      → has_row t k (sync_index content index rows)
        ≡ (has_row t k rows || (length k == 64 && is_indexed t k index))
  unfolding sync_index is_indexed
  has_row-sync_index t k [] rows = ground arith
  has_row-sync_index t k ((term, keys) ∷ index) rows = ground (
    arith,
    has_row-sync_index t k index (sync_keys content term keys rows),
    has_row-sync_keys t k term keys rows,
  )

  distinct-sync_index :
      (index : Dict (List Text)) (rows : Mappings)
      → distinct rows ≡ true
      → distinct (sync_index content index rows) ≡ true
  unfolding sync_index
  distinct-sync_index [] rows d = d
  distinct-sync_index ((term, keys) ∷ index) rows d =
      distinct-sync_index index (sync_keys content term keys rows)
        (distinct-sync_keys term keys rows d)

-- After the loops there is a row for each term and key that had one, and for each key of 64
-- characters that an index has under the term, and for no others.
pub has_row-sync_indexes :
    (t k : Text) (indexes : List (Text × Dict (List Text))) (rows : Mappings)
    → has_row t k (sync_indexes indexes rows)
      ≡ (has_row t k rows || (length k == 64 && is_listed t k indexes))
unfolding sync_indexes is_listed
has_row-sync_indexes t k [] rows = ground arith
has_row-sync_indexes t k ((content, index) ∷ indexes) rows = ground (
  arith,
  has_row-sync_indexes t k indexes (sync_index content index rows),
  has_row-sync_index content t k index rows,
)

-- The loops make no second row of a term and key.
pub distinct-sync_indexes :
    (indexes : List (Text × Dict (List Text))) (rows : Mappings)
    → distinct rows ≡ true
    → distinct (sync_indexes indexes rows) ≡ true
unfolding sync_indexes
distinct-sync_indexes [] rows d = d
distinct-sync_indexes ((content, index) ∷ indexes) rows d =
    distinct-sync_indexes indexes (sync_index content index rows)
      (distinct-sync_index content index rows d)

-- There is a row for the term and key, or the key is of another length.
abbrev pub is_done : Text → Text → Mappings → Bool
is_done term key rows = has_row term key rows || not (length key == 64)

module _ (rows : Mappings) (content : Text) where
  absorbed_keys :
      (term : Text) (keys : List Text)
      → ((k : Text) → is_in k keys ≡ true → is_done term k rows ≡ true)
      → sync_keys content term keys rows ≡ rows
  unfolding sync_keys sync_key is_in
  absorbed_keys term [] h = refl
  absorbed_keys term (key ∷ keys) h =
      let first = h key (ground (arith, text_eq_refl key)) in
      let rest = absorbed_keys term keys (λ k i. h k (ground arith)) in
      let same : sync_key content term key rows ≡ rows = ground arith in rw same rest

  absorbed_index :
      (index : Dict (List Text))
      → ((t k : Text) → is_indexed t k index ≡ true → is_done t k rows ≡ true)
      → sync_index content index rows ≡ rows
  unfolding sync_index is_indexed
  absorbed_index [] h = refl
  absorbed_index ((term, keys) ∷ index) h =
      let first = absorbed_keys term keys (λ k i. h term k (ground (arith, text_eq_refl term))) in
      let rest = absorbed_index index (λ t k i. h t k (ground arith)) in rw first rest

-- Indexes of which every row is there add none.
absorbed :
    (rows : Mappings) (indexes : List (Text × Dict (List Text)))
    → ((t k : Text) → is_listed t k indexes ≡ true → is_done t k rows ≡ true)
    → sync_indexes indexes rows ≡ rows
unfolding sync_indexes is_listed
absorbed rows [] h = refl
absorbed rows ((content, index) ∷ indexes) h =
    let first = absorbed_index rows content index (λ t k i. h t k (ground arith)) in
    let rest = absorbed rows indexes (λ t k i. h t k (ground arith)) in rw first rest

-- The same indexes, copied again, add nothing.
pub sync_indexes_idem :
    (indexes : List (Text × Dict (List Text))) (rows : Mappings)
    → sync_indexes indexes (sync_indexes indexes rows) ≡ sync_indexes indexes rows
sync_indexes_idem indexes rows =
    absorbed (sync_indexes indexes rows) indexes
      (λ t k i. ground (arith, has_row-sync_indexes t k indexes rows))
