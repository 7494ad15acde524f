-- ===== src/Dht/Mappings.antt =====
-- src/core/protocol/p2p/key_mapper.cpp: the table `mappings` of the database, and the loops of `sync` that
-- copy an index to it.
pub mod Rows
use testshop.Prelude.{
  Bool, true, false, ◌&&◌, ◌||◌, not, List, [], ◌∷◌, ◌++◌, Text, text_eq, Dict, ◌==◌, length,
  if◌then◌else◌,
}

-- A row, without its key.
pub record Mapping : Type 0 where
  pub search_term : Text
  pub content : Text

-- The rows, by their keys; a key may have several.
abbrev pub Mappings : Type 0
Mappings = Dict Mapping

-- SELECT COUNT(*) FROM mappings WHERE search_term = ? AND key = ?
unfoldable pub has_row : Text → Text → Mappings → Bool
has_row search_term key [] = false
has_row search_term key ((k, row) ∷ rows) =
    (text_eq k key && text_eq row.search_term search_term) || has_row search_term key rows

-- INSERT INTO mappings (search_term, key, content), unless the key has not 64 characters or the row
-- is there.
unfoldable pub sync_key : Text → Text → Text → Mappings → Mappings
sync_key content search_term key rows =
    if length key == 64 && not (has_row search_term key rows)
    then rows ++ ((key, record { search_term = search_term; content = content }) ∷ [])
    else rows

unfoldable pub sync_keys : Text → Text → List Text → Mappings → Mappings
sync_keys content search_term [] rows = rows
sync_keys content search_term (key ∷ keys) rows =
    sync_keys content search_term keys (sync_key content search_term key rows)

unfoldable pub sync_index : Text → Dict (List Text) → Mappings → Mappings
sync_index content [] rows = rows
sync_index content ((search_term, keys) ∷ index) rows =
    sync_index content index (sync_keys content search_term keys rows)

-- One index after another, each with the kind of its values.
unfoldable pub sync_indexes : List (Text × Dict (List Text)) → Mappings → Mappings
sync_indexes [] rows = rows
sync_indexes ((content, index) ∷ indexes) rows =
    sync_indexes indexes (sync_index content index rows)
