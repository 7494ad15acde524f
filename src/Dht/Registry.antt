-- ===== src/Dht/Registry.antt =====
-- An abstract view of what a node stores (src/core/protocol/p2p/node.cpp): a registry of published values,
-- without the order of the hash table, and the moves that it may make.
pub mod Stored
pub mod Retrieved
use testshop.Prelude.{
  ◌≡◌, ◌≢◌, refl, sym, ap, ◌∙◌, ◌⊎◌, inl, inr, true, Option, none, some, Text, bytes, lookup,
  length,
}
use testshop.Dht.Platform.{Platform, string_at}
use testshop.Dht.Store.{Store, is_valid_metadata, verify}
use testshop.Dht.Store.Put.Changes.{Replaces}

abbrev pub Registry : Type 0
Registry = Text → Option Text

abbrev pub registry : Store → Registry
registry s key = lookup key s.stored

module _ (p : Platform) where
  open p use {Value, parse}

  -- A value that may be published under a key: the key has 64 bytes, the value parses, is of a
  -- known kind, and is signed by its author where its kind is signed.
  abbrev pub IsAccepted : Text → Text → Type 0
  IsAccepted key value =
      (json : Value) × (m : Text) × (length key ≡ 64)
      × (parse value ≡ some json)
      × (string_at p json (bytes "metadata") ≡ some m)
      × (is_valid_metadata m ≡ true)
      × (verify p m json ≡ true)

  -- The entries of the other keys are what they were.
  abbrev pub SameBut : Text → Registry → Registry → Type 0
  SameBut key before after = (j : Text) → j ≢ key → after j ≡ before j

  -- A registry stays as it is, loses a key, loses all, or publishes an accepted value, under a new key
  -- or in place of one that the value may replace.
  pub data Moves (before after : Registry) : Type 0 where
    stays : ((j : Text) → after j ≡ before j) → Moves before after
    drops : (key : Text) → SameBut key before after → after key ≡ none → Moves before after
    clears : ((j : Text) → after j ≡ none) → Moves before after
    publishes :
        (key value : Text)
        → IsAccepted key value
        → ((current : Text)
            → before key ≡ some current
            → current ≢ value
            → Replaces p value current)
        → SameBut key before after
        → after key ≡ some value
        → Moves before after

  -- Any number of moves.
  pub data Evolves (start : Registry) : Registry → Type 0 where
    here : Evolves start start
    next : {r s : Registry} → Evolves start r → Moves r s → Evolves start s

  pub Evolves-trans : {a b c : Registry} → Evolves a b → Evolves b c → Evolves a c
  Evolves-trans e here = e
  Evolves-trans e (next f m) = next (Evolves-trans e f) m

  -- Every entry is an accepted value.
  abbrev pub AllAccepted : Registry → Type 0
  AllAccepted r = (key value : Text) → r key ≡ some value → IsAccepted key value
