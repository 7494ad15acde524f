-- ===== src/Dht/Store/Put/Lookups.antt =====
-- `get`, `remove`, `remove_all` and `cache` of src/core/protocol/p2p/node.cpp, together.
use testshop.Prelude.{
  ◌≡◌, refl, true, [], Text, text_eq, text_eq_refl, lookup, lookup-insert, lookup-erase,
  if◌then◌else◌, arith,
}
use testshop.Dht.Store.{Store}
use testshop.Dht.Store.Put.{write, get, remove, remove_all, cache}

-- `get` after each of the operations: a value that is written is read back, a key that is removed
-- is empty, other keys read as before, and after `remove_all` every key is empty; `remove` and
-- `remove_all` answer true, and `cache` changes no entry of the hash table in memory.
pub get_lem :
    (key j value : Text) (s : Store)
    → (get j (write key value s).1 ≡ (if text_eq key j then value else get j s))
      × (get j (remove key s).1 ≡ (if text_eq key j then [] else get j s))
      × ((remove key s).0 ≡ true)
      × (get j (remove_all s).1 ≡ [])
      × ((remove_all s).0 ≡ true)
      × (get j (cache key value s) ≡ get j s)
unfolding get write remove remove_all cache lookup
get_lem key j value s =
    let put' = lookup-insert key j value s.stored in
    let gone = lookup-erase key j s.stored in
    let gone_self = lookup-erase key key s.stored in
    let self = text_eq_refl key in (ground arith, ground arith, ground arith, refl, refl, refl)
