-- ===== src/Dht/Table/Lookup.antt =====
-- `has_node` and `get_node` of routing_table.cpp: they read one bucket, and in a well-formed table
-- miss no node of the others.
use testshop.Prelude.{
  ℕ, zero, suc, ◌<◌, ◌≡◌, ◌≢◌, refl, sym, ap, ◌∙◌, inl, inr, false, Option, none, some, List, [],
  ◌∷◌, arith, Text, text_eq, text_eq_iff, ok, faults, is_some, Bool-cases, get_or, All,
}
use testshop.Dht.Id.{XorId, IsXorId, hex_string_to_node_id, xor_distance_bit_index}
use testshop.Dht.Id.Metric.{xor_distance_bit_index_bound}
use testshop.Dht.Table.{
  Contact, Bucket, Table, empty_bucket, bucket_at, bucket_count, has_id, find_id, bucket_index_of,
  remove_at, remove_identified, remove_node, has_node, get_node, all_nodes, get_nodes,
}
use testshop.Dht.Table.Contacts.{has_id-append, find_id-has_id}
use testshop.Dht.Table.Valid.{Placed, IsTable}

module _ (memory : ℕ → ℕ) (t : Table) (hex : Text) (node_id : XorId) (i : ℕ)
    (read : hex_string_to_node_id memory hex ≡ ok node_id)
    (place : xor_distance_bit_index t.id node_id ≡ i) where
  pub has_node-eq : i < bucket_count → has_node memory t hex ≡ ok (has_id hex (bucket_at t i).nodes)
  unfolding has_node bucket_index_of
  has_node-eq h = rw (read, place) (ground arith)

  pub get_node-eq :
      i < bucket_count → get_node memory t hex ≡ ok (find_id hex (bucket_at t i).nodes)
  unfolding get_node bucket_index_of
  get_node-eq h = rw (read, place) (ground arith)

  pub remove_node-eq :
      (now : ℕ)
      → i < bucket_count
      → remove_node memory now t hex ≡ ok (remove_at memory now t hex i)
  unfolding remove_node remove_identified bucket_index_of
  remove_node-eq now h = rw (read, place) (ground arith)

-- Asked for the identifier that the table is of, `has_node`, `get_node` and `remove_node` read
-- past the end of the buckets: the distance is 256, and none of the three tests it.
pub own_id_faults :
    (memory : ℕ → ℕ) (now : ℕ) (t : Table) (hex : Text)
    → IsXorId t.id
    → hex_string_to_node_id memory hex ≡ ok t.id
    → (has_node memory t hex ≡ faults)
      × (get_node memory t hex ≡ faults)
      × (remove_node memory now t hex ≡ faults)
unfolding has_node get_node remove_node remove_identified bucket_index_of
own_id_faults memory now t hex v read =
    let e : xor_distance_bit_index t.id t.id ≡ 256 =
      (xor_distance_bit_index_bound t.id t.id v v).1.1 refl in
    (rw (read, e) refl, rw (read, e) refl, rw (read, remove_identified, e) refl)

-- A node whose identifier reads as `x` can only be in bucket number `distance own x`.
not-Placed :
    (memory : ℕ → ℕ) (own x : XorId) (hex : Text) (i : ℕ) (cs : List Contact)
    → hex_string_to_node_id memory hex ≡ ok x
    → xor_distance_bit_index own x ≢ i
    → All (Placed memory own i) cs
    → has_id hex cs ≡ false
unfolding has_id
not-Placed memory own x hex i [] read other p = refl
not-Placed memory own x hex i (c ∷ cs) read other p = elim (Bool-cases (text_eq c.id hex)) [
  | inl hit ↦ absurd (other (clash ((text_eq_iff c.id hex).0 hit) p.0))
  | inr miss ↦ rw miss (not-Placed memory own x hex i cs read other p.1)
]
  where
    clash : c.id ≡ hex → Placed memory own i c → xor_distance_bit_index own x ≡ i
    clash e (y, ey, d) = cc

all_nodes-none :
    (hex : Text) (bs : List Bucket)
    → ((j : ℕ) → has_id hex (get_or bs j empty_bucket).nodes ≡ false)
    → has_id hex (all_nodes bs) ≡ false
unfolding all_nodes has_id
all_nodes-none hex [] h = refl
all_nodes-none hex (b ∷ bs) h =
    ground
      (arith, has_id-append hex b.nodes (all_nodes bs), h 0, all_nodes-none hex bs (λ j. h (suc j)))

all_nodes-bucket :
    (hex : Text) (i : ℕ) (bs : List Bucket)
    → ((j : ℕ) → j ≢ i → has_id hex (get_or bs j empty_bucket).nodes ≡ false)
    → has_id hex (all_nodes bs) ≡ has_id hex (get_or bs i empty_bucket).nodes
unfolding all_nodes has_id
all_nodes-bucket hex i [] h = refl
all_nodes-bucket hex zero (b ∷ bs) h = ground (
  arith,
  has_id-append hex b.nodes (all_nodes bs),
  all_nodes-none hex bs (λ j. h (suc j) (omega arith)),
)
all_nodes-bucket hex (suc i) (b ∷ bs) h = ground (
  arith,
  has_id-append hex b.nodes (all_nodes bs),
  h 0,
  all_nodes-bucket hex i bs (λ j n. h (suc j) (omega arith)),
)

-- The node, if any, has the identifier.
abbrev pub IsNodeOf : Text → Option Contact → Type 0
IsNodeOf hex none = Unit
IsNodeOf hex (some c) = c.id ≡ hex

find_id-IsNodeOf : (hex : Text) (cs : List Contact) → IsNodeOf hex (find_id hex cs)
unfolding find_id
find_id-IsNodeOf hex [] = tt
find_id-IsNodeOf hex (c ∷ cs) = elim (Bool-cases (text_eq c.id hex)) [
  | inl same ↦ rw same ((text_eq_iff c.id hex).0 same)
  | inr other ↦ rw other (find_id-IsNodeOf hex cs)
]

-- In a well-formed table, for any identifier but the table's own, the one bucket that `has_node`
-- and `get_node` search tells whether any node of the table has the identifier; and the node
-- that `get_node` returns has it.
pub has_node-get_nodes :
    (memory : ℕ → ℕ) (t : Table) (hex : Text) (x : XorId)
    → IsTable memory t
    → hex_string_to_node_id memory hex ≡ ok x
    → IsXorId x
    → x ≢ t.id
    → (found : Option Contact) × (get_node memory t hex ≡ ok found)
      × (has_node memory t hex ≡ ok (is_some found))
      × (is_some found ≡ has_id hex (get_nodes t))
      × IsNodeOf hex found
unfolding get_nodes
has_node-get_nodes memory t hex x v read vx other = (
  find_id hex (bucket_at t i).nodes,
  get_node-eq memory t hex x i read refl h,
  has_node-eq memory t hex x i read refl h ∙ ap ok (sym (find_id-has_id hex (bucket_at t i).nodes)),
  find_id-has_id hex (bucket_at t i).nodes
      ∙ sym (
          all_nodes-bucket hex i t.buckets
            λ j n. not-Placed memory t.id x hex j _ read (λ e. n (sym e)) (v.each j).placed),
  find_id-IsNodeOf hex (bucket_at t i).nodes,
)
  where
    i : ℕ
    i = xor_distance_bit_index t.id x

    h : i < 256
    h =
        let (le, same) = xor_distance_bit_index_bound t.id x v.own vx in
        let n : i ≢ 256 = λ e. other (sym (same.0 e)) in omega arith
