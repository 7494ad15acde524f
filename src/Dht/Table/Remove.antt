-- ===== src/Dht/Table/Remove.antt =====
-- `remove_node` of routing_table.cpp, by identifier and by address.
use testshop.Prelude.{
  ℕ, zero, suc, ◌+◌, ◌<◌, ◌≡◌, ◌≢◌, refl, sym, ap, ◌∙◌, inl, inr, Bool, true, false, List, [], ◌∷◌,
  arith, Text, ok, if◌then◌else◌, Bool-cases, length, get_or, get_or-set_self, get_or-set_ne,
}
use testshop.Dht.Id.{XorId, IsXorId, hex_string_to_node_id, xor_distance_bit_index}
use testshop.Dht.Id.Metric.{xor_distance_bit_index_bound}
use testshop.Dht.Table.{
  Bucket, Table, empty_bucket, bucket_at, bucket_count, has_id, has_address, erase_id,
  erase_address, remove_at, remove_node, has_node, erase_from, remove_node_at, any_address,
  has_node_at, get_node_count,
}
use testshop.Dht.Table.Contacts.{
  has_id-erase_id, length-erase_id, All-erase_id, DistinctIds-erase_id, All-erase_address,
  DistinctIds-erase_address, length-erase_address,
}
use testshop.Dht.Table.Valid.{Placed, IsBucket, IsTable, IsTable-set}
use testshop.Dht.Table.Lookup.{has_node-eq, remove_node-eq}
use testshop.Dht.Table.Count.{count_nodes-set}

-- The bucket after `erase` of a node that it has.
abbrev erased : ℕ → Table → Text → ℕ → Bucket
erased now t hex i = record { nodes = erase_id hex (bucket_at t i).nodes; last_changed = now }

module _ (memory : ℕ → ℕ) (now : ℕ) (t : Table) (hex : Text) (i : ℕ) (v : IsTable memory t)
    (h : i < bucket_count) where
  pub remove_at-IsTable : IsTable memory (remove_at memory now t hex i).0
  unfolding remove_at
  remove_at-IsTable = elim (Bool-cases (has_id hex (bucket_at t i).nodes)) [
    | inl here ↦ rw here (IsTable-set memory t i (erased now t hex i) v h good)
    | inr gone ↦ rw gone v
  ]
    where
      good : IsBucket memory t.id i (erased now t hex i)
      good =
          let b = v.each i in
          record {
            room = ground (arith, length-erase_id hex (bucket_at t i).nodes);
            placed = All-erase_id hex (Placed memory t.id i) (bucket_at t i).nodes b.placed;
            distinct = DistinctIds-erase_id hex (bucket_at t i).nodes b.distinct;
          }

  -- The node is gone from its bucket, and the count falls by one if it was there.
  pub remove_at-bucket :
      (has_id hex (bucket_at (remove_at memory now t hex i).0 i).nodes ≡ false)
      × (get_node_count t
          ≡ get_node_count (remove_at memory now t hex i).0
            + (if (remove_at memory now t hex i).1 then 1 else 0))
      × ((remove_at memory now t hex i).1 ≡ has_id hex (bucket_at t i).nodes)
  unfolding remove_at get_node_count
  remove_at-bucket = elim (Bool-cases (has_id hex (bucket_at t i).nodes)) [
    | inl here ↦
        let at =
          get_or-set_self t.buckets i (erased now t hex i) empty_bucket (omega (arith, v.size)) in
        let less = length-erase_id hex (bucket_at t i).nodes in
        let total = count_nodes-set t.buckets i (erased now t hex i) (omega (arith, v.size)) in
        rw here (
          rw at (has_id-erase_id hex (bucket_at t i).nodes (v.each i).distinct),
          ground arith,
          refl,
        )
    | inr gone ↦ rw gone (gone, omega arith, refl)
  ]

-- The buckets, where the one of the node has it.
pub bucket_at-remove_at :
    (memory : ℕ → ℕ) (now : ℕ) (t : Table) (hex : Text) (i : ℕ)
    → i < length t.buckets
    → has_id hex (bucket_at t i).nodes ≡ true
    → ((bucket_at (remove_at memory now t hex i).0 i).nodes ≡ erase_id hex (bucket_at t i).nodes)
      × ((j : ℕ) → i ≢ j → bucket_at (remove_at memory now t hex i).0 j ≡ bucket_at t j)
unfolding remove_at
bucket_at-remove_at memory now t hex i h here = rw here (
  ap (λ (b : Bucket). b.nodes) (get_or-set_self t.buckets i (erased now t hex i) empty_bucket h),
  λ j other. get_or-set_ne t.buckets i j (erased now t hex i) empty_bucket other,
)

pub id-remove_at :
    (memory : ℕ → ℕ) (now : ℕ) (t : Table) (hex : Text) (i : ℕ)
    → (remove_at memory now t hex i).0.id ≡ t.id
unfolding remove_at
id-remove_at memory now t hex i = ground arith

-- For any identifier but the table's own, `remove_node` answers whether the table had the node,
-- keeps the table well formed, lowers the count by one if it did, and leaves no such node.
pub remove_node_lem :
    (memory : ℕ → ℕ) (now : ℕ) (t : Table) (hex : Text) (x : XorId)
    → IsTable memory t
    → hex_string_to_node_id memory hex ≡ ok x
    → IsXorId x
    → x ≢ t.id
    → (t' : Table) × (removed : Bool) × (remove_node memory now t hex ≡ ok (t', removed))
      × IsTable memory t'
      × (has_node memory t hex ≡ ok removed)
      × (has_node memory t' hex ≡ ok false)
      × (get_node_count t ≡ get_node_count t' + (if removed then 1 else 0))
remove_node_lem memory now t hex x v read vx other =
    let (gone, total, answer) = remove_at-bucket memory now t hex i v h in
    (
      t',
      (remove_at memory now t hex i).1,
      remove_node-eq memory t hex x i read refl now h,
      remove_at-IsTable memory now t hex i v h,
      has_node-eq memory t hex x i read refl h ∙ ap ok (sym answer),
      has_node-eq memory t' hex x i read
            (ap (λ (o : XorId). xor_distance_bit_index o x) (id-remove_at memory now t hex i)) h
          ∙ ap ok gone,
      total,
    )
  where
    i : ℕ
    i = xor_distance_bit_index t.id x

    t' : Table
    t' = (remove_at memory now t hex i).0

    h : i < 256
    h =
        let (le, same) = xor_distance_bit_index_bound t.id x v.own vx in
        let n : i ≢ 256 = λ e. other (sym (same.0 e)) in omega arith

erase_from-length :
    (now : ℕ) (address : Text) (bs : List Bucket) → length (erase_from now address bs).0 ≡ length bs
unfolding erase_from
erase_from-length now address [] = refl
erase_from-length now address (b ∷ bs) = ground (arith, erase_from-length now address bs)

erase_from-IsBucket :
    (memory : ℕ → ℕ) (own : XorId) (now : ℕ) (address : Text) (k : ℕ → ℕ) (bs : List Bucket)
    → ((i : ℕ) → IsBucket memory own (k i) (get_or bs i empty_bucket))
    → (i : ℕ) → IsBucket memory own (k i) (get_or (erase_from now address bs).0 i empty_bucket)
unfolding erase_from
erase_from-IsBucket memory own now address k [] h i = h i
erase_from-IsBucket memory own now address k (b ∷ bs) h i =
    elim (Bool-cases (has_address address b.nodes)) [
      | inl here ↦ rw here (first i)
      | inr gone ↦ rw gone (
          later (erase_from-IsBucket memory own now address (λ j. k (suc j)) bs (λ j. h (suc j))) i)
    ]
  where
    first :
        (i : ℕ)
        → IsBucket memory own (k i) (
            get_or
              (record { nodes = erase_address address b.nodes; last_changed = now } ∷ bs)
              i
              empty_bucket)
    first zero = record {
      room = omega (arith, length-erase_address address b.nodes, (h 0).room);
      placed = All-erase_address address (Placed memory own (k 0)) b.nodes (h 0).placed;
      distinct = DistinctIds-erase_address address b.nodes (h 0).distinct;
    }
    first (suc i) = h (suc i)

    later :
        ((j : ℕ)
          → IsBucket memory own (k (suc j)) (get_or (erase_from now address bs).0 j empty_bucket))
        → (j : ℕ)
        → IsBucket memory own (k j) (get_or (b ∷ (erase_from now address bs).0) j empty_bucket)
    later rest zero = h 0
    later rest (suc j) = rest j

erase_from-answer :
    (now : ℕ) (address : Text) (bs : List Bucket)
    → (erase_from now address bs).1 ≡ any_address address bs
unfolding erase_from any_address
erase_from-answer now address [] = refl
erase_from-answer now address (b ∷ bs) = ground (arith, erase_from-answer now address bs)

-- Removing by address answers whether some node has the address, whatever port is given, and
-- keeps the table well formed.
pub remove_node_at_lem :
    (memory : ℕ → ℕ) (now : ℕ) (t : Table) (address : Text) (port port' : ℕ)
    → IsTable memory t
    → IsTable memory (remove_node_at now t address port).0
      × ((remove_node_at now t address port).1 ≡ has_node_at t address port')
unfolding remove_node_at has_node_at
remove_node_at_lem memory now t address port port' v = (
  record {
    own = v.own;
    size = erase_from-length now address t.buckets ∙ v.size;
    each = erase_from-IsBucket memory t.id now address (λ i. i) t.buckets v.each;
  },
  erase_from-answer now address t.buckets,
)
