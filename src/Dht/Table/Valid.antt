-- ===== src/Dht/Table/Valid.antt =====
-- The invariant of the routing table of routing_table.cpp: 256 buckets, at most 20 nodes in each,
-- every node in the bucket that its identifier's distance names, identifiers distinct.
use testshop.Prelude.{
  ℕ, ◌≤◌, ◌<◌, ◌≡◌, ◌≢◌, subst, sym, ◌∙◌, inl, inr, arith, ok, ◌==◌, Bool-cases, length, get_or,
  set, All, length-set, length-replicate, get_or-set_self, get_or-set_ne, get_or-replicate,
}
use testshop.Dht.Id.{XorId, IsXorId, hex_string_to_node_id, xor_distance_bit_index}
use testshop.Dht.Table.{
  Contact, Bucket, Table, empty_bucket, bucket_at, bucket_count, nodes_per_bucket, new_table,
}
use testshop.Dht.Table.Contacts.{DistinctIds}

-- The node's identifier is read, and lies at distance `i` from the table's own.
abbrev pub Placed : (ℕ → ℕ) → XorId → ℕ → Contact → Type 0
Placed memory own i c =
    (x : XorId) × (hex_string_to_node_id memory c.id ≡ ok x) × (xor_distance_bit_index own x ≡ i)

pub record IsBucket (memory : ℕ → ℕ) (own : XorId) (i : ℕ) (b : Bucket) : Type 0 where
  pub room : length b.nodes ≤ nodes_per_bucket
  pub placed : All (Placed memory own i) b.nodes
  pub distinct : DistinctIds b.nodes

pub record IsTable (memory : ℕ → ℕ) (t : Table) : Type 0 where
  pub own : IsXorId t.id
  pub size : length t.buckets ≡ bucket_count
  pub each : (i : ℕ) → IsBucket memory t.id i (bucket_at t i)

module _ (memory : ℕ → ℕ) where
  IsBucket-empty : (own : XorId) (i : ℕ) → IsBucket memory own i empty_bucket
  IsBucket-empty own i = record { room = omega arith; placed = tt; distinct = tt }

  pub IsTable-new_table : (id : XorId) → IsXorId id → IsTable memory (new_table id)
  unfolding new_table
  IsTable-new_table id v = record {
    own = v;
    size = length-replicate bucket_count empty_bucket;
    each = λ i.
        subst (IsBucket memory id i) (sym (get_or-replicate bucket_count i empty_bucket))
          (IsBucket-empty id i);
  }

  -- Putting a good bucket in place of another keeps the table good.
  pub IsTable-set :
      (t : Table) (i : ℕ) (b : Bucket)
      → IsTable memory t
      → i < bucket_count
      → IsBucket memory t.id i b
      → IsTable memory (record t { buckets = set t.buckets i b })
  IsTable-set t i b v h g = record {
    own = v.own;
    size = length-set t.buckets i b ∙ v.size;
    each = λ j. elim (Bool-cases (i == j)) [
      | inl same ↦
          let e : i ≡ j = ground arith in
          subst (λ (k : ℕ). IsBucket memory t.id k (get_or (set t.buckets i b) k empty_bucket)) e
            (subst (IsBucket memory t.id i)
              (sym (get_or-set_self t.buckets i b empty_bucket (omega (arith, v.size)))) g)
      | inr other ↦
          let n : i ≢ j = ground arith in
          subst (IsBucket memory t.id j) (sym (get_or-set_ne t.buckets i j b empty_bucket n))
            (v.each j)
    ];
  }
