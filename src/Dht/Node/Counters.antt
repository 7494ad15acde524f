-- ===== src/Dht/Node/Counters.antt =====
-- src/core/protocol/p2p/node.cpp: a failed request raises the counter of a node, and leaves the table well
-- formed.
use testshop.Prelude.{
  ℕ, zero, suc, ◌≡◌, ◌≢◌, refl, sym, subst, ◌∙◌, inl, inr, List, [], ◌∷◌, arith, Text, text_eq, ok,
  Bool-cases, length, get_or, All,
}
use testshop.Dht.Id.{XorId, hex_string_to_node_id, xor_distance_bit_index}
use testshop.Dht.Table.{Contact, Bucket, Table, empty_bucket, bucket_at}
use testshop.Dht.Table.Contacts.{DistinctIds}
use testshop.Dht.Table.Valid.{IsBucket, IsTable}
use testshop.Dht.Node.{raise_nodes, raise_buckets, raise_counters}

module _ (id : Text) where
  length-raise_nodes : (cs : List Contact) → length (raise_nodes id cs) ≡ length cs
  unfolding raise_nodes
  length-raise_nodes [] = refl
  length-raise_nodes (c ∷ cs) = ground (arith, length-raise_nodes cs)

  -- A property of a node that does not read its counter.
  All-raise_nodes {κ} :
      (P : Text → Type κ) (cs : List Contact)
      → All (λ (c : Contact). P c.id) cs
      → All (λ (c : Contact). P c.id) (raise_nodes id cs)
  unfolding raise_nodes
  All-raise_nodes P [] h = tt
  All-raise_nodes P (c ∷ cs) h = elim (Bool-cases (text_eq c.id id)) [
    | inl hit ↦ rw (raise_nodes, hit) (h.0, All-raise_nodes P cs h.1)
    | inr miss ↦ rw (raise_nodes, miss) (h.0, All-raise_nodes P cs h.1)
  ]

  DistinctIds-raise_nodes : (cs : List Contact) → DistinctIds cs → DistinctIds (raise_nodes id cs)
  unfolding raise_nodes
  DistinctIds-raise_nodes [] d = tt
  DistinctIds-raise_nodes (c ∷ cs) d = elim (Bool-cases (text_eq c.id id)) [
    | inl hit ↦
        rw (raise_nodes, hit)
          (All-raise_nodes (λ i. i ≢ c.id) cs d.0, DistinctIds-raise_nodes cs d.1)
    | inr miss ↦
        rw (raise_nodes, miss)
          (All-raise_nodes (λ i. i ≢ c.id) cs d.0, DistinctIds-raise_nodes cs d.1)
  ]

  length-raise_buckets : (bs : List Bucket) → length (raise_buckets id bs) ≡ length bs
  unfolding raise_buckets
  length-raise_buckets [] = refl
  length-raise_buckets (b ∷ bs) = omega (arith, length-raise_buckets bs)

  raised_bucket : Bucket → Bucket
  raised_bucket b = record { nodes = raise_nodes id b.nodes; last_changed = b.last_changed }

  get_or-raise_buckets :
      (bs : List Bucket) (i : ℕ)
      → get_or (raise_buckets id bs) i empty_bucket ≡ raised_bucket (get_or bs i empty_bucket)
  unfolding raise_buckets raised_bucket raise_nodes
  get_or-raise_buckets [] i = refl
  get_or-raise_buckets (b ∷ bs) zero = refl
  get_or-raise_buckets (b ∷ bs) (suc i) = get_or-raise_buckets bs i

  raised_bucket-IsBucket :
      (memory : ℕ → ℕ) (own : XorId) (i : ℕ) (b : Bucket)
      → IsBucket memory own i b
      → IsBucket memory own i (raised_bucket b)
  unfolding raised_bucket
  raised_bucket-IsBucket memory own i b v = record {
    room = omega (arith, v.room, length-raise_nodes b.nodes);
    placed =
        All-raise_nodes
          (λ x.
            (y : XorId) × (hex_string_to_node_id memory x ≡ ok y)
            × (xor_distance_bit_index own y ≡ i))
          b.nodes v.placed;
    distinct = DistinctIds-raise_nodes b.nodes v.distinct;
  }

-- A table stays well formed when the counters of some nodes rise.
pub raise_counters-IsTable :
    (memory : ℕ → ℕ) (cs : List Contact) (t : Table)
    → IsTable memory t
    → IsTable memory (raise_counters cs t) × ((raise_counters cs t).id ≡ t.id)
unfolding raise_counters
raise_counters-IsTable memory [] t v = (v, refl)
raise_counters-IsTable memory (c ∷ cs) t v =
    raise_counters-IsTable memory cs (record { id = t.id; buckets = raise_buckets c.id t.buckets })
      (record {
        own = v.own;
        size = length-raise_buckets c.id t.buckets ∙ v.size;
        each = λ i.
            subst (IsBucket memory t.id i) (sym (get_or-raise_buckets c.id t.buckets i))
              (raised_bucket-IsBucket c.id memory t.id i (bucket_at t i) (v.each i));
      })
