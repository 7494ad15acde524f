-- ===== src/Dht/Table/Count.antt =====
-- The counts of routing_table.cpp: what they count, their bound, and how they move.
use testshop.Prelude.{
  ℕ, zero, suc, ◌+◌, ◌*◌, ◌≤◌, ◌<◌, ◌≡◌, refl, ◌↔◌, true, List, [], ◌∷◌, arith, length,
  length-append, get_or, set,
}
use testshop.Dht.Table.{
  Bucket, Table, empty_bucket, nodes_per_bucket, all_nodes, get_nodes, count_nodes, get_node_count,
  all_full, are_buckets_full,
}
use testshop.Dht.Table.Valid.{IsTable}

count_nodes-length : (bs : List Bucket) → count_nodes bs ≡ length (all_nodes bs)
unfolding count_nodes all_nodes
count_nodes-length [] = refl
count_nodes-length (b ∷ bs) =
    omega (arith, length-append b.nodes (all_nodes bs), count_nodes-length bs)

-- Every bucket within its room: the count, and when all are full.
count_nodes_bound :
    (bs : List Bucket)
    → ((i : ℕ) → length (get_or bs i empty_bucket).nodes ≤ nodes_per_bucket)
    → (count_nodes bs ≤ length bs * nodes_per_bucket)
      × ((all_full bs ≡ true) ↔ (count_nodes bs ≡ length bs * nodes_per_bucket))
unfolding count_nodes all_full
count_nodes_bound [] h = ground arith
count_nodes_bound (b ∷ bs) h =
    let (le, full) = count_nodes_bound bs (λ i. h (suc i)) in ground (arith, h 0)

-- In a well-formed table `get_node_count` is the number of nodes that `get_nodes` lists, it is at
-- most 5120, and `are_buckets_full` holds exactly when it is 5120.
pub get_node_count_bound :
    (memory : ℕ → ℕ) (t : Table)
    → IsTable memory t
    → (get_node_count t ≡ length (get_nodes t))
      × (get_node_count t ≤ 5120)
      × ((are_buckets_full t ≡ true) ↔ (get_node_count t ≡ 5120))
unfolding get_node_count get_nodes are_buckets_full
get_node_count_bound memory t v =
    let (le, full) = count_nodes_bound t.buckets (λ i. (v.each i).room) in
    (count_nodes-length t.buckets, omega (arith, v.size), ground (arith, v.size))

pub count_nodes-set :
    (bs : List Bucket) (i : ℕ) (b : Bucket)
    → i < length bs
    → count_nodes (set bs i b) + length (get_or bs i empty_bucket).nodes
      ≡ count_nodes bs + length b.nodes
unfolding count_nodes
count_nodes-set [] i b h = absurd (omega arith)
count_nodes-set (c ∷ bs) zero b h = omega arith
count_nodes-set (c ∷ bs) (suc i) b h = omega (arith, count_nodes-set bs i b (omega arith))
