-- ===== src/Dht/Table/Closest.antt =====
-- `find_closest_nodes` of routing_table.cpp. `std::sort` promises an ordered permutation and no
-- more: nodes at one distance may come in any order.
use mathlib.Core.List.{Perm, Mem, mem-cons_self, mem-cons_of_mem}
use testshop.Prelude.{
  ℕ, zero, suc, ◌≤◌, min, ◌≡◌, ◌≢◌, refl, sym, ap, subst, ◌∙◌, ◌⊎◌, inl, inr, List, [], ◌∷◌, ◌++◌,
  map, arith, Text, Outcome, ok, ◌>>=◌, ◌==◌, if◌then◌else◌, Bool-cases, length, get_or, take, drop,
  length-take, perm-length, take-append-drop, All, All-append, All-imp, All-take,
}
use testshop.Dht.Id.{XorId, hex_string_to_node_id, xor_distance_bit_index}
use testshop.Dht.Table.{Contact, Bucket, Table, empty_bucket, all_nodes, get_nodes}
use testshop.Dht.Table.Valid.{Placed, IsTable}

pub record ScoredNode : Type 0 where
  pub node : Contact
  pub distance : ℕ

-- Ordered by distance.
abbrev pub IsSorted : List ScoredNode → Type 0
IsSorted [] = Unit {0}
IsSorted (s ∷ ss) = All (λ (r : ScoredNode). s.distance ≤ r.distance) ss × IsSorted ss

-- `std::sort` by `operator<` of `ScoredNode`.
pub record Sorting : Type 0 where
  pub sort : List ScoredNode → List ScoredNode
  pub sort-perm : (ss : List ScoredNode) → Perm (sort ss) ss
  pub sort-IsSorted : (ss : List ScoredNode) → IsSorted (sort ss)

-- The nodes with their distance to the target; one at distance 256 is left out.
unfoldable pub score : (ℕ → ℕ) → XorId → List Contact → Outcome (List ScoredNode)
score memory target_id [] = ok []
score memory target_id (c ∷ cs) =
    let rest = score memory target_id cs in
    (do
      node_id ← hex_string_to_node_id memory c.id
      scored ← rest
      let dist = xor_distance_bit_index target_id node_id
      ok (if dist == 256 then scored else record { node = c; distance = dist } ∷ scored))

unfoldable pub find_closest_nodes : (ℕ → ℕ) → Sorting → Table → Text → ℕ → Outcome (List Contact)
unfolding score
find_closest_nodes memory std t key count = do
  target_id ← hex_string_to_node_id memory key
  scored_nodes ← score memory target_id (get_nodes t)
  ok (map (λ s. s.node) (take count (std.sort scored_nodes)))

-- The node's identifier reads, and lies at that distance from the target, which is not 256.
abbrev pub IsScored : (ℕ → ℕ) → XorId → ScoredNode → Type 0
IsScored memory target_id s =
    (x : XorId) × (hex_string_to_node_id memory s.node.id ≡ ok x)
    × (xor_distance_bit_index target_id x ≡ s.distance)
    × (s.distance ≢ 256)

-- The node is at distance 256 from the target, or among the scored ones.
abbrev pub IsCovered : (ℕ → ℕ) → XorId → List ScoredNode → Contact → Type 0
IsCovered memory target_id ss c =
    (x : XorId) × (hex_string_to_node_id memory c.id ≡ ok x)
    × ((xor_distance_bit_index target_id x ≡ 256)
        ⊎ Mem (record { node = c; distance = xor_distance_bit_index target_id x }) ss)

IsCovered-cons :
    (memory : ℕ → ℕ) (target_id : XorId) (s : ScoredNode) (ss : List ScoredNode) (c : Contact)
    → IsCovered memory target_id ss c
    → IsCovered memory target_id (s ∷ ss) c
IsCovered-cons memory target_id s ss c (x, read, inl far) = (x, read, inl far)
IsCovered-cons memory target_id s ss c (x, read, inr m) = (x, read, inr (mem-cons_of_mem s m))

abbrev Reads : (ℕ → ℕ) → Contact → Type 0
Reads memory c = (x : XorId) × (hex_string_to_node_id memory c.id ≡ ok x)

score-IsScored :
    (memory : ℕ → ℕ) (target_id : XorId) (cs : List Contact)
    → All (Reads memory) cs
    → (ss : List ScoredNode) × (score memory target_id cs ≡ ok ss)
      × All (IsScored memory target_id) ss
      × All (IsCovered memory target_id ss) cs
unfolding score
score-IsScored memory target_id [] h = ([], refl, tt, tt)
score-IsScored memory target_id (c ∷ cs) ((x, read), h) =
    let (ss, e, g, c') = score-IsScored memory target_id cs h in
    elim (Bool-cases (xor_distance_bit_index target_id x == 256)) [
      | inl own ↦ (ss, rw (read, e, own) refl, g, ((x, read, inl (ground arith)), c'))
      | inr other ↦
          let s : ScoredNode = record { node = c; distance = xor_distance_bit_index target_id x } in
          (
            s ∷ ss,
            rw (read, e, other) refl,
            ((x, read, refl, ground arith), g),
            (
              (x, read, inr mem-cons_self),
              All-imp (IsCovered memory target_id ss) (IsCovered memory target_id (s ∷ ss))
                  (IsCovered-cons memory target_id s ss) cs c',
            ),
          )
    ]

all_nodes-Reads :
    (memory : ℕ → ℕ) (own : XorId) (k : ℕ → ℕ) (bs : List Bucket)
    → ((i : ℕ) → All (Placed memory own (k i)) (get_or bs i empty_bucket).nodes)
    → All (Reads memory) (all_nodes bs)
unfolding all_nodes
all_nodes-Reads memory own k [] h = tt
all_nodes-Reads memory own k (b ∷ bs) h =
    All-append (Reads memory) b.nodes (all_nodes bs)
      (All-imp (Placed memory own (k 0)) (Reads memory) (λ c p. (p.0, p.1)) b.nodes (h 0))
      (all_nodes-Reads memory own (λ i. k (suc i)) bs (λ i. h (suc i)))

All-drop {κ} :
    (P : ScoredNode → Type κ) (n : ℕ) (ss : List ScoredNode) → All P ss → All P (drop n ss)
All-drop P zero ss h = h
All-drop P (suc n) [] h = h
All-drop P (suc n) (s ∷ ss) h = All-drop P n ss h.1

IsSorted-take : (n : ℕ) (ss : List ScoredNode) → IsSorted ss → IsSorted (take n ss)
IsSorted-take zero ss h = tt
IsSorted-take (suc n) [] h = tt
IsSorted-take (suc n) (s ∷ ss) h =
    (All-take (λ (r : ScoredNode). s.distance ≤ r.distance) n ss h.0, IsSorted-take n ss h.1)

take-le-drop :
    (n : ℕ) (ss : List ScoredNode)
    → IsSorted ss
    → All
        (λ (s : ScoredNode). All (λ (r : ScoredNode). s.distance ≤ r.distance) (drop n ss))
        (take n ss)
take-le-drop zero ss h = tt
take-le-drop (suc n) [] h = tt
take-le-drop (suc n) (s ∷ ss) h =
    (All-drop (λ (r : ScoredNode). s.distance ≤ r.distance) n ss h.0, take-le-drop n ss h.1)

-- In a well-formed table, for a key of which an identifier is read, `find_closest_nodes` returns
-- the nodes of `chosen`, as many as asked for or as there are: those whose `distance` is least, in its
-- order, for none has more than a node of `rest`. The `distance` of a node is
-- `xor_distance_bit_index` of the key and its identifier: of two identifiers, the number of leading
-- bits that they share. The nodes that are chosen are thus those that share the fewest leading bits
-- with the key, which are not the closest by XOR but the farthest. `chosen` and `rest` together are
-- the scored nodes, and every node of the table is scored unless it shares all 256 bits with the key.
pub find_closest_nodes_lem :
    (memory : ℕ → ℕ) (std : Sorting) (t : Table) (key : Text) (target_id : XorId) (count : ℕ)
    → IsTable memory t
    → hex_string_to_node_id memory key ≡ ok target_id
    → (scored : List ScoredNode) × (chosen : List ScoredNode) × (rest : List ScoredNode) × All
        (IsScored memory target_id)
        scored
      × All (IsCovered memory target_id scored) (get_nodes t)
      × (find_closest_nodes memory std t key count ≡ ok (map (λ s. s.node) chosen))
      × Perm (chosen ++ rest) scored
      × (length chosen ≡ min count (length scored))
      × IsSorted chosen
      × All (λ (s : ScoredNode). All (λ (r : ScoredNode). s.distance ≤ r.distance) rest) chosen
unfolding find_closest_nodes get_nodes
find_closest_nodes_lem memory std t key target_id count v read =
    let (ss, e, g, c) =
      score-IsScored memory target_id (all_nodes t.buckets)
        (all_nodes-Reads memory t.id (λ i. i) t.buckets (λ i. (v.each i).placed)) in
    let sorted = std.sort ss in
    (
      ss,
      take count sorted,
      drop count sorted,
      g,
      c,
      rw (read, e) refl,
      subst (λ (l : List ScoredNode). Perm l ss) (sym (take-append-drop count sorted))
          (std.sort-perm ss),
      length-take count sorted ∙ ap (min count) (perm-length sorted ss (std.sort-perm ss)),
      IsSorted-take count sorted (std.sort-IsSorted ss),
      take-le-drop count sorted (std.sort-IsSorted ss),
    )
