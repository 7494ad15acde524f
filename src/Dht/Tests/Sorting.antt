-- ===== src/Dht/Tests/Sorting.antt =====
-- Insertion sort: one function that keeps the promise of `std::sort`.
use mathlib.Core.List.{Perm}
use mathlib.Core.List.Perm
use testshop.Prelude.{
  ℕ, ◌≤◌, Bool-cases, inl, inr, List, [], ◌∷◌, arith, leb, if◌then◌else◌, All, All-imp,
}
use testshop.Dht.Table.Closest.{ScoredNode, IsSorted, Sorting}

unfoldable pub insert_node : ScoredNode → List ScoredNode → List ScoredNode
insert_node s [] = s ∷ []
insert_node s (r ∷ rs) =
    let rest = r ∷ insert_node s rs in if leb s.distance r.distance then s ∷ r ∷ rs else rest

unfoldable pub insertion_sort : List ScoredNode → List ScoredNode
insertion_sort [] = []
insertion_sort (s ∷ ss) = insert_node s (insertion_sort ss)

abbrev AtLeast : ℕ → List ScoredNode → Type 0
AtLeast n ss = All (λ (r : ScoredNode). n ≤ r.distance) ss

AtLeast-insert_node :
    (n : ℕ) (s : ScoredNode) (ss : List ScoredNode)
    → n ≤ s.distance
    → AtLeast n ss
    → AtLeast n (insert_node s ss)
unfolding insert_node
AtLeast-insert_node n s [] h v = (h, tt)
AtLeast-insert_node n s (r ∷ rs) h v = elim (Bool-cases (leb s.distance r.distance)) [
  | inl le ↦ rw le (h, v)
  | inr gt ↦ rw gt (v.0, AtLeast-insert_node n s rs h v.1)
]

IsSorted-insert_node :
    (s : ScoredNode) (ss : List ScoredNode) → IsSorted ss → IsSorted (insert_node s ss)
unfolding insert_node
IsSorted-insert_node s [] v = (tt, tt)
IsSorted-insert_node s (r ∷ rs) v = elim (Bool-cases (leb s.distance r.distance)) [
  | inl le ↦ rw le (
    (
      ground arith,
      All-imp (λ (q : ScoredNode). r.distance ≤ q.distance) (λ q. s.distance ≤ q.distance)
          (λ q h. ground arith) rs v.0,
    ),
    v,
  )
  | inr gt ↦
      rw gt (AtLeast-insert_node r.distance s rs (ground arith) v.0, IsSorted-insert_node s rs v.1)
]

pub IsSorted-insertion_sort : (ss : List ScoredNode) → IsSorted (insertion_sort ss)
unfolding insertion_sort
IsSorted-insertion_sort [] = tt
IsSorted-insertion_sort (s ∷ ss) =
    IsSorted-insert_node s (insertion_sort ss) (IsSorted-insertion_sort ss)

insert_node-perm : (s : ScoredNode) (ss : List ScoredNode) → Perm (insert_node s ss) (s ∷ ss)
unfolding insert_node
insert_node-perm s [] = Perm.refl _
insert_node-perm s (r ∷ rs) = elim (Bool-cases (leb s.distance r.distance)) [
  | inl le ↦ rw le (Perm.refl _)
  | inr gt ↦ rw gt (Perm.trans (Perm.cons r (insert_node-perm s rs)) (Perm.swap s r rs))
]

pub insertion_sort-perm : (ss : List ScoredNode) → Perm (insertion_sort ss) ss
unfolding insertion_sort
insertion_sort-perm [] = Perm.refl _
insertion_sort-perm (s ∷ ss) =
    Perm.trans (insert_node-perm s (insertion_sort ss)) (Perm.cons s (insertion_sort-perm ss))

abbrev pub sorting : Sorting
sorting = record {
  sort = insertion_sort;
  sort-perm = insertion_sort-perm;
  sort-IsSorted = IsSorted-insertion_sort;
}
