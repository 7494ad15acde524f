-- ===== src/Dht/Table/Add.antt =====
-- `add_node` of routing_table.cpp: the invariant, and what it answers on every branch.
use testshop.Prelude.{
  ℕ, ◌<◌, ◌≡◌, refl, sym, ap, subst, ◌∙◌, inl, inr, Bool, true, false, ◌&&◌, not, Option, none,
  some, [], ◌∷◌, ◌++◌, arith, text_eq, text_eq_refl, ok, >>=-eq-ok, ltb, if◌then◌else◌, Bool-cases,
  length, length-append, get_or, set, All-append, get_or-set_self,
}
use testshop.Dht.Id.{XorId, hex_string_to_node_id, xor_distance_bit_index}
use testshop.Dht.Table.{
  Contact, Bucket, Table, empty_bucket, bucket_at, bucket_count, nodes_per_bucket, has_id,
  add_identified, add_node, has_node,
}
use testshop.Dht.Table.Contacts.{DistinctIds-append, has_id-append}
use testshop.Dht.Table.Lookup.{has_node-eq}
use testshop.Dht.Table.Valid.{Placed, IsTable, IsTable-set}

-- When `add_node` takes the node: it is not the table's own, its bucket exists and has room, and
-- the bucket holds no node of its identifier.
abbrev pub accepts : Table → Contact → XorId → Bool
accepts t node node_id =
    let i = xor_distance_bit_index t.id node_id in
    not (text_eq node_id t.id)
    && ltb i bucket_count
    && not (has_id node.id (bucket_at t i).nodes)
    && ltb (length (bucket_at t i).nodes) nodes_per_bucket

-- The table with the node at the end of its bucket, the time of the change recorded.
abbrev pub with_node : ℕ → Table → Contact → ℕ → Table
with_node now t node i = record t {
  buckets =
      set t.buckets i (record { nodes = (bucket_at t i).nodes ++ node ∷ []; last_changed = now });
}

-- What `add_node` returns for a node whose identifier reads as `node_id`.
abbrev pub add_result : ℕ → Table → Contact → XorId → Table × Bool
add_result now t node node_id =
    if accepts t node node_id
    then (with_node now t node (xor_distance_bit_index t.id node_id), true)
    else (t, false)

module _ (memory : ℕ → ℕ) (now : ℕ) (t : Table) (node : Contact) where
  pub add_identified-eq :
      (node_id : XorId) → add_identified memory now t node node_id ≡ add_result now t node node_id
  unfolding add_identified
  add_identified-eq node_id = ground arith

  pub with_node-IsTable :
      (node_id : XorId)
      → IsTable memory t
      → hex_string_to_node_id memory node.id ≡ ok node_id
      → accepts t node node_id ≡ true
      → IsTable memory (with_node now t node (xor_distance_bit_index t.id node_id))
  with_node-IsTable node_id v e a =
      let i = xor_distance_bit_index t.id node_id in
      let b = v.each i in
      IsTable-set memory t i _ v (ground arith) (record {
        room = ground (arith, length-append (bucket_at t i).nodes (node ∷ []));
        placed =
            All-append (Placed memory t.id i) (bucket_at t i).nodes (node ∷ []) b.placed
              ((node_id, e, refl), tt);
        distinct = DistinctIds-append (bucket_at t i).nodes node b.distinct (ground arith);
      })

-- Adding a node keeps the table well formed, whether the node is taken or not.
pub add_node-IsTable :
    (memory : ℕ → ℕ) (now : ℕ) (t t' : Table) (node : Option Contact) (added : Bool)
    → IsTable memory t
    → add_node memory now t node ≡ ok (t', added)
    → IsTable memory t'
unfolding add_node
add_node-IsTable memory now t t' none added v e =
    let e' : t ≡ t' = ground arith in subst (IsTable memory) e' v
add_node-IsTable memory now t t' (some node) added v e =
    let (node_id, read, e') =
      >>=-eq-ok (hex_string_to_node_id memory node.id)
        (λ x. ok (add_identified memory now t node x)) e in
    elim (Bool-cases (accepts t node node_id)) [
      | inl yes' ↦
          let same : with_node now t node (xor_distance_bit_index t.id node_id) ≡ t' =
            ground (arith, add_identified-eq memory now t node node_id) in
          subst (IsTable memory) same (with_node-IsTable memory now t node node_id v read yes')
      | inr no' ↦
          let same : t ≡ t' = ground (arith, add_identified-eq memory now t node node_id) in
          subst (IsTable memory) same v
    ]

pub id-add_node :
    (memory : ℕ → ℕ) (now : ℕ) (t t' : Table) (node : Option Contact) (added : Bool)
    → add_node memory now t node ≡ ok (t', added)
    → t'.id ≡ t.id
unfolding add_node add_identified
id-add_node memory now t t' none added e = ground arith
id-add_node memory now t t' (some node) added e =
    let (node_id, read, e') =
      >>=-eq-ok (hex_string_to_node_id memory node.id)
        (λ x. ok (add_identified memory now t node x)) e in
    ground arith

-- A node that is added was not in the table's bucket before, and `has_node` finds it afterwards;
-- a node that is refused leaves the table as it was.
pub has_node-add_node :
    (memory : ℕ → ℕ) (now : ℕ) (t t' : Table) (node : Contact) (added : Bool)
    → IsTable memory t
    → add_node memory now t (some node) ≡ ok (t', added)
    → if added
      then (has_node memory t node.id ≡ ok false) × (has_node memory t' node.id ≡ ok true)
      else t' ≡ t
unfolding add_node has_id
has_node-add_node memory now t t' node added v e =
    let (node_id, read, e') =
      >>=-eq-ok (hex_string_to_node_id memory node.id)
        (λ x. ok (add_identified memory now t node x)) e in
    let step = add_identified-eq memory now t node node_id in
    elim (Bool-cases (accepts t node node_id)) [
      | inl yes' ↦
          let d : added ≡ true = ground (arith, step) in
          let same : t' ≡ with_node now t node (xor_distance_bit_index t.id node_id) =
            ground (arith, step) in
          rw (d, same)
            (found node_id (xor_distance_bit_index t.id node_id) read refl (ground arith)
              (ground arith))
      | inr no' ↦
          let d : added ≡ false = ground (arith, step) in
          let same : t ≡ t' = ground (arith, step) in rw d (sym same)
    ]
  where
    found :
        (node_id : XorId) (i : ℕ)
        → hex_string_to_node_id memory node.id ≡ ok node_id
        → xor_distance_bit_index t.id node_id ≡ i
        → i < bucket_count
        → has_id node.id (bucket_at t i).nodes ≡ false
        → (has_node memory t node.id ≡ ok false)
          × (has_node memory (with_node now t node i) node.id ≡ ok true)
    found node_id i read place h fresh =
        let cs = (bucket_at t i).nodes in
        let b : Bucket = record { nodes = cs ++ node ∷ []; last_changed = now } in
        let at : get_or (set t.buckets i b) i empty_bucket ≡ b =
          get_or-set_self t.buckets i b empty_bucket (omega (arith, v.size)) in
        (
          has_node-eq memory t node.id node_id i read place h ∙ ap ok fresh,
          has_node-eq memory (with_node now t node i) node.id node_id i read place h
              ∙ rw at (ground (arith, has_id-append node.id cs (node ∷ []), text_eq_refl node.id)),
        )
