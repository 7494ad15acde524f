-- ===== src/Dht/Health/Round.antt =====
-- One pass of `heartbeat` (src/core/protocol/p2p/node.cpp) over a well-formed table.
use testshop.Prelude.{
  ℕ, zero, suc, ◌+◌, ◌≤◌, ◌<◌, ◌≡◌, ◌≢◌, refl, sym, ap, subst, ◌∙◌, Bool, true, false, List, [],
  ◌∷◌, Text, text_eq, ok, leb, if◌then◌else◌, length, All, arith, Bool-cases, inl, inr,
  get_or-set_self,
}
use testshop.Dht.Id.{XorId, hex_string_to_node_id, xor_distance_bit_index}
use testshop.Dht.Table.{
  Contact, Bucket, Table, empty_bucket, bucket_at, bucket_count, has_id, remove_at, has_node,
}
use testshop.Dht.Table.Contacts.{DistinctIds}
use testshop.Dht.Table.Valid.{Placed, IsTable, IsTable-set}
use testshop.Dht.Table.Remove.{remove_at-IsTable, remove_at-bucket, id-remove_at}
use testshop.Dht.Table.Lookup.{has_node-eq, remove_node-eq}
use testshop.Dht.Health.{
  BootstrapNode, is_dead, is_hardcoded, set_counter, store_counter, checked, check_node,
  check_nodes, check_buckets, heartbeat,
}

module _ (id : Text) (counter : ℕ) where
  length-set_counter : (cs : List Contact) → length (set_counter id counter cs) ≡ length cs
  unfolding set_counter
  length-set_counter [] = refl
  length-set_counter (c ∷ cs) = ground (arith, length-set_counter cs)

  has_id-set_counter :
      (hex : Text) (cs : List Contact) → has_id hex (set_counter id counter cs) ≡ has_id hex cs
  unfolding set_counter has_id
  has_id-set_counter hex [] = refl
  has_id-set_counter hex (c ∷ cs) = ground (arith, has_id-set_counter hex cs)

  -- A property of a node that does not read its counter.
  All-set_counter {κ} :
      (P : Text → Type κ) (cs : List Contact)
      → All (λ (c : Contact). P c.id) cs
      → All (λ (c : Contact). P c.id) (set_counter id counter cs)
  unfolding set_counter
  All-set_counter P [] h = tt
  All-set_counter P (c ∷ cs) h = elim (Bool-cases (text_eq c.id id)) [
    | inl hit ↦ rw (set_counter, hit) (h.0, All-set_counter P cs h.1)
    | inr miss ↦ rw (set_counter, miss) (h.0, All-set_counter P cs h.1)
  ]

  DistinctIds-set_counter :
      (cs : List Contact) → DistinctIds cs → DistinctIds (set_counter id counter cs)
  unfolding set_counter
  DistinctIds-set_counter [] d = tt
  DistinctIds-set_counter (c ∷ cs) d = elim (Bool-cases (text_eq c.id id)) [
    | inl hit ↦
        rw (set_counter, hit)
          (All-set_counter (λ i. i ≢ c.id) cs d.0, DistinctIds-set_counter cs d.1)
    | inr miss ↦
        rw (set_counter, miss)
          (All-set_counter (λ i. i ≢ c.id) cs d.0, DistinctIds-set_counter cs d.1)
  ]

module _ (memory : ℕ → ℕ) where
  store_counter-IsTable :
      (id : Text) (counter i : ℕ) (t : Table)
      → IsTable memory t
      → i < bucket_count
      → IsTable memory (store_counter id counter i t)
  unfolding store_counter
  store_counter-IsTable id counter i t v h =
      let b = v.each i in
      IsTable-set memory t i
        (record {
          nodes = set_counter id counter (bucket_at t i).nodes;
          last_changed = (bucket_at t i).last_changed;
        })
        v h
        (record {
          room = omega (arith, b.room, length-set_counter id counter (bucket_at t i).nodes);
          placed =
              All-set_counter id counter
                (λ x.
                  (y : XorId) × (hex_string_to_node_id memory x ≡ ok y)
                  × (xor_distance_bit_index t.id y ≡ i))
                (bucket_at t i).nodes b.placed;
          distinct = DistinctIds-set_counter id counter (bucket_at t i).nodes b.distinct;
        })

  id-store_counter :
      (id : Text) (counter i : ℕ) (t : Table) → (store_counter id counter i t).id ≡ t.id
  unfolding store_counter
  id-store_counter id counter i t = refl

  has_id-store_counter :
      (id : Text) (counter i : ℕ) (t : Table)
      → IsTable memory t
      → i < bucket_count
      → has_id id (bucket_at (store_counter id counter i t) i).nodes
        ≡ has_id id (bucket_at t i).nodes
  unfolding store_counter
  has_id-store_counter id counter i t v h =
      let at =
        get_or-set_self t.buckets i
          (record {
            nodes = set_counter id counter (bucket_at t i).nodes;
            last_changed = (bucket_at t i).last_changed;
          })
          empty_bucket (omega (arith, v.size)) in
      ap (λ (b : Bucket). has_id id b.nodes) at
      ∙ has_id-set_counter id counter id (bucket_at t i).nodes

module _ (memory : ℕ → ℕ) (now : ℕ) (bootstrap_nodes : List BootstrapNode)
    (ping : Contact → Bool) where
  -- The check of a node of bucket `i`, by its outcome.
  pub check_node-IsTable :
      (i : ℕ) (node : Contact) (t : Table)
      → IsTable memory t
      → i < bucket_count
      → Placed memory t.id i node
      → (t' : Table) × (check_node memory now bootstrap_nodes ping i node t ≡ ok t')
        × IsTable memory t'
        × (t'.id ≡ t.id)
  unfolding check_node store_counter
  check_node-IsTable i node t v h (x, read, place) =
      elim (Bool-cases (is_hardcoded bootstrap_nodes node)) [
        | inl skip ↦ (t, rw skip refl, v, refl)
        | inr checked' ↦ elim (Bool-cases (is_dead counter)) [
          | inl gone ↦
              let e = remove_node-eq memory after node.id x i read place now h in
              (
                (remove_at memory now after node.id i).0,
                rw (checked', gone, e) refl,
                remove_at-IsTable memory now after node.id i good h,
                id-remove_at memory now after node.id i
                    ∙ id-store_counter memory node.id counter i t,
              )
          | inr alive ↦
              (after, rw (checked', alive) refl, good, id-store_counter memory node.id counter i t)
        ]
      ]
    where
      counter : ℕ
      counter = checked (ping node) node.check_counter

      after : Table
      after = store_counter node.id counter i t

      good : IsTable memory after
      good = store_counter-IsTable memory node.id counter i t v h

  check_nodes-IsTable :
      (i : ℕ) (nodes : List Contact) (t : Table)
      → IsTable memory t
      → i < bucket_count
      → All (Placed memory t.id i) nodes
      → (t' : Table) × (check_nodes memory now bootstrap_nodes ping i nodes t ≡ ok t')
        × IsTable memory t'
        × (t'.id ≡ t.id)
  unfolding check_nodes
  check_nodes-IsTable i [] t v h placed = (t, refl, v, refl)
  check_nodes-IsTable i (node ∷ nodes) t v h placed =
      let (t₁, e, v₁, same) = check_node-IsTable i node t v h placed.0 in
      let placed' = subst (λ (own : XorId). All (Placed memory own i) nodes) (sym same) placed.1 in
      let (t₂, e', v₂, same') = check_nodes-IsTable i nodes t₁ v₁ h placed' in
      (t₂, rw (check_nodes, e) e', v₂, same' ∙ same)

  check_buckets-IsTable :
      (n i : ℕ) (t : Table)
      → IsTable memory t
      → i + n ≤ bucket_count
      → (t' : Table) × (check_buckets memory now bootstrap_nodes ping n i t ≡ ok t')
        × IsTable memory t'
        × (t'.id ≡ t.id)
  unfolding check_buckets
  check_buckets-IsTable zero i t v h = (t, refl, v, refl)
  check_buckets-IsTable (suc n) i t v h =
      let (t₁, e, v₁, same) =
        check_nodes-IsTable i (bucket_at t i).nodes t v (omega arith) (v.each i).placed in
      let (t₂, e', v₂, same') = check_buckets-IsTable n (i + 1) t₁ v₁ (omega arith) in
      (t₂, rw (check_buckets, e) e', v₂, same' ∙ same)

  -- A pass of `heartbeat` over a well-formed table ends, with no access out of bounds, and leaves
  -- a well-formed table of the same identifier.
  pub heartbeat-IsTable :
      (t : Table)
      → IsTable memory t
      → (t' : Table) × (heartbeat memory now bootstrap_nodes ping t ≡ ok t')
        × IsTable memory t'
        × (t'.id ≡ t.id)
  unfolding heartbeat
  heartbeat-IsTable t v = check_buckets-IsTable bucket_count 0 t v (omega arith)

  -- The check of a node that is in its bucket of a well-formed table, and is no bootstrap node:
  -- the node is in the table afterwards unless it did not answer and had failed twice or more.
  pub has_node-check_node :
      (i : ℕ) (node : Contact) (t : Table)
      → IsTable memory t
      → i < bucket_count
      → Placed memory t.id i node
      → has_id node.id (bucket_at t i).nodes ≡ true
      → is_hardcoded bootstrap_nodes node ≡ false
      → (t' : Table) × (check_node memory now bootstrap_nodes ping i node t ≡ ok t')
        × (has_node memory t' node.id ≡ ok (if ping node then true else leb node.check_counter 1))
  unfolding check_node store_counter
  has_node-check_node i node t v h (x, read, place) there other =
      elim (Bool-cases (is_dead counter)) [
        | inl gone ↦
            let e = remove_node-eq memory after node.id x i read place now h in
            let t₂ = (remove_at memory now after node.id i).0 in
            (
              t₂,
              rw (other, gone, e) refl,
              has_node-eq memory t₂ node.id x i read
                    (ap (λ (own : XorId). xor_distance_bit_index own x)
                        (id-remove_at memory now after node.id i)
                      ∙ place)
                    h
                  ∙ ap ok ((remove_at-bucket memory now after node.id i good h).0 ∙ ground arith),
            )
        | inr alive ↦ (
          after,
          rw (other, alive) refl,
          has_node-eq memory after node.id x i read place h
              ∙ ap ok (has_id-store_counter memory node.id counter i t v h ∙ there ∙ ground arith),
        )
      ]
    where
      counter : ℕ
      counter = checked (ping node) node.check_counter

      after : Table
      after = store_counter node.id counter i t

      good : IsTable memory after
      good = store_counter-IsTable memory node.id counter i t v h
