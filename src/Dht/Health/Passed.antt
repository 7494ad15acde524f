-- ===== src/Dht/Health/Passed.antt =====
-- What passes of `heartbeat` (src/core/protocol/p2p/node.cpp) leave of a routing table.
use testshop.Prelude.{
  ℕ, zero, suc, ◌+◌, ◌≤◌, ◌<◌, ◌≡◌, ◌≢◌, refl, sym, ap, subst, ◌∙◌, Bool, true, false, List, [],
  ◌∷◌, ◌++◌, Text, text_eq, text_eq_iff, ok, ok_injective, leb, All, arith, Bool-cases, inl, inr,
  append_assoc,
}
use testshop.Dht.Id.{XorId, IsXorId, hex_string_to_node_id, xor_distance_bit_index}
use testshop.Dht.Id.Metric.{xor_distance_bit_index_bound}
use testshop.Dht.Table.{Contact, Bucket, Table, bucket_at, bucket_count, has_id, has_node}
use testshop.Dht.Table.Valid.{Placed, IsTable}
use testshop.Dht.Table.Lookup.{has_node-eq}
use testshop.Dht.Health.{
  BootstrapNode, is_dead, is_hardcoded, checked, check_node, check_nodes, check_buckets, heartbeat,
}
use testshop.Dht.Health.Round.{check_node-IsTable}
use testshop.Dht.Health.Survivors.{survivor, survivors, Survives, check_node-Survives}

module _ (memory : ℕ → ℕ) (now : ℕ) (bootstrap_nodes : List BootstrapNode)
    (ping : Contact → Bool) where
  checked_node :
      (i : ℕ) (node : Contact) (t : Table) (pre rest : List Contact)
      → IsTable memory t
      → i < bucket_count
      → Placed memory t.id i node
      → (bucket_at t i).nodes ≡ pre ++ node ∷ rest
      → (t' : Table) × (check_node memory now bootstrap_nodes ping i node t ≡ ok t')
        × IsTable memory t'
        × (t'.id ≡ t.id)
        × Survives memory now bootstrap_nodes ping i t pre node rest t'
  checked_node i node t pre rest v h placed at =
      let (t', e, good, same) =
        check_node-IsTable memory now bootstrap_nodes ping i node t v h placed in
      let (t'', e', survives) =
        check_node-Survives memory now bootstrap_nodes ping i node t pre rest v h placed at in
      (
        t',
        e,
        good,
        same,
        subst (Survives memory now bootstrap_nodes ping i t pre node rest)
            (ok_injective (sym e' ∙ e)) survives,
      )

  -- The nodes of bucket `i` from the middle of it.
  checked_nodes :
      (i : ℕ) (nodes pre : List Contact) (t : Table)
      → IsTable memory t
      → i < bucket_count
      → All (Placed memory t.id i) nodes
      → (bucket_at t i).nodes ≡ pre ++ nodes
      → (t' : Table) × (check_nodes memory now bootstrap_nodes ping i nodes t ≡ ok t')
        × IsTable memory t'
        × (t'.id ≡ t.id)
        × ((bucket_at t' i).nodes ≡ pre ++ survivors bootstrap_nodes ping nodes)
        × ((j : ℕ) → i ≢ j → bucket_at t' j ≡ bucket_at t j)
  unfolding check_nodes survivors
  checked_nodes i [] pre t v h placed at = (t, refl, v, refl, at, λ j other. refl)
  checked_nodes i (node ∷ nodes) pre t v h placed at =
      let (t₁, e, v₁, same, (here, others)) = checked_node i node t pre nodes v h placed.0 at in
      let left = survivor bootstrap_nodes ping node in
      let placed' = subst (λ (own : XorId). All (Placed memory own i) nodes) (sym same) placed.1 in
      let (t₂, e', v₂, same', here', others') =
        checked_nodes i nodes (pre ++ left) t₁ v₁ h placed'
          (here ∙ sym (append_assoc pre left nodes)) in
      (
        t₂,
        rw (check_nodes, e) e',
        v₂,
        same' ∙ same,
        here' ∙ append_assoc pre left (survivors bootstrap_nodes ping nodes),
        λ j other. others' j other ∙ others j other,
      )

  checked_buckets :
      (n i : ℕ) (t : Table)
      → IsTable memory t
      → i + n ≤ bucket_count
      → (t' : Table) × (check_buckets memory now bootstrap_nodes ping n i t ≡ ok t')
        × IsTable memory t'
        × (t'.id ≡ t.id)
        × ((j : ℕ)
            → i ≤ j
            → j < i + n
            → (bucket_at t' j).nodes ≡ survivors bootstrap_nodes ping (bucket_at t j).nodes)
        × ((j : ℕ) → j < i → bucket_at t' j ≡ bucket_at t j)
  unfolding check_buckets
  checked_buckets zero i t v h =
      (t, refl, v, refl, (λ j low high. absurd (omega arith)), λ j low. refl)
  checked_buckets (suc n) i t v h =
      let (t₁, e, v₁, same, here, others) =
        checked_nodes i (bucket_at t i).nodes [] t v (omega arith) (v.each i).placed refl in
      let (t₂, e', v₂, same', rest, before) = checked_buckets n (i + 1) t₁ v₁ (omega arith) in
      (
        t₂,
        rw (check_buckets, e) e',
        v₂,
        same' ∙ same,
        (λ j low high. elim (Bool-cases (leb j i)) [
          | inl le ↦
              subst
                (λ k. (bucket_at t₂ k).nodes ≡ survivors bootstrap_nodes ping (bucket_at t k).nodes)
                (ground arith) (ap (λ (b : Bucket). b.nodes) (before i (omega arith)) ∙ here)
          | inr gt ↦
              rest j (ground arith) (omega arith)
              ∙ ap (λ (b : Bucket). survivors bootstrap_nodes ping b.nodes)
                  (others j (ground arith))
        ]),
        λ j low. before j (omega arith) ∙ others j (λ e. omega arith),
      )

  -- A pass of `heartbeat` over a well-formed table ends with a well-formed table of the same
  -- identifier, in which every bucket has, in the order that it had them, its seeds as they were,
  -- its nodes that answered, with the counter 0, and those that did not and had failed less than
  -- twice, with one failure more.
  pub heartbeat_lem :
      (t : Table)
      → IsTable memory t
      → (t' : Table) × (heartbeat memory now bootstrap_nodes ping t ≡ ok t')
        × IsTable memory t'
        × (t'.id ≡ t.id)
        × ((j : ℕ)
            → j < bucket_count
            → (bucket_at t' j).nodes ≡ survivors bootstrap_nodes ping (bucket_at t j).nodes)
  unfolding heartbeat
  heartbeat_lem t v =
      let (t', e, v', same, each, _) = checked_buckets bucket_count 0 t v (omega arith) in
      (t', e, v', same, λ j h. each j (omega arith) h)

-- The nodes of the identifier have failed that often.
abbrev Failed : ℕ → Text → List Contact → Type 0
Failed n hex nodes = All (λ (c : Contact). c.id ≡ hex → n ≤ c.check_counter) nodes

module _ (bootstrap_nodes : List BootstrapNode) (ping : Contact → Bool) (hex : Text)
    (silent : (c : Contact)
      → c.id ≡ hex
      → (ping c ≡ false) × (is_hardcoded bootstrap_nodes c ≡ false)) where
  Failed-survivors :
      (n : ℕ) (nodes : List Contact)
      → Failed n hex nodes
      → Failed (n + 1) hex (survivors bootstrap_nodes ping nodes)
  unfolding survivors survivor
  Failed-survivors n [] f = tt
  Failed-survivors n (c ∷ nodes) (f, fs) =
      let rest = Failed-survivors n nodes fs in
      elim (Bool-cases (is_hardcoded bootstrap_nodes c)) [
        | inl seed ↦ rw (survivors, survivor, seed) ((λ e. ground (arith, (silent c e).1)), rest)
        | inr other ↦ elim (Bool-cases (is_dead (checked (ping c) c.check_counter))) [
          | inl gone ↦ rw (survivors, survivor, other, gone) rest
          | inr alive ↦
              rw (survivors, survivor, other, alive)
                ((λ e. ground (arith, (silent c e).0, f e)), rest)
        ]
      ]

  gone-survivors :
      (nodes : List Contact)
      → Failed 2 hex nodes
      → has_id hex (survivors bootstrap_nodes ping nodes) ≡ false
  unfolding survivors survivor has_id
  gone-survivors [] f = refl
  gone-survivors (c ∷ nodes) (f, fs) =
      let rest = gone-survivors nodes fs in
      elim (Bool-cases (text_eq c.id hex)) [
        | inl hit ↦
            let (quiet, other) = silent c ((text_eq_iff c.id hex).0 hit) in
            let many = f ((text_eq_iff c.id hex).0 hit) in
            let dead : is_dead (checked (ping c) c.check_counter) ≡ true = ground arith in
            rw (survivors, survivor, other, dead) rest
        | inr miss ↦ ground (arith, rest, miss)
      ]

started : (hex : Text) (nodes : List Contact) → Failed 0 hex nodes
started hex [] = tt
started hex (c ∷ nodes) = ((λ e. omega arith), started hex nodes)

-- A node, other than the one of the table, that is no seed, and answers none of three passes of
-- `heartbeat` in turn, is not in the table after them, whatever the other nodes answer.
pub silent_node_removed :
    (memory : ℕ → ℕ) (now : ℕ → ℕ) (bootstrap_nodes : List BootstrapNode)
    (ping : ℕ → Contact → Bool) (hex : Text) (x : XorId) (t : Table)
    → IsTable memory t
    → hex_string_to_node_id memory hex ≡ ok x
    → IsXorId x
    → x ≢ t.id
    → ((k : ℕ) (c : Contact)
        → c.id ≡ hex
        → (ping k c ≡ false) × (is_hardcoded bootstrap_nodes c ≡ false))
    → (t₁ : Table) × (t₂ : Table) × (t₃ : Table) × (heartbeat memory
          (now 0)
          bootstrap_nodes
          (ping 0)
          t
        ≡ ok t₁)
      × (heartbeat memory (now 1) bootstrap_nodes (ping 1) t₁ ≡ ok t₂)
      × (heartbeat memory (now 2) bootstrap_nodes (ping 2) t₂ ≡ ok t₃)
      × (has_node memory t₃ hex ≡ ok false)
silent_node_removed memory now bootstrap_nodes ping hex x t v read vx other silent =
    let (t₁, e₁, v₁, same₁, each₁) = heartbeat_lem memory (now 0) bootstrap_nodes (ping 0) t v in
    let (t₂, e₂, v₂, same₂, each₂) = heartbeat_lem memory (now 1) bootstrap_nodes (ping 1) t₁ v₁ in
    let (t₃, e₃, v₃, same₃, each₃) = heartbeat_lem memory (now 2) bootstrap_nodes (ping 2) t₂ v₂ in
    let i = xor_distance_bit_index t.id x in
    let bound = xor_distance_bit_index_bound t.id x v.own vx in
    let h : i < bucket_count = elim (Bool-cases (leb 256 i)) [
      | inl top ↦ absurd (other (sym (bound.1.0 (ground (arith, bound.0)))))
      | inr low ↦ ground arith
    ] in
    let once =
      Failed-survivors bootstrap_nodes (ping 0) hex (silent 0) 0 (bucket_at t i).nodes
        (started hex (bucket_at t i).nodes) in
    let twice =
      Failed-survivors bootstrap_nodes (ping 1) hex (silent 1) 1 (bucket_at t₁ i).nodes
        (subst (Failed 1 hex) (sym (each₁ i h)) once) in
    let gone =
      gone-survivors bootstrap_nodes (ping 2) hex (silent 2) (bucket_at t₂ i).nodes
        (subst (Failed 2 hex) (sym (each₂ i h)) twice) in
    let place = ap (λ (own : XorId). xor_distance_bit_index own x) (same₃ ∙ same₂ ∙ same₁) in
    (
      t₁,
      t₂,
      t₃,
      e₁,
      e₂,
      e₃,
      has_node-eq memory t₃ hex x i read place h ∙ ap ok (ap (has_id hex) (each₃ i h) ∙ gone),
    )
