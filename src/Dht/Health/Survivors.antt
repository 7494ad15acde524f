-- ===== src/Dht/Health/Survivors.antt =====
-- One pass of `heartbeat` (src/core/protocol/p2p/node.cpp), against what is left of each bucket.
use testshop.Prelude.{
  ℕ, ◌<◌, ◌≡◌, ◌≢◌, refl, ap, subst, ◌∙◌, Bool, true, false, List, [], ◌∷◌, ◌++◌, Text, text_eq_iff,
  text_eq_refl, ok, if◌then◌else◌, length, arith, Bool-cases, inl, inr, get_or-set_self,
  get_or-set_ne, length-set,
}
use testshop.Dht.Table.{
  Contact, Bucket, Table, empty_bucket, bucket_at, bucket_count, has_id, erase_id, remove_at,
}
use testshop.Dht.Table.Contacts.{DistinctIds, has_id-false, has_id-append}
use testshop.Dht.Table.Valid.{Placed, IsTable}
use testshop.Dht.Table.Remove.{bucket_at-remove_at}
use testshop.Dht.Table.Lookup.{remove_node-eq}
use testshop.Dht.Health.{
  BootstrapNode, is_dead, is_hardcoded, set_counter, store_counter, checked, check_node,
}

module _ (bootstrap_nodes : List BootstrapNode) (ping : Contact → Bool) where
  -- What a check leaves of a node: a seed as it is, and another one, unless it is dead, with its
  -- counter.
  unfoldable pub survivor : Contact → List Contact
  survivor node =
      let counter = checked (ping node) node.check_counter in
      if is_hardcoded bootstrap_nodes node
      then node ∷ []
      else if is_dead counter
      then []
      else record node { check_counter = counter } ∷ []

  unfoldable pub survivors : List Contact → List Contact
  survivors [] = []
  survivors (node ∷ nodes) = survivor node ++ survivors nodes

module _ (id : Text) (counter : ℕ) where
  set_counter-absent : (cs : List Contact) → has_id id cs ≡ false → set_counter id counter cs ≡ cs
  unfolding set_counter has_id
  set_counter-absent [] h = refl
  set_counter-absent (c ∷ cs) h = ground (arith, set_counter-absent cs)

  set_counter-append :
      (cs ds : List Contact)
      → set_counter id counter (cs ++ ds) ≡ set_counter id counter cs ++ set_counter id counter ds
  unfolding set_counter
  set_counter-append [] ds = refl
  set_counter-append (c ∷ cs) ds = ground (arith, set_counter-append cs ds)

erase_id-middle :
    (pre : List Contact) (node : Contact) (rest : List Contact)
    → has_id node.id pre ≡ false
    → erase_id node.id (pre ++ node ∷ rest) ≡ pre ++ rest
unfolding erase_id has_id
erase_id-middle [] node rest h = ground (arith, text_eq_refl node.id)
erase_id-middle (c ∷ pre) node rest h = ground (arith, erase_id-middle pre node rest)

-- Of distinct nodes, the one in the middle has an identifier that no other has.
middle :
    (pre : List Contact) (node : Contact) (rest : List Contact)
    → DistinctIds (pre ++ node ∷ rest)
    → (has_id node.id pre ≡ false) × (has_id node.id rest ≡ false)
unfolding has_id
middle [] node rest (others, d) = (refl, has_id-false node.id rest others)
middle (c ∷ pre) node rest (others, d) =
    let (p, r) = middle pre node rest d in
    let apart = has_id-false c.id (pre ++ node ∷ rest) others in
    let split = has_id-append c.id pre (node ∷ rest) in
    (ground (arith, text_eq_iff c.id node.id, text_eq_iff node.id c.id), r)

module _ (memory : ℕ → ℕ) (now : ℕ) (bootstrap_nodes : List BootstrapNode)
    (ping : Contact → Bool) where
  -- The check of a node in the middle of bucket `i`.
  abbrev pub Survives : ℕ → Table → List Contact → Contact → List Contact → Table → Type 0
  Survives i t pre node rest t' =
      ((bucket_at t' i).nodes ≡ pre ++ (survivor bootstrap_nodes ping node ++ rest))
      × ((j : ℕ) → i ≢ j → bucket_at t' j ≡ bucket_at t j)

  stored :
      (i counter : ℕ) (t : Table) (pre : List Contact) (node : Contact) (rest : List Contact)
      → i < length t.buckets
      → (bucket_at t i).nodes ≡ pre ++ node ∷ rest
      → (has_id node.id pre ≡ false) × (has_id node.id rest ≡ false)
      → ((bucket_at (store_counter node.id counter i t) i).nodes
          ≡ pre ++ record node { check_counter = counter } ∷ rest)
        × ((j : ℕ) → i ≢ j → bucket_at (store_counter node.id counter i t) j ≡ bucket_at t j)
  unfolding store_counter set_counter
  stored i counter t pre node rest h at (p, r) =
      let b : Bucket = record {
        nodes = set_counter node.id counter (bucket_at t i).nodes;
        last_changed = (bucket_at t i).last_changed;
      } in
      (
        ap (λ (b : Bucket). b.nodes) (get_or-set_self t.buckets i b empty_bucket h)
            ∙ rw
                (
                  at,
                  set_counter-append node.id counter pre (node ∷ rest),
                  text_eq_refl node.id,
                  set_counter-absent node.id counter pre p,
                  set_counter-absent node.id counter rest r,
                )
                refl,
        λ j other. get_or-set_ne t.buckets i j b empty_bucket other,
      )

  pub check_node-Survives :
      (i : ℕ) (node : Contact) (t : Table) (pre rest : List Contact)
      → IsTable memory t
      → i < bucket_count
      → Placed memory t.id i node
      → (bucket_at t i).nodes ≡ pre ++ node ∷ rest
      → (t' : Table) × (check_node memory now bootstrap_nodes ping i node t ≡ ok t')
        × Survives i t pre node rest t'
  unfolding check_node survivor store_counter has_id
  check_node-Survives i node t pre rest v h (x, read, place) at =
      elim (Bool-cases (is_hardcoded bootstrap_nodes node)) [
        | inl seed ↦ (t, rw (check_node, seed) refl, (rw (survivor, seed) at, λ j other. refl))
        | inr other ↦ elim (Bool-cases (is_dead counter)) [
          | inl gone ↦
              let e = remove_node-eq memory after node.id x i read place now h in
              let t₂ = (remove_at memory now after node.id i).0 in
              let (nodes, others) = bucket_at-remove_at memory now after node.id i room there in
              (
                t₂,
                rw (check_node, other, gone, e) refl,
                (
                  rw (survivor, other, gone)
                      (nodes
                        ∙ ap (erase_id node.id) here.0
                        ∙ erase_id-middle pre (record node { check_counter = counter }) rest
                            apart.0),
                  λ j ne. others j ne ∙ here.1 j ne,
                ),
              )
          | inr alive ↦ (
            after,
            rw (check_node, other, alive) refl,
            (rw (survivor, other, alive) here.0, here.1),
          )
        ]
      ]
    where
      counter : ℕ
      counter = checked (ping node) node.check_counter

      after : Table
      after = store_counter node.id counter i t

      apart : (has_id node.id pre ≡ false) × (has_id node.id rest ≡ false)
      apart = middle pre node rest (subst DistinctIds at (v.each i).distinct)

      here :
          ((bucket_at after i).nodes ≡ pre ++ record node { check_counter = counter } ∷ rest)
          × ((j : ℕ) → i ≢ j → bucket_at after j ≡ bucket_at t j)
      here = stored i counter t pre node rest (omega (arith, v.size, h)) at apart

      room : i < length after.buckets
      room = omega (arith, h, v.size, length-set t.buckets i _)

      there : has_id node.id (bucket_at after i).nodes ≡ true
      there = rw here.0 (
          ground (
            arith,
            has_id-append node.id pre (record node { check_counter = counter } ∷ rest),
            text_eq_refl node.id,
          ))
