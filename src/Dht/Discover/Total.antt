-- ===== src/Dht/Discover/Total.antt =====
-- src/core/protocol/p2p/node.cpp: the search for other nodes ends, and keeps the table well formed, where no
-- node names this one.
use testshop.Prelude.{
  ℕ, zero, suc, ◌+◌, ◌≤◌, ◌<◌, ◌≡◌, ◌≢◌, refl, sym, ap, subst, ◌∙◌, inl, inr, Bool, true, some,
  List, [], ◌∷◌, map, arith, Text, Outcome, ok, Bool-cases, All, is_some,
}
use testshop.Dht.Id.{XorId, IsXorId, hex_string_to_node_id, node_id_to_hex_string}
use testshop.Dht.Id.Hex.{hex_string_to_node_id-node_id_to_hex_string}
use testshop.Dht.Id.Random.{generate_random_node_id-distance}
use testshop.Dht.Table.{Contact, Table, bucket_at, bucket_count, add_node, add_identified}
use testshop.Dht.Table.Valid.{IsTable}
use testshop.Dht.Table.Add.{add_node-IsTable, id-add_node}
use testshop.Dht.Table.Lookup.{has_node-get_nodes}
use testshop.Dht.Table.Closest.{ScoredNode, Sorting, find_closest_nodes_lem}
use testshop.Dht.Health.{BootstrapNode, is_hardcoded}
use testshop.Dht.Retrieve.{max_closest_nodes}
use testshop.Dht.Message.{NodeInfo}
use testshop.Dht.Listener.{Wire, remote_node}
use testshop.Dht.Discover.{
  Others, named_node, is_fresh, unknown_nodes, add_pinged, ask, join, ask_each, refresh_bucket,
  refresh_buckets, refresh, rebuild_rows,
}

-- An identifier that is made of an address reads: a SHA3 hash in hexadecimal.
abbrev pub IsHash : (ℕ → ℕ) → Wire → Type 0
IsHash memory w =
    (a : Text)
    → (x : XorId) × IsXorId x × (hex_string_to_node_id memory (w.generate_node_id a) ≡ ok x)

-- A node that is named is not the one of that identifier.
abbrev pub IsOther : (ℕ → ℕ) → Wire → XorId → NodeInfo → Type 0
IsOther memory w own info = hex_string_to_node_id memory (w.generate_node_id info.address) ≢ ok own

-- The search ends, with a well-formed table of the same identifier.
abbrev pub Ends : (ℕ → ℕ) → Table → Outcome Table → Type 0
Ends memory t o = (t' : Table) × (o ≡ ok t') × IsTable memory t' × (t'.id ≡ t.id)

module _ (memory : ℕ → ℕ) (now : ℕ) (w : Wire) (others : Others) (hash : IsHash memory w) where
  unknown_nodes-eq :
      (t : Table) (infos : List NodeInfo)
      → IsTable memory t
      → All (IsOther memory w t.id) infos
      → (cs : List Contact) × (unknown_nodes memory now w others t infos ≡ ok cs)
        × All (λ (c : Contact). (a : Text) × (c.id ≡ w.generate_node_id a)) cs
  unfolding unknown_nodes
  unknown_nodes-eq t [] v other = ([], refl, tt)
  unknown_nodes-eq t (info ∷ infos) v (other, others') =
      let (x, vx, read) = hash info.address in
      let (found, g, known, all, same) =
        has_node-get_nodes memory t (named_node w info).id x v read vx
          (λ e. other (read ∙ ap ok e)) in
      let (cs, e, good) = unknown_nodes-eq t infos v others' in
      elim (Bool-cases (is_some found)) [
        | inl there ↦ (cs, rw (known, e, there) refl, good)
        | inr new ↦ (named_node w info ∷ cs, rw (known, e, new) refl, ((info.address, refl), good))
      ]

  add_node-Ends :
      (t : Table) (node : Contact) (a : Text)
      → node.id ≡ w.generate_node_id a
      → IsTable memory t
      → (t' : Table) × (added : Bool) × (add_node memory now t (some node) ≡ ok (t', added))
        × IsTable memory t'
        × (t'.id ≡ t.id)
  unfolding add_node
  add_node-Ends t node a e v =
      let (x, vx, read) = hash a in
      let (t', added) = add_identified memory now t node x in
      let done : add_node memory now t (some node) ≡ ok (t', added) = rw (e, read) refl in
      (
        t',
        added,
        done,
        add_node-IsTable memory now t t' (some node) added v done,
        id-add_node memory now t t' (some node) added done,
      )

  add_pinged-Ends :
      (nodes : List Contact) (t : Table)
      → All (λ (c : Contact). (a : Text) × (c.id ≡ w.generate_node_id a)) nodes
      → IsTable memory t
      → Ends memory t (add_pinged memory now w others nodes t)
  unfolding add_pinged
  add_pinged-Ends [] t h v = (t, refl, v, refl)
  add_pinged-Ends (node ∷ nodes) t ((a, e), h) v =
      elim (Bool-cases (others.ping node.address node.port)) [
        | inl up ↦
            let (t', added, done, v', same) = add_node-Ends t node a e v in
            let (t'', done', v'', same') = add_pinged-Ends nodes t' h v' in
            (t'', rw (up, done) done', v'', same' ∙ same)
        | inr down ↦ rw down (add_pinged-Ends nodes t h v)
      ]

  ask-Ends :
      (address : Text) (port : ℕ) (target : Text) (t : Table)
      → IsTable memory t
      → All (IsOther memory w t.id) (others.find_node address port target)
      → Ends memory t (ask memory now w others address port target t)
  unfolding ask
  ask-Ends address port target t v other =
      let (cs, e, good) = unknown_nodes-eq t (others.find_node address port target) v other in
      rw e (add_pinged-Ends cs t good v)

  module _ (own : XorId)
      (others_other : (address : Text) (port : ℕ) (target : Text)
        → All (IsOther memory w own) (others.find_node address port target)) where
    ask_own :
        (address : Text) (port : ℕ) (target : Text) (t : Table)
        → IsTable memory t
        → t.id ≡ own
        → Ends memory t (ask memory now w others address port target t)
    ask_own address port target t v e = ask-Ends address port target t v (
        subst (λ (x : XorId). All (IsOther memory w x) (others.find_node address port target))
          (sym e) (others_other address port target))

    -- Joining the network ends, whatever the bootstrap nodes answer, with a well-formed table, where
    -- no node names this one.
    pub join-Ends :
        (id : Text) (bs : List BootstrapNode) (t : Table)
        → IsTable memory t
        → t.id ≡ own
        → Ends memory t (join memory now w others id bs t)
    unfolding join
    join-Ends id [] t v e = (t, refl, v, refl)
    join-Ends id (b ∷ bs) t v e = elim (Bool-cases (others.ping b.address b.port)) [
      | inl up ↦
          let (t', done, v', same) = ask_own b.address b.port id t v e in
          let (t'', done', v'', same') = join-Ends id bs t' v' (same ∙ e) in
          (t'', rw (join, up, done) done', v'', same' ∙ same)
      | inr down ↦ rw (join, down) (join-Ends id bs t v e)
    ]

    ask_each-Ends :
        (target : Text) (cs : List Contact) (t : Table)
        → IsTable memory t
        → t.id ≡ own
        → Ends memory t (ask_each memory now w others target cs t)
    unfolding ask_each
    ask_each-Ends target [] t v e = (t, refl, v, refl)
    ask_each-Ends target (c ∷ cs) t v e =
        let (t', done, v', same) = ask_own c.address c.port target t v e in
        let (t'', done', v'', same') = ask_each-Ends target cs t' v' (same ∙ e) in
        (t'', rw done done', v'', same' ∙ same)

    module _ (std : Sorting) (coin : ℕ → ℕ → Bool) where
      refresh_bucket-Ends :
          (i : ℕ) (t : Table)
          → i < bucket_count
          → IsTable memory t
          → t.id ≡ own
          → Ends memory t (refresh_bucket memory now w others std coin i t)
      unfolding refresh_bucket
      refresh_bucket-Ends i t h v e = elim (Bool-cases (is_fresh now (bucket_at t i))) [
        | inl fresh ↦ (t, rw (refresh_bucket, fresh) refl, v, refl)
        | inr stale ↦
            let (r, drawn, vr, place) = generate_random_node_id-distance (coin i) t.id i v.own h in
            let target = node_id_to_hex_string r in
            let (ss, chosen, rest, scored, covered, found, perm, count, sorted, nearer) =
              find_closest_nodes_lem memory std t target r max_closest_nodes v
                (hex_string_to_node_id-node_id_to_hex_string memory r vr) in
            let (t', done, v', same) =
              ask_each-Ends target (map (λ (s : ScoredNode). s.node) chosen) t v e in
            (t', rw (refresh_bucket, stale, drawn, found) done, v', same)
      ]

      refresh_buckets-Ends :
          (n i : ℕ) (t : Table)
          → n + i ≤ bucket_count
          → IsTable memory t
          → t.id ≡ own
          → Ends memory t (refresh_buckets memory now w others std coin n i t)
      unfolding refresh_buckets
      refresh_buckets-Ends zero i t h v e = (t, refl, v, refl)
      refresh_buckets-Ends (suc n) i t h v e =
          let (t', done, v', same) = refresh_bucket-Ends i t (omega (arith, h)) v e in
          let (t'', done', v'', same') =
            refresh_buckets-Ends n (i + 1) t' (omega (arith, h)) v' (same ∙ e) in
          (t'', rw done done', v'', same' ∙ same)

      -- A pass of `refresh` over a well-formed table ends, with a well-formed table of the same
      -- identifier, where no node names this one and every identifier that is made of an address
      -- reads: every stale bucket has a random identifier to look for, and the search for it finds
      -- its nodes.
      pub refresh-Ends :
          (t : Table)
          → IsTable memory t
          → t.id ≡ own
          → Ends memory t (refresh memory now w others std coin t)
      unfolding refresh
      refresh-Ends t v e = refresh_buckets-Ends bucket_count 0 t (omega arith) v e

  -- Rebuilding the table from the rows of the database ends with a well-formed table, and leaves the
  -- rows whose nodes answer a ping.
  rebuild_rows-Ends :
      (rows : List (Text × ℕ)) (t : Table)
      → IsTable memory t
      → (rows' : List (Text × ℕ)) × (t' : Table) × (rebuild_rows memory now w others rows t
          ≡ ok (rows', t'))
        × All (λ (r : Text × ℕ). others.ping r.0 r.1 ≡ true) rows'
        × IsTable memory t'
        × (t'.id ≡ t.id)
  unfolding rebuild_rows
  rebuild_rows-Ends [] t v = ([], t, refl, tt, v, refl)
  rebuild_rows-Ends ((address, port) ∷ rows) t v = elim (Bool-cases (others.ping address port)) [
    | inr down ↦
        let (rows', t', done, good, v', same) = rebuild_rows-Ends rows t v in
        (rows', t', rw (rebuild_rows, down) done, good, v', same)
    | inl up ↦ elim (Bool-cases (is_hardcoded w.bootstrap_nodes (remote_node w address port))) [
      | inl seed ↦
          let (rows', t', done, good, v', same) = rebuild_rows-Ends rows t v in
          (
            (address, port) ∷ rows',
            t',
            rw (rebuild_rows, up, seed, done) refl,
            (up, good),
            v',
            same,
          )
      | inr other ↦
          let (t₁, added, done₁, v₁, same₁) =
            add_node-Ends t (remote_node w address port) address refl v in
          let (rows', t', done, good, v', same) = rebuild_rows-Ends rows t₁ v₁ in
          (
            (address, port) ∷ rows',
            t',
            rw (rebuild_rows, up, other, done₁, done) refl,
            (up, good),
            v',
            same ∙ same₁,
          )
    ]
  ]
