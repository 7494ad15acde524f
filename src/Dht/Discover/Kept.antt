-- ===== src/Dht/Discover/Kept.antt =====
-- src/core/protocol/p2p/node.cpp: what the search for other nodes keeps of the table when it returns,
-- whatever they answer.
use testshop.Prelude.{
  ap, not, ℕ, zero, suc, ◌+◌, ◌≡◌, refl, subst, ◌∙◌, Bool, some, List, [], ◌∷◌, Text, Outcome, ok,
  ◌>>=◌, >>=-eq-ok, ok_injective, split_if,
}
use testshop.Dht.Id.{node_id_to_hex_string, generate_random_node_id}
use testshop.Dht.Table.{Contact, Table, bucket_at, bucket_count, add_node}
use testshop.Dht.Table.Valid.{IsTable}
use testshop.Dht.Table.Add.{add_node-IsTable, id-add_node}
use testshop.Dht.Table.Closest.{Sorting, find_closest_nodes}
use testshop.Dht.Health.{BootstrapNode, is_hardcoded}
use testshop.Dht.Retrieve.{max_closest_nodes}
use testshop.Dht.Listener.{Wire, remote_node}
use testshop.Dht.Discover.{
  Others, is_fresh, unknown_nodes, add_pinged, ask, join, ask_each, refresh_bucket, refresh_buckets,
  refresh, rebuild_rows, rebuild_routing_table,
}

-- A table of the same identifier, well formed where the first is.
abbrev pub Keeps : (ℕ → ℕ) → Table → Table → Type 0
Keeps memory t t' = IsTable memory t → IsTable memory t' × (t'.id ≡ t.id)

module _ (memory : ℕ → ℕ) (now : ℕ) (w : Wire) (others : Others) where
  Keeps-refl : (t t' : Table) → ok t ≡ ok t' → Keeps memory t t'
  Keeps-refl t t' h = subst (Keeps memory t) (ok_injective h) (λ v. (v, refl))

  Keeps-trans : (t t' t'' : Table) → Keeps memory t t' → Keeps memory t' t'' → Keeps memory t t''
  Keeps-trans t t' t'' k k' v = let (v', e) = k v in let (v'', e') = k' v' in (v'', e' ∙ e)

  -- A step of the search, and the rest of it.
  Keeps-bind :
      (t t'' : Table) (first : Outcome Table) (rest : Table → Outcome Table)
      → ((t' : Table) → first ≡ ok t' → Keeps memory t t')
      → ((t' : Table) → rest t' ≡ ok t'' → Keeps memory t' t'')
      → (first >>= rest) ≡ ok t''
      → Keeps memory t t''
  Keeps-bind t t'' first rest k k' h =
      let (t', e, h') = >>=-eq-ok first rest h in Keeps-trans t t' t'' (k t' e) (k' t' h')

  pub add_node-Keeps :
      (node : Contact) (t t' : Table) (added : Bool)
      → add_node memory now t (some node) ≡ ok (t', added)
      → Keeps memory t t'
  add_node-Keeps node t t' added e v = (
    add_node-IsTable memory now t t' (some node) added v e,
    id-add_node memory now t t' (some node) added e,
  )

  add_pinged-Keeps :
      (nodes : List Contact) (t t' : Table)
      → add_pinged memory now w others nodes t ≡ ok t'
      → Keeps memory t t'
  unfolding add_pinged
  add_pinged-Keeps [] t t' = Keeps-refl t t'
  add_pinged-Keeps (node ∷ nodes) t t' =
      split_if (others.ping node.address node.port)
        (λ up h.
          let ((t₁, added), e, h') = >>=-eq-ok (add_node memory now t (some node)) _ h in
          Keeps-trans t t₁ t' (add_node-Keeps node t t₁ added e) (add_pinged-Keeps nodes t₁ t' h'))
        (λ down. add_pinged-Keeps nodes t t')

  ask-Keeps :
      (address : Text) (port : ℕ) (target : Text) (t t' : Table)
      → ask memory now w others address port target t ≡ ok t'
      → Keeps memory t t'
  unfolding ask
  ask-Keeps address port target t t' h =
      let (cs, e, h') =
        >>=-eq-ok (unknown_nodes memory now w others t (others.find_node address port target)) _
          h in
      add_pinged-Keeps cs t t' h'

  -- Joining the network keeps a well-formed table, when it returns.
  pub join-Keeps :
      (id : Text) (bs : List BootstrapNode) (t t' : Table)
      → join memory now w others id bs t ≡ ok t'
      → Keeps memory t t'
  unfolding join
  join-Keeps id [] t t' = Keeps-refl t t'
  join-Keeps id (b ∷ bs) t t' =
      split_if (others.ping b.address b.port)
        (λ up.
          Keeps-bind t t' (ask memory now w others b.address b.port id t) _
            (ask-Keeps b.address b.port id t) (λ t₁. join-Keeps id bs t₁ t'))
        (λ down. join-Keeps id bs t t')

  ask_each-Keeps :
      (target : Text) (cs : List Contact) (t t' : Table)
      → ask_each memory now w others target cs t ≡ ok t'
      → Keeps memory t t'
  unfolding ask_each
  ask_each-Keeps target [] t t' = Keeps-refl t t'
  ask_each-Keeps target (c ∷ cs) t t' =
      Keeps-bind t t' (ask memory now w others c.address c.port target t) _
        (ask-Keeps c.address c.port target t) (λ t₁. ask_each-Keeps target cs t₁ t')

  module _ (std : Sorting) (coin : ℕ → ℕ → Bool) where
    refresh_bucket-Keeps :
        (i : ℕ) (t t' : Table)
        → refresh_bucket memory now w others std coin i t ≡ ok t'
        → Keeps memory t t'
    unfolding refresh_bucket
    refresh_bucket-Keeps i t t' =
        split_if (is_fresh now (bucket_at t i)) (λ fresh. Keeps-refl t t')
          (λ stale h.
            let (r, e, h') = >>=-eq-ok (generate_random_node_id (coin i) t.id i) _ h in
            let (cs, e', h'') =
              >>=-eq-ok
                (find_closest_nodes memory std t (node_id_to_hex_string r) max_closest_nodes) _
                h' in
            ask_each-Keeps (node_id_to_hex_string r) cs t t' h'')

    refresh_buckets-Keeps :
        (n i : ℕ) (t t' : Table)
        → refresh_buckets memory now w others std coin n i t ≡ ok t'
        → Keeps memory t t'
    unfolding refresh_buckets
    refresh_buckets-Keeps zero i t t' = Keeps-refl t t'
    refresh_buckets-Keeps (suc n) i t t' =
        Keeps-bind t t' (refresh_bucket memory now w others std coin i t) _
          (refresh_bucket-Keeps i t) (λ t₁. refresh_buckets-Keeps n (i + 1) t₁ t')

    -- A pass of `refresh` keeps a well-formed table, when it returns.
    pub refresh-Keeps :
        (t t' : Table) → refresh memory now w others std coin t ≡ ok t' → Keeps memory t t'
    unfolding refresh
    refresh-Keeps t t' = refresh_buckets-Keeps bucket_count 0 t t'

  rebuild_rows-Keeps :
      (rows : List (Text × ℕ)) (t : Table) (r : List (Text × ℕ) × Table)
      → rebuild_rows memory now w others rows t ≡ ok r
      → Keeps memory t r.1
  unfolding rebuild_rows
  rebuild_rows-Keeps [] t r h =
      Keeps-refl t r.1 (ap (λ o. o >>= λ (x : List (Text × ℕ) × Table). ok x.1) h)
  rebuild_rows-Keeps ((address, port) ∷ rows) t r e =
      let left : (t' : Table)
          → (rebuild_rows memory now w others rows t' >>= λ (rows', t'').
              ok ((address, port) ∷ rows', t''))
            ≡ ok r
          → Keeps memory t' r.1 =
        λ t' h.
          let ((rows', t''), e, same) = >>=-eq-ok (rebuild_rows memory now w others rows t') _ h in
          subst (λ (x : List (Text × ℕ) × Table). Keeps memory t' x.1) (ok_injective same)
            (rebuild_rows-Keeps rows t' (rows', t'') e) in
      let node = remote_node w address port in
      split_if (not (others.ping address port)) (λ down. rebuild_rows-Keeps rows t r)
        (λ up.
          split_if (is_hardcoded w.bootstrap_nodes node) (λ seed. left t)
            (λ other h.
              let ((t₁, added), e₁, h') = >>=-eq-ok (add_node memory now t (some node)) _ h in
              Keeps-trans t t₁ r.1 (add_node-Keeps node t t₁ added e₁) (left t₁ h')))
        e

  -- Rebuilding the table from the rows of the database keeps it well formed, when it returns.
  pub rebuild_routing_table-Keeps :
      (self : Contact) (rows : List (Text × ℕ)) (t : Table) (r : List (Text × ℕ) × Table)
      → rebuild_routing_table memory now w others self rows t ≡ ok r
      → Keeps memory t r.1
  unfolding rebuild_routing_table
  rebuild_routing_table-Keeps self rows t r =
      split_if (is_hardcoded w.bootstrap_nodes self) (λ seed. rebuild_rows-Keeps rows t r)
        (λ other h.
          subst (λ (x : List (Text × ℕ) × Table). Keeps memory t x.1) (ok_injective h)
            (λ v. (v, refl)))
