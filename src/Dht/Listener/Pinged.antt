-- ===== src/Dht/Listener/Pinged.antt =====
-- src/core/protocol/p2p/node.cpp: the callbacks `on_ping` and `on_map`.
use testshop.Prelude.{
  ℕ, ◌≡◌, ◌≢◌, refl, subst, inl, inr, Bool, false, ◌&&◌, not, some, [], arith, Text, bytes, text_eq,
  text_eq_iff, text_eq_refl, lookup, Outcome, ok, faults, >>=-eq-ok, ok_injective, split_if,
  Bool-cases, Option-cases,
}
use testshop.Dht.Platform.{Platform}
use testshop.Dht.Id.{IsXorId, hex_string_to_node_id}
use testshop.Dht.Table.{has_node, add_node}
use testshop.Dht.Table.Add.{add_node-IsTable, id-add_node}
use testshop.Dht.Table.Lookup.{own_id_faults}
use testshop.Dht.Providers.{add_provider-IsProviders}
use testshop.Dht.Health.{is_hardcoded}
use testshop.Dht.Message.{Query}
use testshop.Dht.Registry.{here}
use testshop.Dht.Node.{Node}
use testshop.Dht.Node.Kept.{IsKept, IsKept-refl}
use testshop.Dht.Listener.{
  reticulum, Wire, sender_address, sender_port, remote_node, welcome, on_ping, note_provider,
  on_map,
}

module _ (p : Platform) (memory : ℕ → ℕ) (now : ℕ) (w : Wire) where
  unmoved :
      (n n' : Node) (b b' : Bool)
      → ◌≡◌ {A = Outcome (Node × Bool)} (ok (n, b)) (ok (n', b'))
      → IsKept p memory n n'
  unmoved n n' b b' h =
      subst (λ (x : Node × Bool). IsKept p memory n x.0) (ok_injective h) (IsKept-refl p memory n)

  welcome-IsKept :
      (sender_id address : Text) (port : ℕ) (n n' : Node) (b : Bool)
      → welcome memory now w sender_id address port n ≡ ok (n', b)
      → IsKept p memory n n'
  unfolding welcome
  welcome-IsKept sender_id address port n n' b =
      split_if (text_eq sender_id (w.generate_node_id address))
        (λ t h.
          let (known, e, h') = >>=-eq-ok (has_node memory n.table sender_id) _ h in
          split_if (not known && not (is_hardcoded w.bootstrap_nodes (remote_node w address port)))
            (λ t' h''.
              let ((t'', added), e', h₃) =
                >>=-eq-ok (add_node memory now n.table (some (remote_node w address port))) _ h'' in
              subst (λ (x : Node × Bool). IsKept p memory n x.0) (ok_injective h₃)
                (record {
                  id = refl;
                  table = λ v. (
                    add_node-IsTable memory now n.table t'' (some (remote_node w address port))
                        added v e',
                    id-add_node memory now n.table t'' (some (remote_node w address port)) added e',
                  );
                  providers = λ x. x;
                  evolves = here;
                }))
            (λ t'. unmoved n n' false b) h')
        (λ t. unmoved n n' false b)

  -- A ping that returns keeps the node's identifier, a well-formed table, and the rest.
  pub on_ping-IsKept :
      (q : Query) (sender : Text) (n n' : Node) (b : Bool)
      → on_ping memory now w q sender n ≡ ok (n', b)
      → IsKept p memory n n'
  unfolding on_ping
  on_ping-IsKept q sender n n' b =
      split_if (text_eq q.query (bytes "ping"))
        (λ t h.
          let (address, e, h') = >>=-eq-ok (sender_address w sender) _ h in
          elim (Option-cases (lookup (bytes "id") q.args)) [
            | inl miss ↦ unmoved n n' false b (rw miss at h')
            | inr (sender_id, at) ↦
                elim (Option-cases (sender_port w (lookup (bytes "port") q.args))) [
                  | inl bad ↦ unmoved n n' false b (rw (at, bad) at h')
                  | inr (port, at') ↦
                      welcome-IsKept sender_id address port n n' b (rw (at, at') at h')
                ]
          ])
        (λ t. unmoved n n' false b)

  note_provider-IsKept :
      (sender_id address : Text) (port : ℕ) (key : Text) (n : Node)
      → IsKept p memory n (note_provider w sender_id address port key n)
  unfolding note_provider
  note_provider-IsKept sender_id address port key n =
      elim (Bool-cases (text_eq sender_id (w.generate_node_id address))) [
        | inl t ↦
            rw (note_provider, t)
              (record {
                id = refl;
                table = λ v. (v, refl);
                providers =
                    add_provider-IsProviders key (record { address = address; port = port })
                      n.providers;
                evolves = here;
              })
        | inr t ↦ rw (note_provider, t) (IsKept-refl p memory n)
      ]

  -- A `map` that returns keeps the providers well formed, and the rest as it is.
  pub on_map-IsKept :
      (q : Query) (sender : Text) (n n' : Node) → on_map w q sender n ≡ ok n' → IsKept p memory n n'
  unfolding on_map
  on_map-IsKept q sender n n' =
      split_if (text_eq q.query (bytes "map"))
        (λ t h.
          let (address, e, h') = >>=-eq-ok (sender_address w sender) _ h in
          elim (Option-cases (lookup (bytes "id") q.args)) [
            | inl miss ↦ same (rw miss at h')
            | inr (sender_id, at) ↦
                elim (Option-cases (sender_port w (lookup (bytes "port") q.args))) [
                  | inl bad ↦ same (rw (at, bad) at h')
                  | inr (port, at') ↦ elim (Option-cases (lookup (bytes "key") q.args)) [
                    | inl miss ↦ same (rw (at, at', miss) at h')
                    | inr (key, at'') ↦
                        subst (λ (x : Node). IsKept p memory n x)
                          (ok_injective (rw (at, at', at'') at h'))
                          (note_provider-IsKept sender_id address port key n)
                  ]
                ]
          ])
        (λ t. same)
    where
      same : ok n ≡ ok n' → IsKept p memory n n'
      same h = subst (λ (x : Node). IsKept p memory n x) (ok_injective h) (IsKept-refl p memory n)

module _ (memory : ℕ → ℕ) (now : ℕ) (w : Wire) where
  -- A ping whose sender takes this node's own address, and with it this node's identifier, reads past
  -- the end of the buckets.
  pub own_ping_faults :
      (q : Query) (sender address : Text) (port : ℕ) (n : Node)
      → q.query ≡ bytes "ping"
      → sender_address w sender ≡ ok address
      → lookup (bytes "id") q.args ≡ some (w.generate_node_id address)
      → sender_port w (lookup (bytes "port") q.args) ≡ some port
      → IsXorId n.table.id
      → hex_string_to_node_id memory (w.generate_node_id address) ≡ ok n.table.id
      → on_ping memory now w q sender n ≡ faults
  unfolding on_ping welcome text_eq bytes
  own_ping_faults q sender address port n call from at at' v read =
      let own = own_id_faults memory now n.table (w.generate_node_id address) v read in
      let same = text_eq_refl (w.generate_node_id address) in
      rw (on_ping, call, from) (rw (at, at') (rw (welcome, same, own.0) refl))

  -- On Reticulum the address of the sender is never set: unless its identifier is that of the empty
  -- address, neither its ping nor its `map` changes anything.
  pub reticulum_ignored :
      (q : Query) (sender sender_id : Text) (n : Node)
      → w.network_type ≡ reticulum
      → lookup (bytes "id") q.args ≡ some sender_id
      → sender_id ≢ w.generate_node_id []
      → (on_ping memory now w q sender n ≡ ok (n, false)) × (on_map w q sender n ≡ ok n)
  unfolding on_ping on_map welcome note_provider
  reticulum_ignored q sender sender_id n net at other =
      let differs : text_eq sender_id (w.generate_node_id []) ≡ false =
        ground (arith, text_eq_iff sender_id (w.generate_node_id [])) in
      (ground arith, ground arith)
