-- ===== src/Dht/System.antt =====
-- A node of src/core/protocol/p2p as a system of steps: the messages that it handles, on each network, the
-- requests of its user's programs, the checks of other nodes and the search for them, the peers that
-- Reticulum announces, the nodes read back from the database, the expiry of values and their
-- publication. The operations run whole, in any order, but for a query whose reply cannot be sent; what other nodes answer, the clock and the random numbers may
-- be others at each step.
use testshop.Prelude.{
  ℕ, ◌≡◌, refl, sym, ap, subst, ◌∙◌, Bool, true, false, Option, some, [], arith, Text, lookup, ok,
  ok_injective, >>=-eq-ok, List,
}
use testshop.Dht.Platform.{Platform}
use testshop.Dht.Id.{XorId, IsXorId, hex_string_to_node_id}
use testshop.Dht.Table.{Contact, Table, new_table, add_node}
use testshop.Dht.Table.Valid.{IsTable, IsTable-new_table}
use testshop.Dht.Table.Closest.{Sorting}
use testshop.Dht.Providers.{IsProviders}
use testshop.Dht.Publish.{Shuffling}
use testshop.Dht.Health.{BootstrapNode, heartbeat}
use testshop.Dht.Health.Round.{heartbeat-IsTable}
use testshop.Dht.Store.Expiry.{expire}
use testshop.Dht.KeyMapper.{KeyMapper}
use testshop.Dht.Message.{DhtMessage}
use testshop.Dht.Registry.{Registry, registry, IsAccepted, Evolves, here, next, AllAccepted}
use testshop.Dht.Registry.Stored.{expire-Moves, Moves-AllAccepted}
use testshop.Dht.Node.{Node, Network, publish}
use testshop.Dht.Node.Kept.{IsKept, publish-IsKept}
use testshop.Dht.Rpc.Ipc.{Host}
use testshop.Dht.Rpc.Process.{protobuf_process}
use testshop.Dht.Rpc.Local.{protobuf_process-IsKept}
use testshop.Dht.Discover.{Others, join, refresh, rebuild_routing_table}
use testshop.Dht.Discover.Kept.{
  Keeps, add_node-Keeps, join-Keeps, refresh-Keeps, rebuild_routing_table-Keeps,
}
use testshop.Dht.Listener.{
  Wire, Handled, remote_node, handle_message, handle_reticulum_message,
  handle_reticulum_peer_discovered,
}
use testshop.Dht.Listener.Delivered.{handle_message-IsKept, handle_reticulum_message-IsKept}

-- The node that the constructor makes, of an identifier and the bytes that it reads as.
abbrev pub new_node : Text → XorId → Text → ℕ → KeyMapper → Node
new_node id own address port key_mapper = record {
  id = id;
  address = address;
  port = port;
  store = record { stored = []; hash_table = []; mappings = [] };
  providers = [];
  table = new_table own;
  key_mapper = key_mapper;
}

-- Nobody answers: adding a node asks nobody.
abbrev silent : Others
silent = record { ping = λ address port. false; find_node = λ address port target. [] }

module _ (p : Platform) (memory : ℕ → ℕ) (w : Wire) where
  pub data Step (n : Node) : Node → Type 0 where
    handles :
        (now : ℕ) (std : Sorting) (rng : Shuffling) (net : Network) (host : Host)
        (msg : Option DhtMessage) (sender : Text) (pending : List Text) (h : Handled)
        → handle_message p memory now std rng net host w msg sender
            (record { node = n; pending_requests = pending })
          ≡ ok h
        → Step n h.after.node
    serves :
        (now : ℕ) (std : Sorting) (rng : Shuffling) (net : Network) (host : Host)
        (req : Option DhtMessage) (r : DhtMessage × Node)
        → protobuf_process p memory now std rng net host true req n ≡ ok r
        → Step n r.1
    -- A query whose reply cannot be sent: what it did stays done, the callbacks do not run.
    unsent :
        (now : ℕ) (std : Sorting) (rng : Shuffling) (net : Network) (host : Host)
        (req : Option DhtMessage) (r : DhtMessage × Node)
        → protobuf_process p memory now std rng net host false req n ≡ ok r
        → Step n r.1
    hears :
        (now : ℕ) (std : Sorting) (rng : Shuffling) (net : Network) (host : Host)
        (msg : Option DhtMessage) (pending : List Text) (h : Handled)
        → handle_reticulum_message p memory now std rng net host w msg
            (record { node = n; pending_requests = pending })
          ≡ ok h
        → Step n h.after.node
    discovers :
        (now : ℕ) (destination_hash : Text) (n' : Node)
        → handle_reticulum_peer_discovered memory now w destination_hash n ≡ ok n'
        → Step n n'
    rebuilds :
        (now : ℕ) (others : Others) (self : Contact) (rows : List (Text × ℕ))
        (r : List (Text × ℕ) × Table)
        → rebuild_routing_table memory now w others self rows n.table ≡ ok r
        → Step n (record n { table = r.1 })
    checks :
        (now : ℕ) (ping : Contact → Bool) (t : Table)
        → heartbeat memory now w.bootstrap_nodes ping n.table ≡ ok t
        → Step n (record n { table = t })
    joins :
        (now : ℕ) (others : Others) (bs : List BootstrapNode) (t : Table)
        → join memory now w others n.id bs n.table ≡ ok t
        → Step n (record n { table = t })
    refreshes :
        (now : ℕ) (others : Others) (std : Sorting) (coin : ℕ → ℕ → Bool) (t : Table)
        → refresh memory now w others std coin n.table ≡ ok t
        → Step n (record n { table = t })
    expires :
        (now : ℕ) (key value : Text) → Step n (record n { store = expire p now key value n.store })
    publishes :
        (now : ℕ) (std : Sorting) (rng : Shuffling) (net : Network) (key value : Text)
        (r : ℕ × Node)
        → publish p memory now std rng net key value n ≡ ok r
        → Step n r.1

  -- What a node may become.
  pub data Reach (start : Node) : Node → Type 0 where
    starts : Reach start start
    steps : {n n' : Node} → Reach start n → Step n n' → Reach start n'

  -- The invariant of a node: its table is of its identifier and well formed, its providers are, and
  -- every entry of its hash table is an accepted value.
  pub record IsNode (n : Node) : Type 0 where
    pub table : IsTable memory n.table
    pub own : hex_string_to_node_id memory n.id ≡ ok n.table.id
    pub providers : IsProviders n.providers
    pub accepted : AllAccepted p (registry n.store)

  with_table :
      (n : Node) (t : Table) → Keeps memory n.table t → IsKept p memory n (record n { table = t })
  with_table n t k = record { id = refl; table = k; providers = λ x. x; evolves = here }

  discovers-IsKept :
      (now : ℕ) (destination_hash : Text) (n n' : Node)
      → handle_reticulum_peer_discovered memory now w destination_hash n ≡ ok n'
      → IsKept p memory n n'
  unfolding handle_reticulum_peer_discovered
  discovers-IsKept now destination_hash n n' e =
      let node = remote_node w destination_hash 0 in
      let ((t, added), e₁, e₂) = >>=-eq-ok (add_node memory now n.table (some node)) _ e in
      subst (IsKept p memory n) (ok_injective e₂)
        (with_table n t (add_node-Keeps memory now w silent node n.table t added e₁))

  Step-IsKept : {n n' : Node} → Step n n' → IsKept p memory n n'
  Step-IsKept {n} (handles now std rng net host msg sender pending h e) =
      handle_message-IsKept p memory now std rng net host w msg sender
        (record { node = n; pending_requests = pending }) h e
  Step-IsKept {n} (serves now std rng net host req r e) =
      protobuf_process-IsKept p memory now std rng net host true req n r e
  Step-IsKept {n} (unsent now std rng net host req r e) =
      protobuf_process-IsKept p memory now std rng net host false req n r e
  Step-IsKept {n} (hears now std rng net host msg pending h e) =
      handle_reticulum_message-IsKept p memory now std rng net host w msg
        (record { node = n; pending_requests = pending }) h e
  Step-IsKept {n} (discovers now destination_hash n' e) =
      discovers-IsKept now destination_hash n n' e
  Step-IsKept {n} (rebuilds now others self rows r e) =
      with_table n r.1 (rebuild_routing_table-Keeps memory now w others self rows n.table r e)
  Step-IsKept {n} (checks now ping t e) = with_table n t (λ v.
      let (t', e', good, same) = heartbeat-IsTable memory now w.bootstrap_nodes ping n.table v in
      let same' : t' ≡ t = ok_injective (sym e' ∙ e) in
      subst (λ (x : Table). IsTable memory x × (x.id ≡ n.table.id)) same' (good, same))
  Step-IsKept {n} (joins now others bs t e) =
      with_table n t (join-Keeps memory now w others n.id bs n.table t e)
  Step-IsKept {n} (refreshes now others std coin t e) =
      with_table n t (refresh-Keeps memory now w others std coin n.table t e)
  Step-IsKept {n} (expires now key value) = record {
    id = refl;
    table = λ v'. (v', refl);
    providers = λ x. x;
    evolves = next here (expire-Moves p now key value n.store);
  }
  Step-IsKept {n} (publishes now std rng net key value r e) =
      publish-IsKept p memory now std rng net key value n r e

  Evolves-AllAccepted : {a b : Registry} → Evolves p a b → AllAccepted p a → AllAccepted p b
  Evolves-AllAccepted here v = v
  Evolves-AllAccepted (next e m) v = Moves-AllAccepted p m (Evolves-AllAccepted e v)

  IsKept-IsNode : {n n' : Node} → IsKept p memory n n' → IsNode n → IsNode n'
  IsKept-IsNode {n} {n'} k v =
      let (t, e) = k.table v.table in
      record {
        table = t;
        own = ap (hex_string_to_node_id memory) k.id ∙ v.own ∙ ap ok (sym e);
        providers = k.providers v.providers;
        accepted = Evolves-AllAccepted k.evolves v.accepted;
      }

  -- Every step of a node keeps the invariant.
  pub Step-IsNode : {n n' : Node} → Step n n' → IsNode n → IsNode n'
  Step-IsNode s = IsKept-IsNode (Step-IsKept s)

  -- Whatever a node becomes, the invariant holds of it when it held at the start.
  pub Reach-IsNode : {start n : Node} → Reach start n → IsNode start → IsNode n
  Reach-IsNode starts v = v
  Reach-IsNode (steps r s) v = Step-IsNode s (Reach-IsNode r v)

  pub new_node-IsNode :
      (id address : Text) (own : XorId) (port : ℕ) (key_mapper : KeyMapper)
      → IsXorId own
      → hex_string_to_node_id memory id ≡ ok own
      → IsNode (new_node id own address port key_mapper)
  unfolding lookup new_table
  new_node-IsNode id address own port key_mapper v read = record {
    table = IsTable-new_table memory own v;
    own = read;
    providers = λ h. refl;
    accepted = λ key value at. absurd (ground arith);
  }

  -- In a node that started with nothing, after any steps, every value that is stored was accepted: its
  -- key has 64 bytes, it parses and is of a known kind, and its signature is verified where its kind
  -- has one.
  pub Reach-IsAccepted :
      (id address : Text) (own : XorId) (port : ℕ) (key_mapper : KeyMapper) (n : Node)
      (key value : Text)
      → IsXorId own
      → hex_string_to_node_id memory id ≡ ok own
      → Reach (new_node id own address port key_mapper) n
      → lookup key n.store.stored ≡ some value
      → IsAccepted p key value
  Reach-IsAccepted id address own port key_mapper n key value v read r =
      (Reach-IsNode r (new_node-IsNode id address own port key_mapper v read)).accepted key value
