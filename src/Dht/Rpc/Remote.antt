-- ===== src/Dht/Rpc/Remote.antt =====
-- src/core/protocol/rpc/protobuf.cpp: what the requests of other nodes may change of a node.
use testshop.Prelude.{
  ℕ, ◌≡◌, ◌≢◌, refl, sym, ap, subst, ◌⊎◌, inl, inr, true, false, ◌&&◌, not, Option, none, some,
  arith, Text, bytes, text_eq, lookup, has_key, ok, >>=-eq-ok, ok_injective, split_if,
}
use testshop.Dht.Platform.{Platform}
use testshop.Dht.Table.Closest.{Sorting}
use testshop.Dht.Publish.{Shuffling}
use testshop.Dht.Message.{Query, Response, DhtMessage, not_set, query, response, error}
use testshop.Dht.Node.{Node, Network}
use testshop.Dht.Rpc.{version, Answer}
use testshop.Dht.Rpc.Ipc.{Host}
use testshop.Dht.Rpc.Process.{early, prepared, call_method, process_query, protobuf_process}
use testshop.Dht.Registry.{IsAccepted}
use testshop.Dht.Rpc.Methods.{
  IsRemote, IsRemote-refl, unmoved, get_providers_method-IsRemote, find_node_method-IsRemote,
  get_method-IsRemote, put_method-IsRemote, map_method-IsRemote,
}

module _ (p : Platform) (q : Query) (memory : ℕ → ℕ) (now : ℕ) (std : Sorting) (rng : Shuffling)
    (net : Network) (host : Host) where
  call_method-IsRemote :
      (resp : Response) (n : Node) (a : Answer)
      → call_method p memory now std rng net host false q resp n ≡ ok a
      → IsRemote p q n a.node
  unfolding call_method
  call_method-IsRemote resp n a =
      split_if (text_eq q.query (bytes "ping")) (λ t. unmoved p q n _ a refl)
        (λ t.
          split_if (text_eq q.query (bytes "find_node"))
            (λ t'. find_node_method-IsRemote p q memory now std resp n a)
            (λ t'.
              split_if (text_eq q.query (bytes "get_providers"))
                (λ t''. get_providers_method-IsRemote p q resp n a)
                (λ t''.
                  split_if (text_eq q.query (bytes "get"))
                    (λ g. get_method-IsRemote p q memory now std resp n a)
                    (λ g.
                      split_if (text_eq q.query (bytes "put"))
                        (λ is_put. put_method-IsRemote p q memory now std resp n a is_put)
                        (λ is_put.
                          split_if (text_eq q.query (bytes "map"))
                            (λ m. map_method-IsRemote p q memory now std resp n a)
                            (λ m.
                              split_if (text_eq q.query (bytes "remove") && false)
                                (λ x. absurd (ground arith))
                                (λ x.
                                  split_if (text_eq q.query (bytes "clear") && false)
                                    (λ x'. absurd (ground arith))
                                    (λ x'. unmoved p q n _ a refl))))))))

module _ (p : Platform) (memory : ℕ → ℕ) (now : ℕ) (std : Sorting) (rng : Shuffling) (net : Network)
    (host : Host) where
  pub process_query-IsRemote :
      (q : Query) (n : Node) (r : DhtMessage × Node)
      → process_query p memory now std rng net host false q n ≡ ok r
      → IsRemote p q n r.1
  unfolding process_query
  process_query-IsRemote q n r =
      split_if (not (text_eq q.version version)) (λ t. refused (early (bytes "Version mismatch")))
        (λ t.
          split_if (not false && not (has_key (bytes "id") q.args))
            (λ t'. refused (early (bytes "Missing id in args")))
            (λ t' h.
              let (a, e, h') =
                >>=-eq-ok (call_method p memory now std rng net host false q (prepared q n) n) _
                  h in
              subst (λ (x : DhtMessage × Node). IsRemote p q n x.1) (ok_injective h')
                (call_method-IsRemote p q memory now std rng net host (prepared q n) n a e)))
    where
      refused : (m : DhtMessage) → ok (m, n) ≡ ok r → IsRemote p q n r.1
      refused m h =
          subst (λ (x : DhtMessage × Node). IsRemote p q n x.1) (ok_injective h)
            (IsRemote-refl p q n)

  no_query :
      (req : Option DhtMessage) (n : Node) (r : DhtMessage × Node) (m : DhtMessage)
      → ok (m, n) ≡ ok r
      → ((q : Query) × (req ≡ some (query q)) × IsRemote p q n r.1) ⊎ (r.1 ≡ n)
  no_query req n r m h = inr (ap (λ (x : DhtMessage × Node). x.1) (sym (ok_injective h)))

  pub protobuf_process-cases :
      (req : Option DhtMessage) (n : Node) (r : DhtMessage × Node)
      → protobuf_process p memory now std rng net host false req n ≡ ok r
      → ((q : Query) × (req ≡ some (query q)) × IsRemote p q n r.1) ⊎ (r.1 ≡ n)
  unfolding protobuf_process
  protobuf_process-cases none n r h = no_query none n r _ h
  protobuf_process-cases (some (query q)) n r h = inl (q, refl, process_query-IsRemote q n r h)
  protobuf_process-cases (some not_set) n r h = no_query (some not_set) n r _ h
  protobuf_process-cases (some (response m)) n r h = no_query (some (response m)) n r _ h
  protobuf_process-cases (some (error e)) n r h = no_query (some (error e)) n r _ h

  -- When a request of another node is answered and an entry of the hash table is new or another one
  -- after it, the request is a `put` of that very value under that key, the key has 64 bytes, the
  -- value parses and is of a known kind, and its signature is verified where its kind has one.
  pub protobuf_process_entry :
      (req : Option DhtMessage) (n : Node) (r : DhtMessage × Node) (key value : Text)
      → protobuf_process p memory now std rng net host false req n ≡ ok r
      → lookup key r.1.store.stored ≡ some value
      → lookup key n.store.stored ≢ some value
      → (q : Query) × (req ≡ some (query q))
        × (text_eq q.query (bytes "put") ≡ true)
        × (lookup (bytes "key") q.args ≡ some key)
        × (lookup (bytes "value") q.args ≡ some value)
        × IsAccepted p key value
  protobuf_process_entry req n r key value h at new = elim (protobuf_process-cases req n r h) [
    | inr same ↦ absurd (new (subst (λ (x : Node). lookup key x.store.stored ≡ some value) same at))
    | inl (q, e, remote) ↦
        let (is_put, ek, ev, good) = remote.source key value at new in (q, e, is_put, ek, ev, good)
  ]

  -- A request of another node that is answered leaves the node's identity, its routing table and its
  -- providers as they were.
  pub protobuf_process_frame :
      (req : Option DhtMessage) (n : Node) (r : DhtMessage × Node)
      → protobuf_process p memory now std rng net host false req n ≡ ok r
      → (r.1.id ≡ n.id) × (r.1.table ≡ n.table) × (r.1.providers ≡ n.providers)
  protobuf_process_frame req n r h = elim (protobuf_process-cases req n r h) [
    | inr same ↦ (
      ap (λ (x : Node). x.id) same,
      ap (λ (x : Node). x.table) same,
      ap (λ (x : Node). x.providers) same,
    )
    | inl (q, e, remote) ↦ (remote.id, remote.table, remote.providers)
  ]
