-- ===== src/Dht/Rpc/Local.antt =====
-- src/core/protocol/rpc/protobuf.cpp: what the requests of the user's own programs (`ipc_mode`), and with
-- them all requests, keep of a node.
use testshop.Prelude.{
  ℕ, ◌≡◌, refl, sym, subst, inl, inr, Bool, true, false, ◌&&◌, not, Option, none, some, [], arith,
  Text, bytes, text_eq, text_eq_iff, text_eq_refl, Dict, lookup, lookup-erase, has_key, ok,
  >>=-eq-ok, ok_injective, split_if, Option-cases, if◌then◌else◌,
}
use testshop.Dht.Platform.{Platform}
use testshop.Dht.Table.{get_nodes}
use testshop.Dht.Table.Closest.{Sorting}
use testshop.Dht.Store.{Store}
use testshop.Dht.Store.Put.{put, cache, remove, remove_all}
use testshop.Dht.Publish.{Shuffling}
use testshop.Dht.Message.{
  Query, Response, DhtMessage, not_set, query, response, error, DhtResultCode,
}
use testshop.Dht.Registry.{registry, Moves, drops, clears, here, next}
use testshop.Dht.Registry.Stored.{put-Moves}
use testshop.Dht.Node.{Node, Network, map_value, publish, retrieve}
use testshop.Dht.Node.Kept.{
  map_value-IsMapped, IsKept, IsKept-refl, IsKept-trans, publish-IsKept, retrieve-IsKept,
}
use testshop.Dht.Rpc.{
  version, Answer, remove_stored, remove_row, remove_mapping, remove_method, clear_method,
}
use testshop.Dht.Rpc.Ipc.{Host, get_peers, status_reply, ipc_get, store_self, sent_code, ipc_put}
use testshop.Dht.Rpc.Process.{early, prepared, call_method, process_query, protobuf_process}
use testshop.Dht.Rpc.Methods.{
  IsRemote, get_providers_method-IsRemote, find_node_method-IsRemote, map_method-IsRemote,
  reply_value-node,
}
use testshop.Dht.Rpc.Remote.{protobuf_process-cases}

module _ (p : Platform) (memory : ℕ → ℕ) where
  pub IsRemote-IsKept : (q : Query) (n n' : Node) → IsRemote p q n n' → IsKept p memory n n'
  IsRemote-IsKept q n n' r = record {
    id = r.id;
    table = λ v. rw r.table (v, refl);
    providers = λ w. rw r.providers w;
    evolves = next here r.moves;
  }

  unmoved :
      (n : Node) (a b : Answer) → IsKept p memory n a.node → ok a ≡ ok b → IsKept p memory n b.node
  unmoved n a b k h = subst (λ (x : Answer). IsKept p memory n x.node) (ok_injective h) k

  early_reply :
      (m : DhtMessage) (n : Node) (r : DhtMessage × Node) → ok (m, n) ≡ ok r → IsKept p memory n r.1
  early_reply m n r h =
      subst (λ (x : DhtMessage × Node). IsKept p memory n x.1) (ok_injective h)
        (IsKept-refl p memory n)

  with_store :
      (n : Node) (s : Store)
      → Moves p (registry n.store) (registry s)
      → IsKept p memory n (record n { store = s })
  with_store n s m = record {
    id = refl;
    table = λ v. (v, refl);
    providers = λ w. w;
    evolves = next here m;
  }

  -- A value that is cached and mapped after the store was changed.
  cached-IsKept :
      (key value : Text) (n n' : Node) (s : Store)
      → Moves p (registry n.store) (registry s)
      → map_value p key value (record n { store = cache key value s }) ≡ ok n'
      → IsKept p memory n n'
  unfolding cache
  cached-IsKept key value n n' s moves h =
      let m = map_value-IsMapped p key value (record n { store = cache key value s }) n' h in
      record {
        id = m.id;
        table = λ v. rw m.table (v, refl);
        providers = λ w. rw m.providers w;
        evolves = next here (
            subst (λ (x : Dict Text). Moves p (registry n.store) (λ j. lookup j x)) (sym m.stored)
              moves);
      }

  clear_method-IsKept :
      (resp : Response) (n : Node) (a : Answer)
      → clear_method resp n ≡ ok a
      → IsKept p memory n a.node
  unfolding clear_method remove_all lookup
  clear_method-IsKept resp n a h =
      unmoved n _ a (with_store n (record n.store { stored = [] }) (clears (λ j. refl))) h

  removed_entry :
      (key j : Text) (s : Store)
      → lookup j (remove_mapping key (remove_row key (remove_stored key s))).1.stored
        ≡ (if text_eq key j then none else lookup j s.stored)
  unfolding remove
  removed_entry key j s = ground (arith, lookup-erase key j s.stored, text_eq_iff key j)

  remove_method-IsKept :
      (args : Dict Text) (resp : Response) (n : Node) (a : Answer)
      → remove_method args resp n ≡ ok a
      → IsKept p memory n a.node
  unfolding remove_method
  remove_method-IsKept args resp n a h = elim (Option-cases (lookup (bytes "key") args)) [
    | inl miss ↦ unmoved n _ a (IsKept-refl p memory n) (rw (remove_method, miss) at h)
    | inr (key, at) ↦
        let s = (remove_mapping key (remove_row key (remove_stored key n.store))).1 in
        unmoved n _ a
          (with_store n s (
            drops key (λ j e. ground (arith, removed_entry key j n.store, text_eq_iff key j))
              (ground (arith, removed_entry key key n.store, text_eq_refl key))))
          (rw (remove_method, at) at h)
  ]

  status_reply-IsKept :
      (host : Host) (resp : Response) (n : Node) (a : Answer)
      → status_reply memory host resp n ≡ ok a
      → IsKept p memory n a.node
  unfolding status_reply
  status_reply-IsKept host resp n a h =
      let (infos, e, h') = >>=-eq-ok (get_peers memory n.id (get_nodes n.table)) _ h in
      unmoved n _ a (IsKept-refl p memory n) h'

  module _ (now : ℕ) (std : Sorting) (rng : Shuffling) (net : Network) where
    ipc_get-IsKept :
        (host : Host) (args : Dict Text) (resp : Response) (n : Node) (a : Answer)
        → ipc_get p memory now std rng net host args resp n ≡ ok a
        → IsKept p memory n a.node
    unfolding ipc_get
    ipc_get-IsKept host args resp n a h = elim (Option-cases (lookup (bytes "key") args)) [
      | inl miss ↦ unmoved n _ a (IsKept-refl p memory n) (rw (ipc_get, miss) at h)
      | inr (key, at) ↦
          split_if (text_eq key (bytes "status")) (λ t. status_reply-IsKept host resp n a)
            (λ t h'.
              let ((v, n'), e, h'') = >>=-eq-ok (retrieve p memory now std rng net key n) _ h' in
              subst (λ (x : Node). IsKept p memory n x) (sym (reply_value-node v resp n' a h''))
                (retrieve-IsKept p memory now std rng net key n (v, n') e))
            (rw (ipc_get, at) at h)
    ]

    store_self-IsKept :
        (key value : Text) (sent : ℕ) (resp : Response) (code : DhtResultCode) (n : Node)
        (a : Answer)
        → store_self p memory now std rng net key value sent resp code n ≡ ok a
        → IsKept p memory n a.node
    unfolding store_self
    store_self-IsKept key value sent resp code n a h =
        let ((stored, s), e, h') = >>=-eq-ok (put p now key value n.store) _ h in
        let m = put-Moves p now key value n.store (stored, s) e in
        split_if stored
          (λ t h''.
            let (n', e', h₃) =
              >>=-eq-ok (map_value p key value (record n { store = cache key value s })) _ h'' in
            unmoved n _ a (cached-IsKept key value n n' s m e') h₃)
          (λ t. unmoved n _ a (with_store n s m)) h'

    ipc_put-IsKept :
        (args : Dict Text) (resp : Response) (n : Node) (a : Answer)
        → ipc_put p memory now std rng net args resp n ≡ ok a
        → IsKept p memory n a.node
    unfolding ipc_put
    ipc_put-IsKept args resp n a h = elim (Option-cases (lookup (bytes "key") args)) [
      | inl miss ↦ unmoved n _ a (IsKept-refl p memory n) (rw (ipc_put, miss) at h)
      | inr (key, at) ↦ elim (Option-cases (lookup (bytes "value") args)) [
        | inl miss ↦ unmoved n _ a (IsKept-refl p memory n) (rw (ipc_put, at, miss) at h)
        | inr (value, at') ↦
            let ((sent, n'), e, h') =
              >>=-eq-ok (publish p memory now std rng net key value n) _
                (rw (ipc_put, at, at') at h) in
            IsKept-trans p memory n n' a.node
              (publish-IsKept p memory now std rng net key value n (sent, n') e)
              (store_self-IsKept key value sent resp (sent_code sent) n' a h')
      ]
    ]

    module _ (host : Host) where
      call_method-IsKept :
          (q : Query) (resp : Response) (n : Node) (a : Answer)
          → call_method p memory now std rng net host true q resp n ≡ ok a
          → IsKept p memory n a.node
      unfolding call_method
      call_method-IsKept q resp n a =
          let remote = λ (n' : Node) (r : IsRemote p q n n'). IsRemote-IsKept q n n' r in
          split_if (text_eq q.query (bytes "ping")) (λ t. unmoved n _ a (IsKept-refl p memory n))
            (λ t.
              split_if (text_eq q.query (bytes "find_node"))
                (λ t' h. remote a.node (find_node_method-IsRemote p q memory now std resp n a h))
                (λ t'.
                  split_if (text_eq q.query (bytes "get_providers"))
                    (λ t'' h. remote a.node (get_providers_method-IsRemote p q resp n a h))
                    (λ t''.
                      split_if (text_eq q.query (bytes "get"))
                        (λ g. ipc_get-IsKept host q.args resp n a)
                        (λ g.
                          split_if (text_eq q.query (bytes "put"))
                            (λ u. ipc_put-IsKept q.args resp n a)
                            (λ u.
                              split_if (text_eq q.query (bytes "map"))
                                (λ m h.
                                  remote a.node (map_method-IsRemote p q memory now std resp n a h))
                                (λ m.
                                  split_if (text_eq q.query (bytes "remove") && true)
                                    (λ x. remove_method-IsKept q.args resp n a)
                                    (λ x.
                                      split_if (text_eq q.query (bytes "clear") && true)
                                        (λ x'. clear_method-IsKept resp n a)
                                        (λ x'. unmoved n _ a (IsKept-refl p memory n)))))))))

      process_query-IsKept :
          (q : Query) (n : Node) (r : DhtMessage × Node)
          → process_query p memory now std rng net host true q n ≡ ok r
          → IsKept p memory n r.1
      unfolding process_query
      process_query-IsKept q n r =
          split_if (not (text_eq q.version version))
            (λ t. early_reply (early (bytes "Version mismatch")) n r)
            (λ t.
              split_if (not true && not (has_key (bytes "id") q.args))
                (λ t'. early_reply (early (bytes "Missing id in args")) n r)
                (λ t' h.
                  let (a, e, h') =
                    >>=-eq-ok (call_method p memory now std rng net host true q (prepared q n) n) _
                      h in
                  subst (λ (x : DhtMessage × Node). IsKept p memory n x.1) (ok_injective h')
                    (call_method-IsKept q (prepared q n) n a e)))

      ipc-IsKept :
          (req : Option DhtMessage) (n : Node) (r : DhtMessage × Node)
          → protobuf_process p memory now std rng net host true req n ≡ ok r
          → IsKept p memory n r.1
      unfolding protobuf_process
      ipc-IsKept none n r h = early_reply _ n r h
      ipc-IsKept (some (query q)) n r h = process_query-IsKept q n r h
      ipc-IsKept (some not_set) n r h = early_reply _ n r h
      ipc-IsKept (some (response m)) n r h = early_reply _ n r h
      ipc-IsKept (some (error e)) n r h = early_reply _ n r h

      -- Every request that is answered, of another node or of the user's own programs, keeps the
      -- node's identifier, a well-formed table, well-formed providers, and makes moves of the
      -- registry.
      pub protobuf_process-IsKept :
          (ipc_mode : Bool) (req : Option DhtMessage) (n : Node) (r : DhtMessage × Node)
          → protobuf_process p memory now std rng net host ipc_mode req n ≡ ok r
          → IsKept p memory n r.1
      protobuf_process-IsKept true req n r h = ipc-IsKept req n r h
      protobuf_process-IsKept false req n r h =
          elim (protobuf_process-cases p memory now std rng net host req n r h) [
            | inl (q, e, remote) ↦ IsRemote-IsKept q n r.1 remote
            | inr same ↦
                subst (λ (x : Node). IsKept p memory n x) (sym same) (IsKept-refl p memory n)
          ]
