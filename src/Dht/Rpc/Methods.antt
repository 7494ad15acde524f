-- ===== src/Dht/Rpc/Methods.antt =====
-- src/core/protocol/rpc/protobuf.cpp: what each method of a request of another node may change of a node.
use testshop.Prelude.{
  ℕ, ◌≡◌, ◌≢◌, refl, sym, ap, subst, ◌∙◌, inl, inr, Bool, true, false, ◌>>=◌, Dict, some, [], Text,
  bytes, text_eq, lookup, ok, >>=-eq-ok, ok_injective, Bool-cases, Option-cases, if◌then◌else◌,
}
use testshop.Dht.Platform.{Platform}
use testshop.Dht.Table.Closest.{Sorting, find_closest_nodes}
use testshop.Dht.Retrieve.{max_closest_nodes}
use testshop.Dht.Store.{Store, validate}
use testshop.Dht.Store.Put.{put}
use testshop.Dht.Message.{Query, Response, response, success}
use testshop.Dht.Node.{Node, map_value}
use testshop.Dht.Node.Kept.{map_value-IsMapped}
use testshop.Dht.Rpc.{
  Answer, answer, get_providers_method, find_node_method, reply_value, get_method, put_method,
  map_method,
}
use testshop.Dht.Registry.{registry, IsAccepted, Moves}
use testshop.Dht.Registry.Stored.{
  Moves-refl, put-Moves, put_source, validate-Moves, validate_source,
}

pub reply_value-node :
    (value : Text) (resp : Response) (n : Node) (a : Answer)
    → reply_value value resp n ≡ ok a
    → a.node ≡ n
unfolding reply_value
reply_value-node value resp n a h = elim (Bool-cases (text_eq value [])) [
  | inl none' ↦ sym (ap (λ (x : Answer). x.node) (ok_injective (rw (reply_value, none') at h)))
  | inr some' ↦ sym (ap (λ (x : Answer). x.node) (ok_injective (rw (reply_value, some') at h)))
]

module _ (p : Platform) (q : Query) where
  -- What a request of another node leaves of the node: the identity, the table and the providers, a
  -- registry that made one move, and an entry that is new or another one only where the request puts
  -- it, accepted.
  pub record IsRemote (n n' : Node) : Type 0 where
    pub id : n'.id ≡ n.id
    pub table : n'.table ≡ n.table
    pub providers : n'.providers ≡ n.providers
    pub moves : Moves p (registry n.store) (registry n'.store)
    pub source :
        (key value : Text)
        → lookup key n'.store.stored ≡ some value
        → lookup key n.store.stored ≢ some value
        → (text_eq q.query (bytes "put") ≡ true)
          × (lookup (bytes "key") q.args ≡ some key)
          × (lookup (bytes "value") q.args ≡ some value)
          × IsAccepted p key value

  pub IsRemote-refl : (n : Node) → IsRemote n n
  IsRemote-refl n = record {
    id = refl;
    table = refl;
    providers = refl;
    moves = Moves-refl p (registry n.store);
    source = λ key value at new. absurd (new at);
  }

  pub unmoved : (n : Node) (a b : Answer) → a.node ≡ n → ok a ≡ ok b → IsRemote n b.node
  unmoved n a b e h =
      subst (λ (x : Node). IsRemote n x) (sym e ∙ ap (λ (x : Answer). x.node) (ok_injective h))
        (IsRemote-refl n)

  pub get_providers_method-IsRemote :
      (resp : Response) (n : Node) (a : Answer)
      → get_providers_method q.args resp n ≡ ok a
      → IsRemote n a.node
  unfolding get_providers_method
  get_providers_method-IsRemote resp n a h = elim (Option-cases (lookup (bytes "key") q.args)) [
    | inl miss ↦ unmoved n _ a refl (rw (get_providers_method, miss) at h)
    | inr (key, at) ↦ unmoved n _ a refl (rw (get_providers_method, at) at h)
  ]

  pub find_node_method-IsRemote :
      (memory : ℕ → ℕ) (now : ℕ) (std : Sorting) (resp : Response) (n : Node) (a : Answer)
      → find_node_method p memory now std q.args resp n ≡ ok a
      → IsRemote n a.node
  unfolding find_node_method
  find_node_method-IsRemote memory now std resp n a h =
      elim (Option-cases (lookup (bytes "target") q.args)) [
        | inl miss ↦ unmoved n _ a refl (rw (find_node_method, miss) at h)
        | inr (target, at) ↦
            let (nodes, e, h') =
              >>=-eq-ok (find_closest_nodes memory std n.table target max_closest_nodes) _
                (rw (find_node_method, at) at h) in
            unmoved n _ a refl h'
      ]

  pub get_method-IsRemote :
      (memory : ℕ → ℕ) (now : ℕ) (std : Sorting) (resp : Response) (n : Node) (a : Answer)
      → get_method p memory now std q.args resp n ≡ ok a
      → IsRemote n a.node
  unfolding get_method
  get_method-IsRemote memory now std resp n a h =
      elim (Option-cases (lookup (bytes "key") q.args)) [
        | inl miss ↦ unmoved n _ a refl (rw (get_method, miss) at h)
        | inr (key, at) ↦
            subst (λ (x : Node). IsRemote n x)
              (sym (reply_value-node _ resp n a (rw (get_method, at) at h))) (IsRemote-refl n)
      ]

  pub put_method-IsRemote :
      (memory : ℕ → ℕ) (now : ℕ) (std : Sorting) (resp : Response) (n : Node) (a : Answer)
      → text_eq q.query (bytes "put") ≡ true
      → put_method p memory now std q.args resp n ≡ ok a
      → IsRemote n a.node
  unfolding put_method
  put_method-IsRemote memory now std resp n a is_put h =
      elim (Option-cases (lookup (bytes "key") q.args)) [
        | inl miss ↦ unmoved n _ a refl (rw (put_method, miss) at h)
        | inr (key, at) ↦ elim (Option-cases (lookup (bytes "value") q.args)) [
          | inl miss ↦ unmoved n _ a refl (rw (put_method, at, miss) at h)
          | inr (value, at') ↦
              let (r, e, h') =
                >>=-eq-ok (put p now key value n.store) _ (rw (put_method, at, at') at h) in
              subst (λ (x : Answer). IsRemote n x.node) (ok_injective h')
                (stored key value at at' r e)
        ]
      ]
    where
      stored :
          (key value : Text)
          → lookup (bytes "key") q.args ≡ some key
          → lookup (bytes "value") q.args ≡ some value
          → (r : Bool × Store) → put p now key value n.store ≡ ok r
          → IsRemote n (record n { store = r.1 })
      stored key value at at' r e = record {
        id = refl;
        table = refl;
        providers = refl;
        moves = put-Moves p now key value n.store r e;
        source = λ j v found new.
            let (same, same', good) = put_source p now key value j v n.store r e found new in
            rw (sym same, sym same') (is_put, at, at', good);
      }

  validated :
      (now : ℕ) (key value : Text) (n n' : Node) (r : Bool × Store)
      → validate p now key value n.store ≡ ok r
      → n'.id ≡ n.id
      → n'.table ≡ n.table
      → n'.providers ≡ n.providers
      → n'.store.stored ≡ r.1.stored
      → IsRemote n n'
  validated now key value n n' r e same-id same-table same-providers same-store = record {
    id = same-id;
    table = same-table;
    providers = same-providers;
    moves =
        subst (λ (x : Dict Text). Moves p (registry n.store) (λ j. lookup j x)) (sym same-store)
          (validate-Moves p now key value n.store r e);
    source = λ j v found new. absurd (
        new (
          validate_source p now key value j v n.store r e
            (subst (λ (x : Dict Text). lookup j x ≡ some v) same-store found)));
  }

  pub map_method-IsRemote :
      (memory : ℕ → ℕ) (now : ℕ) (std : Sorting) (resp : Response) (n : Node) (a : Answer)
      → map_method p memory now std q.args resp n ≡ ok a
      → IsRemote n a.node
  unfolding map_method
  map_method-IsRemote memory now std resp n a h =
      elim (Option-cases (lookup (bytes "key") q.args)) [
        | inl miss ↦ unmoved n _ a refl (rw (map_method, miss) at h)
        | inr (key, at) ↦ elim (Option-cases (lookup (bytes "value") q.args)) [
          | inl miss ↦ unmoved n _ a refl (rw (map_method, at, miss) at h)
          | inr (value, at') ↦
              let (r, e, h') =
                >>=-eq-ok (validate p now key value n.store) _ (rw (map_method, at, at') at h) in
              mapped key value r e h'
        ]
      ]
    where
      mapped :
          (key value : Text) (r : Bool × Store)
          → validate p now key value n.store ≡ ok r
          → (if r.0
              then (map_value p key value (record n { store = r.1 }) >>= λ n'.
                  answer success (response resp) n')
              else answer success (response resp) (record n { store = r.1 }))
            ≡ ok a
          → IsRemote n a.node
      mapped key value (true, s) e h' =
          let (n', em, h'') = >>=-eq-ok (map_value p key value (record n { store = s })) _ h' in
          let m = map_value-IsMapped p key value (record n { store = s }) n' em in
          subst (λ (x : Answer). IsRemote n x.node) (ok_injective h'')
            (validated now key value n n' (true, s) e m.id m.table m.providers m.stored)
      mapped key value (false, s) e h' =
          subst (λ (x : Answer). IsRemote n x.node) (ok_injective h')
            (validated now key value n (record n { store = s }) (false, s) e refl refl refl refl)
