-- ===== src/Dht/Rpc/Replies.antt =====
-- src/core/protocol/rpc/protobuf.cpp: what a request of another node is answered.
use testshop.Prelude.{
  ℕ, ◌≡◌, ◌≢◌, refl, sym, ap, ◌∙◌, ◌⊎◌, inl, inr, Bool, true, false, ◌&&◌, Option, none, some, [],
  arith, Text, bytes, text_eq, text_eq_iff, lookup, has_key, Outcome, ok, throws, faults, ◌>>=◌,
  ok_injective, Bool-cases, length, ◌==◌,
}
use testshop.Dht.Platform.{Platform}
use testshop.Dht.Id.{hex_string_to_node_id}
use testshop.Dht.Table.Closest.{Sorting, find_closest_nodes}
use testshop.Dht.Publish.{Shuffling}
use testshop.Dht.Store.{Store}
use testshop.Dht.Store.Put.{put, get, holds}
use testshop.Dht.Store.Put.Found.{put-IsFound, holds_iff}
use testshop.Dht.Message.{
  Query, Response, DhtMessage, not_set, query, response, error, new_response, mutable_error,
  mutable_response, set_version, set_error, set_data, store_failed, code_number,
  get_dht_result_code_as_string,
}
use testshop.Dht.Node.{Node, Network}
use testshop.Dht.Registry.{registry, AllAccepted}
use testshop.Dht.Registry.Stored.{put-Moves, put_source, Moves-AllAccepted}
use testshop.Dht.Rpc.{version, local_value, reply_value, find_node_method, get_method, put_method}
use testshop.Dht.Rpc.Ipc.{Host}
use testshop.Dht.Rpc.Process.{
  early, prepared, finished, with_version, call_method, process_query, protobuf_process,
}

-- A request that the node goes on to handle: of its version, and with the sender's identifier.
pub record IsAdmitted (q : Query) : Type 0 where
  pub same_version : text_eq q.version version ≡ true
  pub identified : has_key (bytes "id") q.args ≡ true

-- The request is a query of the version, with the sender's identifier.
abbrev pub is_admissible : Option DhtMessage → Bool
is_admissible none = false
is_admissible (some not_set) = false
is_admissible (some (query q)) = text_eq q.version version && has_key (bytes "id") q.args
is_admissible (some (response r)) = false
is_admissible (some (error e)) = false

-- What a `put` request comes to, by what the node's own `put` comes to: a response where it succeeds,
-- the error of a failed store where it does not, and no reply where it throws or faults.
abbrev pub put_outcome : Query → Node → Outcome (Bool × Store) → Outcome (DhtMessage × Node)
put_outcome q n throws = throws
put_outcome q n faults = faults
put_outcome q n (ok (true, s)) = ok (response (prepared q n), record n { store = s })
put_outcome q n (ok (false, s)) = ok (
  error (record {
    code = code_number store_failed;
    message = get_dht_result_code_as_string store_failed;
    error_data = [];
  }),
  record n { store = s },
)

-- A `put` request that is answered with a response was stored.
put_response-eq :
    (q : Query) (n n' : Node) (resp : Response) (o : Outcome (Bool × Store))
    → put_outcome q n o ≡ ok (response resp, n')
    → o ≡ ok (true, n'.store)
put_response-eq q n n' resp throws h = cc
put_response-eq q n n' resp faults h = cc
put_response-eq q n n' resp (ok (true, s)) h =
    ap (λ (x : DhtMessage × Node). ok (true, x.1.store)) (ok_injective h)
put_response-eq q n n' resp (ok (false, s)) h =
    absurd (ground (arith, ap (λ (x : DhtMessage × Node). x.0) (ok_injective h)))

module _ (p : Platform) (memory : ℕ → ℕ) (now : ℕ) (std : Sorting) (rng : Shuffling) (net : Network)
    (host : Host) where
  -- A request that is refused before its method is looked at (it does not parse, is no query, is of
  -- another version, or lacks the sender's identifier) changes nothing, and the reply is a response
  -- with no more than a version: the error that was set is lost, and so is the transaction.
  pub early_error_lost :
      (req : Option DhtMessage) (n : Node)
      → is_admissible req ≡ false
      → protobuf_process p memory now std rng net host false req n
        ≡ ok (response (record new_response { version = version }), n)
  unfolding protobuf_process process_query early set_version set_error mutable_response
  early_error_lost none n h = refl
  early_error_lost (some not_set) n h = refl
  early_error_lost (some (response r)) n h = refl
  early_error_lost (some (error e)) n h = refl
  early_error_lost (some (query q)) n h = elim (Bool-cases (text_eq q.version version)) [
    | inl same ↦
        let no_id : has_key (bytes "id") q.args ≡ false = ground arith in
        rw (process_query, same, no_id) refl
    | inr other ↦ rw (process_query, other) refl
  ]

  admitted :
      (q : Query) (n : Node)
      → IsAdmitted q
      → process_query p memory now std rng net host false q n ≡ (
          call_method p memory now std rng net host false q (prepared q n) n >>= λ a.
          ok (with_version (finished a.code a.reply), a.node))
  unfolding process_query
  admitted q n v = rw (process_query, v.same_version, v.identified) refl

  -- An admitted request of another node to find the nodes for a target that has not 64 characters
  -- makes `protobuf_process` throw an exception.
  pub find_node_throws :
      (q : Query) (n : Node) (target : Text)
      → IsAdmitted q
      → q.query ≡ bytes "find_node"
      → lookup (bytes "target") q.args ≡ some target
      → length target ≢ 64
      → protobuf_process p memory now std rng net host false (some (query q)) n ≡ throws
  unfolding protobuf_process call_method find_node_method find_closest_nodes hex_string_to_node_id
      text_eq bytes
  find_node_throws q n target v call at l =
      let short : (length target == 64) ≡ false = ground arith in
      rw (protobuf_process, admitted q n v, call_method, call)
        (rw (find_node_method, at, find_closest_nodes, short) refl)

  process_put :
      (q : Query) (n : Node) (key value : Text) (o : Outcome (Bool × Store))
      → IsAdmitted q
      → q.query ≡ bytes "put"
      → lookup (bytes "key") q.args ≡ some key
      → lookup (bytes "value") q.args ≡ some value
      → put p now key value n.store ≡ o
      → protobuf_process p memory now std rng net host false (some (query q)) n ≡ put_outcome q n o
  unfolding protobuf_process call_method put_method finished with_version set_version set_error
      mutable_error mutable_response code_number get_dht_result_code_as_string text_eq bytes
  process_put q n key value throws v call at at' e =
      rw (protobuf_process, admitted q n v, call_method, call) (rw (put_method, at, at', e) refl)
  process_put q n key value faults v call at at' e =
      rw (protobuf_process, admitted q n v, call_method, call) (rw (put_method, at, at', e) refl)
  process_put q n key value (ok (true, s)) v call at at' e =
      rw (protobuf_process, admitted q n v, call_method, call) (rw (put_method, at, at', e) refl)
  process_put q n key value (ok (false, s)) v call at at' e =
      rw (protobuf_process, admitted q n v, call_method, call) (rw (put_method, at, at', e) refl)

  -- A `put` request of another node comes to what the node's own `put` comes to: a response with the
  -- request's transaction where it succeeds, the error of a failed store where it does not, and no
  -- reply where it throws or faults.
  pub put_answer :
      (q : Query) (n : Node) (key value : Text)
      → IsAdmitted q
      → q.query ≡ bytes "put"
      → lookup (bytes "key") q.args ≡ some key
      → lookup (bytes "value") q.args ≡ some value
      → protobuf_process p memory now std rng net host false (some (query q)) n
        ≡ put_outcome q n (put p now key value n.store)
  put_answer q n key value v call at at' =
      process_put q n key value (put p now key value n.store) v call at at' refl

  value_reply :
      (q : Query) (n : Node) (key v : Text)
      → IsAdmitted q
      → q.query ≡ bytes "get"
      → lookup (bytes "key") q.args ≡ some key
      → lookup key n.store.stored ≡ some v
      → v ≢ []
      → protobuf_process p memory now std rng net host false (some (query q)) n
        ≡ ok (response (set_data (bytes "value") v (prepared q n)), n)
  unfolding protobuf_process call_method get_method local_value get reply_value text_eq bytes
      finished with_version
  value_reply q n key v good call at found some' =
      let filled : text_eq v [] ≡ false = ground (arith, text_eq_iff v []) in
      rw (protobuf_process, admitted q n good, call_method, call)
        (rw (get_method, at, local_value, get, found) (rw (reply_value, filled) refl))

-- The entry after a `put` that succeeds is the value that was put, or the entry of before.
new_or_kept :
    (p : Platform) (now : ℕ) (key value w : Text) (s s' : Store)
    → put p now key value s ≡ ok (true, s')
    → lookup key s'.stored ≡ some w
    → (w ≡ value) ⊎ (lookup key s.stored ≡ some w)
new_or_kept p now key value w s s' h found = elim (Bool-cases (holds key w s)) [
  | inl there ↦ inr ((holds_iff key w s).0 there)
  | inr new ↦
      let (same, same', good) =
        put_source p now key value key w s (true, s') h found
          (λ e. ground (arith, holds_iff key w s)) in
      inl (sym same')
]

-- A value that another node puts and that is answered with a response is found: a `get` request of
-- its key, at any later time, is answered with the value that the key has, which is the one that
-- was put or the one that the key had before. The entries were accepted before, and the empty text is
-- no JSON.
pub put_then_get :
    (p : Platform) (memory : ℕ → ℕ) (now now' : ℕ) (std : Sorting) (rng : Shuffling) (net : Network)
    (host : Host) (q q' : Query) (n n' : Node) (resp : Response) (key value : Text)
    → p.parse [] ≡ none
    → AllAccepted p (registry n.store)
    → IsAdmitted q
    → q.query ≡ bytes "put"
    → lookup (bytes "key") q.args ≡ some key
    → lookup (bytes "value") q.args ≡ some value
    → IsAdmitted q'
    → q'.query ≡ bytes "get"
    → lookup (bytes "key") q'.args ≡ some key
    → protobuf_process p memory now std rng net host false (some (query q)) n
      ≡ ok (response resp, n')
    → (v : Text) × (lookup key n'.store.stored ≡ some v)
      × ((v ≡ value) ⊎ (lookup key n.store.stored ≡ some v))
      × (protobuf_process p memory now' std rng net host false (some (query q')) n'
          ≡ ok (response (set_data (bytes "value") v (prepared q' n')), n'))
put_then_get p memory now now' std rng net host q q' n n' resp key value no_json all v call at at'
      v' call' at'' h =
    let stored : put p now key value n.store ≡ ok (true, n'.store) =
      put_response-eq q n n' resp (put p now key value n.store)
        (sym (put_answer p memory now std rng net host q n key value v call at at') ∙ h) in
    let (w, found) = put-IsFound p now key value n.store n'.store stored in
    let (json, m, l, e, k, known, good) =
      Moves-AllAccepted p (put-Moves p now key value n.store (true, n'.store) stored) all key w
        found in
    (
      w,
      found,
      new_or_kept p now key value w n.store n'.store stored found,
      value_reply p memory now' std rng net host q' n' key w v' call' at'' found
          (λ empty. absurd (ground (arith, ap p.parse empty))),
    )
