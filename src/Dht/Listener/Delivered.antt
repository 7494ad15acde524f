-- ===== src/Dht/Listener/Delivered.antt =====
-- src/core/protocol/p2p/node.cpp: which messages fulfil the promise of a request, and what the others keep
-- of a node.
use testshop.Prelude.{
  split_if, ℕ, ◌≡◌, ◌≢◌, refl, sym, ap, subst, ◌∙◌, inl, inr, Bool, true, false, ◌&&◌, not, Option,
  none, some, List, [], ◌∷◌, arith, Text, bytes, text_eq, text_eq_iff, lookup, ok, >>=-eq-ok,
  ok_injective, Bool-cases, if◌then◌else◌,
}
use testshop.Dht.Platform.{Platform}
use testshop.Dht.Table.Closest.{Sorting}
use testshop.Dht.Publish.{Shuffling}
use testshop.Dht.Store.{Store}
use testshop.Dht.Store.Put.{put}
use testshop.Dht.Message.{Query, Response, DhtMessage, not_set, query, response, error, set_data}
use testshop.Dht.Node.{Node, Network}
use testshop.Dht.Node.Kept.{IsKept, IsKept-refl, IsKept-trans}
use testshop.Dht.Rpc.Ipc.{Host}
use testshop.Dht.Rpc.Process.{prepared, protobuf_process}
use testshop.Dht.Rpc.Local.{protobuf_process-IsKept}
use testshop.Dht.Rpc.Replies.{IsAdmitted, put_outcome, put_answer}
use testshop.Dht.Listener.{
  Wire, on_ping, on_map, Waiting, is_pending, erase_pending, Handled, nothing, handle_response,
  handle_query, handle_message, handle_reticulum_message,
}
use testshop.Dht.Listener.Pinged.{on_ping-IsKept, on_map-IsKept}

is_pending-erase_pending :
    (tid : Text) (ts : List Text) → is_pending tid (erase_pending tid ts) ≡ false
unfolding is_pending erase_pending
is_pending-erase_pending tid [] = refl
is_pending-erase_pending tid (t ∷ ts) = ground (arith, is_pending-erase_pending tid ts)

some_injective : {a b : Text} → some a ≡ some b → a ≡ b
some_injective {a} {b} h = ground arith

none-ne-some : (t : Text) → none ≢ some t
none-ne-some t h = cc

-- The promise of a transaction is fulfilled by a response to it, and by nothing else.
abbrev pub IsFulfilled : Option DhtMessage → Waiting → Handled → Text → Type 0
IsFulfilled msg s h tid =
    (r : Response) × (msg ≡ some (response r))
    × (r.tid ≡ tid)
    × (tid ≢ [])
    × (is_pending tid s.pending_requests ≡ true)
    × (is_pending tid h.after.pending_requests ≡ false)
    × (h.after.node ≡ s.node)

handle_response-IsFulfilled :
    (r : Response) (s : Waiting) (tid : Text)
    → (handle_response r s).fulfilled ≡ some tid
    → IsFulfilled (some (response r)) s (handle_response r s) tid
unfolding handle_response
handle_response-IsFulfilled r s tid h =
    elim (Bool-cases (not (text_eq r.tid []) && is_pending r.tid s.pending_requests)) [
      | inl there ↦
          subst (IsFulfilled (some (response r)) s (handle_response r s))
            (some_injective (rw (handle_response, there) at h)) (self there)
      | inr miss ↦ absurd (none-ne-some tid (rw (handle_response, miss) at h))
    ]
  where
    self :
        not (text_eq r.tid []) && is_pending r.tid s.pending_requests ≡ true
        → IsFulfilled (some (response r)) s (handle_response r s) r.tid
    self there = (
      r,
      refl,
      refl,
      λ x. ground (arith, text_eq_iff r.tid []),
      ground arith,
      rw (handle_response, there) (is_pending-erase_pending r.tid s.pending_requests),
      rw (handle_response, there) refl,
    )

node-handle_response : (r : Response) (s : Waiting) → (handle_response r s).after.node ≡ s.node
unfolding handle_response
node-handle_response r s =
    elim (Bool-cases (not (text_eq r.tid []) && is_pending r.tid s.pending_requests)) [
      | inl there ↦ rw (handle_response, there) refl
      | inr miss ↦ rw (handle_response, miss) refl
    ]

module _ (p : Platform) (memory : ℕ → ℕ) (now : ℕ) (std : Sorting) (rng : Shuffling) (net : Network)
    (host : Host) (w : Wire) where
  handle_query-IsKept :
      (q : Query) (sender : Text) (s : Waiting) (h : Handled)
      → handle_query p memory now std rng net host w q sender s ≡ ok h
      → IsKept p memory s.node h.after.node × (h.fulfilled ≡ none)
  unfolding handle_query
  handle_query-IsKept q sender s h e =
      let ((reply, n₁), e₁, h₁) =
        >>=-eq-ok (protobuf_process p memory now std rng net host false (some (query q)) s.node) _
          e in
      let k₁ =
        protobuf_process-IsKept p memory now std rng net host false (some (query q)) s.node
          (reply, n₁) e₁ in
      split_if (w.is_sent sender reply)
        (λ sent called.
          let ((n₂, welcomed), e₂, h₂) = >>=-eq-ok (on_ping memory now w q sender n₁) _ called in
          let (n₃, e₃, h₃) = >>=-eq-ok (on_map w q sender n₂) _ h₂ in
          let k₂ = on_ping-IsKept p memory now w q sender n₁ n₂ welcomed e₂ in
          let k₃ = on_map-IsKept p memory now w q sender n₂ n₃ e₃ in
          subst (λ (x : Handled). IsKept p memory s.node x.after.node × (x.fulfilled ≡ none))
            (ok_injective h₃)
            (IsKept-trans p memory s.node n₁ n₃ k₁ (IsKept-trans p memory n₁ n₂ n₃ k₂ k₃), refl))
        (λ lost bad. cc) h₁

  -- The node is kept, and a promise is fulfilled only as it should be.
  abbrev IsHandled : Option DhtMessage → Waiting → Handled → Type 0
  IsHandled msg s h =
      IsKept p memory s.node h.after.node
      × ((tid : Text) → h.fulfilled ≡ some tid → IsFulfilled msg s h tid)

  idle :
      (msg : Option DhtMessage) (s : Waiting) (h : Handled)
      → ok (nothing s) ≡ ok h
      → IsHandled msg s h
  idle msg s h e =
      subst (IsHandled msg s) (ok_injective e)
        (IsKept-refl p memory s.node, λ tid f. absurd (none-ne-some tid f))

  handle_message-IsHandled :
      (msg : Option DhtMessage) (sender : Text) (s : Waiting) (h : Handled)
      → handle_message p memory now std rng net host w msg sender s ≡ ok h
      → IsHandled msg s h
  unfolding handle_message
  handle_message-IsHandled none sender s h e = idle none s h e
  handle_message-IsHandled (some not_set) sender s h e = idle (some not_set) s h e
  handle_message-IsHandled (some (error m)) sender s h e = idle (some (error m)) s h e
  handle_message-IsHandled (some (response r)) sender s h e =
      subst (IsHandled (some (response r)) s) (ok_injective e) (
        subst (IsKept p memory s.node) (sym (node-handle_response r s))
            (IsKept-refl p memory s.node),
        λ tid f. handle_response-IsFulfilled r s tid f,
      )
  handle_message-IsHandled (some (query q)) sender s h e =
      let (k, f) = handle_query-IsKept q sender s h e in
      (k, λ tid f'. absurd (none-ne-some tid (sym f ∙ f')))

  -- The promise of a request is fulfilled only by a response of its transaction, which is not empty
  -- and was waited for; it is waited for no more, and the node stays as it was. No error fulfils one.
  pub handle_message-IsFulfilled :
      (msg : Option DhtMessage) (sender tid : Text) (s : Waiting) (h : Handled)
      → handle_message p memory now std rng net host w msg sender s ≡ ok h
      → h.fulfilled ≡ some tid
      → IsFulfilled msg s h tid
  handle_message-IsFulfilled msg sender tid s h e =
      (handle_message-IsHandled msg sender s h e).1 tid

  -- Whatever message a node handles, its identifier, a well-formed table and well-formed providers
  -- are kept, and the registry makes moves.
  pub handle_message-IsKept :
      (msg : Option DhtMessage) (sender : Text) (s : Waiting) (h : Handled)
      → handle_message p memory now std rng net host w msg sender s ≡ ok h
      → IsKept p memory s.node h.after.node
  handle_message-IsKept msg sender s h e = (handle_message-IsHandled msg sender s h e).0

  -- The same of a message on Reticulum.
  pub handle_reticulum_message-IsKept :
      (msg : Option DhtMessage) (s : Waiting) (h : Handled)
      → handle_reticulum_message p memory now std rng net host w msg s ≡ ok h
      → IsKept p memory s.node h.after.node
  unfolding handle_reticulum_message
  handle_reticulum_message-IsKept none s h e = (idle none s h e).0
  handle_reticulum_message-IsKept (some not_set) s h e = (idle none s h e).0
  handle_reticulum_message-IsKept (some (error m)) s h e = (idle none s h e).0
  handle_reticulum_message-IsKept (some (response r)) s h e =
      subst (λ (x : Handled). IsKept p memory s.node x.after.node) (ok_injective e)
        (subst (IsKept p memory s.node) (sym (node-handle_response r s))
          (IsKept-refl p memory s.node))
  handle_reticulum_message-IsKept (some (query q)) s h asked =
      named (lookup (bytes "address") q.args) asked
    where
      named :
          (address : Option Text)
          → elim address [
            | none ↦ ok (nothing s)
            | some sender ↦
                if text_eq sender []
                then ok (nothing s)
                else handle_query p memory now std rng net host w q sender s
          ]
            ≡ ok h
          → IsKept p memory s.node h.after.node
      named none e = (idle none s h e).0
      named (some sender) e =
          split_if (text_eq sender []) (λ empty e'. (idle none s h e').0)
            (λ filled e'. (handle_query-IsKept q sender s h e').0) e

  -- A node asks another to store a value, and waits for the answer to the transaction of its request.
  -- Where the other's `put` returns, the other replies; the reply fulfils the promise when the value
  -- was stored, and when it was refused the reply is dropped and the transaction still waits.
  pub put_round_trip :
      (q : Query) (n : Node) (key value sender : Text) (stored : Bool) (store : Store) (s : Waiting)
      → IsAdmitted q
      → q.query ≡ bytes "put"
      → lookup (bytes "key") q.args ≡ some key
      → lookup (bytes "value") q.args ≡ some value
      → q.tid ≢ []
      → is_pending q.tid s.pending_requests ≡ true
      → put p now key value n.store ≡ ok (stored, store)
      → (reply : DhtMessage) × (n' : Node) × (h : Handled) × (protobuf_process p memory now std rng
            net host false
            (some (query q))
            n
          ≡ ok (reply, n'))
        × (handle_message p memory now std rng net host w (some reply) sender s ≡ ok h)
        × (h.fulfilled ≡ (if stored then some q.tid else none))
        × (is_pending q.tid h.after.pending_requests ≡ not stored)
  unfolding handle_message handle_response prepared set_data
  put_round_trip q n key value sender true store s v call at at' t waits e = (
    response (prepared q n),
    record n { store = store },
    handle_response (prepared q n) s,
    put_answer p memory now std rng net host q n key value v call at at' ∙ ap (put_outcome q n) e,
    refl,
    rw (handle_response, filled, waits) refl,
    rw (handle_response, filled, waits) (is_pending-erase_pending q.tid s.pending_requests),
  )
    where
      filled : text_eq q.tid [] ≡ false
      filled = ground (arith, text_eq_iff q.tid [])
  put_round_trip q n key value sender false store s v call at at' t waits e = (
    _,
    record n { store = store },
    nothing s,
    put_answer p memory now std rng net host q n key value v call at at' ∙ ap (put_outcome q n) e,
    refl,
    refl,
    waits,
  )
