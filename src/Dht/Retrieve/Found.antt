-- ===== src/Dht/Retrieve/Found.antt =====
-- What `send_get` of src/core/protocol/p2p/node.cpp find.
use testshop.Prelude.{
  ℕ, ◌≡◌, ◌≢◌, refl, sym, ap, subst, ◌∙◌, ◌⊎◌, inl, inr, Bool, true, false, Option, none, some,
  List, [], ◌∷◌, Text, bytes, lookup, has_key, Outcome, ok, >>=-eq-ok, length, arith, Bool-cases,
  Option-cases,
}
use testshop.Dht.Platform.{Platform, string_at}
use testshop.Dht.Providers.{Peer, IsProviders, get_providers, remove_provider-IsProviders}
use testshop.Dht.Store.{Store, is_valid_metadata, verify, validate}
use testshop.Dht.Store.Put.{get}
use testshop.Dht.Store.Put.Validated.{validate-IsValidated, lookup-drop_key}
use testshop.Dht.Retrieve.{
  GetReply, refused, timed_out, unreadable, error, no_value, value, Local, without, get_round,
  get_from, get_from_others, send_get, or_empty,
}

module _ (p : Platform) (now : ℕ) (key : Text) where
  open p use {Value, parse}

  -- The value passes the tests of `validate`: the key has 64 bytes, the value parses and is of a
  -- known kind, and it is verified.
  abbrev pub Passes : Text → Type 0
  Passes v =
      (json : Value) × (m : Text) × (length key ≡ 64)
      × (parse v ≡ some json)
      × (string_at p json (bytes "metadata") ≡ some m)
      × (is_valid_metadata m ≡ true)
      × (verify p m json ≡ true)

  -- A value that was found passes the tests.
  abbrev pub FoundPasses : Option Text → Type 0
  FoundPasses none = Unit
  FoundPasses (some v) = Passes v

  -- What a search from `l` leaves, for another key `j`: the value that was found, if any, passes
  -- the tests, the entry of `j` is what it was, and the providers are well formed.
  record IsSearched (j : Text) (l : Local) (r : Option Text × Local) : Type 0 where
    passes : FoundPasses r.0
    frame : lookup j r.1.store.stored ≡ lookup j l.store.stored
    kept : IsProviders r.1.providers

  validate-frame :
      (j v : Text) (s : Store) (r : Bool × Store)
      → j ≢ key
      → validate p now key v s ≡ ok r
      → lookup j r.1.stored ≡ lookup j s.stored
  validate-frame j v s r n h = elim (validate-IsValidated p now key v s r h).dropped [
    | inl e ↦ ap (λ (x : Store). lookup j x.stored) e
    | inr e ↦ ap (λ (x : Store). lookup j x.stored) e ∙ lookup-drop_key key j s n
  ]

  module _ (j : Text) (n : j ≢ key) (next : Local → Outcome (Option Text × Local))
      (r : Option Text × Local)
      (after : (l : Local) → IsProviders l.providers → next l ≡ ok r → IsSearched j l r) where
    after_removal :
        (peer : Peer) (l : Local)
        → IsProviders l.providers
        → next (without key peer l) ≡ ok r
        → IsSearched j l r
    after_removal peer l w h =
        let q =
          after (without key peer l)
            (remove_provider-IsProviders key peer.address peer.port l.providers w) h in
        record { passes = q.passes; frame = q.frame; kept = q.kept }

    after_value :
        (v : Text) (l : Local) (checked : Bool × Store)
        → IsProviders l.providers
        → validate p now key v l.store ≡ ok checked
        → (elim checked.0 [
          | true ↦ ok (some v, record l { store = checked.1 })
          | false ↦ next (record l { store = checked.1 })
        ])
          ≡ ok r
        → IsSearched j l r
    after_value v l (true, s') w e h =
        let last : Option Text × Local = (some v, record l { store = s' }) in
        let same : last ≡ r = ground arith in
        subst (λ (x : Option Text × Local). IsSearched j l x) same
          (record {
            passes = (validate-IsValidated p now key v l.store (true, s') e).checked refl;
            frame = validate-frame j v l.store (true, s') n e;
            kept = w;
          })
    after_value v l (false, s') w e h =
        let q = after (record l { store = s' }) w h in
        record {
          passes = q.passes;
          frame = q.frame ∙ validate-frame j v l.store (false, s') n e;
          kept = q.kept;
        }

    get_round-IsSearched :
        (peer : Peer) (reply : GetReply) (l : Local)
        → IsProviders l.providers
        → get_round p now key peer reply l next ≡ ok r
        → IsSearched j l r
    unfolding get_round
    get_round-IsSearched peer refused l w h = after l w h
    get_round-IsSearched peer unreadable l w h = after l w h
    get_round-IsSearched peer no_value l w h = after l w h
    get_round-IsSearched peer timed_out l w h = after_removal peer l w h
    get_round-IsSearched peer error l w h = after_removal peer l w h
    get_round-IsSearched peer (value v) l w h =
        let (checked, e, h') = >>=-eq-ok (validate p now key v l.store) _ h in
        after_value v l checked w e h'

  get_from-IsSearched :
      (reply : Peer → GetReply) (j : Text) (peers : List Peer) (l : Local) (r : Option Text × Local)
      → j ≢ key
      → IsProviders l.providers
      → get_from p now key reply peers l ≡ ok r
      → IsSearched j l r
  unfolding get_from
  get_from-IsSearched reply j [] l r n w h =
      let last : Option Text × Local = (none, l) in
      let same : last ≡ r = ground arith in
      subst (λ (x : Option Text × Local). IsSearched j l x) same
        (record { passes = tt; frame = refl; kept = w })
  get_from-IsSearched reply j (peer ∷ peers) l r n w h =
      get_round-IsSearched j n (get_from p now key reply peers) r
        (λ l' w' h'. get_from-IsSearched reply j peers l' r n w' h') peer (reply peer) l w h

  -- What `send_get` leaves: it returns no value or one that passes the tests.
  record IsRetrieved (j : Text) (l : Local) (r : Text × Local) : Type 0 where
    passes : (r.0 ≡ []) ⊎ Passes r.0
    frame : lookup j r.1.store.stored ≡ lookup j l.store.stored
    kept : IsProviders r.1.providers

  found-IsRetrieved :
      (j : Text) (l l' : Local) (o : Option Text) (r : Text × Local)
      → IsSearched j l (o, l')
      → (a : Text × Local) → a ≡ (or_empty o, l')
      → ok a ≡ ok r
      → IsRetrieved j l r
  found-IsRetrieved j l l' none r q a e h =
      let last : Text × Local = ([], l') in
      let same : last ≡ r = sym e ∙ ground arith in
      subst (λ (x : Text × Local). IsRetrieved j l x) same
        (record { passes = inl refl; frame = q.frame; kept = q.kept })
  found-IsRetrieved j l l' (some v) r q a e h =
      let last : Text × Local = (v, l') in
      let same : last ≡ r = sym e ∙ ground arith in
      subst (λ (x : Text × Local). IsRetrieved j l x) same
        (record { passes = inr q.passes; frame = q.frame; kept = q.kept })

  get_from_others-IsRetrieved :
      (theirs : Peer → GetReply) (providers : Outcome (List Peer)) (j : Text) (l : Local)
      (o : Option Text) (l' : Local) (r : Text × Local)
      → j ≢ key
      → IsSearched j l (o, l')
      → get_from_others p now key theirs providers (o, l') ≡ ok r
      → IsRetrieved j l r
  unfolding get_from_others
  get_from_others-IsRetrieved theirs providers j l (some v) l' r n q h =
      found-IsRetrieved j l l' (some v) r q (v, l') refl h
  get_from_others-IsRetrieved theirs providers j l none l' r n q h =
      let (peers, e, h₁) = >>=-eq-ok providers _ h in
      let ((o', l''), e', h₂) = >>=-eq-ok (get_from p now key theirs peers l') _ h₁ in
      let q' = get_from-IsSearched theirs j peers l' (o', l'') n q.kept e' in
      found-IsRetrieved j l l'' o' r
        (record { passes = q'.passes; frame = q'.frame ∙ q.frame; kept = q'.kept })
        (or_empty o', l'') refl h₂

  send_get-IsRetrieved :
      (ours theirs : Peer → GetReply) (providers : Outcome (List Peer)) (j : Text) (l : Local)
      (r : Text × Local)
      → j ≢ key
      → IsProviders l.providers
      → has_key key l.store.stored ≡ false
      → lookup key l.store.hash_table ≡ none
      → send_get p now key ours theirs providers l ≡ ok r
      → IsRetrieved j l r
  unfolding send_get
  send_get-IsRetrieved ours theirs providers j l r n w miss miss' h =
      let ((o, l'), e, h') =
        >>=-eq-ok (get_from p now key ours (get_providers key l.providers) l) _
          (rw (miss, miss') at h) in
      get_from_others-IsRetrieved theirs providers j l o l' r n
        (get_from-IsSearched ours j (get_providers key l.providers) l (o, l') n w e) h'

  -- A value that `send_get` returns, for a key that neither table of the node has, passes the
  -- tests of `validate`: the key has 64 bytes, the value parses and is of a known kind, and it is
  -- verified.
  pub send_get-Passes :
      (ours theirs : Peer → GetReply) (providers : Outcome (List Peer)) (l : Local)
      (r : Text × Local)
      → IsProviders l.providers
      → has_key key l.store.stored ≡ false
      → lookup key l.store.hash_table ≡ none
      → send_get p now key ours theirs providers l ≡ ok r
      → r.0 ≢ []
      → Passes r.0
  send_get-Passes ours theirs providers l r w miss miss' h n =
      let longer : 0 ∷ key ≢ key = λ e. (let e' = ap length e in omega arith) in
      elim (send_get-IsRetrieved ours theirs providers (0 ∷ key) l r longer w miss miss' h).passes [
        | inl none' ↦ absurd (n none')
        | inr good ↦ good
      ]

  -- A `send_get` that returns changes no entry but that of its key, and keeps the providers well
  -- formed: distinct addresses, and peers in every entry.
  pub send_get_frame :
      (ours theirs : Peer → GetReply) (providers : Outcome (List Peer)) (j : Text) (l : Local)
      (r : Text × Local)
      → j ≢ key
      → IsProviders l.providers
      → send_get p now key ours theirs providers l ≡ ok r
      → (lookup j r.1.store.stored ≡ lookup j l.store.stored) × IsProviders r.1.providers
  unfolding send_get
  send_get_frame ours theirs providers j l r n w h =
      elim (Bool-cases (has_key key l.store.stored)) [
        | inl there ↦ local (get key l.store, l) r refl (rw (send_get, there) at h)
        | inr miss ↦ elim (Option-cases (lookup key l.store.hash_table)) [
          | inr (v, cached) ↦ local (v, l) r refl (rw (send_get, miss, cached) at h)
          | inl miss' ↦
              let q = send_get-IsRetrieved ours theirs providers j l r n w miss miss' h in
              (q.frame, q.kept)
        ]
      ]
    where
      local :
          (a r : Text × Local)
          → a.1 ≡ l
          → ok a ≡ ok r
          → (lookup j r.1.store.stored ≡ lookup j l.store.stored) × IsProviders r.1.providers
      local a r e h' =
          let same : a ≡ r = ground arith in
          let at : r.1 ≡ l = ap (λ (x : Text × Local). x.1) (sym same) ∙ e in
          subst
            (λ (x : Local).
              (lookup j x.store.stored ≡ lookup j l.store.stored) × IsProviders x.providers)
            (sym at) (refl, w)
