-- ===== src/Dht/Registry/Retrieved.antt =====
-- `send_get` (src/core/protocol/p2p/node.cpp) as moves of the registry: the validation of an expired value
-- drops its key.
use testshop.Prelude.{
  ℕ, ◌≡◌, subst, inl, inr, Bool, true, false, Option, none, some, List, [], ◌∷◌, Text, lookup,
  has_key, Outcome, ok, >>=-eq-ok, ok_injective, Bool-cases, Option-cases,
}
use testshop.Dht.Platform.{Platform}
use testshop.Dht.Providers.{Peer, IsProviders, get_providers, remove_provider-IsProviders}
use testshop.Dht.Store.{Store, validate}
use testshop.Dht.Store.Put.{get}
use testshop.Dht.Retrieve.{
  GetReply, refused, timed_out, unreadable, error, no_value, value, Local, without, get_round,
  get_from, get_from_others, send_get,
}
use testshop.Dht.Registry.{registry, Evolves, here, next, Evolves-trans}
use testshop.Dht.Registry.Stored.{validate-Moves}

module _ (p : Platform) (now : ℕ) (key : Text) where
  -- What a search makes of the store and of the providers.
  pub record IsSearch (l l' : Local) : Type 0 where
    pub evolves : Evolves p (registry l.store) (registry l'.store)
    pub kept : IsProviders l.providers → IsProviders l'.providers

  IsSearch-refl : (l : Local) → IsSearch l l
  IsSearch-refl l = record { evolves = here; kept = λ w. w }

  IsSearch-trans : (a b c : Local) → IsSearch a b → IsSearch b c → IsSearch a c
  IsSearch-trans a b c q q' = record {
    evolves = Evolves-trans p q.evolves q'.evolves;
    kept = λ w. q'.kept (q.kept w);
  }

  after_checked :
      (v : Text) (l : Local) (checked : Bool × Store)
      → validate p now key v l.store ≡ ok checked
      → IsSearch l (record l { store = checked.1 })
  after_checked v l checked e = record {
    evolves = next here (validate-Moves p now key v l.store checked e);
    kept = λ w. w;
  }

  after_removal : (peer : Peer) (l : Local) → IsSearch l (without key peer l)
  after_removal peer l = record {
    evolves = here;
    kept = remove_provider-IsProviders key peer.address peer.port l.providers;
  }

  stopped :
      (l : Local) (v : Option Text) (r : Option Text × Local) → ok (v, l) ≡ ok r → IsSearch l r.1
  stopped l v r h =
      subst (λ (x : Option Text × Local). IsSearch l x.1) (ok_injective h) (IsSearch-refl l)

  get_round-IsSearch :
      (peer : Peer) (reply : GetReply) (l : Local) (rest : Local → Outcome (Option Text × Local))
      (r : Option Text × Local)
      → ((m : Local) → rest m ≡ ok r → IsSearch m r.1)
      → get_round p now key peer reply l rest ≡ ok r
      → IsSearch l r.1
  unfolding get_round
  get_round-IsSearch peer refused l rest r after h = after l h
  get_round-IsSearch peer timed_out l rest r after h =
      IsSearch-trans l (without key peer l) r.1 (after_removal peer l)
        (after (without key peer l) h)
  get_round-IsSearch peer unreadable l rest r after h = after l h
  get_round-IsSearch peer error l rest r after h =
      IsSearch-trans l (without key peer l) r.1 (after_removal peer l)
        (after (without key peer l) h)
  get_round-IsSearch peer no_value l rest r after h = after l h
  get_round-IsSearch peer (value v) l rest r after h =
      let ((valid, s), e, h') = >>=-eq-ok (validate p now key v l.store) _ h in checked valid s e h'
    where
      checked :
          (valid : Bool) (s : Store)
          → validate p now key v l.store ≡ ok (valid, s)
          → (elim valid [
            | true ↦ ok (some v, record l { store = s })
            | false ↦ rest (record l { store = s })
          ])
            ≡ ok r
          → IsSearch l r.1
      checked true s e h' =
          IsSearch-trans l (record l { store = s }) r.1 (after_checked v l (true, s) e)
            (stopped (record l { store = s }) (some v) r h')
      checked false s e h' =
          IsSearch-trans l (record l { store = s }) r.1 (after_checked v l (false, s) e)
            (after (record l { store = s }) h')

  get_from-IsSearch :
      (reply : Peer → GetReply) (peers : List Peer) (l : Local) (r : Option Text × Local)
      → get_from p now key reply peers l ≡ ok r
      → IsSearch l r.1
  unfolding get_from
  get_from-IsSearch reply [] l r h = stopped l none r h
  get_from-IsSearch reply (peer ∷ peers) l r h =
      get_round-IsSearch peer (reply peer) l (get_from p now key reply peers) r
        (λ m. get_from-IsSearch reply peers m r) h

  get_from_others-IsSearch :
      (reply : Peer → GetReply) (providers : Outcome (List Peer)) (found : Option Text) (l : Local)
      (r : Text × Local)
      → get_from_others p now key reply providers (found, l) ≡ ok r
      → IsSearch l r.1
  unfolding get_from_others
  get_from_others-IsSearch reply providers (some v) l r h =
      subst (λ (x : Text × Local). IsSearch l x.1) (ok_injective h) (IsSearch-refl l)
  get_from_others-IsSearch reply providers none l r h =
      let (peers, e, h') = >>=-eq-ok providers _ h in
      let (r', e', h'') = >>=-eq-ok (get_from p now key reply peers l) _ h' in
      subst (λ (x : Text × Local). IsSearch l x.1) (ok_injective h'')
        (get_from-IsSearch reply peers l r' e')

  -- A `send_get` that returns makes moves of the registry, and keeps the providers well formed.
  pub send_get-IsSearch :
      (ours theirs : Peer → GetReply) (providers : Outcome (List Peer)) (l : Local)
      (r : Text × Local)
      → send_get p now key ours theirs providers l ≡ ok r
      → IsSearch l r.1
  unfolding send_get
  send_get-IsSearch ours theirs providers l r h = elim (Bool-cases (has_key key l.store.stored)) [
    | inl there ↦ local (get key l.store) (rw (send_get, there) at h)
    | inr miss ↦ elim (Option-cases (lookup key l.store.hash_table)) [
      | inr (v, cached) ↦ local v (rw (send_get, miss, cached) at h)
      | inl miss' ↦
          let ((found, m), e, h') =
            >>=-eq-ok (get_from p now key ours (get_providers key l.providers) l) _
              (rw (send_get, miss, miss') at h) in
          IsSearch-trans l m r.1
            (get_from-IsSearch ours (get_providers key l.providers) l (found, m) e)
            (get_from_others-IsSearch theirs providers found m r h')
    ]
  ]
    where
      local : (v : Text) → ok (v, l) ≡ ok r → IsSearch l r.1
      local v e = subst (λ (x : Text × Local). IsSearch l x.1) (ok_injective e) (IsSearch-refl l)
