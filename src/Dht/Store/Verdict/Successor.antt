-- ===== src/Dht/Store/Verdict/Successor.antt =====
-- What a value is that `set` writes (src/core/protocol/p2p/node.cpp).
use testshop.Prelude.{
  ◌<◌, ◌≡◌, ◌≢◌, refl, ap, Bool, true, false, Option, none, some, arith, Text, bytes, text_eq,
  text_eq_iff, Outcome, ok, throws, faults, ◌>>=◌, >>=-eq-ok, Bool-cases, Option-cases, ◌⊎◌, inl,
  inr, if◌then◌else◌,
}
use testshop.Dht.Platform.{Platform, string_at, get_string, got, get_most_recent_timestamp}
use testshop.Dht.Store.{is_rating}
use testshop.Dht.Store.Verdict.{
  Verdict, reject, replace, same_field, same_listing, updated_signature, immutable_fields,
  by_last_updated, settled, set_verdict, SameOwner, IsSuccessor,
}

-- The checks, read backwards.
same_field-eq : (a b : Option Text) → same_field a b ≡ ok true → a ≡ b
unfolding same_field
same_field-eq none b h = cc
same_field-eq (some a) none h = cc
same_field-eq (some a) (some b) h = ground (arith, text_eq_iff a b)

same_listing-eq : (a b c d : Option Text) → same_listing a b c d ≡ ok true → (a ≡ c) × (b ≡ d)
unfolding same_listing
same_listing-eq none b c d h = cc
same_listing-eq (some a) none c d h = cc
same_listing-eq (some a) (some b) none d h = cc
same_listing-eq (some a) (some b) (some c) none h = ground arith
same_listing-eq (some a) (some b) (some c) (some d) h =
    ground (arith, text_eq_iff a c, text_eq_iff b d)

updated_signature-ne : (a b : Option Text) → updated_signature a b ≡ ok true → (a ≡ none) ⊎ (a ≢ b)
unfolding updated_signature
updated_signature-ne none b h = inl refl
updated_signature-ne (some a) none h = cc
updated_signature-ne (some a) (some b) h = inr (λ e. ground (arith, text_eq_iff a b))

got-eq : (a : Option Text) (s : Text) → got a ≡ ok s → a ≡ some s
got-eq none s h = cc
got-eq (some a) s h = ground arith

when_replace :
    (b : Bool) (k : Outcome Verdict)
    → (if b then k else ok reject) ≡ ok replace
    → (b ≡ true) × (k ≡ ok replace)
when_replace true k h = (refl, h)
when_replace false k h = cc

bind_replace :
    (m : Outcome Bool) (k : Outcome Verdict)
    → (m >>= λ b. if b then k else ok reject) ≡ ok replace
    → (m ≡ ok true) × (k ≡ ok replace)
bind_replace (ok b) k h = let (e, h') = when_replace b k h in (ap ok e, h')
bind_replace throws k h = cc
bind_replace faults k h = cc

module _ (p : Platform) where
  open p use {Value, seconds}

  by_last_updated-newer :
      (json current : Value) (l c : Text)
      → by_last_updated p json current ≡ replace
      → string_at p json (bytes "last_updated") ≡ some l
      → string_at p current (bytes "last_updated") ≡ some c
      → seconds c < seconds l
  unfolding by_last_updated get_most_recent_timestamp
  by_last_updated-newer json current l c h el ec =
      ground (arith, text_eq_iff (get_most_recent_timestamp p l c) c, text_eq_iff l c)

  settled-replace :
      (json current : Value) (fresh : Outcome Bool)
      → settled p json current fresh ≡ ok replace
      → (fresh ≡ ok true) × (by_last_updated p json current ≡ replace)
  unfolding settled
  settled-replace json current (ok true) h = (refl, ground arith)
  settled-replace json current (ok false) h = cc
  settled-replace json current throws h = cc
  settled-replace json current faults h = cc

  -- Each check passed.
  set_verdict-parts :
      (json current : Value)
      → set_verdict p json current ≡ ok replace
      → (m : Text) × (string_at p json (bytes "metadata") ≡ some m)
        × (string_at p current (bytes "metadata") ≡ some m)
        × (immutable_fields p m json current ≡ ok true)
        × (updated_signature
              (string_at p json (bytes "signature"))
              (string_at p current (bytes "signature"))
            ≡ ok true)
        × (by_last_updated p json current ≡ replace)
  unfolding set_verdict
  set_verdict-parts json current h =
      let (m, em, h₁) = >>=-eq-ok (get_string p json (bytes "metadata")) _ h in
      let (c, ec, h₂) = >>=-eq-ok (get_string p current (bytes "metadata")) _ h₁ in
      let (e, h₃) = when_replace (text_eq m c) _ h₂ in
      let (same, h₄) = bind_replace (immutable_fields p m json current) _ h₃ in
      let (fresh, upd) = settled-replace json current _ h₄ in
      let e' : m ≡ c = (text_eq_iff m c).0 e in
      (m, got-eq _ m em, got-eq _ m (rw e' ec), same, fresh, upd)

  -- The owner's fields, by the test that picks them.
  immutable_fields-SameOwner :
      (m : Text) (json current : Value)
      → immutable_fields p m json current ≡ ok true
      → SameOwner p m json current
  unfolding immutable_fields
  immutable_fields-SameOwner m json current h = elim (Bool-cases (text_eq m (bytes "user"))) [
    | inl u ↦ rw u (same_field-eq _ _ (rw u at h))
    | inr nu ↦ elim (Bool-cases (text_eq m (bytes "listing"))) [
      | inl l ↦ rw (nu, l) (same_listing-eq _ _ _ _ (rw (nu, l) at h))
      | inr nl ↦ elim (Bool-cases (is_rating m)) [
        | inl r ↦ rw (nu, nl, r) (same_field-eq _ _ (rw (nu, nl, r) at h))
        | inr nr ↦ rw (nu, nl, nr) tt
      ]
    ]
  ]

  by_last_updated-newest :
      (json current : Value)
      → by_last_updated p json current ≡ replace
      → (string_at p json (bytes "last_updated") ≡ none)
        ⊎ (string_at p current (bytes "last_updated") ≡ none)
        ⊎ ((l : Text) × (c : Text) × (string_at p json (bytes "last_updated") ≡ some l)
            × (string_at p current (bytes "last_updated") ≡ some c)
            × (seconds c < seconds l))
  by_last_updated-newest json current h =
      elim (Option-cases (string_at p json (bytes "last_updated"))) [
        | inl e ↦ inl e
        | inr (l, el) ↦ elim (Option-cases (string_at p current (bytes "last_updated"))) [
          | inl e ↦ inr (inl e)
          | inr (c, ec) ↦ inr (inr (l, c, el, ec, by_last_updated-newer json current l c h el ec))
        ]
      ]

  -- `set` writes only a successor of the stored value.
  pub set_verdict-IsSuccessor :
      (json current : Value)
      → set_verdict p json current ≡ ok replace
      → (m : Text) × IsSuccessor p m json current
  set_verdict-IsSuccessor json current h =
      let (m, em, ec, same, fresh, upd) = set_verdict-parts json current h in
      (
        m,
        record {
          metadata = em;
          current_metadata = ec;
          owner = immutable_fields-SameOwner m json current same;
          signature = updated_signature-ne _ _ fresh;
          newer = by_last_updated-newest json current upd;
        },
      )
