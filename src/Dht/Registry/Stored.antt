-- ===== src/Dht/Registry/Stored.antt =====
-- The operations of a node's store (src/core/protocol/p2p/node.cpp) as moves of its registry.
use testshop.Prelude.{
  ℕ, ◌≡◌, ◌≢◌, refl, sym, ap, subst, ◌∙◌, ◌⊎◌, inl, inr, Bool, none, some, arith, Text, text_eq,
  text_eq_iff, text_eq_refl, ok, Bool-cases,
}
use testshop.Dht.Platform.{Platform}
use testshop.Dht.Store.{Store, drop_key, validate}
use testshop.Dht.Store.Put.{put}
use testshop.Dht.Store.Put.Validated.{
  validate-IsValidated, lookup-drop_key, lookup-drop_key_self, lookup-write,
}
use testshop.Dht.Store.Put.Entry.{put-cases}
use testshop.Dht.Store.Expiry.{remove_rows, remove_rows-WithoutKey, expire-cases, expire}
use testshop.Dht.Registry.{
  Registry, registry, IsAccepted, Moves, stays, drops, clears, publishes, AllAccepted,
}

some_injective : {a b : Text} → some a ≡ some b → a ≡ b
some_injective {a} {b} h = ground arith

some-ne-none : (v : Text) → some v ≢ none
some-ne-none v h = cc

module _ (p : Platform) where
  open p use {Value, parse, member, as_string}

  pub Moves-refl : (r : Registry) → Moves p r r
  Moves-refl r = stays (λ j. refl)

  pub drop_key-Moves : (key : Text) (s : Store) → Moves p (registry s) (registry (drop_key key s))
  drop_key-Moves key s = drops key (λ j n. lookup-drop_key key j s n) (lookup-drop_key_self key s)

  unchanged-or-dropped :
      (key : Text) (s s' : Store)
      → (s' ≡ s) ⊎ (s' ≡ drop_key key s)
      → Moves p (registry s) (registry s')
  unchanged-or-dropped key s s' (inl e) =
      subst (λ (x : Store). Moves p (registry s) (registry x)) (sym e) (Moves-refl (registry s))
  unchanged-or-dropped key s s' (inr e) =
      subst (λ (x : Store). Moves p (registry s) (registry x)) (sym e) (drop_key-Moves key s)

  pub validate-Moves :
      (now : ℕ) (key value : Text) (s : Store) (r : Bool × Store)
      → validate p now key value s ≡ ok r
      → Moves p (registry s) (registry r.1)
  validate-Moves now key value s r h =
      unchanged-or-dropped key s r.1 (validate-IsValidated p now key value s r h).dropped

  -- A `put` that returns makes one move of the registry.
  pub put-Moves :
      (now : ℕ) (key value : Text) (s : Store) (r : Bool × Store)
      → put p now key value s ≡ ok r
      → Moves p (registry s) (registry r.1)
  put-Moves now key value s r h = elim (put-cases p now key value s r h) [
    | inl e ↦ unchanged-or-dropped key s r.1 (inl e)
    | inr (inl e) ↦ unchanged-or-dropped key s r.1 (inr e)
    | inr (inr (e, valid, c)) ↦
        subst (λ (x : Store). Moves p (registry s) (registry x)) (sym e)
          (publishes key value (valid.checked refl) c
            (λ j n. ground (arith, lookup-write key value j s, text_eq_iff key j))
            (ground (arith, lookup-write key value key s, text_eq_refl key)))
  ]

  -- Dropping a key leaves no entry that was not there.
  drop_key-source :
      (key j v : Text) (s : Store) → registry (drop_key key s) j ≡ some v → registry s j ≡ some v
  drop_key-source key j v s h = elim (Bool-cases (text_eq j key)) [
    | inl hit ↦
        let e : key ≡ j = ground (arith, text_eq_iff j key) in
        absurd (some-ne-none v (sym h ∙ rw (sym e) (lookup-drop_key_self key s)))
    | inr miss ↦ sym (lookup-drop_key key j s (λ e. ground (arith, text_eq_iff j key))) ∙ h
  ]

  pub validate_source :
      (now : ℕ) (key value j v : Text) (s : Store) (r : Bool × Store)
      → validate p now key value s ≡ ok r
      → registry r.1 j ≡ some v
      → registry s j ≡ some v
  validate_source now key value j v s r h at =
      elim (validate-IsValidated p now key value s r h).dropped [
        | inl e ↦ subst (λ (x : Store). registry x j ≡ some v) e at
        | inr e ↦ drop_key-source key j v s (subst (λ (x : Store). registry x j ≡ some v) e at)
      ]

  -- An entry that a `put` makes new or another one is what was put, accepted.
  pub put_source :
      (now : ℕ) (key value j v : Text) (s : Store) (r : Bool × Store)
      → put p now key value s ≡ ok r
      → registry r.1 j ≡ some v
      → registry s j ≢ some v
      → (key ≡ j) × (value ≡ v) × IsAccepted p key value
  put_source now key value j v s r h at new = elim (put-cases p now key value s r h) [
    | inl e ↦ absurd (new (subst (λ (x : Store). registry x j ≡ some v) e at))
    | inr (inl e) ↦
        absurd (new (drop_key-source key j v s (subst (λ (x : Store). registry x j ≡ some v) e at)))
    | inr (inr (e, valid, c)) ↦
        let at' = subst (λ (x : Store). registry x j ≡ some v) e at in
        (
          ground (arith, lookup-write key value j s, text_eq_iff key j),
          ground (arith, lookup-write key value j s, text_eq_iff key j),
          valid.checked refl,
        )
  ]

  remove_rows-Moves : (key : Text) (s : Store) → Moves p (registry s) (registry (remove_rows key s))
  remove_rows-Moves key s =
      let gone = remove_rows-WithoutKey key s in
      drops key (λ j n. ground (arith, gone j, text_eq_iff key j))
        (ground (arith, gone key, text_eq_refl key))

  pub expire-Moves :
      (now : ℕ) (key value : Text) (s : Store)
      → Moves p (registry s) (registry (expire p now key value s))
  expire-Moves now key value s = elim (expire-cases p now key value s) [
    | inl e ↦
        subst (λ (x : Store). Moves p (registry s) (registry x)) (sym e) (Moves-refl (registry s))
    | inr e ↦
        subst (λ (x : Store). Moves p (registry s) (registry x)) (sym e) (remove_rows-Moves key s)
  ]

  -- A move keeps every entry accepted.
  pub Moves-AllAccepted :
      {before after : Registry} → Moves p before after → AllAccepted p before → AllAccepted p after
  Moves-AllAccepted (stays same) ok' key value at = ok' key value (sym (same key) ∙ at)
  Moves-AllAccepted (drops k same gone) ok' key value at = elim (Bool-cases (text_eq key k)) [
    | inl hit ↦ absurd (ground (arith, text_eq_iff key k))
    | inr miss ↦ ok' key value (sym (same key (λ e. ground (arith, text_eq_iff key k))) ∙ at)
  ]
  Moves-AllAccepted (clears gone) ok' key value at = absurd (ground (arith, gone key))
  Moves-AllAccepted {before} {after} (publishes k v good c same new) ok' key value at =
      elim (Bool-cases (text_eq key k)) [
        | inl hit ↦
            let e : k ≡ key = ground (arith, text_eq_iff key k) in
            let same_value : v ≡ value = some_injective (sym new ∙ ap after e ∙ at) in
            subst (λ (x : Text). IsAccepted p x value) e
              (subst (λ (x : Text). IsAccepted p k x) same_value good)
        | inr miss ↦ ok' key value (sym (same key (λ e. ground (arith, text_eq_iff key k))) ∙ at)
      ]
