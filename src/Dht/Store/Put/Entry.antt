-- ===== src/Dht/Store/Put/Entry.antt =====
-- The entries of the hash table after a `put` (src/core/protocol/p2p/node.cpp).
use testshop.Prelude.{
  ℕ, ◌≡◌, ◌≢◌, refl, sym, ap, ◌∙◌, ◌⊎◌, inl, inr, Bool, true, none, some, arith, Text, bytes,
  text_eq_iff, text_eq_refl, lookup, ok, >>=-eq-ok, Bool-cases, length,
}
use testshop.Dht.Platform.{Platform, string_at}
use testshop.Dht.Store.{Store, is_valid_metadata, verify, drop_key, validate}
use testshop.Dht.Store.Put.{write, put_valid, holds, put}
use testshop.Dht.Store.Put.Validated.{
  IsValidated, validate-IsValidated, lookup-drop_key, lookup-drop_key_self, lookup-write,
}
use testshop.Dht.Store.Put.Changes.{Replaces, Changes, put_valid-Changes}

some-ne-none : (v : Text) → some v ≢ none
some-ne-none v h = cc

module _ (p : Platform) where
  open p use {Value, parse}

  -- The store after a `put` that returns: as it was, without the key, or with the value written
  -- after its validation.
  pub put-cases :
      (now : ℕ) (key value : Text) (s : Store) (r : Bool × Store)
      → put p now key value s ≡ ok r
      → (r.1 ≡ s)
        ⊎ (r.1 ≡ drop_key key s)
        ⊎ ((r.1 ≡ (write key value s).1)
            × IsValidated p key value s (true, s)
            × ((current : Text)
                → lookup key s.stored ≡ some current
                → current ≢ value
                → Replaces p value current))
  unfolding put
  put-cases now key value s r h = elim (Bool-cases (holds key value s)) [
    | inl same ↦ inl (ground arith)
    | inr other ↦
        let (r₀, e, h') =
          >>=-eq-ok (validate p now key value s) (put_valid p key value) (ground arith) in
        after r₀ (validate-IsValidated p now key value s r₀ e)
          (put_valid-Changes p key value r₀ r h')
  ]
    where
      written :
          (r₀ : Bool × Store)
          → IsValidated p key value s r₀
          → r₀.0 ≡ true
          → Changes p key value r₀.1 r.1
          → (r.1 ≡ s)
            ⊎ (r.1 ≡ drop_key key s)
            ⊎ ((r.1 ≡ (write key value s).1)
                × IsValidated p key value s (true, s)
                × ((current : Text)
                    → lookup key s.stored ≡ some current
                    → current ≢ value
                    → Replaces p value current))
      written (passed, s₀) v t (inl e) = inl (e ∙ v.unchanged t)
      written (passed, s₀) v t (inr (e, c)) =
          let same : s₀ ≡ s = v.unchanged t in
          inr (
            inr (
              e ∙ ap (λ (x : Store). (write key value x).1) same,
              record { unchanged = λ t'. refl; checked = λ t'. v.checked t; dropped = inl refl },
              λ current at n. c current (ap (λ (x : Store). lookup key x.stored) same ∙ at) n,
            ))

      after :
          (r₀ : Bool × Store)
          → IsValidated p key value s r₀
          → (r.1 ≡ r₀.1) ⊎ ((r₀.0 ≡ true) × Changes p key value r₀.1 r.1)
          → (r.1 ≡ s)
            ⊎ (r.1 ≡ drop_key key s)
            ⊎ ((r.1 ≡ (write key value s).1)
                × IsValidated p key value s (true, s)
                × ((current : Text)
                    → lookup key s.stored ≡ some current
                    → current ≢ value
                    → Replaces p value current))
      after r₀ v (inl e) = elim v.dropped [ inl d ↦ inl (e ∙ d) | inr d ↦ inr (inl (e ∙ d)) ]
      after r₀ v (inr (t, c)) = written r₀ v t c

  -- A `put` that returns changes no entry but that of its key.
  pub put_frame :
      (now : ℕ) (key value j : Text) (s : Store) (r : Bool × Store)
      → j ≢ key
      → put p now key value s ≡ ok r
      → lookup j r.1.stored ≡ lookup j s.stored
  put_frame now key value j s r n h = elim (put-cases now key value s r h) [
    | inl e ↦ ap (λ (x : Store). lookup j x.stored) e
    | inr (inl e) ↦ ap (λ (x : Store). lookup j x.stored) e ∙ lookup-drop_key key j s n
    | inr (inr (e, v, c)) ↦
        ap (λ (x : Store). lookup j x.stored) e
        ∙ ground (arith, lookup-write key value j s, text_eq_iff key j)
  ]

  -- The entry of the key is new only where the value was written.
  new_entry :
      (now : ℕ) (key value v : Text) (s : Store) (r : Bool × Store)
      → put p now key value s ≡ ok r
      → lookup key r.1.stored ≡ some v
      → lookup key s.stored ≢ some v
      → (v ≡ value)
        × IsValidated p key value s (true, s)
        × ((current : Text)
            → lookup key s.stored ≡ some current
            → current ≢ value
            → Replaces p value current)
  new_entry now key value v s r h at new = elim (put-cases now key value s r h) [
    | inl e ↦ absurd (new (sym (ap (λ (x : Store). lookup key x.stored) e) ∙ at))
    | inr (inl e) ↦ absurd (
        some-ne-none v
          (sym at ∙ ap (λ (x : Store). lookup key x.stored) e ∙ lookup-drop_key_self key s))
    | inr (inr (e, valid, c)) ↦ (
      ground (
        arith,
        ap (λ (x : Store). lookup key x.stored) e,
        lookup-write key value key s,
        text_eq_refl key,
      ),
      valid,
      c,
    )
  ]

  -- When a `put` that returns makes an entry new or another one, the entry is the value that was
  -- put, the key has 64 bytes, the value parses and is of a known kind, and its signature is
  -- verified where its kind has one.
  pub put_entry :
      (now : ℕ) (key value v : Text) (s : Store) (r : Bool × Store)
      → put p now key value s ≡ ok r
      → lookup key r.1.stored ≡ some v
      → lookup key s.stored ≢ some v
      → (v ≡ value)
        × (json : Value) × (m : Text) × (length key ≡ 64)
        × (parse value ≡ some json)
        × (string_at p json (bytes "metadata") ≡ some m)
        × (is_valid_metadata m ≡ true)
        × (verify p m json ≡ true)
  put_entry now key value v s r h at new =
      let (same, valid, c) = new_entry now key value v s r h at new in
      let (json, m, l, e, em, k, good) = valid.checked refl in (same, json, m, l, e, em, k, good)

  -- A `put` that returns and changes an entry that was there puts a successor of the old value:
  -- the kind and the owner are the same, a signature is another one, and of two times of the
  -- last update the new one is the later.
  pub put-Replaces :
      (now : ℕ) (key value current v : Text) (s : Store) (r : Bool × Store)
      → lookup key s.stored ≡ some current
      → put p now key value s ≡ ok r
      → lookup key r.1.stored ≡ some v
      → v ≢ current
      → Replaces p value current
  put-Replaces now key value current v s r at h after differs =
      let (same, valid, c) =
        new_entry now key value v s r h after
          (λ e. let e' : some v ≡ some current = sym e ∙ at in differs (ground arith)) in
      c current at (λ e. differs (same ∙ sym e))
