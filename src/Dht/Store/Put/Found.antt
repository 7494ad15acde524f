-- ===== src/Dht/Store/Put/Found.antt =====
-- A `put` that succeeds leaves an entry under its key (src/core/protocol/p2p/node.cpp).
use testshop.Prelude.{
  ℕ, ◌≡◌, ◌↔◌, refl, ap, subst, inl, inr, Bool, true, false, some, arith, Text, text_eq,
  text_eq_iff, text_eq_refl, lookup, ok, >>=-eq-ok, ok_injective, split_if, Option-cases,
}
use testshop.Dht.Platform.{Platform}
use testshop.Dht.Store.{Store, validate}
use testshop.Dht.Store.Verdict.{Verdict, reject, keep, replace, set_verdict}
use testshop.Dht.Store.Put.{write, apply_verdict, set_value, put_valid, holds, put}
use testshop.Dht.Store.Put.Validated.{lookup-write}

-- The key has an entry.
abbrev pub IsFound : Text → Store → Type 0
IsFound key s = (v : Text) × (lookup key s.stored ≡ some v)

write-IsFound :
    (key value : Text) (s : Store) (r : Bool × Store)
    → ok (write key value s) ≡ ok r
    → IsFound key r.1
write-IsFound key value s r h =
    (value, ground (arith, ok_injective h, lookup-write key value key s, text_eq_refl key))

holds-IsFound : (key value : Text) (s : Store) → holds key value s ≡ true → IsFound key s
holds-IsFound key value s h = elim (Option-cases (lookup key s.stored)) [
  | inl miss ↦ absurd (ground arith)
  | inr found ↦ found
]

pub holds_iff :
    (key value : Text) (s : Store) → (holds key value s ≡ true) ↔ (lookup key s.stored ≡ some value)
holds_iff key value s = elim (Option-cases (lookup key s.stored)) [
  | inl miss ↦ ground arith
  | inr (v, at) ↦ ground (arith, text_eq_iff v value)
]

module _ (p : Platform) where
  open p use {parse}

  set_value-IsFound :
      (key value current : Text) (s : Store) (r : Bool × Store)
      → lookup key s.stored ≡ some current
      → set_value p key value current s ≡ ok r
      → r.0 ≡ true
      → IsFound key r.1
  unfolding set_value
  set_value-IsFound key value current s r at h t = elim (Option-cases (parse value)) [
    | inl miss ↦ absurd (ground arith)
    | inr (json, ej) ↦ elim (Option-cases (parse current)) [
      | inl miss ↦ absurd (ground arith)
      | inr (cj, ec) ↦
          let (v, e, a) = >>=-eq-ok (set_verdict p json cj) _ (rw (set_value, ej, ec) at h) in
          by_verdict v (ok_injective a)
    ]
  ]
    where
      by_verdict : (v : Verdict) → apply_verdict key value s v ≡ r → IsFound key r.1
      by_verdict reject a = absurd (ground (arith, ap (λ (x : Bool × Store). x.0) a))
      by_verdict keep a = (current, ground (arith, ap (λ (x : Bool × Store). x.1) a))
      by_verdict replace a = write-IsFound key value s r (ap ok a)

  put_valid-IsFound :
      (key value : Text) (checked r : Bool × Store)
      → put_valid p key value checked ≡ ok r
      → r.0 ≡ true
      → IsFound key r.1
  unfolding put_valid
  put_valid-IsFound key value (false, s) r h t =
      absurd (ground (arith, ap (λ (x : Bool × Store). x.0) (ok_injective h)))
  put_valid-IsFound key value (true, s) r h t = elim (Option-cases (lookup key s.stored)) [
    | inl miss ↦ write-IsFound key value s r (rw (put_valid, miss) at h)
    | inr (current, at) ↦
        split_if (text_eq current value) (λ x. write-IsFound key value s r)
          (λ x h'. set_value-IsFound key value current s r at h' t) (rw (put_valid, at) at h)
  ]

  -- Whatever a `put` that succeeds does, its key has an entry afterwards.
  pub put-IsFound :
      (now : ℕ) (key value : Text) (s s' : Store)
      → put p now key value s ≡ ok (true, s')
      → IsFound key s'
  unfolding put
  put-IsFound now key value s s' =
      split_if (holds key value s)
        (λ x h.
          subst (λ (y : Bool × Store). IsFound key y.1) (ok_injective h)
            (holds-IsFound key value s x))
        (λ x h.
          let (checked, e, h') = >>=-eq-ok (validate p now key value s) _ h in
          put_valid-IsFound key value checked (true, s') h' refl)
