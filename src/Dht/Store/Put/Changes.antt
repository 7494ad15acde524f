-- ===== src/Dht/Store/Put/Changes.antt =====
-- What `put` writes after the validation (src/core/protocol/p2p/node.cpp).
use testshop.Prelude.{
  ◌≡◌, ◌≢◌, refl, sym, ap, ◌⊎◌, inl, inr, Bool, true, false, some, arith, Text, text_eq,
  text_eq_iff, lookup, ok, ◌>>=◌, >>=-eq-ok, Bool-cases, Option-cases,
}
use testshop.Dht.Platform.{Platform}
use testshop.Dht.Store.{Store}
use testshop.Dht.Store.Put.{write, apply_verdict, set_value, put_valid}
use testshop.Dht.Store.Verdict.Successor.{set_verdict-IsSuccessor}
use testshop.Dht.Store.Verdict.{Verdict, reject, keep, replace, set_verdict, IsSuccessor}

module _ (p : Platform) where
  open p use {Value, parse}

  -- The new value may take the place of the stored one.
  abbrev pub Replaces : Text → Text → Type 0
  Replaces value current =
      (json : Value) × (current_json : Value) × (parse value ≡ some json)
      × (parse current ≡ some current_json)
      × (m : Text) × IsSuccessor p m json current_json

  -- Nothing changes, or the value is written, in place of a value that it may replace, if any.
  abbrev pub Changes : Text → Text → Store → Store → Type 0
  Changes key value s s' =
      (s' ≡ s)
      ⊎ ((s' ≡ (write key value s).1)
          × ((current : Text)
              → lookup key s.stored ≡ some current
              → current ≢ value
              → Replaces value current))

  set_value-Changes :
      (key value current : Text) (s : Store) (r : Bool × Store)
      → lookup key s.stored ≡ some current
      → set_value p key value current s ≡ ok r
      → Changes key value s r.1
  unfolding set_value
  set_value-Changes key value current s r at h = elim (Option-cases (parse value)) [
    | inl miss ↦ absurd (ground arith)
    | inr (json, ej) ↦ elim (Option-cases (parse current)) [
      | inl miss ↦ absurd (ground arith)
      | inr (cj, ec) ↦ found json cj ej ec (ground arith)
    ]
  ]
    where
      done :
          (json cj : Value)
          → parse value ≡ some json
          → parse current ≡ some cj
          → (v : Verdict) → set_verdict p json cj ≡ ok v
          → apply_verdict key value s v ≡ r
          → Changes key value s r.1
      done json cj ej ec reject e a = inl (sym (ap (λ (x : Bool × Store). x.1) a))
      done json cj ej ec keep e a = inl (sym (ap (λ (x : Bool × Store). x.1) a))
      done json cj ej ec replace e a = inr (
        sym (ap (λ (x : Bool × Store). x.1) a),
        λ c at' n.
            let same : current ≡ c = cc in
            let (m, next) = set_verdict-IsSuccessor p json cj e in (json, cj, ej, cc, m, next),
      )

      found :
          (json cj : Value)
          → parse value ≡ some json
          → parse current ≡ some cj
          → (set_verdict p json cj >>= λ v. ok (apply_verdict key value s v)) ≡ ok r
          → Changes key value s r.1
      found json cj ej ec h' =
          let (v, e, a) = >>=-eq-ok (set_verdict p json cj) _ h' in
          done json cj ej ec v e (ground arith)

  pub put_valid-Changes :
      (key value : Text) (r r' : Bool × Store)
      → put_valid p key value r ≡ ok r'
      → (r'.1 ≡ r.1) ⊎ ((r.0 ≡ true) × Changes key value r.1 r'.1)
  unfolding put_valid
  put_valid-Changes key value (false, s) r' h = inl (ground arith)
  put_valid-Changes key value (true, s) r' h = elim (Option-cases (lookup key s.stored)) [
    | inl none' ↦ inr (refl, inr (ground arith, λ c at n. absurd (ground arith)))
    | inr (current, at) ↦ elim (Bool-cases (text_eq current value)) [
      | inl same ↦
          inr (
            refl,
            inr (ground arith, λ c at' n. absurd (ground (arith, text_eq_iff current value))),
          )
      | inr differs ↦ inr (refl, set_value-Changes key value current s r' at (ground arith))
    ]
  ]
