-- ===== src/Dht/Table/Contacts.antt =====
-- The searches and the erasures in the node list of one bucket (routing_table.cpp).
use testshop.Prelude.{
  ◌+◌, ◌≤◌, ◌≡◌, ◌≢◌, refl, subst, inl, inr, true, false, List, [], ◌∷◌, ◌++◌, arith, Text, text_eq,
  text_eq_iff, if◌then◌else◌, is_some, Bool-cases, length, All, All-append,
}
use testshop.Dht.Table.{Contact, has_id, has_address, find_id, erase_id, erase_address}

-- No two nodes have one identifier.
abbrev pub DistinctIds : List Contact → Type 0
DistinctIds [] = Unit {0}
DistinctIds (c ∷ cs) = All (λ (d : Contact). d.id ≢ c.id) cs × DistinctIds cs

abbrev pub NotId : Text → Contact → Type 0
NotId hex c = c.id ≢ hex

module _ (hex : Text) where
  pub All-NotId : (cs : List Contact) → has_id hex cs ≡ false → All (NotId hex) cs
  unfolding has_id
  All-NotId [] h = tt
  All-NotId (c ∷ cs) h = (
    (λ e. ground (arith, text_eq_iff c.id hex)),
    All-NotId cs (ground (arith, text_eq_iff c.id hex)),
  )

  pub has_id-false : (cs : List Contact) → All (NotId hex) cs → has_id hex cs ≡ false
  unfolding has_id
  has_id-false [] h = refl
  has_id-false (c ∷ cs) h = ground (arith, text_eq_iff c.id hex, has_id-false cs, h.0)

  pub has_id-append :
      (cs ds : List Contact)
      → has_id hex (cs ++ ds) ≡ (if has_id hex cs then true else has_id hex ds)
  unfolding has_id
  has_id-append [] ds = refl
  has_id-append (c ∷ cs) ds = ground (arith, has_id-append cs ds)

  pub has_id-erase_id : (cs : List Contact) → DistinctIds cs → has_id hex (erase_id hex cs) ≡ false
  unfolding has_id erase_id
  has_id-erase_id [] d = refl
  has_id-erase_id (c ∷ cs) d = elim (Bool-cases (text_eq c.id hex)) [
    | inl hit ↦
        let e : c.id ≡ hex = (text_eq_iff c.id hex).0 hit in
        rw hit (has_id-false cs (subst (λ (i : Text). All (NotId i) cs) e d.0))
    | inr miss ↦ rw (miss, has_id, miss) (has_id-erase_id cs d.1)
  ]

  pub length-erase_id :
      (cs : List Contact) → length cs ≡ length (erase_id hex cs) + (if has_id hex cs then 1 else 0)
  unfolding has_id erase_id
  length-erase_id [] = omega arith
  length-erase_id (c ∷ cs) = ground (arith, length-erase_id cs)

  pub All-erase_id {κ} :
      (P : Contact → Type κ) (cs : List Contact) → All P cs → All P (erase_id hex cs)
  unfolding erase_id
  All-erase_id P [] h = tt
  All-erase_id P (c ∷ cs) h = elim (Bool-cases (text_eq c.id hex)) [
    | inl hit ↦ rw hit h.1
    | inr miss ↦ rw miss (h.0, All-erase_id P cs h.1)
  ]

  pub DistinctIds-erase_id : (cs : List Contact) → DistinctIds cs → DistinctIds (erase_id hex cs)
  unfolding erase_id
  DistinctIds-erase_id [] d = tt
  DistinctIds-erase_id (c ∷ cs) d = elim (Bool-cases (text_eq c.id hex)) [
    | inl hit ↦ rw hit d.1
    | inr miss ↦ rw miss (All-erase_id (NotId c.id) cs d.0, DistinctIds-erase_id cs d.1)
  ]

  -- The search by identifier finds a node with the identifier, when there is one.
  pub find_id-has_id : (cs : List Contact) → is_some (find_id hex cs) ≡ has_id hex cs
  unfolding has_id find_id
  find_id-has_id [] = refl
  find_id-has_id (c ∷ cs) = ground (arith, find_id-has_id cs)

  -- Nodes with other identifiers stay.
  pub has_id-erase_id_ne :
      (other : Text) (cs : List Contact)
      → other ≢ hex
      → has_id other (erase_id hex cs) ≡ has_id other cs
  unfolding has_id erase_id
  has_id-erase_id_ne other [] h = refl
  has_id-erase_id_ne other (c ∷ cs) h =
      ground (arith, text_eq_iff c.id hex, text_eq_iff c.id other, has_id-erase_id_ne other cs h)

module _ (address : Text) where
  pub All-erase_address {κ} :
      (P : Contact → Type κ) (cs : List Contact) → All P cs → All P (erase_address address cs)
  unfolding erase_address
  All-erase_address P [] h = tt
  All-erase_address P (c ∷ cs) h = elim (Bool-cases (text_eq c.address address)) [
    | inl hit ↦ rw hit (All-erase_address P cs h.1)
    | inr miss ↦ rw miss (h.0, All-erase_address P cs h.1)
  ]

  pub DistinctIds-erase_address :
      (cs : List Contact) → DistinctIds cs → DistinctIds (erase_address address cs)
  unfolding erase_address
  DistinctIds-erase_address [] d = tt
  DistinctIds-erase_address (c ∷ cs) d = elim (Bool-cases (text_eq c.address address)) [
    | inl hit ↦ rw hit (DistinctIds-erase_address cs d.1)
    | inr miss ↦ rw miss (All-erase_address (NotId c.id) cs d.0, DistinctIds-erase_address cs d.1)
  ]

  pub length-erase_address : (cs : List Contact) → length (erase_address address cs) ≤ length cs
  unfolding erase_address
  length-erase_address [] = omega arith
  length-erase_address (c ∷ cs) = ground (arith, length-erase_address cs)

  pub has_address-erase_address :
      (cs : List Contact) → has_address address (erase_address address cs) ≡ false
  unfolding has_address erase_address
  has_address-erase_address [] = refl
  has_address-erase_address (c ∷ cs) = ground (arith, has_address-erase_address cs)

-- A new node at the end.
pub DistinctIds-append :
    (cs : List Contact) (c : Contact)
    → DistinctIds cs
    → has_id c.id cs ≡ false
    → DistinctIds (cs ++ c ∷ [])
unfolding has_id
DistinctIds-append [] c d h = (tt, tt)
DistinctIds-append (x ∷ cs) c d h = (
  All-append (NotId x.id) cs (c ∷ []) d.0 ((λ e. ground (arith, text_eq_iff x.id c.id)), tt),
  DistinctIds-append cs c d.1 (ground (arith, text_eq_iff x.id c.id)),
)
