-- ===== src/Dht/Id/Prefix.antt =====
-- The number of leading bits that two lists of bits share: what the distance of two identifiers
-- (routing_table.cpp) stands for.
use testshop.Prelude.{
  ℕ, zero, suc, ◌+◌, ◌≤◌, ◌<◌, min, ◌≡◌, ◌≢◌, refl, none, some, List, [], ◌∷◌, ◌++◌, arith, ◌==◌,
  if◌then◌else◌, length, get_or,
}
use testshop.Dht.Byte.{first_difference}

unfoldable pub common_prefix : List ℕ → List ℕ → ℕ
common_prefix [] bs = 0
common_prefix (a ∷ as') [] = 0
common_prefix (a ∷ as') (b ∷ bs) = if a == b then suc (common_prefix as' bs) else 0

pub first_difference-eq :
    (as' bs : List ℕ)
    → length as' ≡ length bs
    → first_difference as' bs
      ≡ (if common_prefix as' bs == length as' then none else some (common_prefix as' bs))
unfolding first_difference common_prefix
first_difference-eq [] bs h = refl
first_difference-eq (a ∷ as') [] h = absurd (omega arith)
first_difference-eq (a ∷ as') (b ∷ bs) h = ground (arith, first_difference-eq as' bs)

pub common_prefix-append :
    (as' bs cs ds : List ℕ)
    → length as' ≡ length bs
    → common_prefix (as' ++ cs) (bs ++ ds) ≡ (
        if common_prefix as' bs == length as'
        then length as' + common_prefix cs ds
        else common_prefix as' bs)
unfolding common_prefix
common_prefix-append [] [] cs ds h = omega arith
common_prefix-append [] (b ∷ bs) cs ds h = absurd (omega arith)
common_prefix-append (a ∷ as') [] cs ds h = absurd (omega arith)
common_prefix-append (a ∷ as') (b ∷ bs) cs ds h = ground (arith, common_prefix-append as' bs cs ds)

pub common_prefix-le : (as' bs : List ℕ) → common_prefix as' bs ≤ length as'
unfolding common_prefix
common_prefix-le [] bs = omega arith
common_prefix-le (a ∷ as') [] = omega arith
common_prefix-le (a ∷ as') (b ∷ bs) = ground (arith, common_prefix-le as' bs)

pub common_prefix_self : (as' : List ℕ) → common_prefix as' as' ≡ length as'
unfolding common_prefix
common_prefix_self [] = refl
common_prefix_self (a ∷ as') = ground (arith, common_prefix_self as')

pub common_prefix_comm : (as' bs : List ℕ) → common_prefix as' bs ≡ common_prefix bs as'
unfolding common_prefix
common_prefix_comm [] [] = refl
common_prefix_comm [] (b ∷ bs) = refl
common_prefix_comm (a ∷ as') [] = refl
common_prefix_comm (a ∷ as') (b ∷ bs) = ground (arith, common_prefix_comm as' bs)

-- The longer the prefixes shared with a third list, the longer the prefix shared.
pub common_prefix_ultra :
    (as' bs cs : List ℕ) → min (common_prefix as' bs) (common_prefix bs cs) ≤ common_prefix as' cs
unfolding common_prefix
common_prefix_ultra [] bs cs = omega arith
common_prefix_ultra (a ∷ as') [] cs = omega arith
common_prefix_ultra (a ∷ as') (b ∷ bs) [] = omega arith
common_prefix_ultra (a ∷ as') (b ∷ bs) (c ∷ cs) = ground (arith, common_prefix_ultra as' bs cs)

pub eq_of_common_prefix :
    (as' bs : List ℕ) → length as' ≡ length bs → common_prefix as' bs ≡ length as' → as' ≡ bs
unfolding common_prefix
eq_of_common_prefix [] [] h e = refl
eq_of_common_prefix [] (b ∷ bs) h e = absurd (omega arith)
eq_of_common_prefix (a ∷ as') [] h e = absurd (omega arith)
eq_of_common_prefix (a ∷ as') (b ∷ bs) h e = ground (arith, eq_of_common_prefix as' bs)

-- Lists that agree before `k` and differ at `k` share `k` bits.
pub common_prefix_unique :
    (k : ℕ) (as' bs : List ℕ)
    → k < length as'
    → length as' ≡ length bs
    → ((j : ℕ) → j < k → get_or as' j 0 ≡ get_or bs j 0)
    → get_or as' k 0 ≢ get_or bs k 0
    → common_prefix as' bs ≡ k
unfolding common_prefix
common_prefix_unique k [] bs h l same differs = absurd (omega arith)
common_prefix_unique k (a ∷ as') [] h l same differs = absurd (omega arith)
common_prefix_unique zero (a ∷ as') (b ∷ bs) h l same differs = ground arith
common_prefix_unique (suc k) (a ∷ as') (b ∷ bs) h l same differs = ground (
  arith,
  same 0,
  common_prefix_unique k as' bs (omega arith) (omega arith) (λ j p. same (suc j) (omega arith))
      differs,
)
