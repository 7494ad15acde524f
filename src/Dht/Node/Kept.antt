-- ===== src/Dht/Node/Kept.antt =====
-- src/core/protocol/p2p/node.cpp: what the operations of a node keep of it.
use testshop.Prelude.{ℕ, ◌≡◌, refl, subst, ◌∙◌, Text, ok, >>=-eq-ok, ok_injective}
use testshop.Dht.Platform.{Platform}
use testshop.Dht.Table.Valid.{IsTable}
use testshop.Dht.Table.Closest.{Sorting}
use testshop.Dht.Providers.{IsProviders}
use testshop.Dht.Publish.{Shuffling, send_put}
use testshop.Dht.Publish.Kept.{send_put-IsProviders}
use testshop.Dht.Retrieve.{Local, send_get}
use testshop.Dht.KeyMapper.{add}
use testshop.Dht.Registry.{registry, Evolves, here, Evolves-trans}
use testshop.Dht.Registry.Retrieved.{send_get-IsSearch}
use testshop.Dht.Node.{Node, Network, raised_by_get, map_value, publish, retrieve}
use testshop.Dht.Node.Counters.{raise_counters-IsTable}

-- The identifier stays, the table and the providers stay well formed, and the registry makes moves.
pub record IsKept (p : Platform) (memory : ℕ → ℕ) (n n' : Node) : Type 0 where
  pub id : n'.id ≡ n.id
  pub table : IsTable memory n.table → IsTable memory n'.table × (n'.table.id ≡ n.table.id)
  pub providers : IsProviders n.providers → IsProviders n'.providers
  pub evolves : Evolves p (registry n.store) (registry n'.store)

-- What `map` leaves: it changes the index and the table `mappings` alone.
pub record IsMapped (n n' : Node) : Type 0 where
  pub id : n'.id ≡ n.id
  pub table : n'.table ≡ n.table
  pub providers : n'.providers ≡ n.providers
  pub stored : n'.store.stored ≡ n.store.stored

pub map_value-IsMapped :
    (p : Platform) (key value : Text) (n n' : Node)
    → map_value p key value n ≡ ok n'
    → IsMapped n n'
unfolding map_value
map_value-IsMapped p key value n n' h =
    let ((m, rows), e, h') = >>=-eq-ok (add p key value n.key_mapper n.store.mappings) _ h in
    subst (IsMapped n) (ok_injective h')
      (record { id = refl; table = refl; providers = refl; stored = refl })

module _ (p : Platform) (memory : ℕ → ℕ) where
  pub IsKept-refl : (n : Node) → IsKept p memory n n
  IsKept-refl n = record { id = refl; table = λ v. (v, refl); providers = λ w. w; evolves = here }

  pub IsKept-trans :
      (a b c : Node) → IsKept p memory a b → IsKept p memory b c → IsKept p memory a c
  IsKept-trans a b c k k' = record {
    id = k'.id ∙ k.id;
    table = λ v. let (v', e) = k.table v in let (v'', e') = k'.table v' in (v'', e' ∙ e);
    providers = λ w. k'.providers (k.providers w);
    evolves = Evolves-trans p k.evolves k'.evolves;
  }

  pub publish-IsKept :
      (now : ℕ) (std : Sorting) (rng : Shuffling) (net : Network) (key value : Text) (n : Node)
      (r : ℕ × Node)
      → publish p memory now std rng net key value n ≡ ok r
      → IsKept p memory n r.1
  unfolding publish
  publish-IsKept now std rng net key value n r h =
      let (s, e, h') =
        >>=-eq-ok (send_put p memory std rng net.put_reply n.table key value n.providers) _ h in
      subst (λ (x : ℕ × Node). IsKept p memory n x.1) (ok_injective h')
        (record {
          id = refl;
          table = raise_counters-IsTable memory s.raised n.table;
          providers = λ w.
              send_put-IsProviders p memory std rng net.put_reply n.table key value n.providers s w
                e;
          evolves = here;
        })

  pub retrieve-IsKept :
      (now : ℕ) (std : Sorting) (rng : Shuffling) (net : Network) (key : Text) (n : Node)
      (r : Text × Node)
      → retrieve p memory now std rng net key n ≡ ok r
      → IsKept p memory n r.1
  unfolding retrieve
  retrieve-IsKept now std rng net key n r h =
      let l : Local = record { store = n.store; providers = n.providers } in
      let ((v, l'), e, h') = >>=-eq-ok (send_get p now key net.ours net.theirs _ l) _ h in
      let search = send_get-IsSearch p now key net.ours net.theirs _ l (v, l') e in
      subst (λ (x : Text × Node). IsKept p memory n x.1) (ok_injective h')
        (record {
          id = refl;
          table =
              raise_counters-IsTable memory (raised_by_get p memory now std rng net key n) n.table;
          providers = search.kept;
          evolves = search.evolves;
        })
