-- ===== src/Dht/Publish/Kept.antt =====
-- The providers that `send_put` of src/core/protocol/p2p/node.cpp leaves.
use testshop.Prelude.{
  split_if, Option, none, some, ℕ, ◌-◌, ◌≡◌, List, Text, Outcome, ok, >>=-eq-ok, ok_injective, ltb,
  length, take, subst, Bool-cases, inl, inr,
}
use testshop.Dht.Platform.{Platform}
use testshop.Dht.Table.{Contact, Table, get_node_count}
use testshop.Dht.Table.Closest.{Sorting, find_closest_nodes}
use testshop.Dht.Providers.{Providers, IsProviders}
use testshop.Dht.Publish.{
  replication_factor, Reply, Shuffling, Sending, started, put_closest, put_replacement, put_each,
  replacement_nodes, put_remaining, send_to_closest, is_value_publishable, not_published, started,
  send_put,
}
use testshop.Dht.Publish.Rounds.{put_closest-IsRound, put_replacement-IsRound, put_each-kept}

put_remaining-kept :
    (key : Text) (reply : Contact → Reply) (closest all : List Contact) (s : Sending)
    → IsProviders s.providers
    → IsProviders (put_remaining key reply closest s all).providers
unfolding put_remaining
put_remaining-kept key reply closest all s v =
    elim (Bool-cases
      (ltb (length (replacement_nodes closest s all)) (replication_factor - s.nodes_sent_count))) [
        | inl short ↦ rw (put_remaining, short) v
        | inr enough ↦
            rw (put_remaining, enough)
              (put_each-kept (put_replacement key) (put_replacement-IsRound key) reply
                (take (replication_factor - s.nodes_sent_count) (replacement_nodes closest s all)) s
                v)
      ]

send_to_closest-kept :
    (key : Text) (reply : Contact → Reply) (all : Outcome (List Contact)) (closest : List Contact)
    (ps : Providers) (s : Sending)
    → IsProviders ps
    → send_to_closest key reply all closest (started ps) ≡ ok s
    → IsProviders s.providers
unfolding send_to_closest
send_to_closest-kept key reply all closest ps s v h =
    elim (Bool-cases (ltb (length closest) replication_factor)) [
      | inl short ↦ from first start (ok_injective (rw short at h))
      | inr enough ↦ elim (Bool-cases (ltb first.nodes_sent_count replication_factor)) [
        | inl left ↦
            let (nodes, e, h') = >>=-eq-ok all _ (rw (enough, left) at h) in
            from (put_remaining key reply closest first nodes)
              (put_remaining-kept key reply closest nodes first start) (ok_injective h')
        | inr all_sent ↦ from first start (ok_injective (rw (enough, all_sent) at h))
      ]
    ]
  where
    first : Sending
    first = put_each (put_closest key) reply closest (started ps)

    start : IsProviders first.providers
    start = put_each-kept (put_closest key) (put_closest-IsRound key) reply closest (started ps) v

    from : (a : Sending) → IsProviders a.providers → a ≡ s → IsProviders s.providers
    from a w e = subst (λ (b : Sending). IsProviders b.providers) e w

module _ (p : Platform) (memory : ℕ → ℕ) (std : Sorting) (rng : Shuffling) (reply : Contact → Reply)
    (t : Table) where
  not_published-eq :
      (json : Option p.Value) (value : Text) (ps : Providers) (s : Sending)
      → not_published p json value ps ≡ ok s
      → started ps ≡ s
  unfolding not_published
  not_published-eq none value ps s h =
      split_if (p.is_out_of_range value) (λ large bad. cc) (λ fine same. ok_injective same) h
  not_published-eq (some json) value ps s same = ok_injective same

  -- Where the addresses of the providers are distinct and every entry has peers, the same holds
  -- of the providers that a `send_put` leaves.
  pub send_put-IsProviders :
      (key value : Text) (ps : Providers) (s : Sending)
      → IsProviders ps
      → send_put p memory std rng reply t key value ps ≡ ok s
      → IsProviders s.providers
  unfolding send_put
  send_put-IsProviders key value ps s v h = elim (Bool-cases (is_value_publishable p value)) [
    | inl good ↦
        let (closest, e, h') =
          >>=-eq-ok (find_closest_nodes memory std t key replication_factor) _ (rw good at h) in
        send_to_closest-kept key reply (find_closest_nodes memory std t key (get_node_count t))
          (rng.shuffle closest) ps s v h'
    | inr bad ↦
        subst (λ (b : Sending). IsProviders b.providers)
          (not_published-eq (p.parse value) value ps s (rw bad at h)) v
  ]
