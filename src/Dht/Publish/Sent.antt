-- ===== src/Dht/Publish/Sent.antt =====
-- What `send_put` of src/core/protocol/p2p/node.cpp reaches: how many nodes, and which ones.
use testshop.Prelude.{
  ℕ, suc, ◌+◌, ◌-◌, ◌≤◌, min, ◌≡◌, refl, sym, ap, ◌∙◌, Bool, true, false, List, [], ◌∷◌, ◌++◌,
  append-nil, map, arith, Text, ok, ltb, if◌then◌else◌, length, take, All, All-take, length-take,
  perm-length, Bool-cases, inl, inr,
}
use testshop.Dht.Platform.{Platform}
use testshop.Dht.Id.{XorId, hex_string_to_node_id}
use testshop.Dht.Table.{Contact, Table, has_id, get_node_count}
use testshop.Dht.Table.Valid.{IsTable}
use testshop.Dht.Table.Closest.{ScoredNode, Sorting, find_closest_nodes, find_closest_nodes_lem}
use testshop.Dht.Providers.{Providers}
use testshop.Dht.Publish.{
  replication_factor, Reply, Shuffling, Sending, started, put_closest, put_replacement, put_each,
  replacement_nodes, put_remaining, send_to_closest, is_value_publishable, send_put,
}
use testshop.Dht.Publish.Rounds.{
  answers, answers-length, put_closest-IsRound, put_replacement-IsRound, put_each-asked,
  put_each-count,
}

-- The node is none of `closest`.
abbrev pub IsOther : List Contact → Contact → Type 0
IsOther closest node = has_id node.id closest ≡ false

All-if :
    (P : Contact → Type 0) (b : Bool) (c : Contact) (rest : List Contact)
    → (b ≡ true → P c)
    → All P rest
    → All P (if b then c ∷ rest else rest)
All-if P true c rest h v = (h refl, v)
All-if P false c rest h v = v

replacement_nodes-IsOther :
    (closest : List Contact) (s : Sending) (nodes : List Contact)
    → All (IsOther closest) (replacement_nodes closest s nodes)
unfolding replacement_nodes
replacement_nodes-IsOther closest s [] = tt
replacement_nodes-IsOther closest s (node ∷ nodes) =
    All-if (IsOther closest) _ node (replacement_nodes closest s nodes) (λ h. ground arith)
      (replacement_nodes-IsOther closest s nodes)

-- The request to the nodes `closest` comes to `s`: after them it went to `more`, none of them one
-- of `closest` and at most three; the count is the number of nodes that answered, and at most
-- three.
pub record IsSent (reply : Contact → Reply) (closest more : List Contact) (s : Sending)
    : Type 0 where
  pub log : s.asked ≡ closest ++ more
  pub others : All (IsOther closest) more
  pub count : s.nodes_sent_count ≡ answers reply closest + answers reply more
  pub bound : s.nodes_sent_count ≤ replication_factor
  pub few : length more ≤ replication_factor

module _ (key : Text) (reply : Contact → Reply) (closest : List Contact)
    (few : length closest ≤ replication_factor) where
  first-IsSent :
      (ps : Providers)
      → IsSent reply closest [] (put_each (put_closest key) reply closest (started ps))
  unfolding answers
  first-IsSent ps =
      let n =
        put_each-count (put_closest key) (put_closest-IsRound key) reply closest (started ps) in
      record {
        log =
            put_each-asked (put_closest key) (put_closest-IsRound key) reply closest (started ps)
            ∙ sym (append-nil closest);
        others = tt;
        count = omega (arith, n);
        bound = omega (arith, n, answers-length reply closest);
        few = omega arith;
      }

  put_remaining-IsSent :
      (s : Sending) (all : List Contact)
      → IsSent reply closest [] s
      → (more : List Contact) × IsSent reply closest more (put_remaining key reply closest s all)
  unfolding put_remaining answers
  put_remaining-IsSent s all v =
      elim (Bool-cases (
        ltb (length (replacement_nodes closest s all)) (replication_factor - s.nodes_sent_count))) [
          | inl short ↦ rw short ([], v)
          | inr enough ↦ rw enough (
            more,
            record {
              log =
                  put_each-asked (put_replacement key) (put_replacement-IsRound key) reply more s
                  ∙ ap (λ (l : List Contact). l ++ more) (v.log ∙ append-nil closest);
              others =
                  All-take (IsOther closest) (replication_factor - s.nodes_sent_count)
                    (replacement_nodes closest s all) (replacement_nodes-IsOther closest s all);
              count = omega (arith, n, v.count);
              bound = omega (arith, n, l, v.bound, answers-length reply more);
              few = omega (arith, l);
            },
          )
        ]
    where
      more : List Contact
      more = take (replication_factor - s.nodes_sent_count) (replacement_nodes closest s all)

      n :
          (put_each (put_replacement key) reply more s).nodes_sent_count
          ≡ s.nodes_sent_count + answers reply more
      n = put_each-count (put_replacement key) (put_replacement-IsRound key) reply more s

      l :
          length more
          ≡ min (replication_factor - s.nodes_sent_count) (length (replacement_nodes closest s all))
      l = length-take (replication_factor - s.nodes_sent_count) (replacement_nodes closest s all)

  send_to_closest-IsSent :
      (ps : Providers) (all : List Contact)
      → (s : Sending) × (more : List Contact) × (send_to_closest key reply
            (ok all)
            closest
            (started ps)
          ≡ ok s)
        × IsSent reply closest more s
  unfolding send_to_closest
  send_to_closest-IsSent ps all = elim (Bool-cases (ltb (length closest) replication_factor)) [
    | inl short ↦ (first, [], rw short refl, first-IsSent ps)
    | inr enough ↦ elim (Bool-cases (ltb first.nodes_sent_count replication_factor)) [
      | inl left ↦
          let (more, v) = put_remaining-IsSent first all (first-IsSent ps) in
          (put_remaining key reply closest first all, more, rw (enough, left) refl, v)
      | inr all_sent ↦ (first, [], rw (enough, all_sent) refl, first-IsSent ps)
    ]
  ]
    where
      first : Sending
      first = put_each (put_closest key) reply closest (started ps)

length-map_nodes : (ss : List ScoredNode) → length (map (λ s. s.node) ss) ≡ length ss
length-map_nodes [] = refl
length-map_nodes (s ∷ ss) = ap suc (length-map_nodes ss)

module _ (p : Platform) (memory : ℕ → ℕ) (std : Sorting) (rng : Shuffling) (reply : Contact → Reply)
    (t : Table) where
  -- In a well-formed table, for a key of which an identifier is read and a value that may be
  -- published, `send_put` asks the nodes that `find_closest_nodes` returns, in the order of the
  -- shuffle, and then at most three nodes that are none of these; the count that it returns is the
  -- number of nodes that answered with a message, and at most three.
  pub send_put-IsSent :
      (key value : Text) (x : XorId) (ps : Providers)
      → IsTable memory t
      → hex_string_to_node_id memory key ≡ ok x
      → is_value_publishable p value ≡ true
      → (s : Sending) × (closest : List Contact) × (more : List Contact) × (find_closest_nodes
            memory std t key replication_factor
          ≡ ok closest)
        × (send_put p memory std rng reply t key value ps ≡ ok s)
        × IsSent reply (rng.shuffle closest) more s
  unfolding send_put
  send_put-IsSent key value x ps v read good =
      let (ss, chosen, rest, g, c, e, perm, n, sorted, le) =
        find_closest_nodes_lem memory std t key x replication_factor v read in
      let (ss', chosen', rest', g', c', e', perm', n', sorted', le') =
        find_closest_nodes_lem memory std t key x (get_node_count t) v read in
      let closest = map (λ s. s.node) chosen in
      let few : length (rng.shuffle closest) ≤ replication_factor = omega (
        arith,
        perm-length (rng.shuffle closest) closest (rng.shuffle-perm closest),
        length-map_nodes chosen,
        n,
      ) in
      let (s, more, sent, w) =
        send_to_closest-IsSent key reply (rng.shuffle closest) few ps (map (λ s. s.node) chosen') in
      (s, closest, more, e, rw (good, e, e') sent, w)
