-- ===== src/Dht/Publish/Rounds.antt =====
-- The rounds of `send_put` (src/core/protocol/p2p/node.cpp): the log, the count, and the providers.
use testshop.Prelude.{
  ℕ, ◌+◌, ◌≤◌, ◌≡◌, sym, ap, ◌∙◌, Bool, true, false, List, [], ◌∷◌, ◌++◌, append-nil, append_assoc,
  arith, Text, if◌then◌else◌, length,
}
use testshop.Dht.Table.{Contact}
use testshop.Dht.Providers.{IsProviders, add_provider-IsProviders}
use testshop.Dht.Publish.{
  Reply, refused, timed_out, unreadable, response, other_message, Sending, put_closest,
  put_replacement, put_each,
}

-- The node answers with a message.
abbrev pub is_answer : Reply → Bool
is_answer refused = false
is_answer timed_out = false
is_answer unreadable = false
is_answer response = true
is_answer other_message = true

-- How many of the nodes answer.
unfoldable pub answers : (Contact → Reply) → List Contact → ℕ
answers reply [] = 0
answers reply (node ∷ nodes) = (if is_answer (reply node) then 1 else 0) + answers reply nodes

pub answers-length :
    (reply : Contact → Reply) (nodes : List Contact) → answers reply nodes ≤ length nodes
unfolding answers
answers-length reply [] = omega arith
answers-length reply (node ∷ nodes) = ground (arith, answers-length reply nodes)

-- What a round does to the log, the count and the providers.
pub record IsRound (round : Contact → Reply → Sending → Sending) : Type 0 where
  pub log :
      (node : Contact) (r : Reply) (s : Sending) → (round node r s).asked ≡ s.asked ++ node ∷ []
  pub count :
      (node : Contact) (r : Reply) (s : Sending)
      → (round node r s).nodes_sent_count ≡ s.nodes_sent_count + (if is_answer r then 1 else 0)
  pub kept :
      (node : Contact) (r : Reply) (s : Sending)
      → IsProviders s.providers
      → IsProviders (round node r s).providers

pub put_closest-IsRound : (key : Text) → IsRound (put_closest key)
unfolding put_closest
put_closest-IsRound key = record { log = log'; count = count'; kept = kept' }
  where
    log' :
        (node : Contact) (r : Reply) (s : Sending)
        → (put_closest key node r s).asked ≡ s.asked ++ node ∷ []
    log' node r s = ground arith

    count' :
        (node : Contact) (r : Reply) (s : Sending)
        → (put_closest key node r s).nodes_sent_count
          ≡ s.nodes_sent_count + (if is_answer r then 1 else 0)
    count' node r s = ground arith

    kept' :
        (node : Contact) (r : Reply) (s : Sending)
        → IsProviders s.providers
        → IsProviders (put_closest key node r s).providers
    kept' node refused s v = v
    kept' node timed_out s v = v
    kept' node unreadable s v = v
    kept' node other_message s v = v
    kept' node response s v = add_provider-IsProviders key _ s.providers v

pub put_replacement-IsRound : (key : Text) → IsRound (put_replacement key)
unfolding put_replacement
put_replacement-IsRound key = record { log = log'; count = count'; kept = kept' }
  where
    log' :
        (node : Contact) (r : Reply) (s : Sending)
        → (put_replacement key node r s).asked ≡ s.asked ++ node ∷ []
    log' node r s = ground arith

    count' :
        (node : Contact) (r : Reply) (s : Sending)
        → (put_replacement key node r s).nodes_sent_count
          ≡ s.nodes_sent_count + (if is_answer r then 1 else 0)
    count' node r s = ground arith

    kept' :
        (node : Contact) (r : Reply) (s : Sending)
        → IsProviders s.providers
        → IsProviders (put_replacement key node r s).providers
    kept' node refused s v = v
    kept' node timed_out s v = v
    kept' node unreadable s v = v
    kept' node other_message s v = v
    kept' node response s v = add_provider-IsProviders key _ s.providers v

module _ (round : Contact → Reply → Sending → Sending) (v : IsRound round)
    (reply : Contact → Reply) where
  pub put_each-asked :
      (nodes : List Contact) (s : Sending) → (put_each round reply nodes s).asked ≡ s.asked ++ nodes
  unfolding put_each
  put_each-asked [] s = sym (append-nil s.asked)
  put_each-asked (node ∷ nodes) s =
      put_each-asked nodes (round node (reply node) s)
      ∙ ap (λ (l : List Contact). l ++ nodes) (v.log node (reply node) s)
      ∙ append_assoc s.asked (node ∷ []) nodes

  pub put_each-count :
      (nodes : List Contact) (s : Sending)
      → (put_each round reply nodes s).nodes_sent_count ≡ s.nodes_sent_count + answers reply nodes
  unfolding put_each answers
  put_each-count [] s = omega arith
  put_each-count (node ∷ nodes) s =
      omega (arith, put_each-count nodes (round node (reply node) s), v.count node (reply node) s)

  pub put_each-kept :
      (nodes : List Contact) (s : Sending)
      → IsProviders s.providers
      → IsProviders (put_each round reply nodes s).providers
  unfolding put_each
  put_each-kept [] s w = w
  put_each-kept (node ∷ nodes) s w =
      put_each-kept nodes (round node (reply node) s) (v.kept node (reply node) s w)
