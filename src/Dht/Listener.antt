-- ===== src/Dht/Listener.antt =====
-- src/core/protocol/p2p/node.cpp: what a node does with a message that it receives: `handle_tor_message`,
-- which `run_i2p` repeats for its transport, `handle_reticulum_message`, and the callbacks `on_ping` and
-- `on_map`. The reply that is sent is a result; whether it can be sent is a parameter.
pub mod Pinged
pub mod Delivered
use testshop.Prelude.{
  ℕ, ◌+◌, ◌%◌, ◌^◌, Bool, true, false, ◌&&◌, ◌||◌, not, Option, none, some, List, [], ◌∷◌, Text,
  bytes, text_eq, Dict, lookup, Outcome, ok, throws, faults, ◌>>=◌, if◌then◌else◌,
}
use testshop.Dht.Platform.{Platform}
use testshop.Dht.Table.{Contact, Table, has_node, add_node}
use testshop.Dht.Table.Closest.{Sorting}
use testshop.Dht.Providers.{Peer, add_provider}
use testshop.Dht.Publish.{Shuffling}
use testshop.Dht.Health.{BootstrapNode, is_hardcoded}
use testshop.Dht.Message.{Query, Response, Error, DhtMessage, not_set, query, response, error}
use testshop.Dht.Node.{Node, Network}
use testshop.Dht.Rpc.Ipc.{Host}
use testshop.Dht.Rpc.Process.{protobuf_process}

pub data NetworkType : Type 0 where
  i2p tor reticulum : NetworkType

-- What the callbacks take from elsewhere: the SHA3 hash of an address, the address of an I2P
-- destination, `std::stoi` (`none` where it throws, and a negative number by its 32 bits), and the
-- bootstrap nodes of the network.
pub record Wire : Type 0 where
  pub network_type : NetworkType
  pub generate_node_id : Text → Text
  pub to_i2p_address : Text → Text
  pub stoi : Text → Option ℕ
  pub bootstrap_nodes : List BootstrapNode
  -- Whether `send_query` of a message to an address returns; it throws otherwise.
  pub is_sent : Text → DhtMessage → Bool

-- NEROSHOP_P2P_DEFAULT_PORT
abbrev pub default_port : ℕ
default_port = 50881

-- The switch has no case for Reticulum, where the address stays empty. The assertion is that of I2P.
abbrev pub sender_address_on : NetworkType → Wire → Text → Outcome Text
sender_address_on i2p w [] = faults
sender_address_on i2p w (c ∷ dest) = ok (w.to_i2p_address (c ∷ dest))
sender_address_on tor w dest = ok dest
sender_address_on reticulum w dest = ok []

abbrev pub sender_address : Wire → Text → Outcome Text
sender_address w dest = sender_address_on w.network_type w dest

-- `none` for a port that is no number.
abbrev pub sender_port : Wire → Option Text → Option ℕ
sender_port w none = some default_port
sender_port w (some t) = elim (w.stoi t) [ none ↦ none | some n ↦ some (n % 2 ^ 16) ]

-- `Node(address, port)`
abbrev pub remote_node : Wire → Text → ℕ → Contact
remote_node w address port = record {
  address = address;
  port = port;
  id = w.generate_node_id address;
  check_counter = 0;
}

module _ (memory : ℕ → ℕ) (now : ℕ) (w : Wire) where
  -- The end of `on_ping`: a node that is new, and no seed, enters the table. The Boolean says that
  -- it is persisted and told of our data.
  unfoldable pub welcome : Text → Text → ℕ → Node → Outcome (Node × Bool)
  welcome sender_id address port n =
      let node = remote_node w address port in
      if text_eq sender_id (w.generate_node_id address)
      then (do
        known ← has_node memory n.table sender_id
        let welcomed : Outcome (Node × Bool) =
            (add_node memory now n.table (some node) >>= λ (t, added).
            ok (record n { table = t }, true))
        let left : Outcome (Node × Bool) = ok (n, false)
        if not known && not (is_hardcoded w.bootstrap_nodes node) then welcomed else left)
      else ok (n, false)

  unfoldable pub on_ping : Query → Text → Node → Outcome (Node × Bool)
  on_ping q sender_dest n =
      if text_eq q.query (bytes "ping")
      then (do
        address ← sender_address w sender_dest
        elim (lookup (bytes "id") q.args) [
          | none ↦ ok (n, false)
          | some sender_id ↦ elim (sender_port w (lookup (bytes "port") q.args)) [
            | none ↦ ok (n, false)
            | some port ↦ welcome sender_id address port n
          ]
        ])
      else ok (n, false)

-- The end of `on_map`: the sender is a provider of the key.
unfoldable pub note_provider : Wire → Text → Text → ℕ → Text → Node → Node
note_provider w sender_id address port key n =
    if text_eq sender_id (w.generate_node_id address)
    then record n {
      providers = add_provider key (record { address = address; port = port }) n.providers;
    }
    else n

unfoldable pub on_map : Wire → Query → Text → Node → Outcome Node
on_map w q sender_dest n =
    if text_eq q.query (bytes "map")
    then (do
      address ← sender_address w sender_dest
      elim (lookup (bytes "id") q.args) [
        | none ↦ ok n
        | some sender_id ↦ elim (sender_port w (lookup (bytes "port") q.args)) [
          | none ↦ ok n
          | some port ↦ elim (lookup (bytes "key") q.args) [
            | none ↦ ok n
            | some key ↦ ok (note_provider w sender_id address port key n)
          ]
        ]
      ])
    else ok n

-- A node with the transactions of the requests that wait for an answer (`pending_requests`).
pub record Waiting : Type 0 where
  pub node : Node
  pub pending_requests : List Text

unfoldable pub is_pending : Text → List Text → Bool
is_pending tid [] = false
is_pending tid (t ∷ ts) = text_eq t tid || is_pending tid ts

unfoldable pub erase_pending : Text → List Text → List Text
erase_pending tid [] = []
erase_pending tid (t ∷ ts) =
    let rest = erase_pending tid ts in if text_eq t tid then rest else t ∷ rest

-- What is done with a message: the reply that is sent, and the transaction whose promise is
-- fulfilled.
pub record Handled : Type 0 where
  pub after : Waiting
  pub sent : Option DhtMessage
  pub fulfilled : Option Text

abbrev pub nothing : Waiting → Handled
nothing s = record { after = s; sent = none; fulfilled = none }

unfoldable pub handle_response : Response → Waiting → Handled
handle_response r s =
    if not (text_eq r.tid []) && is_pending r.tid s.pending_requests
    then record {
      after = record s { pending_requests = erase_pending r.tid s.pending_requests };
      sent = none;
      fulfilled = some r.tid;
    }
    else nothing s

module _ (p : Platform) (memory : ℕ → ℕ) (now : ℕ) (std : Sorting) (rng : Shuffling) (net : Network)
    (host : Host) (w : Wire) where
  unfoldable pub handle_query : Query → Text → Waiting → Outcome Handled
  handle_query q sender s = do
    (reply, n₁) ← protobuf_process p memory now std rng net host false (some (query q)) s.node
    let called : Outcome Handled =
        (on_ping memory now w q sender n₁ >>= λ (n₂, welcomed). on_map w q sender n₂ >>= λ n₃.
        ok (record { after = record s { node = n₃ }; sent = some reply; fulfilled = none }))
    if w.is_sent sender reply then called else throws

  unfoldable pub handle_message : Option DhtMessage → Text → Waiting → Outcome Handled
  handle_message none sender s = ok (nothing s)
  handle_message (some (query q)) sender s = handle_query q sender s
  handle_message (some (response r)) sender s = ok (handle_response r s)
  handle_message (some (error e)) sender s = ok (nothing s)
  handle_message (some not_set) sender s = ok (nothing s)

  -- A message on Reticulum has no sender: a query names its address, and is dropped where it names
  -- none.
  unfoldable pub handle_reticulum_message : Option DhtMessage → Waiting → Outcome Handled
  handle_reticulum_message none s = ok (nothing s)
  handle_reticulum_message (some (query q)) s = elim (lookup (bytes "address") q.args) [
    | none ↦ ok (nothing s)
    | some sender ↦ if text_eq sender [] then ok (nothing s) else handle_query q sender s
  ]
  handle_reticulum_message (some (response r)) s = ok (handle_response r s)
  handle_reticulum_message (some (error e)) s = ok (nothing s)
  handle_reticulum_message (some not_set) s = ok (nothing s)

-- A peer that Reticulum announces enters the table, unasked.
unfoldable pub handle_reticulum_peer_discovered : (ℕ → ℕ) → ℕ → Wire → Text → Node → Outcome Node
handle_reticulum_peer_discovered memory now w destination_hash n =
    add_node memory now n.table (some (remote_node w destination_hash 0)) >>= λ (t, added).
    ok (record n { table = t })
