-- ===== src/Dht/Discover/Self.antt =====
-- src/core/protocol/p2p/node.cpp: a node that is told of itself.
use testshop.Prelude.{ℕ, ◌≡◌, refl, ap, ◌∙◌, List, [], ◌∷◌, ◌++◌, Text, ok, faults, All}
use testshop.Dht.Id.{hex_string_to_node_id}
use testshop.Dht.Table.{Table}
use testshop.Dht.Table.Valid.{IsTable}
use testshop.Dht.Table.Lookup.{has_node-get_nodes, own_id_faults}
use testshop.Dht.Message.{NodeInfo}
use testshop.Dht.Listener.{Wire}
use testshop.Dht.Discover.{Others, named_node, unknown_nodes, ask}
use testshop.Dht.Discover.Total.{IsHash, IsOther}

module _ (memory : ℕ → ℕ) (now : ℕ) (w : Wire) (others : Others) (hash : IsHash memory w) where
  self-unknown_nodes :
      (t : Table) (before after : List NodeInfo) (self : NodeInfo)
      → IsTable memory t
      → All (IsOther memory w t.id) before
      → hex_string_to_node_id memory (w.generate_node_id self.address) ≡ ok t.id
      → unknown_nodes memory now w others t (before ++ self ∷ after) ≡ faults
  unfolding unknown_nodes
  self-unknown_nodes t [] after self v h read =
      rw ((own_id_faults memory now t (w.generate_node_id self.address) v.own read).0) refl
  self-unknown_nodes t (info ∷ before) after self v (other, h) read =
      let (x, vx, read') = hash info.address in
      let (found, g, known, all, same) =
        has_node-get_nodes memory t (named_node w info).id x v read' vx
          (λ e. other (read' ∙ ap ok e)) in
      rw (known, self-unknown_nodes t before after self v h read) refl

  -- A node with a well-formed table whose request to find others is answered with its own
  -- address, alone or among others, of which those before it are other nodes, reads past the end of
  -- the buckets, where every identifier that is made of an address reads.
  pub self_named_faults :
      (address : Text) (port : ℕ) (target : Text) (t : Table) (before after : List NodeInfo)
      (self : NodeInfo)
      → IsTable memory t
      → others.find_node address port target ≡ before ++ self ∷ after
      → All (IsOther memory w t.id) before
      → hex_string_to_node_id memory (w.generate_node_id self.address) ≡ ok t.id
      → ask memory now w others address port target t ≡ faults
  unfolding ask
  self_named_faults address port target t before after self v answer h read =
      rw (ask, answer, self-unknown_nodes t before after self v h read) refl
