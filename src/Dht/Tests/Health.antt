-- ===== src/Dht/Tests/Health.antt =====
-- Passes of `heartbeat` on a concrete table.
use testshop.Prelude.{ℕ, ◌<◌, ◌+◌, ◌≡◌, refl, Bool, false, [], ok, text_eq}
use testshop.Dht.Id.Hex.{hex_string_to_node_id-node_id_to_hex_string}
use testshop.Dht.Table.{Contact, Table, new_table, bucket_at, bucket_count, has_node}
use testshop.Dht.Table.Valid.{IsTable}
use testshop.Dht.Health.{is_hardcoded, heartbeat}
use testshop.Dht.Health.Survivors.{survivors}
use testshop.Dht.Health.Passed.{heartbeat_lem, silent_node_removed}
use testshop.Dht.Tests.Fixture.{memory, own, near, near-IsXorId, id_ne}
use testshop.Dht.Tests.Tables.{contact, table, table-IsTable}

abbrev silent : Contact → Bool
silent c = false

heartbeat_lem_example :
    (t' : Table) × (heartbeat memory 9 [] silent table ≡ ok t')
    × IsTable memory t'
    × (t'.id ≡ table.id)
    × ((j : ℕ)
        → j < bucket_count
        → (bucket_at t' j).nodes ≡ survivors [] silent (bucket_at table j).nodes)
heartbeat_lem_example = heartbeat_lem memory 9 [] silent table table-IsTable

silent_node_removed_example :
    (t₁ : Table) × (t₂ : Table) × (t₃ : Table) × (heartbeat memory 9 [] silent table ≡ ok t₁)
    × (heartbeat memory 10 [] silent t₁ ≡ ok t₂)
    × (heartbeat memory 11 [] silent t₂ ≡ ok t₃)
    × (has_node memory t₃ contact.id ≡ ok false)
unfolding new_table is_hardcoded text_eq
silent_node_removed_example =
    silent_node_removed memory (λ k. 9 + k) [] (λ k c. false) contact.id near table table-IsTable
      (hex_string_to_node_id-node_id_to_hex_string memory near near-IsXorId) near-IsXorId
      (id_ne near own refl) (λ k c e. (refl, refl))
