-- ===== src/Dht/Publish/Republish.antt =====
-- What `republish_once` of src/core/protocol/p2p/node.cpp counts, and the providers that it leaves.
use testshop.Prelude.{
  ℕ, ◌+◌, ◌≤◌, ◌*◌, ◌≡◌, subst, [], ◌∷◌, Text, Dict, ok, >>=-eq-ok, length, arith,
}
use testshop.Dht.Platform.{Platform}
use testshop.Dht.Table.{Contact, Table}
use testshop.Dht.Table.Closest.{Sorting}
use testshop.Dht.Providers.{Providers, IsProviders}
use testshop.Dht.Publish.{Reply, Shuffling, send_put, Report, no_puts, count_put, republish_once}
use testshop.Dht.Publish.Kept.{send_put-IsProviders}

abbrev puts : Report → ℕ
puts r = r.successful_puts + r.partial_puts + r.failed_puts

-- Three responses for each success and one for each partial put are among the responses.
abbrev IsCounted : Report → Type 0
IsCounted r = 3 * r.successful_puts + r.partial_puts ≤ r.total_responses

count_put-puts : (n : ℕ) (r : Report) → puts (count_put n r) ≡ puts r + 1
unfolding count_put
count_put-puts n r = ground arith

count_put-IsCounted : (n : ℕ) (r : Report) → IsCounted r → IsCounted (count_put n r)
unfolding count_put
count_put-IsCounted n r h = ground arith

module _ (p : Platform) (memory : ℕ → ℕ) (std : Sorting) (rng : Shuffling)
    (reply : Text → Contact → Reply) (t : Table) where
  republish_from :
      (entries : Dict Text) (ps : Providers) (r : Report) (last : Report × Providers)
      → IsProviders ps
      → IsCounted r
      → republish_once p memory std rng reply t entries ps r ≡ ok last
      → (puts last.0 ≡ puts r + length entries) × IsCounted last.0 × IsProviders last.1
  unfolding republish_once
  republish_from [] ps r last v c h =
      let here : Report × Providers = (r, ps) in
      let same : here ≡ last = ground arith in
      subst (λ (x : Report × Providers). (puts x.0 ≡ puts r + 0) × IsCounted x.0 × IsProviders x.1)
        same (omega arith, c, v)
  republish_from ((key, value) ∷ entries) ps r last v c h =
      let (s, e, h') = >>=-eq-ok (send_put p memory std rng (reply key) t key value ps) _ h in
      let (n, c', v') =
        republish_from entries s.providers (count_put s.nodes_sent_count r) last
          (send_put-IsProviders p memory std rng (reply key) t key value ps s v e)
          (count_put-IsCounted s.nodes_sent_count r c) h' in
      (omega (arith, n, count_put-puts s.nodes_sent_count r), c', v')

  -- A `republish_once` that returns counts each entry of the hash table once, as a success, as
  -- partial or as a failure; three responses for each success and one for each partial put are
  -- among the responses; and the providers stay well formed: distinct addresses, and peers in
  -- every entry.
  pub republish_once_lem :
      (entries : Dict Text) (ps ps' : Providers) (r : Report)
      → IsProviders ps
      → republish_once p memory std rng reply t entries ps no_puts ≡ ok (r, ps')
      → (r.successful_puts + r.partial_puts + r.failed_puts ≡ length entries)
        × (3 * r.successful_puts + r.partial_puts ≤ r.total_responses)
        × IsProviders ps'
  republish_once_lem entries ps ps' r v h =
      let (n, c, v') = republish_from entries ps no_puts (r, ps') v (omega arith) h in
      (omega (arith, n), c, v')
