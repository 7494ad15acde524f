-- ===== src/Dht/Tests/Peers.antt =====
-- The providers of a file on concrete peers.
use testshop.Prelude.{
  ◌≡◌, refl, not, ◌&&◌, [], ◌∷◌, ◌++◌, bytes, text_eq, lookup, arith, if◌then◌else◌,
}
use testshop.Dht.Providers.{
  Peer, Providers, IsProviders, add_provider, get_providers, has_peer_address, distinct,
  get_providers-add_provider,
}

abbrev seller : Peer
seller = record { address = bytes "10.0.0.1"; port = 50881 }

abbrev none_yet : Providers
none_yet = []

abbrev one : Providers
one = (bytes "h", seller ∷ []) ∷ []

one-IsProviders : IsProviders one
unfolding lookup distinct has_peer_address
one-IsProviders h = ground arith

-- A second port at one address is not added.
same_address_run :
    add_provider (bytes "h") (record { address = bytes "10.0.0.1"; port = 9 }) one ≡ one
unfolding add_provider has_peer_address lookup text_eq bytes
same_address_run = refl

get_providers-add_provider_example :
    get_providers (bytes "h") (add_provider (bytes "h") seller none_yet) ≡ (
      let peers = get_providers (bytes "h") none_yet in
      if text_eq (bytes "h") (bytes "h") && not (has_peer_address seller.address peers)
      then peers ++ (seller ∷ [])
      else peers)
get_providers-add_provider_example =
    get_providers-add_provider (bytes "h") (bytes "h") seller none_yet
