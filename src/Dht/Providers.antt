-- ===== src/Dht/Providers.antt =====
-- src/core/protocol/p2p/node.cpp: the providers of a file's pieces, by the hash of its data.
use testshop.Prelude.{
  ℕ, ◌≡◌, refl, Bool, true, false, ◌&&◌, ◌||◌, not, Option, none, some, List, [], ◌∷◌, ◌++◌, arith,
  Text, text_eq, text_eq_iff, Dict, lookup, insert, erase, lookup-insert, lookup-erase, ◌==◌,
  if◌then◌else◌, Bool-cases, Option-cases, inl, inr,
}

pub record Peer : Type 0 where
  pub address : Text
  pub port : ℕ

abbrev pub Providers : Type 0
Providers = Dict (List Peer)

-- The loop of `add_provider`: the address alone is compared.
unfoldable pub has_peer_address : Text → List Peer → Bool
has_peer_address address [] = false
has_peer_address address (existing_peer ∷ peers) =
    text_eq existing_peer.address address || has_peer_address address peers

unfoldable pub add_provider : Text → Peer → Providers → Providers
add_provider data_hash peer providers = elim (lookup data_hash providers) [
  | none ↦ insert data_hash (peer ∷ []) providers
  | some peers ↦
      if has_peer_address peer.address peers
      then providers
      else insert data_hash (peers ++ (peer ∷ [])) providers
]

abbrev pub remove_providers : Text → Providers → Providers
remove_providers data_hash providers = elim (lookup data_hash providers) [
  | none ↦ providers
  | some peers ↦ erase data_hash providers
]

abbrev pub is_peer : Text → ℕ → Peer → Bool
is_peer address port peer = text_eq peer.address address && peer.port == port

-- The loop of `remove_provider`.
pub erase_peer : Text → ℕ → List Peer → List Peer
erase_peer address port [] = []
erase_peer address port (peer ∷ peers) =
    let rest = erase_peer address port peers in
    if is_peer address port peer then rest else peer ∷ rest

abbrev pub is_empty : List Peer → Bool
is_empty [] = true
is_empty (peer ∷ peers) = false

pub remove_provider : Text → Text → ℕ → Providers → Providers
unfolding erase_peer
remove_provider data_hash address port providers = elim (lookup data_hash providers) [
  | none ↦ providers
  | some peers ↦
      let left = erase_peer address port peers in
      if is_empty left then erase data_hash providers else insert data_hash left providers
]

abbrev pub peers_of : Option (List Peer) → List Peer
peers_of none = []
peers_of (some peers) = peers

unfoldable pub get_providers : Text → Providers → List Peer
get_providers data_hash providers = peers_of (lookup data_hash providers)

-- No two peers share an address.
unfoldable pub distinct : List Peer → Bool
unfolding has_peer_address
distinct [] = true
distinct (peer ∷ peers) = not (has_peer_address peer.address peers) && distinct peers

abbrev is_entry : Option (List Peer) → Bool
is_entry none = true
is_entry (some peers) = not (is_empty peers) && distinct peers

-- Every entry has peers, and no two of them share an address.
abbrev pub IsProviders : Providers → Type 0
IsProviders providers = (h : Text) → is_entry (lookup h providers) ≡ true

has_peer_address-append :
    (a : Text) (peers : List Peer) (peer : Peer)
    → has_peer_address a (peers ++ (peer ∷ []))
      ≡ (has_peer_address a peers || text_eq peer.address a)
unfolding has_peer_address
has_peer_address-append a [] peer = ground arith
has_peer_address-append a (p ∷ ps) peer = ground (arith, has_peer_address-append a ps peer)

distinct-append :
    (peers : List Peer) (peer : Peer)
    → has_peer_address peer.address peers ≡ false
    → distinct peers ≡ true
    → distinct (peers ++ (peer ∷ [])) ≡ true
unfolding distinct has_peer_address
distinct-append [] peer h d = refl
distinct-append (p ∷ ps) peer h d = ground (
  arith,
  distinct-append ps peer,
  has_peer_address-append p.address ps peer,
  text_eq_iff peer.address p.address,
  text_eq_iff p.address peer.address,
)

has_peer_address-erase_peer :
    (a address : Text) (port : ℕ) (peers : List Peer)
    → has_peer_address a peers ≡ false
    → has_peer_address a (erase_peer address port peers) ≡ false
unfolding has_peer_address erase_peer
has_peer_address-erase_peer a address port [] h = refl
has_peer_address-erase_peer a address port (p ∷ ps) h =
    ground (arith, has_peer_address-erase_peer a address port ps)

distinct-erase_peer :
    (address : Text) (port : ℕ) (peers : List Peer)
    → distinct peers ≡ true
    → distinct (erase_peer address port peers) ≡ true
unfolding distinct erase_peer
distinct-erase_peer address port [] h = refl
distinct-erase_peer address port (p ∷ ps) h = ground (
  arith,
  distinct-erase_peer address port ps,
  has_peer_address-erase_peer p.address address port ps,
)

is_entry-insert :
    (k h : Text) (peers : List Peer) (providers : Providers)
    → is_entry (lookup h providers) ≡ true
    → is_entry (some peers) ≡ true
    → is_entry (lookup h (insert k peers providers)) ≡ true
is_entry-insert k h peers providers v w = ground (arith, lookup-insert k h peers providers)

is_entry-erase :
    (k h : Text) (providers : Providers)
    → is_entry (lookup h providers) ≡ true
    → is_entry (lookup h (erase k providers)) ≡ true
is_entry-erase k h providers v = ground (arith, lookup-erase k h providers)

is_empty-append : (peers : List Peer) (peer : Peer) → is_empty (peers ++ (peer ∷ [])) ≡ false
is_empty-append [] peer = refl
is_empty-append (p ∷ ps) peer = refl

-- Where the addresses of the peers are distinct and every entry has peers, the same holds after
-- a provider is added.
pub add_provider-IsProviders :
    (data_hash : Text) (peer : Peer) (providers : Providers)
    → IsProviders providers
    → IsProviders (add_provider data_hash peer providers)
unfolding add_provider distinct has_peer_address
add_provider-IsProviders data_hash peer providers v h =
    elim (Option-cases (lookup data_hash providers)) [
      | inl miss ↦
          rw (add_provider, miss) (is_entry-insert data_hash h (peer ∷ []) providers (v h) refl)
      | inr (peers, at) ↦
          let good = v data_hash in
          elim (Bool-cases (has_peer_address peer.address peers)) [
            | inl there ↦ rw (add_provider, at, there) (v h)
            | inr new ↦
                rw (add_provider, at, new)
                  (is_entry-insert data_hash h (peers ++ (peer ∷ [])) providers (v h)
                    (ground (arith, is_empty-append peers peer, distinct-append peers peer)))
          ]
    ]

-- The same after a provider is removed, by its address and port.
pub remove_provider-IsProviders :
    (data_hash address : Text) (port : ℕ) (providers : Providers)
    → IsProviders providers
    → IsProviders (remove_provider data_hash address port providers)
unfolding remove_provider
remove_provider-IsProviders data_hash address port providers v h =
    elim (Option-cases (lookup data_hash providers)) [
      | inl miss ↦ rw (remove_provider, miss) (v h)
      | inr (peers, at) ↦
          let good = v data_hash in
          elim (Bool-cases (is_empty (erase_peer address port peers))) [
            | inl none' ↦
                rw (remove_provider, at, none') (is_entry-erase data_hash h providers (v h))
            | inr left ↦
                rw (remove_provider, at, left)
                  (is_entry-insert data_hash h (erase_peer address port peers) providers (v h)
                    (ground (arith, distinct-erase_peer address port peers)))
          ]
    ]

-- `get_providers` after `add_provider`: the peers of every other hash are those of before, and
-- those of the hash are those of before when one has the address, whatever its port, and
-- otherwise those of before and then the new peer.
pub get_providers-add_provider :
    (data_hash j : Text) (peer : Peer) (providers : Providers)
    → get_providers j (add_provider data_hash peer providers) ≡ (
        let peers = get_providers j providers in
        if text_eq data_hash j && not (has_peer_address peer.address peers)
        then peers ++ (peer ∷ [])
        else peers)
unfolding get_providers add_provider has_peer_address
get_providers-add_provider data_hash j peer providers = ground (
  arith,
  text_eq_iff data_hash j,
  lookup-insert data_hash j (peer ∷ []) providers,
  lookup-insert data_hash j (peers_of (lookup data_hash providers) ++ (peer ∷ [])) providers,
)

-- `get_providers` after `remove_provider`: the peers of the hash without those of the address
-- and port, and the peers of every other hash.
pub get_providers-remove_provider :
    (data_hash j address : Text) (port : ℕ) (providers : Providers)
    → get_providers j (remove_provider data_hash address port providers) ≡ (
        let peers = get_providers j providers in
        if text_eq data_hash j then erase_peer address port peers else peers)
unfolding get_providers remove_provider erase_peer
get_providers-remove_provider data_hash j address port providers = ground (
  arith,
  text_eq_iff data_hash j,
  lookup-erase data_hash j providers,
  lookup-insert data_hash j (erase_peer address port (peers_of (lookup data_hash providers)))
      providers,
)
