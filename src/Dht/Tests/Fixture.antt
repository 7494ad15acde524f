-- ===== src/Dht/Tests/Fixture.antt =====
-- A small platform for the tests: a text is the name of one of a few objects of strings.
use testshop.Prelude.{
  ℕ, zero, suc, text_eq_iff, ◌≡◌, ◌≢◌, ◌-◌, ◌<◌, refl, arith, All, Bool, true, false, Option, none,
  some, [], ◌∷◌, ◌++◌, Text, bytes, text_eq, Dict, lookup, length, take, drop, replicate,
}
use testshop.Dht.Platform.{Platform}
use testshop.Dht.Store.{Store}
use testshop.Dht.Id.{XorId, IsXorId}

pub data Json : Type 0 where
  str : Text → Json
  obj : Dict Text → Json

-- 93 characters that sign a message.
abbrev signature : Text → ℕ → Text
signature message filler = bytes "Sig" ++ message ++ replicate (90 - length message) filler

abbrev listing : ℕ → Text → Dict Text
listing filler time =
    (bytes "metadata", bytes "listing")
    ∷ (bytes "id", bytes "i1")
    ∷ (bytes "seller_id", bytes "4A")
    ∷ (bytes "signature", signature (bytes "i1") filler)
    ∷ (bytes "last_updated", time)
    ∷ []

abbrev pub order : Dict Text
order = (bytes "metadata", bytes "order") ∷ []

abbrev pub past_order : Dict Text
past_order = (bytes "expiration_date", bytes "0") ∷ order

abbrev documents : Dict (Dict Text)
documents =
    (bytes "listing-1", listing b'a' (bytes "0"))
    ∷ (bytes "listing-2", listing b'b' (bytes "00"))
    ∷ (bytes "order-1", order)
    ∷ (bytes "order-2", order)
    ∷ (bytes "order-3", past_order)
    ∷ []

abbrev pub document : Option (Dict Text) → Option Json
document none = none
document (some d) = some (obj d)

abbrev pub parse_document : Text → Option Json
parse_document t = document (lookup t documents)

abbrev pub member_of : Json → Text → Option Json
member_of (str t) k = none
member_of (obj d) k = elim (lookup k d) [ none ↦ none | some t ↦ some (str t) ]

abbrev is_obj : Json → Bool
is_obj (str t) = false
is_obj (obj d) = true

abbrev text_of : Json → Option Text
text_of (str t) = some t
text_of (obj d) = none

-- A time is written in unary.
abbrev pub platform : Platform
platform = record {
  Value = Json;
  parse = parse_document;
  is_out_of_range = λ t. false;
  is_object = is_obj;
  member = member_of;
  as_string = text_of;
  as_array = λ v. none;
  as_size = λ v. none;
  seconds = λ t. length t;
  is_valid_address = λ a. text_eq a (bytes "4A");
  verify_message = λ m a s. text_eq m (take (length m) (drop 3 s));
}

abbrev pub key : Text
key = replicate 64 b'k'

abbrev pub stored_under_key : Text → Store
stored_under_key value = record {
  stored = (key, value) ∷ [];
  hash_table = (key, value) ∷ [];
  mappings = [];
}

-- What uninitialised bytes may hold.
abbrev pub memory : ℕ → ℕ
memory i = i

abbrev pub own : XorId
own = replicate 32 0

-- The first bit that differs from `own` has index 11.
abbrev pub near : XorId
near = 0 ∷ 17 ∷ replicate 30 3

abbrev pub far : XorId
far = 200 ∷ replicate 31 7

All-bytes : (n b : ℕ) → b < 256 → All (λ x. x < 256) (replicate n b)
All-bytes zero b h = tt
All-bytes (suc n) b h = (h, All-bytes n b h)

pub own-IsXorId : IsXorId own
own-IsXorId = record { size = refl; in_byte = All-bytes 32 0 (omega arith) }

pub near-IsXorId : IsXorId near
near-IsXorId = record {
  size = refl;
  in_byte = (omega arith, (omega arith, All-bytes 30 3 (omega arith)));
}

pub far-IsXorId : IsXorId far
far-IsXorId = record { size = refl; in_byte = (omega arith, All-bytes 31 7 (omega arith)) }

pub id_ne : (a b : XorId) → text_eq a b ≡ false → a ≢ b
id_ne a b h e = ground (arith, text_eq_iff a b)
