-- ===== src/Dht/Platform.antt =====
-- What src/core/protocol/p2p/node.cpp takes from elsewhere: nlohmann's JSON values, the time that
-- `std::get_time` and `std::mktime` read from a text, and monero's address and signature checks.
use testshop.Prelude.{
  ℕ, Bool, Option, none, some, List, Text, Outcome, ok, throws, is_some, leb, ltb, if◌then◌else◌,
}

pub record Platform : Type 1 where
  pub Value : Type 0
  -- `json::parse`; `none` is an exception.
  pub parse : Text → Option Value
  -- Whether that exception is `out_of_range` (of a number that is too large), and not `parse_error`.
  pub is_out_of_range : Text → Bool
  pub is_object : Value → Bool
  -- The member of an object under a key; `none` where there is none or the value is no object.
  pub member : Value → Text → Option Value
  -- `get<std::string>()`; `none` where the value is no string.
  pub as_string : Value → Option Text
  -- The items of an array; `none` where the value is no array.
  pub as_array : Value → Option (List Value)
  -- `get<int>()` converted to `size_t`; `none` where the value is no number.
  pub as_size : Value → Option ℕ
  -- The time of a text, counted from the least `time_t`.
  pub seconds : Text → ℕ
  pub is_valid_address : Text → Bool
  -- message, address, signature
  pub verify_message : Text → Text → Text → Bool

-- `get<std::string>()`, which throws where the value is no string.
abbrev pub got : Option Text → Outcome Text
got none = throws
got (some s) = ok s

module _ (p : Platform) where
  open p use {Value, member, as_string, seconds}

  -- json.contains(key)
  abbrev pub contains : Value → Text → Bool
  contains json key = is_some (member json key)

  abbrev pub string_of : Option Value → Option Text
  string_of none = none
  string_of (some v) = as_string v

  -- json[key], when it is a string: `json[key].is_string()` is `is_some (string_at json key)`.
  abbrev pub string_at : Value → Text → Option Text
  string_at json key = string_of (member json key)

  -- json[key].get<std::string>()
  abbrev pub get_string : Value → Text → Outcome Text
  get_string json key = got (string_at json key)

  -- core/tools/timestamp.cpp, with the present time as an argument.
  unfoldable pub is_expired : ℕ → Text → Bool
  is_expired now expiration_date = leb (seconds expiration_date) now

  unfoldable pub get_most_recent_timestamp : Text → Text → Text
  get_most_recent_timestamp timestamp1 timestamp2 =
      if ltb (seconds timestamp2) (seconds timestamp1) then timestamp1 else timestamp2
