-- ===== src/Dht/Message.antt =====
-- proto/message.proto: the messages of the protocol, as the accessors that protoc generates for them
-- read and change them, and src/core/protocol/p2p/dht_rescode.hpp: the result codes. `oneof msg` holds one
-- of a query, a response and an error, so each `mutable_` accessor discards what another had set.
use testshop.Prelude.{ℕ, Bool, true, false, List, [], ◌++◌, Text, bytes, Dict, insert}

pub record NodeInfo : Type 0 where
  pub address : Text
  pub port : ℕ
  pub id : Text
  pub status : ℕ
  pub distance : ℕ

pub record Query : Type 0 where
  pub version : Text
  pub query : Text
  pub args : Dict Text
  pub tid : Text

-- `data_map` and `nodes` are the fields of the payload.
pub record Response : Type 0 where
  pub version : Text
  pub tid : Text
  pub data_map : Dict Text
  pub nodes : List NodeInfo

pub record Error : Type 0 where
  pub code : ℕ
  pub message : Text
  pub error_data : Text

pub data DhtMessage : Type 0 where
  not_set : DhtMessage
  query : Query → DhtMessage
  response : Response → DhtMessage
  error : Error → DhtMessage

abbrev pub new_response : Response
new_response = record { version = []; tid = []; data_map = []; nodes = [] }

abbrev pub new_error : Error
new_error = record { code = 0; message = []; error_data = [] }

-- `mutable_response()` and `mutable_error()`: what is there, or a new one.
unfoldable pub mutable_response : DhtMessage → Response
mutable_response not_set = new_response
mutable_response (query q) = new_response
mutable_response (response r) = r
mutable_response (error e) = new_response

unfoldable pub mutable_error : DhtMessage → Error
mutable_error not_set = new_error
mutable_error (query q) = new_error
mutable_error (response r) = new_error
mutable_error (error e) = e

-- mutable_response()->set_version(version)
unfoldable pub set_version : Text → DhtMessage → DhtMessage
set_version version msg = response (record (mutable_response msg) { version = version })

-- `mutable_error()`, with set_code and set_message
unfoldable pub set_error : ℕ → Text → DhtMessage → DhtMessage
set_error code message msg = error (record (mutable_error msg) { code = code; message = message })

-- (*data_map)[name] = value
unfoldable pub set_data : Text → Text → Response → Response
set_data name value r = record r { data_map = insert name value r.data_map }

unfoldable pub add_nodes : List NodeInfo → Response → Response
add_nodes infos r = record r { nodes = r.nodes ++ infos }

pub data DhtResultCode : Type 0 where
  success generic timeout invalid_key invalid_value invalid_token : DhtResultCode
  node_not_found bucket_full store_failed store_partial store_to_self : DhtResultCode
  retrieve_failed join_failed ping_failed invalid_operation network_error : DhtResultCode
  invalid_request parse_error data_verification_failed remove_failed : DhtResultCode

-- static_cast<int>
unfoldable pub code_number : DhtResultCode → ℕ
code_number success = 0
code_number generic = 1
code_number timeout = 2
code_number invalid_key = 3
code_number invalid_value = 4
code_number invalid_token = 5
code_number node_not_found = 6
code_number bucket_full = 7
code_number store_failed = 8
code_number store_partial = 9
code_number store_to_self = 10
code_number retrieve_failed = 11
code_number join_failed = 12
code_number ping_failed = 13
code_number invalid_operation = 14
code_number network_error = 15
code_number invalid_request = 16
code_number parse_error = 17
code_number data_verification_failed = 18
code_number remove_failed = 19

unfoldable pub get_dht_result_code_as_string : DhtResultCode → Text
get_dht_result_code_as_string success = bytes "Success"
get_dht_result_code_as_string generic = bytes "Error"
get_dht_result_code_as_string timeout = bytes "Timeout"
get_dht_result_code_as_string invalid_key = bytes "Invalid key"
get_dht_result_code_as_string invalid_value = bytes "Invalid value"
get_dht_result_code_as_string invalid_token = bytes "Invalid token"
get_dht_result_code_as_string node_not_found = bytes "Node not found"
get_dht_result_code_as_string bucket_full = bytes "Bucket full"
get_dht_result_code_as_string store_failed = bytes "Store failed"
get_dht_result_code_as_string store_partial = bytes "Store partial"
get_dht_result_code_as_string store_to_self = bytes "Store to self"
get_dht_result_code_as_string retrieve_failed = bytes "Retrieve failed"
get_dht_result_code_as_string join_failed = bytes "Join failed"
get_dht_result_code_as_string ping_failed = bytes "Ping failed"
get_dht_result_code_as_string invalid_operation = bytes "Invalid operation"
get_dht_result_code_as_string network_error = bytes "Network error"
get_dht_result_code_as_string invalid_request = bytes "Invalid request"
get_dht_result_code_as_string parse_error = bytes "Parse error"
get_dht_result_code_as_string data_verification_failed = bytes "Data verification failed"
get_dht_result_code_as_string remove_failed = bytes "Remove failed"

-- code != static_cast<int>(DhtResultCode::Success)
abbrev pub is_success : DhtResultCode → Bool
is_success success = true
is_success _ = false
