-- ===== src/Lib.antt =====
-- The distributed hash table (DHT) of neroshop, a peer-to-peer market: what each node stores and lets in, its
-- routing table, how a value is published and retrieved, how messages are answered, and the shopping cart. The
-- code is C++ under src/core.
--
-- Parts, and how they interact
--   A node keeps a hash table from keys to values (JSON texts). `put` validates a value (its kind, its fields,
--   its signature, its date of expiration) and, where the key has another value, `set` decides whether the new
--   one may take its place. The routing table keeps the other nodes in 256 buckets by the distance of their
--   identifiers. `send_put` asks the nodes that `find_closest_nodes` returns for a key to store a value, and notes
--   them as providers; `send_get` looks a value up at the node, at its providers, and at those that
--   `send_get_providers` names. `heartbeat` checks the nodes of the table and removes the dead ones. The key
--   mapper indexes the keys by the search terms of their values, and copies its indexes to the database.
--   `protobuf_process` answers a request: of another node, or, in ipc mode, of the user's client, which alone may
--   publish, remove and clear. A listener hands each message to it (`handle_message`), learns of the sender by
--   `on_ping` and `on_map`, and matches responses with the requests that wait for them. `join`, `refresh` and
--   `rebuild_routing_table` fill the routing table. The cart of the client looks listings up in the table and
--   keeps its items in memory and in the database.
--
-- Files
--   Prelude       shared names: tests on numbers, lists by native numbers, texts as lists of bytes, maps as
--                 association lists, and Outcome, a C++ call that returns, throws, or leaves the defined behaviour
--                 of the language (an access out of bounds, a failed assertion).
--   Dht/Id, Dht/Byte
--                 src/core/protocol/p2p/routing_table.cpp: identifiers (xor_id), hex_string_to_node_id,
--                 node_id_to_hex_string, xor_distance_bit_index, generate_random_node_id.
--   Dht/Table     routing_table.{hpp,cpp}: Bucket and RoutingTable, add_node, remove_node, has_node, get_node,
--                 get_nodes, find_closest_nodes and the counts. The two functions of one name that take an address
--                 are remove_node_at and has_node_at.
--   Dht/Platform  what src/core/protocol/p2p/node.cpp takes from libraries: nlohmann's JSON, monero's addresses
--                 and signatures, std::get_time. Also is_expired and get_most_recent_timestamp of
--                 src/core/tools/timestamp.cpp.
--   Dht/Username  is_valid_username of src/core/tools/string.hpp, its regular expression matched by hand.
--   Dht/Store     node.cpp: validate, validate_fields, verify; Store/Verdict: set; Store/Put: put, get, remove,
--                 remove_all, cache; Store/Expiry: expire.
--   Dht/Providers node.cpp: add_provider, remove_provider, remove_providers, get_providers.
--   Dht/Publish   node.cpp: send_put, is_value_publishable, republish_once.
--   Dht/Retrieve  node.cpp: send_get, send_get_providers.
--   Dht/Health    node.cpp: heartbeat (one pass), get_status, is_hardcoded, the counts of peers by status.
--   Dht/Message   proto/message.proto and src/core/protocol/p2p/dht_rescode.hpp: the messages and the result
--                 codes.
--   Dht/Node      the state of a Node, with map, send_put and send_get over it.
--   Dht/Registry  the abstract view of the hash table: the value of each key, what may be put in it and what may
--                 take the place of what.
--   Dht/Rpc       src/core/protocol/rpc/protobuf.cpp: protobuf_process; Rpc/Ipc: the requests of the client;
--                 Rpc/Process: the choice of the method and the reply.
--   Dht/Listener  node.cpp: handle_tor_message, handle_reticulum_message,
--                 handle_reticulum_peer_discovered, on_ping, on_map.
--   Dht/Discover  node.cpp: send_find_node, join, refresh (one pass), rebuild_routing_table.
--   Dht/System    a node with all its steps, and the states that they reach.
--   Dht/Mappings, Dht/KeyMapper
--                 src/core/protocol/p2p/key_mapper.cpp: sync with its table, add, clear_cache.
--   Market/Ints   an `int` by its 32 bits, with a sum and a difference that may overflow.
--   Market/Cart   src/core/market/cart.cpp: add, load, empty.
--   Market/Tests  runs of the cart, and its theorems at concrete inputs.
--   Dht/Tests     runs on concrete values, and the theorems at concrete inputs.
--
-- What stands for what
--   Numbers are native and unbounded; the 32-bit index of a distance and the 16-bit port of a provider are cut as
--   the code cuts them. A `Node*` of the routing table is its contact: address, port, identifier, check_counter.
--   The `int`s of the cart are 32 bits, and the overflow of a signed sum is outside the defined behaviour.
--   The parser of JSON gives a value, finds an error, or raises out_of_range; validate and is_value_publishable
--   let the last one out. `distance` is xor_distance_bit_index, the number of leading bits that two identifiers
--   share, so the order of find_closest_nodes starts with the nodes that are farthest by XOR.
--   `memory` is what the 32 bytes of an identifier hold before hex_string_to_node_id writes them. The clock, the
--   random numbers, the order of std::shuffle, std::sort (an ordered permutation, and no more), and what other
--   nodes answer are parameters. No function has fuel: the loops recurse on their lists, or on the number of
--   buckets or bits that are left.
--
-- Not modelled
--   Locks and threads: each operation runs whole; the loops of republish, purge, heartbeat and refresh are single
--   passes. The bytes of messages: parsing and printing are protobuf's, and sending is a parameter that answers or
--   does not; a reply that cannot be sent raises. expire reads only values that validate has let in, so a text
--   out of range is to it as one that is no JSON. src/core/protocol/rpc/msgpack.cpp (the same handlers for another
--   encoding) and json_rpc.cpp, the transports of src/core/network and src/core/protocol/transport.
--   KeyMapper::serialize, which is no longer in use. Of the cart, failures of the database, and the negative
--   stock or quantity that load might read. The other objects of src/core/market, wallets, cryptography,
--   prices, the user interface, and the libraries under external.
pub mod Dht
pub mod Market
pub mod Prelude
