-- ===== src/Dht/Tests/Systems.antt =====
-- Messages that a concrete node handles, and the steps of a concrete node.
use testshop.Prelude.{
  ok_injective, sym, ◌∙◌, ◌≡◌, refl, true, false, none, some, [], ◌∷◌, Text, bytes, text_eq, lookup,
  ok, faults, arith, not, if◌then◌else◌,
}
use testshop.Dht.Id.{node_id_to_hex_string}
use testshop.Dht.Id.Hex.{hex_string_to_node_id-node_id_to_hex_string}
use testshop.Dht.Table.{new_table}
use testshop.Dht.Message.{Query, Response, DhtMessage, query, response, new_response}
use testshop.Dht.Node.{Node}
use testshop.Dht.Rpc.{version}
use testshop.Dht.Rpc.Process.{prepared, protobuf_process}
use testshop.Dht.Registry.{IsAccepted}
use testshop.Dht.Listener.{
  reticulum, tor, Wire, on_ping, on_map, Waiting, is_pending, erase_pending, Handled,
  handle_response, handle_query, handle_message,
}
use testshop.Dht.Listener.Pinged.{own_ping_faults}
use testshop.Dht.Listener.Delivered.{IsFulfilled, handle_message-IsFulfilled, put_round_trip}
use testshop.Dht.System.{
  Step, handles, Reach, starts, steps, IsNode, new_node-IsNode, Reach-IsNode, Reach-IsAccepted,
}
use testshop.Dht.Tests.Fixture.{platform, key, memory, own, own-IsXorId}
use testshop.Dht.Discover.{Others, ask, refresh}
use testshop.Dht.Discover.Total.{IsHash, IsOther, Ends, refresh-Ends}
use testshop.Dht.Discover.Self.{self_named_faults}
use testshop.Dht.Tests.Fixture.{near, near-IsXorId, id_ne}
use testshop.Dht.Table.Valid.{IsTable-new_table}
use testshop.Dht.Message.{NodeInfo}
use testshop.Dht.Tests.Sorting.{sorting}
use testshop.Dht.Tests.Network.{same_order}
use testshop.Dht.KeyMapper.{new_mapper}
use testshop.Dht.Tests.Requests.{
  host, net, node, put_request, IsAdmitted-put_request, listing_stored, after_put, put_run,
  process_run,
}

abbrev own_id : Text
own_id = node_id_to_hex_string own

-- The node's own address is "a.onion".
abbrev wire : Wire
wire = record {
  network_type = tor;
  generate_node_id = λ a. if text_eq a (bytes "a.onion") then own_id else bytes "other";
  to_i2p_address = λ d. d;
  stoi = λ t. none;
  bootstrap_nodes = [];
  is_sent = λ a m. true;
}

abbrev ping : Text → Query
ping id = record {
  version = version;
  query = bytes "ping";
  args = (bytes "id", id) ∷ [];
  tid = bytes "t2";
}

own_ping_faults_example : on_ping memory 0 wire (ping own_id) (bytes "a.onion") node ≡ faults
unfolding text_eq bytes lookup new_table
own_ping_faults_example =
    own_ping_faults memory 0 wire (ping own_id) (bytes "a.onion") (bytes "a.onion") 50881 node refl
      refl refl refl own-IsXorId
      (hex_string_to_node_id-node_id_to_hex_string memory own own-IsXorId)

abbrev wire' : Wire
wire' = record wire { network_type = reticulum }

abbrev waiting : Waiting
waiting = record { node = node; pending_requests = bytes "t0" ∷ bytes "t1" ∷ [] }

abbrev pong : Response
pong = record new_response { version = version; tid = bytes "t1" }

abbrev handled : Handled
handled = record {
  after = record waiting { pending_requests = bytes "t0" ∷ [] };
  sent = none;
  fulfilled = some (bytes "t1");
}

handle_run :
    handle_message platform memory 0 sorting same_order net host wire
      (some (response pong))
      (bytes "b")
      waiting
    ≡ ok handled
unfolding handle_message handle_response is_pending erase_pending text_eq bytes
handle_run = refl

handle_message-IsFulfilled_example : IsFulfilled (some (response pong)) waiting handled (bytes "t1")
handle_message-IsFulfilled_example =
    handle_message-IsFulfilled platform memory 0 sorting same_order net host wire
      (some (response pong)) (bytes "b") (bytes "t1") waiting handled handle_run refl

put_round_trip_example :
    (reply : DhtMessage) × (n' : Node) × (h : Handled) × (protobuf_process platform memory 0 sorting
        same_order net host false
        (some (query put_request))
        node
      ≡ ok (reply, n'))
    × (handle_message platform memory 0 sorting same_order net host wire
          (some reply)
          (bytes "b")
          waiting
        ≡ ok h)
    × (h.fulfilled ≡ (if true then some (bytes "t1") else none))
    × (is_pending (bytes "t1") h.after.pending_requests ≡ not true)
unfolding text_eq bytes lookup is_pending
put_round_trip_example =
    put_round_trip platform memory 0 sorting same_order net host wire put_request node key
      (bytes "listing-1") (bytes "b") true listing_stored waiting IsAdmitted-put_request refl refl
      refl (λ e. ground arith) refl put_run

abbrev put_handled : Handled
put_handled = record {
  after = record { node = after_put; pending_requests = [] };
  sent = some (response (prepared put_request node));
  fulfilled = none;
}

put_handled_run :
    handle_message platform memory 0 sorting same_order net host wire
      (some (query put_request))
      (bytes "b")
      (record { node = node; pending_requests = [] })
    ≡ ok put_handled
unfolding handle_message handle_query on_ping on_map text_eq bytes
put_handled_run = rw process_run refl

abbrev put_step : Step platform memory wire node after_put
put_step =
    handles 0 sorting same_order net host (some (query put_request)) (bytes "b") [] put_handled
      put_handled_run

abbrev put_reached : Reach platform memory wire node after_put
put_reached = steps starts put_step

Reach-IsNode_example : IsNode platform memory wire after_put
Reach-IsNode_example = Reach-IsNode platform memory wire put_reached (
    new_node-IsNode platform memory wire own_id (bytes "a.onion") own 50881 new_mapper own-IsXorId
      (hex_string_to_node_id-node_id_to_hex_string memory own own-IsXorId))

Reach-IsAccepted_example : IsAccepted platform key (bytes "listing-1")
unfolding lookup text_eq
Reach-IsAccepted_example =
    Reach-IsAccepted platform memory wire own_id (bytes "a.onion") own 50881 new_mapper after_put
      key (bytes "listing-1") own-IsXorId
      (hex_string_to_node_id-node_id_to_hex_string memory own own-IsXorId) put_reached refl

-- Every other node has the identifier `near`; it answers, and names one node.
abbrev wire_near : Wire
wire_near = record wire { generate_node_id = λ a. node_id_to_hex_string near }

abbrev told : NodeInfo
told = record { id = []; address = bytes "c"; port = 50881; status = 0; distance = 0 }

abbrev others : Others
others = record { ping = λ a p. true; find_node = λ a p t. told ∷ [] }

wire_near-IsHash : IsHash memory wire_near
wire_near-IsHash a =
    (near, near-IsXorId, hex_string_to_node_id-node_id_to_hex_string memory near near-IsXorId)

told-IsOther : IsOther memory wire_near own told
unfolding text_eq
told-IsOther e =
    id_ne near own refl (
      ok_injective (sym (hex_string_to_node_id-node_id_to_hex_string memory near near-IsXorId) ∙ e))

refresh-Ends_example :
    Ends memory
      (new_table own)
      (refresh memory 7200 wire_near others sorting (λ i b. true) (new_table own))
unfolding new_table
refresh-Ends_example =
    refresh-Ends memory 7200 wire_near others wire_near-IsHash own (λ a p t. (told-IsOther, tt))
      sorting (λ i b. true) (new_table own) (IsTable-new_table memory own own-IsXorId) refl

-- The one node that is asked names the own address.
abbrev wire_own : Wire
wire_own = record wire { generate_node_id = λ a. node_id_to_hex_string own }

wire_own-IsHash : IsHash memory wire_own
wire_own-IsHash a =
    (own, own-IsXorId, hex_string_to_node_id-node_id_to_hex_string memory own own-IsXorId)

self_named_faults_example :
    ask memory 7 wire_own others (bytes "b") 50881 own_id (new_table own) ≡ faults
unfolding new_table
self_named_faults_example =
    self_named_faults memory 7 wire_own others wire_own-IsHash (bytes "b") 50881 own_id
      (new_table own) [] [] told (IsTable-new_table memory own own-IsXorId) refl tt
      (hex_string_to_node_id-node_id_to_hex_string memory own own-IsXorId)
