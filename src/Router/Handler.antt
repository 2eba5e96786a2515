-- ===== src/Router/Handler.antt =====
-- pkg/vrouter/vrouter.go: the RIP handler and the messages that it sends. A message goes to
-- IPGlobalInfo.Send, whose error the code ignores, so a message is kept as its destination and
-- its bytes; `none` is the run-time panic of a malformed message.
use gotcp.Prelude.{ℕ, List, [], ◌∷◌, Option, none, some, ◌==◌, if◌then◌else◌}
use gotcp.Ip.Addr.{Addr}
use gotcp.Ip.Table.{RoutingEntry, RoutingTable}
use gotcp.Proto.Rip.{
  RipMsg, routing_cmd_type_request, routing_cmd_type_response, marshal, Unmarshalled, panicked,
  invalid_input, parsed, unmarshal,
}
use gotcp.Router.Convert.{create_rip_response, rip_entries_to_routing_entries}
use gotcp.Router.Update.{update_routing_table, remove_expired_entries, get_all_entries}

pub record Router : Type 0 where
  pub table : RoutingTable
  pub rip_neighbors : List Addr

abbrev pub Message : Type 0
Message = Addr × List ℕ

-- To all RIP neighbours, each with its own poisoned entries; nothing if there is no entry.
send_to_each : List RoutingEntry → List Addr → List Message
send_to_each entries [] = []
send_to_each entries (n ∷ ns) = (n, create_rip_response entries n) ∷ send_to_each entries ns

unfoldable pub send_rip_update : List RoutingEntry → List Addr → List Message
unfolding send_to_each
send_rip_update [] neighbors = []
send_rip_update (e ∷ es) neighbors = send_to_each (e ∷ es) neighbors

abbrev pub handle_msg : ℕ → Router → Addr → RipMsg → Router × List Message
handle_msg now r src msg =
    if msg.command == routing_cmd_type_request
    then (if msg.num_entries == 0
        then (r, (src, create_rip_response (get_all_entries r.table) src) ∷ [])
        else (r, []))
    else if msg.command == routing_cmd_type_response
    then (let (t, updated) =
          update_routing_table now r.table (rip_entries_to_routing_entries msg.entries src) in
        (record r { table = t }, send_rip_update updated r.rip_neighbors))
    else (r, [])

abbrev pub handle_unmarshalled :
    ℕ → Router → Addr → Unmarshalled RipMsg → Option (Router × List Message)
handle_unmarshalled now r src panicked = none
handle_unmarshalled now r src invalid_input = some (r, [])
handle_unmarshalled now r src (parsed msg) = some (handle_msg now r src msg)

-- A RIP packet from `src`.
unfoldable pub rip_recv_handler : ℕ → Router → Addr → List ℕ → Option (Router × List Message)
rip_recv_handler now r src payload = handle_unmarshalled now r src (unmarshal payload)

request_each : List ℕ → List Addr → List Message
request_each b [] = []
request_each b (n ∷ ns) = (n, b) ∷ request_each b ns

unfoldable pub send_rip_request : Router → List Message
unfolding request_each
send_rip_request r =
    request_each
      (marshal (record { command = routing_cmd_type_request; num_entries = 0; entries = [] }))
      r.rip_neighbors

unfoldable pub send_periodic_rip_update : Router → List Message
send_periodic_rip_update r = send_rip_update (get_all_entries r.table) r.rip_neighbors

-- RemoveExpiredEntries with the update that it sends.
unfoldable pub expire : ℕ → Router → Router × List Message
expire now r =
    let (t, updated) = remove_expired_entries now r.table in
    (record r { table = t }, send_rip_update updated r.rip_neighbors)
