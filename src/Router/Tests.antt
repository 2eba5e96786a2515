-- ===== src/Router/Tests.antt =====
-- Instances of the router's theorems: a table with a local, a static and a RIP route.
use gotcp.Prelude.{ℕ, ◌≡◌, ◌⊎◌, refl, List, [], ◌∷◌, ◌++◌, map, some, none, arith}
use gotcp.Ip.Addr.{Prefix}
use gotcp.Ip.Table.{RoutingEntry, RoutingTable, local, rip, lookup_route, UniqueKeys}
use gotcp.Proto.Rip.{RipMsg, unmarshal, parsed, routing_cmd_type_response}
use gotcp.Router.Convert.{
  create_rip_response, rip_entries_to_routing_entries, ip_mask_to_prefix_len, prefix_len_to_ip_mask,
}
use gotcp.Router.Exchange.{
  received, AreCarried, create_rip_response-received, ip_mask_to_prefix_len-prefix_len_to_ip_mask,
}
use gotcp.Router.Update.{update_routing_table, remove_expired_entries}
use gotcp.Router.Relax.{relax_all, update_routing_table-relax}
use gotcp.Router.Announce.{SameRoute, Elem, update_routing_table_announces}
use gotcp.Router.Expiry.{ExpirySpec, remove_expired_entries_lem}

abbrev net : ℕ → Prefix
net n = record { addr = n; bits = some 24 }

abbrev local_route : RoutingEntry
local_route = record {
  route_type = local;
  prefix = net 256;
  next_hop = none;
  local_next_hop = "if0";
  cost = 0;
  updated_at = 0;
}

-- Through 258.
abbrev rip_route : RoutingEntry
rip_route = record {
  route_type = rip;
  prefix = net 512;
  next_hop = some 258;
  local_next_hop = "";
  cost = 2;
  updated_at = 5;
}

abbrev table : RoutingTable
table = (net 256, local_route) ∷ (net 512, rip_route) ∷ []

table-UniqueKeys : UniqueKeys table
unfolding lookup_route
table-UniqueKeys = (refl, (refl, tt))

abbrev advertised : List RoutingEntry
advertised = record rip_route { next_hop = some 259; cost = 1 } ∷ []

update_routing_table-relax_example :
    lookup_route (net 512) (update_routing_table 9 table advertised).0
    ≡ relax_all 9 (net 512) (lookup_route (net 512) table) advertised
update_routing_table-relax_example = update_routing_table-relax 9 table advertised (net 512)

update_routing_table_announces_example :
    let (t', updated) = update_routing_table 9 table advertised in
    SameRoute (lookup_route (net 512) table) (lookup_route (net 512) t')
    ⊎ ((r : RoutingEntry) × (lookup_route (net 512) t' ≡ some r) × Elem r updated)
update_routing_table_announces_example = update_routing_table_announces 9 table advertised (net 512)

remove_expired_entries_lem_example :
    let (t', updated) = remove_expired_entries 13000000000 table in
    ExpirySpec 13000000000 (lookup_route (net 512) table) (lookup_route (net 512) t') updated
remove_expired_entries_lem_example =
    remove_expired_entries_lem 13000000000 table (net 512) table-UniqueKeys

rip_route-AreCarried : AreCarried (rip_route ∷ [])
rip_route-AreCarried = (
  record {
    len = 24;
    len_eq = refl;
    len_pos = omega arith;
    len_le = omega arith;
    addr_lt = omega arith;
    cost_le = omega arith;
  },
  tt,
)

create_rip_response-received_example :
    (m : RipMsg) × (unmarshal (create_rip_response (rip_route ∷ []) 258 ++ 0 ∷ []) ≡ parsed m)
    × (m.command ≡ routing_cmd_type_response)
    × (rip_entries_to_routing_entries m.entries 257 ≡ map (received 258 257) (rip_route ∷ []))
create_rip_response-received_example =
    create_rip_response-received 258 257 (rip_route ∷ []) (0 ∷ []) (omega arith)
      rip_route-AreCarried

ip_mask_to_prefix_len-prefix_len_to_ip_mask_example :
    ip_mask_to_prefix_len (prefix_len_to_ip_mask (some 24)) ≡ some 24
ip_mask_to_prefix_len-prefix_len_to_ip_mask_example =
    ip_mask_to_prefix_len-prefix_len_to_ip_mask 24 (omega arith) (omega arith)
