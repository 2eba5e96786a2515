-- ===== src/Ip/Init.antt =====
-- pkg/ipstack/ipstack.go: Init, from a configuration to the tables of a node, and
-- SetInterfaceIsDown. The sockets and the map of handlers are left out; the neighbours that a
-- router sends RIP messages to stand beside the tables.
pub mod Tables
pub mod Spec
mod Tests
use Prim.Native.String.{String}
use gotcp.Prelude.{Bool, true, false, Option, none, some, List, [], ◌∷◌, ◌++◌, if◌then◌else◌}
use gotcp.Ip.Addr.{Addr, Prefix}
use gotcp.Ip.Table.{RouteType, local, static, RoutingEntry, insert_route}
use gotcp.Ip.Forward.{name_eq, Interface, Neighbor, IpGlobalInfo, get}
use gotcp.Config.Parse.{
  RoutingMode, routing_type_none, routing_type_static, routing_type_rip, InterfaceConfig,
  NeighborConfig, IpConfig,
}

-- `m[name] = a`
unfoldable pub put : {A : Type 0} → String → A → List (String × A) → List (String × A)
put name a [] = (name, a) ∷ []
put name a ((n, b) ∷ m) = if name_eq n name then (name, a) ∷ m else (n, b) ∷ put name a m

abbrev pub interface_of : InterfaceConfig → Interface
interface_of ifcfg = record {
  assigned_ip = ifcfg.assigned_ip;
  assigned_prefix = ifcfg.assigned_prefix;
  udp_addr = ifcfg.udp_addr;
  is_down = false;
}

abbrev pub local_entry : InterfaceConfig → RoutingEntry
local_entry ifcfg = record {
  route_type = local;
  prefix = ifcfg.assigned_prefix;
  next_hop = none;
  local_next_hop = ifcfg.name;
  cost = 0;
  updated_at = 0;
}

unfoldable pub add_interface : IpGlobalInfo → InterfaceConfig → IpGlobalInfo
unfolding put
add_interface s ifcfg = record {
  interfaces = put ifcfg.name (interface_of ifcfg) s.interfaces;
  if_neighbors = put ifcfg.name [] s.if_neighbors;
  routing_table = insert_route ifcfg.assigned_prefix (local_entry ifcfg) s.routing_table;
}

unfoldable pub add_interfaces : IpGlobalInfo → List InterfaceConfig → IpGlobalInfo
unfolding add_interface
add_interfaces s [] = s
add_interfaces s (i ∷ is) = add_interfaces (add_interface s i) is

-- `append` to the slice of a name, which is nil if the name is missing.
abbrev pub neighbors_of : Option (List Neighbor) → List Neighbor
neighbors_of none = []
neighbors_of (some ns) = ns

unfoldable pub add_neighbor : IpGlobalInfo → NeighborConfig → IpGlobalInfo
unfolding put
add_neighbor s ncfg =
    let neighbor : Neighbor = record { vip = ncfg.dest_addr; nbhr_udp_addr = ncfg.udp_addr } in
    record s {
      if_neighbors =
          put ncfg.interface_name
            (neighbors_of (get ncfg.interface_name s.if_neighbors) ++ neighbor ∷ []) s.if_neighbors;
    }

unfoldable pub add_neighbors : IpGlobalInfo → List NeighborConfig → IpGlobalInfo
unfolding add_neighbor
add_neighbors s [] = s
add_neighbors s (n ∷ ns) = add_neighbors (add_neighbor s n) ns

abbrev pub static_entry : Prefix → Addr → RoutingEntry
static_entry prefix addr = record {
  route_type = static;
  prefix = prefix;
  next_hop = some addr;
  local_next_hop = "";
  cost = 0;
  updated_at = 0;
}

unfoldable pub add_static_routes : IpGlobalInfo → List (Prefix × Addr) → IpGlobalInfo
add_static_routes s [] = s
add_static_routes s ((prefix, addr) ∷ m) =
    add_static_routes
      (record s { routing_table = insert_route prefix (static_entry prefix addr) s.routing_table })
      m

abbrev pub empty_info : IpGlobalInfo
empty_info = record { interfaces = []; if_neighbors = []; routing_table = [] }

unfoldable pub init : IpConfig → IpGlobalInfo
unfolding add_interfaces add_neighbors add_static_routes
init config =
    add_static_routes (add_neighbors (add_interfaces empty_info config.interfaces) config.neighbors)
      config.static_routes

-- The routing mode that the node runs with.
unfoldable pub routing_mode_of : RoutingMode → RoutingMode
routing_mode_of routing_type_none = routing_type_static
routing_mode_of m = m

abbrev set_down : IpGlobalInfo → String → Bool → Option Interface → Option IpGlobalInfo
set_down s ifname down none = none
set_down s ifname down (some i) =
    some (record s { interfaces = put ifname (record i { is_down = down }) s.interfaces })

-- `none` is the error of a name that no interface has.
unfoldable pub set_interface_is_down : IpGlobalInfo → String → Bool → Option IpGlobalInfo
unfolding put
set_interface_is_down s ifname down = set_down s ifname down (get ifname s.interfaces)
