-- ===== src/Config/Parse.antt =====
-- The directives of pkg/lnxconfig/lnxconfig.go: one function for each line of a configuration file.
-- They get only lines without an IPv6 text (see Load), since Netip reads IPv4 texts.
use Prim.Native.String.{String}
use gotcp.Prelude.{
  Bool, false, ◌||◌, Option, none, some, List, [], ◌∷◌, ◌++◌, ◌==◌, if◌then◌else◌, ◌>>=◌,
}
use gotcp.Ip.Addr.{Addr, Prefix, prefix_eq}
use gotcp.Ip.Forward.{AddrPort, name_eq}
use gotcp.Config.Text.{split, fscanf}
use gotcp.Config.Netip.{parse_addr, parse_prefix, parse_addr_port, masked}

pub data RoutingMode : Type 0 where
  routing_type_none routing_type_static routing_type_rip : RoutingMode

pub record InterfaceConfig : Type 0 where
  pub name : String
  pub assigned_ip : Addr
  pub assigned_prefix : Prefix
  pub udp_addr : AddrPort

pub record NeighborConfig : Type 0 where
  pub dest_addr : Addr
  pub udp_addr : AddrPort
  pub interface_name : String

-- `static_routes` is a Go map: one row for each prefix.
pub record IpConfig : Type 0 where
  pub interfaces : List InterfaceConfig
  pub neighbors : List NeighborConfig
  pub originating_prefixes : List Prefix
  pub routing_mode : RoutingMode
  pub rip_neighbors : List Addr
  pub static_routes : List (Prefix × Addr)

-- What a line ends with: a run-time panic, an error, the new configuration, or that the line is
-- outside the model, as one with an IPv6 text is.
pub data Parsed : Type 0 where
  panicked refused outside : Parsed
  parsed : IpConfig → Parsed

abbrev pub or_refuse : Option IpConfig → Parsed
or_refuse none = refused
or_refuse (some c) = parsed c

unfoldable pub has_prefix : Prefix → List InterfaceConfig → Bool
has_prefix p [] = false
has_prefix p (i ∷ is) = prefix_eq i.assigned_prefix p || has_prefix p is

unfoldable pub add_originating_prefix : IpConfig → Prefix → Parsed
unfolding has_prefix
add_originating_prefix c p =
    if has_prefix p c.interfaces
    then parsed (record c { originating_prefixes = c.originating_prefixes ++ p ∷ [] })
    else refused

unfoldable pub has_neighbor : Addr → List NeighborConfig → Bool
has_neighbor a [] = false
has_neighbor a (n ∷ ns) = (n.dest_addr == a) || has_neighbor a ns

unfoldable pub add_rip_neighbor : IpConfig → Addr → Parsed
unfolding has_neighbor
add_rip_neighbor c a =
    if has_neighbor a c.neighbors
    then parsed (record c { rip_neighbors = c.rip_neighbors ++ a ∷ [] })
    else refused

abbrev pub originate_prefix : IpConfig → Option Prefix → Parsed
originate_prefix c none = refused
originate_prefix c (some p) = add_originating_prefix c (masked p)

-- The usage error needs both a missing token and a first token that is not `prefix`, so the code
-- reads past the end of `tokens[2:]` where the first is missing, or is `prefix` and stands alone.
abbrev pub originate : IpConfig → List String → Parsed
originate c [] = panicked
originate c (t ∷ []) = if name_eq t "prefix" then panicked else refused
originate c (t ∷ p ∷ _) = originate_prefix c (parse_prefix p)

abbrev pub advertise_address : IpConfig → Option Addr → Parsed
advertise_address c none = refused
advertise_address c (some a) = add_rip_neighbor c a

abbrev pub advertise_to : IpConfig → List String → Parsed
advertise_to c [] = refused
advertise_to c (t ∷ _) = advertise_address c (parse_addr t)

abbrev pub rip_command : IpConfig → List String → Parsed
rip_command c (_ ∷ cmd ∷ rip_tokens) =
    if name_eq cmd "originate"
    then originate c rip_tokens
    else if name_eq cmd "advertise-to"
    then advertise_to c rip_tokens
    else refused
rip_command c _ = refused

unfoldable pub parse_rip : String → IpConfig → Parsed
unfolding split parse_prefix parse_addr masked add_originating_prefix add_rip_neighbor
parse_rip line c = rip_command c (split b' ' line)

abbrev pub routing_type : IpConfig → List String → Parsed
routing_type c (_ ∷ rt ∷ _) =
    if name_eq rt "static"
    then parsed (record c { routing_mode = routing_type_static })
    else if name_eq rt "rip"
    then parsed (record c { routing_mode = routing_type_rip })
    else refused
routing_type c _ = refused

unfoldable pub parse_routing : String → IpConfig → Parsed
unfolding split
parse_routing line c = routing_type c (split b' ' line)

-- `config.StaticRoutes[prefix] = addr`
unfoldable pub set_static_route : Prefix → Addr → List (Prefix × Addr) → List (Prefix × Addr)
set_static_route p a [] = (p, a) ∷ []
set_static_route p a ((q, b) ∷ m) =
    if prefix_eq q p then (p, a) ∷ m else (q, b) ∷ set_static_route p a m

abbrev pub route_from : IpConfig → List String → Option IpConfig
route_from c (s_prefix ∷ s_addr ∷ []) = parse_prefix s_prefix >>= λ prefix.
    parse_addr s_addr >>= λ addr.
    some (record c { static_routes = set_static_route prefix addr c.static_routes })
route_from c _ = none

unfoldable pub parse_route : String → IpConfig → Parsed
unfolding fscanf parse_prefix parse_addr set_static_route
parse_route line c = or_refuse (fscanf ("route " ∷ " via " ∷ []) line >>= route_from c)

abbrev pub interface_from : IpConfig → List String → Option IpConfig
interface_from c (s_name ∷ s_prefix ∷ s_bind_addr ∷ []) = parse_prefix s_prefix >>= λ prefix.
    parse_addr_port s_bind_addr >>= λ addr_port.
    let iface : InterfaceConfig = record {
      name = s_name;
      assigned_ip = prefix.addr;
      assigned_prefix = masked prefix;
      udp_addr = addr_port;
    } in
    some (record c { interfaces = c.interfaces ++ iface ∷ [] })
interface_from c _ = none

unfoldable pub parse_interface : String → IpConfig → Parsed
unfolding fscanf parse_prefix parse_addr_port masked
parse_interface line c =
    or_refuse (fscanf ("interface " ∷ " " ∷ " " ∷ []) line >>= interface_from c)

abbrev pub neighbor_from : IpConfig → List String → Option IpConfig
neighbor_from c (s_dest_addr ∷ s_udp_addr ∷ s_if_name ∷ []) =
    parse_addr s_dest_addr >>= λ dest_addr. parse_addr_port s_udp_addr >>= λ udp_addr.
    let neighbor : NeighborConfig = record {
      dest_addr = dest_addr;
      udp_addr = udp_addr;
      interface_name = s_if_name;
    } in
    some (record c { neighbors = c.neighbors ++ neighbor ∷ [] })
neighbor_from c _ = none

unfoldable pub parse_neighbor : String → IpConfig → Parsed
unfolding fscanf parse_addr parse_addr_port
parse_neighbor line c =
    or_refuse (fscanf ("neighbor " ∷ " at " ∷ " via " ∷ []) line >>= neighbor_from c)
