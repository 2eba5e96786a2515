-- ===== src/Config/Directives.antt =====
-- What the three directives that fmt.Fscanf reads do, on a line with the words that they name.

use Prim.Native.String.{String}
use gotcp.Prelude.{true, some, [], ◌∷◌, ◌++◌, ◌≡◌, refl}
use gotcp.Ip.Addr.{Addr, Prefix}
use gotcp.Ip.Forward.{AddrPort}
use gotcp.Config.Netip.{parse_addr, parse_prefix, parse_addr_port, masked}
use gotcp.Config.Parse.{
  IpConfig, parsed, parse_interface, parse_neighbor, parse_route, set_static_route,
}
use gotcp.Config.Text.{fscanf}
use gotcp.Config.Fields.{◌&◌, is_word, ends_word, fscanf-filled, tight-word}

-- The directives of a configuration file, with one space where the format has one, and with what
-- follows the last word.
abbrev interface_line : String → String → String → String → String
interface_line name prefix addr rest = "interface " & name & " " & prefix & " " & addr & rest

abbrev neighbor_line : String → String → String → String → String
neighbor_line vip addr name rest = "neighbor " & vip & " at " & addr & " via " & name & rest

abbrev route_line : String → String → String → String
route_line prefix addr rest = "route " & prefix & " via " & addr & rest

parse_interface-line :
    (c : IpConfig) (name s_prefix s_addr rest : String) (p : Prefix) (u : AddrPort)
    → is_word name ≡ true
    → is_word s_prefix ≡ true
    → is_word s_addr ≡ true
    → ends_word rest ≡ true
    → parse_prefix s_prefix ≡ some p
    → parse_addr_port s_addr ≡ some u
    → parse_interface (interface_line name s_prefix s_addr rest) c
      ≡ parsed (record c {
        interfaces =
            c.interfaces
            ++ record {
              name = name;
              assigned_ip = p.addr;
              assigned_prefix = masked p;
              udp_addr = u;
            }
              ∷ [];
      })
unfolding parse_interface
parse_interface-line c name s_prefix s_addr rest p u hn hp ha hr ep eu = rw (scanned, ep, eu) refl
  where
    scanned :
        fscanf ("interface " ∷ " " ∷ " " ∷ []) (interface_line name s_prefix s_addr rest)
        ≡ some (name ∷ s_prefix ∷ s_addr ∷ [])
    scanned = fscanf-filled ("interface " ∷ " " ∷ " " ∷ []) (name ∷ s_prefix ∷ s_addr ∷ []) rest (
      tight-word name _ hn,
      hn,
      refl,
      (tight-word s_prefix _ hp, hp, refl, (tight-word s_addr _ ha, ha, hr, tt)),
    )

parse_neighbor-line :
    (c : IpConfig) (vip s_addr name rest : String) (a : Addr) (u : AddrPort)
    → is_word vip ≡ true
    → is_word s_addr ≡ true
    → is_word name ≡ true
    → ends_word rest ≡ true
    → parse_addr vip ≡ some a
    → parse_addr_port s_addr ≡ some u
    → parse_neighbor (neighbor_line vip s_addr name rest) c
      ≡ parsed (record c {
        neighbors =
            c.neighbors ++ record { dest_addr = a; udp_addr = u; interface_name = name } ∷ [];
      })
unfolding parse_neighbor
parse_neighbor-line c vip s_addr name rest a u hv ha hn hr ea eu = rw (scanned, ea, eu) refl
  where
    scanned :
        fscanf ("neighbor " ∷ " at " ∷ " via " ∷ []) (neighbor_line vip s_addr name rest)
        ≡ some (vip ∷ s_addr ∷ name ∷ [])
    scanned = fscanf-filled ("neighbor " ∷ " at " ∷ " via " ∷ []) (vip ∷ s_addr ∷ name ∷ []) rest (
      tight-word vip _ hv,
      hv,
      refl,
      (tight-word s_addr _ ha, ha, refl, (tight-word name _ hn, hn, hr, tt)),
    )

parse_route-line :
    (c : IpConfig) (s_prefix s_addr rest : String) (p : Prefix) (a : Addr)
    → is_word s_prefix ≡ true
    → is_word s_addr ≡ true
    → ends_word rest ≡ true
    → parse_prefix s_prefix ≡ some p
    → parse_addr s_addr ≡ some a
    → parse_route (route_line s_prefix s_addr rest) c
      ≡ parsed (record c { static_routes = set_static_route p a c.static_routes })
unfolding parse_route
parse_route-line c s_prefix s_addr rest p a hp ha hr ep ea = rw (scanned, ep, ea) refl
  where
    scanned :
        fscanf ("route " ∷ " via " ∷ []) (route_line s_prefix s_addr rest)
        ≡ some (s_prefix ∷ s_addr ∷ [])
    scanned =
        fscanf-filled ("route " ∷ " via " ∷ []) (s_prefix ∷ s_addr ∷ []) rest
          (tight-word s_prefix _ hp, hp, refl, (tight-word s_addr _ ha, ha, hr, tt))
