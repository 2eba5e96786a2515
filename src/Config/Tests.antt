-- ===== src/Config/Tests.antt =====
-- Instances of the theorems on the parser: the file of a router with one interface.
use Prim.Native.String.{String}
use gotcp.Prelude.{◌↔◌, List, [], ◌∷◌, ◌≡◌, refl, some}
use gotcp.Ip.Addr.{Prefix}
use gotcp.Config.Text.{split}
use gotcp.Config.Parse.{IpConfig, routing_type_rip, panicked, refused}
use gotcp.Config.Load.{parse_config, parse_line, empty_config, loaded}
use gotcp.Config.Consistent.{Consistent}
use gotcp.Config.Lines.{parse_config-Consistent}
use gotcp.Config.Panics.{Unfinished, parse_line_panics}

abbrev net : Prefix
net = record { addr = 167772160; bits = some 24 }

abbrev router_file : List String
router_file =
    "# a router" ∷ "interface if0 10.0.0.1/24 127.0.0.1:5000"
    ∷ "neighbor 10.0.0.2 at 127.0.0.1:5001 via if0" ∷ "routing rip" ∷ "rip advertise-to 10.0.0.2"
    ∷ "rip originate prefix 10.0.0.0/24" ∷ "route 10.1.0.0/16 via 10.0.0.2" ∷ []

abbrev router_config : IpConfig
router_config = record {
  interfaces =
      record {
        name = "if0";
        assigned_ip = 167772161;
        assigned_prefix = net;
        udp_addr = (2130706433, 5000);
      }
      ∷ [];
  neighbors =
      record { dest_addr = 167772162; udp_addr = (2130706433, 5001); interface_name = "if0" } ∷ [];
  originating_prefixes = net ∷ [];
  routing_mode = routing_type_rip;
  rip_neighbors = 167772162 ∷ [];
  static_routes = (record { addr = 167837696; bits = some 16 }, 167772162) ∷ [];
}

router_file-loaded : parse_config router_file ≡ loaded router_config
unfolding parse_config
router_file-loaded = refl

parse_config-Consistent_example : Consistent router_config
parse_config-Consistent_example =
    parse_config-Consistent router_file router_config router_file-loaded

-- An address of no neighbour is refused.
unknown_neighbor : parse_line "rip advertise-to 10.0.0.9" router_config ≡ refused
unfolding parse_line
unknown_neighbor = refl

parse_line_panics_example :
    (parse_line "rip originate prefix" empty_config ≡ panicked)
    ↔ Unfinished (split b' ' "rip originate prefix")
parse_line_panics_example = parse_line_panics "rip originate prefix" empty_config
