-- ===== src/Ip/Init/Tests.antt =====
-- An instance of the theorem on Init: a router with two interfaces, a neighbour and a static route
-- for the prefix of an interface.
use gotcp.Prelude.{[], ◌∷◌, some}
use gotcp.Config.Parse.{IpConfig, routing_type_rip}
use gotcp.Ip.Init.{init}
use gotcp.Ip.Init.Spec.{InitSpec, init-InitSpec}

abbrev config : IpConfig
config = record {
  interfaces =
      record {
        name = "if0";
        assigned_ip = 257;
        assigned_prefix = record { addr = 256; bits = some 24 };
        udp_addr = (1, 5000);
      }
      ∷ record {
        name = "if1";
        assigned_ip = 513;
        assigned_prefix = record { addr = 512; bits = some 24 };
        udp_addr = (1, 5001);
      }
      ∷ [];
  neighbors = record { dest_addr = 258; udp_addr = (1, 5002); interface_name = "if0" } ∷ [];
  originating_prefixes = [];
  routing_mode = routing_type_rip;
  rip_neighbors = 258 ∷ [];
  static_routes = (record { addr = 512; bits = some 24 }, 258) ∷ [];
}

init-InitSpec_example : InitSpec config (init config)
init-InitSpec_example = init-InitSpec config
