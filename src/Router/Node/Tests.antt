-- ===== src/Router/Node/Tests.antt =====
-- Instances of the theorems on a router: it starts with two interfaces, and one of them is switched
-- off.
use gotcp.Prelude.{Bool, true, false, refl, [], ◌∷◌, ◌≢◌, some}
use gotcp.Ip.Forward.{AddrPort, IpPacket, Sent, send, IpGlobalInfo}
use gotcp.Ip.Init.{init, set_interface_is_down}
use gotcp.Config.Parse.{IpConfig, routing_type_rip}
use gotcp.Router.Node.{
  Node, new_node, Reaches, here, later, switched, forwarded, router_test_recv_handler,
}
use gotcp.Router.Node.Steady.{Steady, Reaches-Steady}
use gotcp.Router.Node.Sends.{send_safe}

abbrev config : IpConfig
config = record {
  interfaces =
      record {
        name = "if0";
        assigned_ip = 257;
        assigned_prefix = record { addr = 256; bits = some 24 };
        udp_addr = (1, 5000);
      }
      ∷ record {
        name = "if1";
        assigned_ip = 513;
        assigned_prefix = record { addr = 512; bits = some 24 };
        udp_addr = (1, 5001);
      }
      ∷ [];
  neighbors = record { dest_addr = 258; udp_addr = (1, 5002); interface_name = "if0" } ∷ [];
  originating_prefixes = [];
  routing_mode = routing_type_rip;
  rip_neighbors = 258 ∷ [];
  static_routes = (record { addr = 1024; bits = some 24 }, 258) ∷ [];
}

abbrev switched_off : IpGlobalInfo
unfolding init
switched_off = record (init config) {
  interfaces =
      (
        "if0",
        record {
          assigned_ip = 257;
          assigned_prefix = record { addr = 256; bits = some 24 };
          udp_addr = (1, 5000);
          is_down = true;
        },
      )
      ∷ (
        "if1",
        record {
          assigned_ip = 513;
          assigned_prefix = record { addr = 512; bits = some 24 };
          udp_addr = (1, 5001);
          is_down = false;
        },
      )
      ∷ [];
}

abbrev after_down : Node
after_down = record { ip = switched_off; rip_neighbors = 258 ∷ [] }

after_down-Reaches : Reaches (new_node config) after_down
unfolding new_node init set_interface_is_down switched_off
after_down-Reaches = later (new_node config) after_down here (switched "if0" true switched_off refl)

abbrev network : AddrPort → IpPacket → Bool
network _ _ = true

abbrev packet : IpPacket
packet = record { src = 258; dst = 1025; protocol = 0; ttl = 9; total_len = 21; payload = 7 ∷ [] }

Reaches-Steady_example : Steady config after_down
Reaches-Steady_example = Reaches-Steady config after_down after_down-Reaches

send_safe_example :
    (send network 9 after_down.ip 1025 (7 ∷ []) 0 ≢ Sent.panicked)
    × (router_test_recv_handler network 9 after_down.ip packet ≢ forwarded Sent.panicked)
send_safe_example = send_safe config after_down network 9 1025 (7 ∷ []) 0 packet after_down-Reaches
