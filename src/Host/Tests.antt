-- ===== src/Host/Tests.antt =====
-- Runs of the start of a host, which needs an interface, and an instance of the theorem on it.

use Prim.Native.String.{String}
use gotcp.Prelude.{List, false, ℕ, [], ◌∷◌, ◌≡◌, refl, Option, some, none}
use gotcp.Ip.Forward.{Interface}
use gotcp.Ip.Table.{local, insert_route}
use gotcp.Config.Parse.{IpConfig}
use gotcp.Config.Load.{parse_config, loaded}
use gotcp.Config.Consistent.{Consistent}
use gotcp.Repl.{Repl, new_repl}
use gotcp.Repl.Commands.{Handler}
use gotcp.Host.Starts.{SoundHost, start_host-SoundHost}
use gotcp.Host.{Host, Started, failed, host, start_host}

abbrev own_addr : Started → Option ℕ
own_addr (host h _) = some h.tcp.own_addr
own_addr _ = none

start_host_runs :
    own_addr (start_host ("interface if0 10.0.0.1/24 127.0.0.1:5000" ∷ "routing static" ∷ []))
    ≡ some 167772161
unfolding start_host
start_host_runs = refl

start_host_fails : start_host ("routing static" ∷ []) ≡ failed
unfolding start_host
start_host_fails = refl

abbrev host_file : List String
host_file =
    "interface if0 10.0.0.1/24 127.0.0.1:5000" ∷ "neighbor 10.0.0.2 at 127.0.0.1:5001 via if0" ∷ []

abbrev repl_of : Started → Repl Handler
repl_of (host _ r) = r
repl_of _ = new_repl

abbrev the_interface : Interface
the_interface = record {
  assigned_ip = 167772161;
  assigned_prefix = record { addr = 167772160; bits = some 24 };
  udp_addr = (2130706433, 5000);
  is_down = false;
}

abbrev the_host : Host
the_host = record {
  ip = record {
    interfaces = ("if0", the_interface) ∷ [];
    if_neighbors =
        ("if0", record { vip = 167772162; nbhr_udp_addr = (2130706433, 5001) } ∷ []) ∷ [];
    routing_table =
        (
          record { addr = 167772160; bits = some 24 },
          record {
            route_type = local;
            prefix = record { addr = 167772160; bits = some 24 };
            next_hop = none;
            local_next_hop = "if0";
            cost = 0;
            updated_at = 0;
          },
        )
        ∷ [];
  };
  tcp = record { own_addr = 167772161; listener_table = []; conn_table = []; socket_num = 0 };
}

host_file-starts : start_host host_file ≡ host the_host (repl_of (start_host host_file))
unfolding start_host insert_route
host_file-starts = refl

start_host-SoundHost_example :
    (c : IpConfig) × (parse_config host_file ≡ loaded c) × Consistent c × SoundHost c the_host
start_host-SoundHost_example =
    start_host-SoundHost host_file the_host (repl_of (start_host host_file)) host_file-starts
