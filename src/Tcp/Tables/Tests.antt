-- ===== src/Tcp/Tables/Tests.antt =====
-- Instances of the theorems on the tables, with one listener and one connection.
use gotcp.Prelude.{refl, arith, some, false, [], ◌∷◌}
use gotcp.Ip.Forward.{Interface}
use gotcp.Tcp.Tables.Sockets.{init, generate_random_port_num, v_connect}
use gotcp.Tcp.Tables.Ids.{Reaches, here, later, listened, connected}
use gotcp.Tcp.Tables.Lookup.{LookupSpec, Reaches-LookupSpec}
use gotcp.Tcp.Tables.{TcpGlobalInfo, TcpEndpointId, v_listen}
use gotcp.Tcp.Tables.Dispatch.{ListenSpec, v_listen-ListenSpec}

abbrev peer : TcpEndpointId
peer = record { local_addr = 1; local_port = 5000; remote_addr = 2; remote_port = 80 }

abbrev tables : TcpGlobalInfo
tables = record {
  own_addr = 1;
  listener_table = (22, 0) ∷ [];
  conn_table = (peer, 1) ∷ [];
  socket_num = 2;
}

v_listen-ListenSpec_example : ListenSpec tables 80 (v_listen tables 80)
v_listen-ListenSpec_example = v_listen-ListenSpec tables 80

abbrev interface : Interface
interface = record {
  assigned_ip = 1;
  assigned_prefix = record { addr = 0; bits = some 24 };
  udp_addr = (9, 5000);
  is_down = false;
}

abbrev empty_tables : TcpGlobalInfo
empty_tables = record { own_addr = 1; listener_table = []; conn_table = []; socket_num = 0 }

abbrev listening_tables : TcpGlobalInfo
listening_tables = record empty_tables { listener_table = (80, 0) ∷ []; socket_num = 1 }

abbrev remote : TcpEndpointId
remote = record { local_addr = 1; local_port = 20007; remote_addr = 2; remote_port = 22 }

abbrev connected_tables : TcpGlobalInfo
connected_tables = record listening_tables { conn_table = (remote, 1) ∷ []; socket_num = 2 }

-- A listener, then a connection.
abbrev connected_tables-Reaches : Reaches empty_tables connected_tables
unfolding v_listen v_connect generate_random_port_num
connected_tables-Reaches =
    later listening_tables connected_tables
      (later empty_tables listening_tables here (listened 80 0 listening_tables refl))
      (connected (7 ∷ []) 2 22 remote 1 connected_tables refl)

Reaches-LookupSpec_example : LookupSpec connected_tables
unfolding init connected_tables-Reaches
Reaches-LookupSpec_example =
    Reaches-LookupSpec (("if0", interface) ∷ []) empty_tables connected_tables refl
      connected_tables-Reaches (omega arith)
