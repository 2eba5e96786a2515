-- ===== src/Tcp/Tables/Sockets.antt =====
-- The tables of pkg/tcpstack as sockets come and go: Init, VConnect, VAccept and VClose of
-- tcpstack.go and listener.go up to their handshake and after it, the lookups and deletions of
-- tcp_internal.go, and the ports of utils.go. Opening a socket is one step here: the checks and the
-- assignment, for which the code takes the mutex anew each time.
use Prim.Native.String.{String}
use gotcp.Prelude.{
  ℕ, ◌+◌, Bool, true, false, not, List, [], ◌∷◌, Option, none, some, ◌==◌, if◌then◌else◌,
}
use gotcp.Prelude.Words.{u16, add32}
use gotcp.Ip.Addr.{Addr}
use gotcp.Ip.Forward.{Interface}
use gotcp.Proto.Segment.{TcpPacket, tcp_flag_syn}
use gotcp.Tcp.Tables.{
  TcpEndpointId, endpoint_eq, TcpGlobalInfo, listener_of, conn_of, is_port_in_use,
}

-- Of tcpstack.go: the address of whichever interface the map of interfaces yields first.
unfoldable pub init : List (String × Interface) → Option TcpGlobalInfo
init [] = none
init ((_, i) ∷ is) =
    some (record { own_addr = i.assigned_ip; listener_table = []; conn_table = []; socket_num = 0 })

abbrev pub has_id : Option ℕ → Bool
has_id none = false
has_id (some _) = true

unfoldable pub socket_exists : TcpGlobalInfo → TcpEndpointId → Bool
unfolding conn_of
socket_exists t e = has_id (conn_of e t.conn_table)

-- `connTable[e] = id`
unfoldable pub put_conn : TcpEndpointId → ℕ → List (TcpEndpointId × ℕ) → List (TcpEndpointId × ℕ)
put_conn e id [] = (e, id) ∷ []
put_conn e id ((f, j) ∷ t) = if endpoint_eq f e then (e, id) ∷ t else (f, j) ∷ put_conn e id t

unfoldable pub bind_socket : TcpEndpointId → ℕ → TcpGlobalInfo → TcpGlobalInfo
unfolding put_conn
bind_socket e id t = record t { conn_table = put_conn e id t.conn_table }

unfoldable pub remove_conn : TcpEndpointId → List (TcpEndpointId × ℕ) → List (TcpEndpointId × ℕ)
remove_conn e [] = []
remove_conn e ((f, j) ∷ t) = if endpoint_eq f e then t else (f, j) ∷ remove_conn e t

-- The state of the socket is set first, so a missing socket is a nil dereference, `none`.
unfoldable pub delete_socket : TcpEndpointId → TcpGlobalInfo → Option TcpGlobalInfo
unfolding remove_conn socket_exists
delete_socket e t =
    if socket_exists t e then some (record t { conn_table = remove_conn e t.conn_table }) else none

unfoldable pub remove_listener : ℕ → List (ℕ × ℕ) → List (ℕ × ℕ)
remove_listener port [] = []
remove_listener port ((p, j) ∷ t) = if p == port then t else (p, j) ∷ remove_listener port t

unfoldable pub delete_listener : ℕ → TcpGlobalInfo → TcpGlobalInfo
unfolding remove_listener
delete_listener port t = record t { listener_table = remove_listener port t.listener_table }

-- VClose of a listener: `none` is the error of a listener that is closed.
unfoldable pub v_close : ℕ → TcpGlobalInfo → Option TcpGlobalInfo
unfolding delete_listener listener_of
v_close port t =
    if has_id (listener_of port t.listener_table) then some (delete_listener port t) else none

-- The port of the first listener with the id.
unfoldable pub find_listener_socket : ℕ → List (ℕ × ℕ) → Option ℕ
find_listener_socket id [] = none
find_listener_socket id ((p, j) ∷ t) = if j == id then some p else find_listener_socket id t

unfoldable pub find_normal_socket : ℕ → List (TcpEndpointId × ℕ) → Option TcpEndpointId
find_normal_socket id [] = none
find_normal_socket id ((e, j) ∷ t) = if j == id then some e else find_normal_socket id t

abbrev pub min_random_port : ℕ
min_random_port = 20000

-- The draws of rand.Intn, each below MAX_UINT16 - MIN_RANDOM_PORT; `none` if the ports of all of them
-- are in use, and the loop goes on.
unfoldable pub generate_random_port_num : TcpGlobalInfo → List ℕ → Option ℕ
unfolding is_port_in_use
generate_random_port_num t [] = none
generate_random_port_num t (n ∷ ns) =
    let rest = generate_random_port_num t ns in
    let port = u16 (min_random_port + n) in if is_port_in_use t port then rest else some port

-- What opening a socket ends with: a wait without end for a port, an error, or a new socket whose
-- handshake begins.
pub data Opened : Type 0 where
  searching refused : Opened
  opened : TcpEndpointId → ℕ → TcpGlobalInfo → Opened

-- NewSocket and bindSocket, if there is no such socket.
unfoldable pub open_socket : TcpGlobalInfo → TcpEndpointId → Opened
unfolding socket_exists bind_socket
open_socket t e =
    let id = t.socket_num in
    if socket_exists t e
    then refused
    else opened e id (bind_socket e id (record t { socket_num = add32 id 1 }))

abbrev pub connect_from : TcpGlobalInfo → Addr → ℕ → Option ℕ → Opened
connect_from t addr port none = searching
connect_from t addr port (some local_port) = open_socket t (record {
  local_addr = t.own_addr;
  local_port = local_port;
  remote_addr = addr;
  remote_port = port;
})

-- VConnect up to the handshake.
unfoldable pub v_connect : TcpGlobalInfo → List ℕ → Addr → ℕ → Opened
unfolding generate_random_port_num open_socket
v_connect t draws addr port = connect_from t addr port (generate_random_port_num t draws)

-- VAccept up to the handshake, on a segment for the listener of a port.
unfoldable pub v_accept : TcpGlobalInfo → ℕ → TcpPacket → Addr → Opened
unfolding open_socket
v_accept t port packet src_ip =
    if not (packet.flags == tcp_flag_syn)
    then refused
    else open_socket t (record {
      local_addr = t.own_addr;
      local_port = port;
      remote_addr = src_ip;
      remote_port = packet.src_port;
    })

-- Both, after the handshake: a socket whose handshake failed is deleted.
unfoldable pub after_handshake : Bool → TcpEndpointId → TcpGlobalInfo → Option TcpGlobalInfo
unfolding delete_socket
after_handshake succeeded e t = if succeeded then some t else delete_socket e t
