-- ===== src/Tcp/Tables.antt =====
-- pkg/tcpstack/tcpstack.go, listener.go and tcp_internal.go: the tables of listeners and connections,
-- VListen, and where tcpRecvHandler takes a segment. The maps are association lists from ports and
-- endpoints to socket ids; the table's mutex makes each function one step.
mod Dispatch
pub mod Sockets
mod Ports
pub mod Ids
pub mod Lookup
mod Tests
use gotcp.Prelude.{
  ℕ, ◌+◌, Bool, true, false, ◌&&◌, ◌||◌, not, List, [], ◌∷◌, Option, none, some, ◌==◌,
  if◌then◌else◌,
}
use gotcp.Prelude.Words.{add32}
use gotcp.Ip.Addr.{Addr}

pub record TcpEndpointId : Type 0 where
  pub local_addr : Addr
  pub local_port : ℕ
  pub remote_addr : Addr
  pub remote_port : ℕ

abbrev pub endpoint_eq : TcpEndpointId → TcpEndpointId → Bool
endpoint_eq a b =
    a.local_addr == b.local_addr
    && (a.local_port == b.local_port
        && (a.remote_addr == b.remote_addr && a.remote_port == b.remote_port))

pub record TcpGlobalInfo : Type 0 where
  pub own_addr : Addr  -- localAddr
  pub listener_table : List (ℕ × ℕ)
  pub conn_table : List (TcpEndpointId × ℕ)
  pub socket_num : ℕ  -- the id that the next socket gets: an int32 that wraps, as 32 bits

unfoldable pub listener_of : ℕ → List (ℕ × ℕ) → Option ℕ
listener_of port [] = none
listener_of port ((p, id) ∷ t) = if p == port then some id else listener_of port t

unfoldable pub conn_of : TcpEndpointId → List (TcpEndpointId × ℕ) → Option ℕ
conn_of e [] = none
conn_of e ((f, id) ∷ t) = if endpoint_eq f e then some id else conn_of e t

-- The loop of isPortInUse.
unfoldable pub any_local_port : ℕ → List (TcpEndpointId × ℕ) → Bool
any_local_port port [] = false
any_local_port port ((f, _) ∷ t) =
    let rest = any_local_port port t in if f.local_port == port then true else rest

abbrev pub is_some : Option ℕ → Bool
is_some none = false
is_some (some _) = true

unfoldable pub is_port_in_use : TcpGlobalInfo → ℕ → Bool
unfolding listener_of any_local_port
is_port_in_use t port =
    if is_some (listener_of port t.listener_table) then true else any_local_port port t.conn_table

unfoldable pub bind_listener : ℕ → ℕ → TcpGlobalInfo → TcpGlobalInfo
bind_listener port id t = record t { listener_table = (port, id) ∷ t.listener_table }

-- VListen with NewListenerSocket: `none` is the error of a port in use.
unfoldable pub v_listen : TcpGlobalInfo → ℕ → Option (ℕ × TcpGlobalInfo)
unfolding is_port_in_use bind_listener
v_listen t port =
    let id = t.socket_num in
    if is_port_in_use t port
    then none
    else some (id, bind_listener port id (record t { socket_num = add32 id 1 }))

-- Where tcpRecvHandler takes a segment whose checksum is right.
pub data Target : Type 0 where
  dropped : Target
  to_conn to_listener : ℕ → Target

abbrev listening : Option ℕ → Target
listening none = dropped
listening (some id) = to_listener id

abbrev connected : Option ℕ → Target → Target
connected none other = other
connected (some id) other = to_conn id

unfoldable pub tcp_recv_handler : TcpGlobalInfo → TcpEndpointId → Target
unfolding listener_of conn_of
tcp_recv_handler t e =
    if not (t.own_addr == e.local_addr)
    then dropped
    else connected (conn_of e t.conn_table) (listening (listener_of e.local_port t.listener_table))
