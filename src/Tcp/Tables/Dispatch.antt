-- ===== src/Tcp/Tables/Dispatch.antt =====
-- VListen against the dispatch of segments.
use gotcp.Prelude.{
  ℕ, ◌≡◌, refl, true, false, List, [], ◌∷◌, Option, none, some, ◌==◌, if◌then◌else◌, arith,
  Bool-cases, inl, inr,
}
use gotcp.Tcp.Tables.{
  TcpEndpointId, TcpGlobalInfo, listener_of, conn_of, any_local_port, is_port_in_use, bind_listener,
  v_listen, to_listener, tcp_recv_handler,
}

pub conn_of_unused :
    (port : ℕ) (e : TcpEndpointId) (t : List (TcpEndpointId × ℕ))
    → any_local_port port t ≡ false
    → e.local_port ≡ port
    → conn_of e t ≡ none
unfolding conn_of any_local_port
conn_of_unused port e [] h p = refl
conn_of_unused port e ((f, id) ∷ t) h p = ground (arith, conn_of_unused port e t)

abbrev pub ListenSpec : TcpGlobalInfo → ℕ → Option (ℕ × TcpGlobalInfo) → Type 0
ListenSpec t port none = is_port_in_use t port ≡ true
ListenSpec t port (some (id, t')) =
    (is_port_in_use t port ≡ false)
    × (is_port_in_use t' port ≡ true)
    × ((e : TcpEndpointId)
        → e.local_addr ≡ t.own_addr
        → tcp_recv_handler t' e
          ≡ (if e.local_port == port then to_listener id else tcp_recv_handler t e))

-- VListen refuses just the ports in use, by a listener or a connection. Else the port is in use
-- from then on, and of the segments for the host's own address all those for the port go to the
-- new listener, and every other goes where it went before.
pub v_listen-ListenSpec : (t : TcpGlobalInfo) → (port : ℕ) → ListenSpec t port (v_listen t port)
unfolding v_listen is_port_in_use bind_listener tcp_recv_handler listener_of
v_listen-ListenSpec t port = elim (Bool-cases (is_port_in_use t port)) [
  | inl y ↦ rw y y
  | inr n ↦ rw n (n, ground arith, goes n)
]
  where
    goes :
        is_port_in_use t port ≡ false
        → (e : TcpEndpointId) → e.local_addr ≡ t.own_addr
        → tcp_recv_handler (bind_listener port t.socket_num t) e
          ≡ (if e.local_port == port then to_listener t.socket_num else tcp_recv_handler t e)
    goes n e a = ground (arith, n, a, conn_of_unused port e t.conn_table)
