-- ===== src/Tcp/Tables/Ids.antt =====
-- The ids of sockets, and the steps that change the tables.
use gotcp.Prelude.{
  ℕ, ◌+◌, ◌≤◌, ◌<◌, ◌≡◌, subst, List, [], ◌∷◌, Option, none, some, ltb, ◌==◌, if◌then◌else◌, arith,
  Bool-cases, inl, inr,
}
use gotcp.Prelude.Words.{u32_mod}
use gotcp.Ip.Addr.{Addr}
use gotcp.Proto.Segment.{TcpPacket, tcp_flag_syn}
use gotcp.Tcp.Tables.{
  TcpEndpointId, TcpGlobalInfo, listener_of, is_port_in_use, bind_listener, v_listen,
}
use gotcp.Tcp.Tables.Sockets.{
  put_conn, bind_socket, remove_conn, delete_socket, remove_listener, delete_listener, v_close,
  generate_random_port_num, refused, opened, open_socket, socket_exists, v_connect, v_accept,
  connect_from, has_id,
}

-- VListen, VConnect and VAccept up to their handshakes, the end of a socket, and VClose of a listener.
pub data StepsTo (t : TcpGlobalInfo) : TcpGlobalInfo → Type 0 where
  listened : (port id : ℕ) (u : TcpGlobalInfo) → v_listen t port ≡ some (id, u) → StepsTo t u
  connected :
      (draws : List ℕ) (addr : Addr) (port : ℕ) (e : TcpEndpointId) (id : ℕ) (u : TcpGlobalInfo)
      → v_connect t draws addr port ≡ opened e id u
      → StepsTo t u
  accepted :
      (port : ℕ) (packet : TcpPacket) (src_ip : Addr) (e : TcpEndpointId) (id : ℕ)
      (u : TcpGlobalInfo)
      → v_accept t port packet src_ip ≡ opened e id u
      → StepsTo t u
  deleted : (e : TcpEndpointId) (u : TcpGlobalInfo) → delete_socket e t ≡ some u → StepsTo t u
  closed : (port : ℕ) (u : TcpGlobalInfo) → v_close port t ≡ some u → StepsTo t u

pub data Reaches (t : TcpGlobalInfo) : TcpGlobalInfo → Type 0 where
  here : Reaches t t
  later : (u v : TcpGlobalInfo) → Reaches t u → StepsTo u v → Reaches t v

-- How many sockets a step opens, and how many were opened on the way.
abbrev opened_by : (t u : TcpGlobalInfo) → StepsTo t u → ℕ
opened_by t u (listened port id _ e) = 1
opened_by t u (connected draws addr port e id _ k) = 1
opened_by t u (accepted port packet src_ip e id _ k) = 1
opened_by t u (deleted e _ k) = 0
opened_by t u (closed port _ k) = 0

abbrev pub opens : (t u : TcpGlobalInfo) → Reaches t u → ℕ
opens t _ here = 0
opens t v (later u _ r s) = opens t u r + opened_by u v s

module _ {A : Type 0} where
  -- How many sockets of a table have the id.
  abbrev pub uses : ℕ → List (A × ℕ) → ℕ
  uses id [] = 0
  uses id ((_, j) ∷ t) = (if j == id then 1 else 0) + uses id t

-- An id that was given out belongs to one socket at most, and one that was not to none.
abbrev pub UniqueIds : TcpGlobalInfo → Type 0
UniqueIds t =
    (id : ℕ)
    → uses id t.conn_table + uses id t.listener_table ≤ (if ltb id t.socket_num then 1 else 0)

uses-put_conn :
    (id k : ℕ) (e : TcpEndpointId) (t : List (TcpEndpointId × ℕ))
    → uses id (put_conn e k t) ≤ (if k == id then 1 else 0) + uses id t
unfolding put_conn
uses-put_conn id k e [] = omega arith
uses-put_conn id k e ((f, j) ∷ t) = ground (arith, uses-put_conn id k e t)

uses-remove_conn :
    (id : ℕ) (e : TcpEndpointId) (t : List (TcpEndpointId × ℕ))
    → uses id (remove_conn e t) ≤ uses id t
unfolding remove_conn
uses-remove_conn id e [] = omega arith
uses-remove_conn id e ((f, j) ∷ t) = ground (arith, uses-remove_conn id e t)

uses-remove_listener :
    (id port : ℕ) (t : List (ℕ × ℕ)) → uses id (remove_listener port t) ≤ uses id t
unfolding remove_listener
uses-remove_listener id port [] = omega arith
uses-remove_listener id port ((f, j) ∷ t) = ground (arith, uses-remove_listener id port t)

-- The ids are unique after a step that opens `n` sockets, and none has come round.
abbrev Grown : TcpGlobalInfo → ℕ → TcpGlobalInfo → Type 0
Grown t n u = UniqueIds u × (u.socket_num ≡ t.socket_num + n)

v_listen-Grown :
    (t : TcpGlobalInfo) (port id : ℕ) (u : TcpGlobalInfo)
    → UniqueIds t
    → t.socket_num + 1 < u32_mod
    → v_listen t port ≡ some (id, u)
    → Grown t 1 u
unfolding v_listen bind_listener
v_listen-Grown t port id u h small e = elim (Bool-cases (is_port_in_use t port)) [
  | inl y ↦ absurd (none_not (rw y at e))
  | inr n ↦
      subst (Grown t 1) (same (rw n at e)) (λ i. ground (arith, small, h i), omega (arith, small))
]
  where
    none_not : {A : Type 0} {a : A} → none ≡ some a → ⊥
    none_not q = cc

    same : {a : ℕ × TcpGlobalInfo} → some a ≡ some (id, u) → a.1 ≡ u
    same q = cc

open_socket-Grown :
    (t : TcpGlobalInfo) (e f : TcpEndpointId) (id : ℕ) (u : TcpGlobalInfo)
    → UniqueIds t
    → t.socket_num + 1 < u32_mod
    → open_socket t e ≡ opened f id u
    → Grown t 1 u
unfolding open_socket bind_socket
open_socket-Grown t e f id u h small k = elim (Bool-cases (socket_exists t e)) [
  | inl y ↦ absurd (refused_not (rw y at k))
  | inr n ↦ subst (Grown t 1) (same (rw n at k)) (
    λ i. ground (arith, small, h i, uses-put_conn i t.socket_num e t.conn_table),
    omega (arith, small),
  )
]
  where
    refused_not : refused ≡ opened f id u → ⊥
    refused_not q = cc

    same : {g : TcpEndpointId} {j : ℕ} {v : TcpGlobalInfo} → opened g j v ≡ opened f id u → v ≡ u
    same q = cc

delete_socket-Grown :
    (t : TcpGlobalInfo) (e : TcpEndpointId) (u : TcpGlobalInfo)
    → UniqueIds t
    → delete_socket e t ≡ some u
    → Grown t 0 u
unfolding delete_socket
delete_socket-Grown t e u h k = elim (Bool-cases (socket_exists t e)) [
  | inr n ↦ absurd (none_not (rw n at k))
  | inl y ↦
      subst (Grown t 0) (same (rw y at k))
        (λ i. ground (arith, h i, uses-remove_conn i e t.conn_table), omega arith)
]
  where
    none_not : none ≡ some u → ⊥
    none_not q = cc

    same : {v : TcpGlobalInfo} → some v ≡ some u → v ≡ u
    same q = cc

v_close-Grown :
    (t : TcpGlobalInfo) (port : ℕ) (u : TcpGlobalInfo)
    → UniqueIds t
    → v_close port t ≡ some u
    → Grown t 0 u
unfolding v_close delete_listener
v_close-Grown t port u h k = elim (Bool-cases (has_id (listener_of port t.listener_table))) [
  | inr n ↦ absurd (none_not (rw n at k))
  | inl y ↦
      subst (Grown t 0) (same (rw y at k))
        (λ i. ground (arith, h i, uses-remove_listener i port t.listener_table), omega arith)
]
  where
    none_not : none ≡ some u → ⊥
    none_not q = cc

    same : {v : TcpGlobalInfo} → some v ≡ some u → v ≡ u
    same q = cc

StepsTo-Grown :
    (t u : TcpGlobalInfo) (s : StepsTo t u)
    → UniqueIds t
    → t.socket_num + opened_by t u s < u32_mod
    → Grown t (opened_by t u s) u
unfolding v_connect v_accept
StepsTo-Grown t u (listened port id _ e) h small = v_listen-Grown t port id u h small e
StepsTo-Grown t u (connected draws addr port e id _ k) h small =
    found (generate_random_port_num t draws) k
  where
    found : (o : Option ℕ) → connect_from t addr port o ≡ opened e id u → Grown t 1 u
    found none q = absurd cc
    found (some n) q = open_socket-Grown t _ e id u h small q
StepsTo-Grown t u (accepted port packet src_ip e id _ k) h small =
    elim (Bool-cases (packet.flags == tcp_flag_syn)) [
      | inl y ↦ open_socket-Grown t _ e id u h small (rw y at k)
      | inr n ↦ absurd (refused_not (rw n at k))
    ]
  where
    refused_not : refused ≡ opened e id u → ⊥
    refused_not q = cc
StepsTo-Grown t u (deleted e _ k) h small = delete_socket-Grown t e u h k
StepsTo-Grown t u (closed port _ k) h small = v_close-Grown t port u h k

pub Reaches-UniqueIds :
    (t u : TcpGlobalInfo) (r : Reaches t u)
    → UniqueIds t
    → t.socket_num + opens t u r < u32_mod
    → UniqueIds u × (u.socket_num ≡ t.socket_num + opens t u r)
Reaches-UniqueIds t _ here h small = (h, omega arith)
Reaches-UniqueIds t v (later u _ r s) h small =
    let (unique, count) = Reaches-UniqueIds t u r h (omega (arith, small)) in
    let (unique', count') = StepsTo-Grown u v s unique (omega (arith, small, count)) in
    (unique', omega (arith, count, count'))
