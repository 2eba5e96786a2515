-- ===== src/Tcp/Tables/Lookup.antt =====
-- findNormalSocket and findListenerSocket, against the tables that they search.
use Prim.Native.String.{String}
use gotcp.Prelude.{
  ℕ, ◌+◌, ◌≤◌, ◌<◌, ◌≡◌, refl, subst, true, false, List, [], ◌∷◌, none, some, ◌==◌, arith,
  Bool-cases, inl, inr, ==_iff, ◌↔◌,
}
use gotcp.Prelude.Words.{u32_mod}
use gotcp.Ip.Forward.{Interface}
use gotcp.Tcp.Tables.{TcpEndpointId, endpoint_eq, TcpGlobalInfo, listener_of, conn_of}
use gotcp.Tcp.Tables.Sockets.{find_listener_socket, find_normal_socket, init}
use gotcp.Tcp.Tables.Ids.{uses, UniqueIds, Reaches, opens, Reaches-UniqueIds}

endpoint_eq_iff : (e f : TcpEndpointId) → (endpoint_eq e f ≡ true) ↔ (e ≡ f)
endpoint_eq_iff e f = (λ h. ground arith, λ h. ground arith)

uses-conn_of :
    (e : TcpEndpointId) (id : ℕ) (t : List (TcpEndpointId × ℕ))
    → conn_of e t ≡ some id
    → 1 ≤ uses id t
unfolding conn_of
uses-conn_of e id [] h = absurd cc
uses-conn_of e id ((f, j) ∷ t) h = ground (arith, uses-conn_of e id t)

uses-listener_of : (port id : ℕ) (t : List (ℕ × ℕ)) → listener_of port t ≡ some id → 1 ≤ uses id t
unfolding listener_of
uses-listener_of port id [] h = absurd cc
uses-listener_of port id ((f, j) ∷ t) h = ground (arith, uses-listener_of port id t)

find_normal_socket-conn_of :
    (e : TcpEndpointId) (id : ℕ) (t : List (TcpEndpointId × ℕ))
    → uses id t ≤ 1
    → conn_of e t ≡ some id
    → find_normal_socket id t ≡ some e
unfolding conn_of find_normal_socket
find_normal_socket-conn_of e id [] u h = absurd cc
find_normal_socket-conn_of e id ((f, j) ∷ t) u h = elim (Bool-cases (endpoint_eq f e)) [
  | inl y ↦ rw ((==_iff j id).1 (number (rw y at h)), (endpoint_eq_iff f e).0 y) refl
  | inr n ↦
      let used : 1 ≤ uses id t = uses-conn_of e id t (rw n at h) in
      rw (other used) (find_normal_socket-conn_of e id t (omega (arith, u)) (rw n at h))
]
  where
    number : some j ≡ some id → j ≡ id
    number q = cc

    other : 1 ≤ uses id t → (j == id) ≡ false
    other used = ground (arith, used, u)

find_listener_socket-listener_of :
    (port id : ℕ) (t : List (ℕ × ℕ))
    → uses id t ≤ 1
    → listener_of port t ≡ some id
    → find_listener_socket id t ≡ some port
unfolding listener_of find_listener_socket
find_listener_socket-listener_of port id [] u h = absurd cc
find_listener_socket-listener_of port id ((f, j) ∷ t) u h =
    ground (arith, find_listener_socket-listener_of port id t, uses-listener_of port id t)

find_normal_socket_unused :
    (id : ℕ) (t : List (TcpEndpointId × ℕ)) → uses id t ≡ 0 → find_normal_socket id t ≡ none
unfolding find_normal_socket
find_normal_socket_unused id [] h = refl
find_normal_socket_unused id ((f, j) ∷ t) h = ground (arith, find_normal_socket_unused id t)

find_listener_socket_unused :
    (id : ℕ) (t : List (ℕ × ℕ)) → uses id t ≡ 0 → find_listener_socket id t ≡ none
unfolding find_listener_socket
find_listener_socket_unused id [] h = refl
find_listener_socket_unused id ((f, j) ∷ t) h = ground (arith, find_listener_socket_unused id t)

abbrev pub LookupSpec : TcpGlobalInfo → Type 0
LookupSpec t =
    ((e : TcpEndpointId) (id : ℕ)
      → conn_of e t.conn_table ≡ some id
      → (find_normal_socket id t.conn_table ≡ some e)
        × (find_listener_socket id t.listener_table ≡ none))
    × ((port id : ℕ)
        → listener_of port t.listener_table ≡ some id
        → (find_listener_socket id t.listener_table ≡ some port)
          × (find_normal_socket id t.conn_table ≡ none))

UniqueIds-LookupSpec : (t : TcpGlobalInfo) → UniqueIds t → LookupSpec t
UniqueIds-LookupSpec t u = (
  λ e id h.
      let one = uses-conn_of e id t.conn_table h in
      (
        find_normal_socket-conn_of e id t.conn_table (omega (arith, once id)) h,
        find_listener_socket_unused id t.listener_table (omega (arith, once id, one)),
      ),
  λ port id h.
      let one = uses-listener_of port id t.listener_table h in
      (
        find_listener_socket-listener_of port id t.listener_table (omega (arith, once id)) h,
        find_normal_socket_unused id t.conn_table (omega (arith, once id, one)),
      ),
)
  where
    once : (id : ℕ) → uses id t.conn_table + uses id t.listener_table ≤ 1
    once id = ground (arith, u id)

init-UniqueIds :
    (is : List (String × Interface)) (t : TcpGlobalInfo)
    → init is ≡ some t
    → UniqueIds t × (t.socket_num ≡ 0)
unfolding init
init-UniqueIds [] t h = absurd cc
init-UniqueIds ((n, i) ∷ is) t h =
    subst (λ v. UniqueIds v × (v.socket_num ≡ 0)) (same h) (λ id. ground arith, refl)
  where
    same : {v : TcpGlobalInfo} → some v ≡ some t → v ≡ t
    same q = cc

-- However listeners and connections come and go, as long as fewer than 2 ^ 32 sockets have been
-- opened, so that the counter of ids has not come round: the id of a socket finds that socket, and
-- no other one, whichever kind it is of.
pub Reaches-LookupSpec :
    (is : List (String × Interface)) (t u : TcpGlobalInfo)
    → init is ≡ some t
    → (r : Reaches t u) → opens t u r < u32_mod
    → LookupSpec u
Reaches-LookupSpec is t u h r small =
    let (unique, first) = init-UniqueIds is t h in
    UniqueIds-LookupSpec u (Reaches-UniqueIds t u r unique (omega (arith, first, small))).0
