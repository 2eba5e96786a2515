-- ===== src/Repl/Closing.antt =====
-- The command `cl`, on the tables that the program reaches.
use Prim.Native.String.{String}
use gotcp.Prelude.{ℕ, ◌<◌, ◌≡◌, refl, some, List, [], ◌∷◌}
use gotcp.Prelude.Words.{u32_mod}
use gotcp.Ip.Forward.{Interface}
use gotcp.Tcp.Tables.{TcpEndpointId, TcpGlobalInfo, listener_of, conn_of}
use gotcp.Tcp.Tables.Sockets.{init, delete_listener, v_close}
use gotcp.Tcp.Tables.Ids.{Reaches, opens}
use gotcp.Tcp.Tables.Lookup.{Reaches-LookupSpec}
use gotcp.Config.Text.{split}
use gotcp.Repl.Words.{Int64, atoi, to_int32}
use gotcp.Repl.Tcp.{closed, closing, close_handler}

v_close-listener_of :
    (t : TcpGlobalInfo) (port id : ℕ)
    → listener_of port t.listener_table ≡ some id
    → v_close port t ≡ some (delete_listener port t)
unfolding v_close
v_close-listener_of t port id h = rw h refl

-- On whatever tables the program reaches with fewer than 2 ^ 32 sockets opened, so that the counter of
-- ids has not come round: `cl` with the number of a socket closes that socket; of a listener it
-- removes the port, and of a connection it calls VClose.
pub close_handler-closes :
    (is : List (String × Interface)) (t u : TcpGlobalInfo) (input word number : String) (n : Int64)
    → init is ≡ some t
    → (r : Reaches t u) → opens t u r < u32_mod
    → split b' ' input ≡ word ∷ number ∷ []
    → atoi number ≡ some n
    → ((port : ℕ)
        → listener_of port u.listener_table ≡ some (to_int32 n)
        → close_handler u input ≡ closed (delete_listener port u))
      × ((e : TcpEndpointId)
          → conn_of e u.conn_table ≡ some (to_int32 n)
          → close_handler u input ≡ closing e)
unfolding close_handler
close_handler-closes is t u input word number n i r small w a =
    let (conns, listeners) = Reaches-LookupSpec is t u i r small in
    (
      λ port h.
          rw (w, a, (listeners port (to_int32 n) h).0, v_close-listener_of u port (to_int32 n) h)
            refl,
      λ e h. rw (w, a, (conns e (to_int32 n) h).1, (conns e (to_int32 n) h).0) refl,
    )
