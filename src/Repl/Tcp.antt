-- ===== src/Repl/Tcp.antt =====
-- The commands of pkg/tcpstack/tcp_repl.go, up to the calls of the sockets that they make. What `ls`
-- prints is left out; `can_open` says whether the operating system opens a file.
use Prim.Native.String.{String}
use gotcp.Prelude.{ℕ, Bool, true, false, Option, none, some, List, [], ◌∷◌, if◌then◌else◌}
use gotcp.Ip.Addr.{Addr}
use gotcp.Config.Text.{split}
use gotcp.Config.Netip.{parse_addr}
use gotcp.Repl.Words.{Int64, atoi, is_uint16, to_uint16, to_int32, to_bytes}
use gotcp.Tcp.Tables.{TcpEndpointId, TcpGlobalInfo, v_listen}
use gotcp.Tcp.Tables.Sockets.{find_listener_socket, find_normal_socket, v_close, Opened, v_connect}

-- A command panics, fails, lists the sockets, listens with a socket and new tables, begins a
-- connection, closes a listener, or calls VClose, VRead or VWrite on a connection.
pub data TcpDone : Type 0 where
  panicked refused listing : TcpDone
  listening : ℕ → TcpGlobalInfo → TcpDone
  connecting : Opened → TcpDone
  closed : TcpGlobalInfo → TcpDone
  closing : TcpEndpointId → TcpDone
  reading : TcpEndpointId → ℕ → TcpDone
  writing : TcpEndpointId → List ℕ → TcpDone

abbrev or_listening : Option (ℕ × TcpGlobalInfo) → TcpDone
or_listening none = refused
or_listening (some (id, t)) = listening id t

abbrev accept_on : TcpGlobalInfo → Option Int64 → TcpDone
accept_on t none = refused
accept_on t (some port) =
    if is_uint16 port then or_listening (v_listen t (to_uint16 port)) else refused

abbrev accept_words : TcpGlobalInfo → List String → TcpDone
accept_words t (_ ∷ port ∷ []) = accept_on t (atoi port)
accept_words t _ = refused

unfoldable pub accept_handler : TcpGlobalInfo → String → TcpDone
unfolding split atoi is_uint16 to_uint16 v_listen
accept_handler t input = accept_words t (split b' ' input)

-- `netip.MustParseAddr` panics.
abbrev must_connect : TcpGlobalInfo → List ℕ → ℕ → Option Addr → TcpDone
must_connect t draws port none = panicked
must_connect t draws port (some addr) = connecting (v_connect t draws addr port)

abbrev connect_on : TcpGlobalInfo → List ℕ → String → Option Int64 → TcpDone
connect_on t draws addr none = refused
connect_on t draws addr (some port) =
    if is_uint16 port then must_connect t draws (to_uint16 port) (parse_addr addr) else refused

abbrev connect_words : TcpGlobalInfo → List ℕ → List String → TcpDone
connect_words t draws (_ ∷ addr ∷ port ∷ []) = connect_on t draws addr (atoi port)
connect_words t draws _ = refused

unfoldable pub connect_handler : TcpGlobalInfo → List ℕ → String → TcpDone
unfolding split atoi is_uint16 to_uint16 parse_addr v_connect
connect_handler t draws input = connect_words t draws (split b' ' input)

abbrev ls_words : List String → TcpDone
ls_words (_ ∷ []) = listing
ls_words _ = refused

unfoldable pub ls_handler : String → TcpDone
unfolding split
ls_handler input = ls_words (split b' ' input)

abbrev or_closed : Option TcpGlobalInfo → TcpDone
or_closed none = refused
or_closed (some t) = closed t

abbrev close_socket : TcpGlobalInfo → Option ℕ → Option TcpEndpointId → TcpDone
close_socket t (some port) _ = or_closed (v_close port t)
close_socket t none (some e) = closing e
close_socket t none none = refused

abbrev pub close_id : TcpGlobalInfo → ℕ → TcpDone
close_id t id =
    close_socket t (find_listener_socket id t.listener_table) (find_normal_socket id t.conn_table)

abbrev close_number : TcpGlobalInfo → Option Int64 → TcpDone
close_number t none = refused
close_number t (some id) = close_id t (to_int32 id)

abbrev pub close_words : TcpGlobalInfo → List String → TcpDone
close_words t (_ ∷ id ∷ []) = close_number t (atoi id)
close_words t _ = refused

unfoldable pub close_handler : TcpGlobalInfo → String → TcpDone
unfolding split atoi to_int32 find_listener_socket find_normal_socket v_close
close_handler t input = close_words t (split b' ' input)

abbrev read_from : ℕ → Option TcpEndpointId → TcpDone
read_from n none = refused
read_from n (some e) = reading e n

-- A count below 0 is refused; `-0` is 0.
abbrev read_count : TcpGlobalInfo → Int64 → Option Int64 → TcpDone
read_count t id none = refused
read_count t id (some (true, n)) = elim n [
  | ℕ.zero ↦ read_from 0 (find_normal_socket (to_int32 id) t.conn_table)
  | ℕ.suc _ ↦ refused
]
read_count t id (some (false, n)) = read_from n (find_normal_socket (to_int32 id) t.conn_table)

abbrev read_number : TcpGlobalInfo → String → Option Int64 → TcpDone
read_number t count none = refused
read_number t count (some id) = read_count t id (atoi count)

abbrev read_words : TcpGlobalInfo → List String → TcpDone
read_words t (_ ∷ id ∷ count ∷ []) = read_number t count (atoi id)
read_words t _ = refused

unfoldable pub read_bytes_handler : TcpGlobalInfo → String → TcpDone
unfolding split atoi to_int32 find_normal_socket
read_bytes_handler t input = read_words t (split b' ' input)

abbrev write_to : String → Option TcpEndpointId → TcpDone
write_to text none = refused
write_to text (some e) = writing e (to_bytes text)

abbrev write_number : TcpGlobalInfo → String → Option Int64 → TcpDone
write_number t text none = refused
write_number t text (some id) = write_to text (find_normal_socket (to_int32 id) t.conn_table)

abbrev write_words : TcpGlobalInfo → List String → TcpDone
write_words t (_ ∷ id ∷ text ∷ []) = write_number t text (atoi id)
write_words t _ = refused

unfoldable pub send_bytes_handler : TcpGlobalInfo → String → TcpDone
unfolding split atoi to_int32 find_normal_socket to_bytes
send_bytes_handler t input = write_words t (split b' ' input)

abbrev connect_checked : TcpGlobalInfo → List ℕ → Option Addr → Option Int64 → TcpDone
connect_checked t draws none _ = refused
connect_checked t draws (some addr) none = refused
connect_checked t draws (some addr) (some port) =
    if is_uint16 port then connecting (v_connect t draws addr (to_uint16 port)) else refused

abbrev send_file_words : (String → Bool) → TcpGlobalInfo → List ℕ → List String → TcpDone
send_file_words can_open t draws (_ ∷ path ∷ addr ∷ port ∷ []) =
    if can_open path then connect_checked t draws (parse_addr addr) (atoi port) else refused
send_file_words can_open t draws _ = refused

-- Up to the goroutine that sends the file.
unfoldable pub send_file_handler : (String → Bool) → TcpGlobalInfo → List ℕ → String → TcpDone
unfolding split atoi is_uint16 to_uint16 parse_addr v_connect
send_file_handler can_open t draws input = send_file_words can_open t draws (split b' ' input)

-- The port is not checked, as it is for the other commands.
abbrev receive_on : TcpGlobalInfo → Option Int64 → TcpDone
receive_on t none = refused
receive_on t (some port) = or_listening (v_listen t (to_uint16 port))

abbrev read_file_words : (String → Bool) → TcpGlobalInfo → List String → TcpDone
read_file_words can_open t (_ ∷ path ∷ port ∷ []) =
    if can_open path then receive_on t (atoi port) else refused
read_file_words can_open t _ = refused

-- Up to the goroutine that writes the file.
unfoldable pub read_file_handler : (String → Bool) → TcpGlobalInfo → String → TcpDone
unfolding split atoi to_uint16 v_listen
read_file_handler can_open t input = read_file_words can_open t (split b' ' input)
