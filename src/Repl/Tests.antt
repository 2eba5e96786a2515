-- ===== src/Repl/Tests.antt =====
-- Instances of the theorems on the command line.
use gotcp.Prelude.{◌++◌, replicate, List, arith, ℕ, ◌≡◌, refl, true, false, some, [], ◌∷◌}
use gotcp.Ip.Forward.{Interface}
use gotcp.Tcp.Tables.{TcpEndpointId, TcpGlobalInfo, listener_of, conn_of, v_listen}
use gotcp.Tcp.Tables.Sockets.{init, delete_listener}
use gotcp.Tcp.Tables.Ids.{Reaches, here, later, listened}
use gotcp.Tcp.Conn.{established}
use gotcp.Tcp.SendBuf.{SendBuf}
use gotcp.Tcp.SendBuf.Inv.{IsValid}
use gotcp.Tcp.User.Writing.{Round}
use gotcp.Tcp.RecvBuf.{RecvBuf, new, advance_nxt}
use gotcp.Tcp.RecvBuf.Inv.{new-IsValid, contents}
use gotcp.Repl.Received.{Event, arrived, finished, turn, receive_file, receiving}
use gotcp.Repl.Received.Hangs.{receive_file-hangs}
use gotcp.Repl.Received.Saved.{network}
use gotcp.Repl.Files.{FileRead, piece, ended, send_file}
use gotcp.Repl.Files.Sent.{SentSpec, send_file-SentSpec}
use gotcp.Config.Text.{split}
use gotcp.Repl.Words.{atoi, to_int32}
use gotcp.Repl.Tcp.{closed, closing, close_handler}
use gotcp.Repl.Closing.{close_handler-closes}

abbrev interface : Interface
interface = record {
  assigned_ip = 1;
  assigned_prefix = record { addr = 0; bits = some 24 };
  udp_addr = (9, 5000);
  is_down = false;
}

abbrev empty_tables : TcpGlobalInfo
empty_tables = record { own_addr = 1; listener_table = []; conn_table = []; socket_num = 0 }

abbrev listening_tables : TcpGlobalInfo
listening_tables = record empty_tables { listener_table = (80, 0) ∷ []; socket_num = 1 }

abbrev listening_tables-Reaches : Reaches empty_tables listening_tables
unfolding v_listen
listening_tables-Reaches =
    later empty_tables listening_tables here (listened 80 0 listening_tables refl)

close_handler-closes_example :
    ((port : ℕ)
      → listener_of port listening_tables.listener_table ≡ some 0
      → close_handler listening_tables "cl 0" ≡ closed (delete_listener port listening_tables))
    × ((e : TcpEndpointId)
        → conn_of e listening_tables.conn_table ≡ some 0
        → close_handler listening_tables "cl 0" ≡ closing e)
unfolding init split atoi to_int32 listening_tables-Reaches
close_handler-closes_example =
    close_handler-closes (("if0", interface) ∷ []) empty_tables listening_tables "cl 0" "cl" "0"
      (false, 0) refl listening_tables-Reaches (omega arith) refl refl

-- An empty buffer of four bytes.
abbrev empty_buf : SendBuf
empty_buf = record {
  buf = 0 ∷ 0 ∷ 0 ∷ 0 ∷ [];
  capacity = 4;
  iss = 100;
  lbw = 101;
  has_unsent = 0;
  freespace = 0;
}

empty_buf-IsValid : IsValid empty_buf 101
empty_buf-IsValid = record {
  sized = refl;
  some_room = omega arith;
  small = omega arith;
  iss_lt = omega arith;
  lbw_lt = omega arith;
  una_lt = omega arith;
  ordered = omega arith;
  fits = omega arith;
}

abbrev round : Round
round = record { state = established; acked = 3; unsent = 1 }

-- Five bytes, in two pieces.
abbrev file : List FileRead
file = piece (1 ∷ 2 ∷ 3 ∷ []) (round ∷ []) ∷ piece (4 ∷ 5 ∷ []) (round ∷ []) ∷ ended ∷ []

send_file-SentSpec_example :
    SentSpec empty_buf 101 (1 ∷ 2 ∷ 3 ∷ 4 ∷ 5 ∷ []) 0 (send_file file empty_buf 101)
send_file-SentSpec_example =
    send_file-SentSpec file empty_buf 101 empty_buf-IsValid
      ((omega arith, tt), ((omega arith, tt), tt)) (omega arith)

abbrev recv_buf : RecvBuf
unfolding new
recv_buf = new 8 100

-- Four bytes, with a turn of the loop in between.
abbrev coming : List Event
coming = arrived (1 ∷ 2 ∷ 3 ∷ []) ∷ turn ∷ arrived (4 ∷ []) ∷ []

receive_file-hangs_example :
    (file : List ℕ) × (m : ℕ) × (u : ℕ) × (receive_file
        ((turn ∷ []) ++ (finished ∷ replicate 8 turn))
        false
        []
        0
        8
        recv_buf
      ≡ receiving true file m u (advance_nxt recv_buf recv_buf.nxt true))
    × (file ++ contents recv_buf ≡ [])
unfolding network recv_buf new gotcp.Tcp.Ring.window advance_nxt
receive_file-hangs_example =
    receive_file-hangs (turn ∷ []) 8 8 recv_buf
      (new-IsValid 8 100 (omega arith) (omega arith) (omega arith)).0 tt refl (omega arith) refl
      refl
