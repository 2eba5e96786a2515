-- ===== src/Tcp/State/Tests.antt =====
-- Instances of the theorems on the state functions: an open connection that gets three bytes.
use gotcp.Prelude.{refl, Bool, true, [], ◌∷◌, arith}
use gotcp.Proto.Segment.{TcpPacket, new_tcp_packet, tcp_flag_ack, is_ack, is_fin}
use gotcp.Tcp.RecvBuf.{new}
use gotcp.Tcp.RecvBuf.Inv.{new-IsValid}
use gotcp.Tcp.SendBuf.{new_send_buf}
use gotcp.Tcp.Conn.{Conn, established, new_socket}
use gotcp.Tcp.State.{state_machine, state_func_established}
use gotcp.Tcp.State.Keeps.{After}
use gotcp.Tcp.State.Edges.{Edge}
use gotcp.Tcp.State.Diagram.{state_machine-follows}
use gotcp.Tcp.State.Delivery.{InStep, Ends, Delivered, state_func_established-Delivered}

abbrev network : TcpPacket → Bool
network _ = true

abbrev segment : TcpPacket
unfolding new_tcp_packet
segment = new_tcp_packet 80 5000 1001 100051 tcp_flag_ack (1 ∷ 2 ∷ 3 ∷ []) 4000

abbrev conn : Conn
unfolding new_socket new_send_buf
conn = record (new_socket established 5000 80 1000 100000) { snd_una = 100001; snd_nxt = 100101 }

conn-InStep : InStep conn
unfolding conn new
conn-InStep = record {
  valid = (new-IsValid 65535 1000 (omega arith) (omega arith) (omega arith)).0;
  whole = refl;
  next = refl;
  room = refl;
}

state_func_established-Delivered_example :
    Ends (Delivered conn segment.payload) (state_func_established network 7 segment conn)
unfolding conn segment is_ack is_fin
state_func_established-Delivered_example =
    state_func_established-Delivered network 7 segment conn conn-InStep
      (omega arith, omega arith, omega arith, omega arith, omega arith, refl) refl refl refl
      (omega arith) (omega arith) (omega arith) refl

state_machine-follows_example :
    After (λ c'. Edge established c'.state) (state_machine network 7 segment conn)
unfolding conn
state_machine-follows_example = state_machine-follows network 7 segment conn
