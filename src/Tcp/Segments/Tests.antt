-- ===== src/Tcp/Segments/Tests.antt =====
-- Runs of the handlers of a segment's parts, and instances of their theorems.
use gotcp.Prelude.{ℕ, ◌≡◌, ◌↔◌, refl, Bool, true, List, [], ◌∷◌, arith}
use gotcp.Proto.Segment.{TcpPacket, new_tcp_packet, tcp_flag_ack}
use gotcp.Tcp.Conn.{Conn, InFlight, established, new_socket}
use gotcp.Tcp.Segments.{handle_ack, is_valid_seg, still_in_flight}
use gotcp.Tcp.Segments.Acks.{Leaves, AckSpec, handle_ack-AckSpec}
use gotcp.Tcp.Segments.Acceptable.{InBoth, is_valid_seg_iff}

abbrev network : TcpPacket → Bool
network _ = true

abbrev segment : TcpPacket
segment = new_tcp_packet 80 5000 1001 100051 tcp_flag_ack (1 ∷ 2 ∷ 3 ∷ []) 4000

abbrev conn : Conn
unfolding new_socket
conn = record (new_socket established 5000 80 1000 100000) { snd_una = 100001; snd_nxt = 100101 }

abbrev flight : ℕ → InFlight
flight seq = record {
  time_sent = 0;
  span = 50;
  counter = 0;
  packet = new_tcp_packet 5000 80 seq 1001 tcp_flag_ack [] 4000;
}

abbrev in_queue : List InFlight
in_queue = flight 100001 ∷ flight 100051 ∷ []

handle_ack-AckSpec_example : Leaves (AckSpec segment conn) (handle_ack network 7 segment conn)
unfolding conn gotcp.Tcp.SendBuf.new_send_buf handle_ack new_tcp_packet
handle_ack-AckSpec_example =
    handle_ack-AckSpec network 7 segment conn (omega arith) (omega arith) (omega arith) refl

still_in_flight_runs : still_in_flight 100051 in_queue ≡ flight 100051 ∷ []
unfolding still_in_flight new_tcp_packet
still_in_flight_runs = refl

is_valid_seg_iff_example : (is_valid_seg segment conn ≡ true) ↔ ((k : ℕ) × InBoth segment conn k)
unfolding new_tcp_packet conn
is_valid_seg_iff_example =
    is_valid_seg_iff segment conn (omega arith) (omega arith) (omega arith) (omega arith)
      (omega arith)
