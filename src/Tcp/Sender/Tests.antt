-- ===== src/Tcp/Sender/Tests.antt =====
-- Instances of the sender's theorems.
use gotcp.Prelude.{refl, Bool, true, [], ◌∷◌, ◌++◌, replicate}
use gotcp.Proto.Segment.{TcpPacket, new_tcp_packet, tcp_flag_ack}
use gotcp.Tcp.SendBuf.{SendBuf}
use gotcp.Tcp.Conn.{Conn, InFlight, established, syn_sent, new_socket}
use gotcp.Tcp.Sender.{do_handshakes, timed_out}
use gotcp.Tcp.Sender.Timeouts.{timeouts, GivenUp, timeouts_give_up}
use gotcp.Tcp.Sender.Handshake.{FailedWith, do_handshakes_unanswered}

abbrev network : TcpPacket → Bool
network _ = true

-- Bytes 7, 8 and 9 held; 7 has been sent.
abbrev held_three : SendBuf
held_three = record {
  buf = 8 ∷ 9 ∷ 0 ∷ 7 ∷ [];
  capacity = 4;
  iss = 100;
  lbw = 106;
  has_unsent = 1;
  freespace = 0;
}

abbrev flight : InFlight
flight = record {
  time_sent = 0;
  span = 1;
  counter = 1;
  packet = new_tcp_packet 5000 80 103 1001 tcp_flag_ack (7 ∷ []) 4000;
}

abbrev conn : Conn
unfolding new_socket
conn = record (new_socket established 5000 80 1000 100) {
  snd_una = 103;
  snd_nxt = 104;
  snd_wnd = 200;
  send_buf = held_three;
  inflight_q = flight ∷ [];
  bound = true;
}

timeouts_give_up_example : GivenUp (timeouts network 7 3 conn)
unfolding conn
timeouts_give_up_example = timeouts_give_up network 7 2 conn flight [] (λ _. refl) refl refl refl

abbrev opening : Conn
unfolding new_socket
opening = new_socket syn_sent 5000 80 0 100

do_handshakes_unanswered_example :
    FailedWith 4 true opening (do_handshakes network 7 true (replicate 4 timed_out ++ []) 0 opening)
do_handshakes_unanswered_example =
    do_handshakes_unanswered network 7 true 4 0 [] opening (λ _. refl) refl
