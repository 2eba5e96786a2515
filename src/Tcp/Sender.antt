-- ===== src/Tcp/Sender.antt =====
-- pkg/tcpstack/conn.go and handleRTO of retransmission.go: what the connection's own goroutines do.
-- Each definition is one turn of its goroutine's loop; a turn that has to wait for another goroutine
-- is `stuck`.
mod Fresh
mod Timeouts
mod Handshake
mod Tests
use gotcp.Prelude.{
  ℕ, ◌+◌, ◌-◌, ◌%◌, Bool, true, false, ◌&&◌, ◌||◌, not, List, [], ◌∷◌, ◌++◌, Option, none, some,
  ltb, leb, ◌==◌, if◌then◌else◌, length, get_elem?, drop,
}
use gotcp.Prelude.Words.{add32, u16}
use gotcp.Proto.Segment.{
  TcpPacket, new_tcp_packet, is_syn, tcp_flag_ack, tcp_flag_fin, tcp_flag_syn, mss,
}
use gotcp.Tcp.RecvBuf.{RecvBuf, buffer_capacity}
use gotcp.Tcp.SendBuf.{SendBuf, num_bytes_not_sent, bytes_not_sent, index, write_to_send_buf}
use gotcp.Tcp.Conn.{
  ⊤, State, closed, listen, syn_received, syn_sent, established, fin_wait_1, fin_wait_2, closing,
  time_wait, close_wait, last_ack, Conn, InFlight, Action, sent, Outcome, panicked, stuck, failed,
  done, continue, logged, Step, ◌>>=◌, pass, fail, set_state, delete_socket, send_ctl, ctl_packet,
  start_retrans_timer, act,
}
use gotcp.Tcp.State.{state_machine}

-- A packet that is sent and put on the retransmission queue.
abbrev pub in_flight : ℕ → ℕ → TcpPacket → InFlight
in_flight now span packet = record { time_sent = now; span = span; counter = 0; packet = packet }

abbrev pub data_packet : Conn → List ℕ → TcpPacket
data_packet c bytes =
    new_tcp_packet c.local_port c.remote_port c.snd_nxt c.expected_seq_num tcp_flag_ack bytes
      (u16 c.window_size)

-- conn.send: the timer is started whether or not the network takes the packet.
unfoldable pub send_data : (TcpPacket → Bool) → TcpPacket → Step ⊤
unfolding act start_retrans_timer
send_data ip_send packet c =
    let c' = start_retrans_timer c in
    if ip_send packet then done tt (act (sent packet) c') else failed c'

abbrev queued : ℕ → TcpPacket → List ℕ → Step ⊤
queued now packet bytes c = done tt (record c {
  inflight_q = c.inflight_q ++ in_flight now (length bytes) packet ∷ [];
  snd_nxt = add32 c.snd_nxt (length bytes);
})

abbrev send_fresh : (TcpPacket → Bool) → ℕ → Conn → Option (List ℕ) → Outcome ⊤
send_fresh ip_send now c none = panicked
send_fresh ip_send now c (some bytes) =
    let packet = data_packet c bytes in
    if length bytes == 0
    then pass c
    else (send_data ip_send packet >>= λ _. queued now packet bytes) c

-- A turn of sendBufferedData with the peer's window open.
unfoldable pub send_new_data : (TcpPacket → Bool) → ℕ → Step ⊤
unfolding send_data bytes_not_sent
send_new_data ip_send now c =
    send_fresh ip_send now c (bytes_not_sent c.send_buf c.snd_una c.snd_wnd c.snd_nxt mss)

-- A round of zero-window probing, from the SND.UNA and the packet at its start: whether the loop
-- goes on.
unfoldable pub probe_round : (TcpPacket → Bool) → ℕ → TcpPacket → Step Bool
unfolding act
probe_round ip_send old_una packet c =
    if not (c.snd_wnd == 0 && c.snd_una == old_una)
    then done false c
    else if ip_send packet
    then done true (act (sent packet) (record c { snd_nxt = add32 packet.seq_num 1 }))
    else failed c

abbrev first_probe : (TcpPacket → Bool) → Conn → Option ℕ → Outcome Bool
first_probe ip_send c none = panicked
first_probe ip_send c (some byte) = probe_round ip_send c.snd_una (data_packet c (byte ∷ [])) c

-- A turn of sendBufferedData: whether it stays in its probing loop.
unfoldable pub send_buffered_data : (TcpPacket → Bool) → ℕ → Step Bool
unfolding send_new_data probe_round num_bytes_not_sent index
send_buffered_data ip_send now c =
    let c' = record c { send_buf = record (c.send_buf) { has_unsent = 0 } } in
    if num_bytes_not_sent c.send_buf c.snd_nxt == 0
    then stuck
    else if c.snd_wnd == 0
    then first_probe ip_send c' (get_elem? c.send_buf.buf (index c.send_buf c.snd_nxt))
    else (send_new_data ip_send now >>= λ _. done false) c'

-- handleRTO, for one expiry of the timer: whether the goroutine goes on. The doubled timeout is a
-- float and is left out.
unfoldable pub give_up : Step Bool
unfolding delete_socket
give_up c = (delete_socket >>= λ _. done false) (record c {
  inflight_q = [];
  send_buf = record (c.send_buf) { lbw = c.snd_nxt };
  snd_una = c.snd_nxt;
})

abbrev resent : ℕ → InFlight → List InFlight → Step Bool
resent now meta q c =
    done true
      (record c { inflight_q = record meta { time_sent = now; counter = meta.counter + 1 } ∷ q })

abbrev refreshed : Conn → InFlight → InFlight
refreshed c meta = record meta {
  packet = record (meta.packet) { ack_num = c.expected_seq_num; window_size = u16 c.window_size };
}

abbrev send_again : (TcpPacket → Bool) → ℕ → Conn → InFlight → List InFlight → Outcome Bool
send_again ip_send now c meta q =
    let c' = record c {
      inflight_q = refreshed c meta ∷ q;
      rto_is_running = true;
      expiry_taken = false;
    } in
    (send_data ip_send (refreshed c meta).packet >>= λ _. resent now (refreshed c meta) q) c'

abbrev max_retransmissions : ℕ
max_retransmissions = 3

abbrev on_timeout : (TcpPacket → Bool) → ℕ → Conn → List InFlight → Outcome Bool
on_timeout ip_send now c [] = done true (record c { rto_is_running = false })
on_timeout ip_send now c (meta ∷ q) =
    if leb max_retransmissions meta.counter then give_up c else send_again ip_send now c meta q

unfoldable pub handle_rto : (TcpPacket → Bool) → ℕ → Step Bool
unfolding give_up send_data
handle_rto ip_send now c = on_timeout ip_send now (record c { expiry_taken = true }) c.inflight_q

-- What doHandshakes waits for: its timer or a segment.
pub data Event : Type 0 where
  timed_out : Event
  arrived : TcpPacket → Event

abbrev open_segment : (TcpPacket → Bool) → Bool → Step ⊤
open_segment ip_send true c = send_ctl ip_send c.iss 0 tcp_flag_syn c
open_segment ip_send false c =
    send_ctl ip_send c.iss c.expected_seq_num (tcp_flag_syn + tcp_flag_ack) c

-- An error of the first send is the result false.
abbrev or_false : (Conn → Outcome Bool) → Outcome ⊤ → Outcome Bool
or_false f (failed c) = done false c
or_false f o = continue (λ _. f) o

abbrev renewed : TcpPacket → Conn → Conn
renewed segment c = record c {
  irs = segment.seq_num;
  expected_seq_num = add32 segment.seq_num 1;
  recv_buf = gotcp.Tcp.RecvBuf.new buffer_capacity segment.seq_num;
}

abbrev advance : Conn → Conn
advance c = record c { snd_nxt = add32 c.snd_nxt 1 }

-- doHandshakes over the events that it meets; the recursion of the source is one on them.
unfoldable pub do_handshakes : (TcpPacket → Bool) → ℕ → Bool → List Event → ℕ → Step Bool
unfolding send_ctl state_machine is_syn
do_handshakes ip_send now is_active [] attempt c =
    if attempt == max_retransmissions + 1
    then done false c
    else or_false (λ _. stuck) (open_segment ip_send is_active c)
do_handshakes ip_send now is_active (timed_out ∷ events) attempt c =
    let again = do_handshakes ip_send now is_active events (attempt + 1) in
    if attempt == max_retransmissions + 1
    then done false c
    else or_false again (open_segment ip_send is_active c)
do_handshakes ip_send now is_active (arrived segment ∷ events) attempt c =
    let over = λ (c' : Conn). do_handshakes ip_send now false events 0 (renewed segment c') in
    let go = λ (c' : Conn).
      continue (λ _. done true) (logged (state_machine ip_send now segment (advance c'))) in
    if attempt == max_retransmissions + 1
    then done false c
    else or_false (if not is_active && is_syn segment then over else go)
        (open_segment ip_send is_active c)
