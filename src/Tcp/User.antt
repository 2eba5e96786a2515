-- ===== src/Tcp/User.antt =====
-- pkg/tcpstack/conn.go and state.go: the user's calls on a connection, VRead and CLOSE. A call that
-- has to wait for another goroutine is `blocked` or `stuck`.
mod Reading
mod Closing
pub mod Writing
mod Tests
use gotcp.Prelude.{ℕ, ◌+◌, Bool, true, false, ◌&&◌, not, List, [], ◌∷◌, ◌++◌, ◌==◌, if◌then◌else◌}
use gotcp.Prelude.Words.{add32}
use gotcp.Proto.Segment.{TcpPacket, tcp_flag_ack, tcp_flag_fin}
use gotcp.Tcp.RecvBuf.{RecvBuf, ReadResult, read, window_size}
use gotcp.Tcp.SendBuf.{num_bytes_not_sent}
use gotcp.Tcp.Conn.{
  ⊤, State, closed, listen, syn_received, syn_sent, established, fin_wait_1, fin_wait_2, closing,
  time_wait, close_wait, last_ack, Conn, InFlight, Outcome, stuck, done, Step, ◌>>=◌, pass, fail,
  set_state, delete_socket, send_ctl, ctl_packet, start_retrans_timer,
}
use gotcp.Tcp.Sender.{in_flight}

-- What VRead yields: a panic, a wait, an error with no bytes, or a number of bytes with the caller's
-- slice, the connection after it, and whether the error is io.EOF.
pub data Got : Type 0 where
  panicked blocked eof not_permitted : Got
  got : ℕ → List ℕ → Bool → Conn → Got

-- The bytes sent before the FIN.
abbrev last_bytes : Conn → ReadResult → Got
last_bytes c ReadResult.panicked = panicked
last_bytes c ReadResult.blocked = blocked
last_bytes c ReadResult.eof = eof
last_bytes c (ReadResult.took n out b) = got n out true (record c { recv_buf = b })

abbrev pub some_bytes : Conn → ReadResult → Got
some_bytes c ReadResult.panicked = panicked
some_bytes c ReadResult.blocked = blocked
some_bytes c ReadResult.eof = eof
some_bytes c (ReadResult.took n out b) =
    got n out false (record c { recv_buf = b; window_size = c.window_size + n })

unfoldable pub v_read_in : State → List ℕ → Conn → Got
unfolding read window_size
v_read_in close_wait buf c =
    if window_size c.recv_buf == 0 then eof else last_bytes c (read c.recv_buf buf)
v_read_in last_ack buf c =
    if window_size c.recv_buf == 0 then eof else last_bytes c (read c.recv_buf buf)
v_read_in fin_wait_2 buf c = not_permitted
v_read_in fin_wait_1 buf c = not_permitted
v_read_in closing buf c = not_permitted
v_read_in closed buf c = some_bytes c (read c.recv_buf buf)
v_read_in listen buf c = some_bytes c (read c.recv_buf buf)
v_read_in syn_received buf c = some_bytes c (read c.recv_buf buf)
v_read_in syn_sent buf c = some_bytes c (read c.recv_buf buf)
v_read_in established buf c = some_bytes c (read c.recv_buf buf)
v_read_in time_wait buf c = some_bytes c (read c.recv_buf buf)

unfoldable pub v_read : List ℕ → Conn → Got
unfolding v_read_in
v_read buf c = v_read_in c.state buf c

abbrev pub fin_queued : ℕ → ℕ → TcpPacket → Step ⊤
fin_queued now seqs packet c = done tt (record (start_retrans_timer c) {
  inflight_q = c.inflight_q ++ in_flight now 0 packet ∷ [];
  snd_nxt = add32 c.snd_nxt seqs;
})

-- A FIN is sent and put on the retransmission queue; `seqs` is what it moves SND.NXT by.
abbrev pub send_fin : (TcpPacket → Bool) → ℕ → ℕ → State → Step ⊤
send_fin ip_send now seqs next c =
    (send_ctl ip_send c.snd_nxt c.expected_seq_num (tcp_flag_fin + tcp_flag_ack) >>= λ _.
    fin_queued now seqs (ctl_packet c c.snd_nxt c.expected_seq_num (tcp_flag_fin + tcp_flag_ack))
    >>= λ _. set_state next)
      c

-- The loop that spins until all bytes are sent, then the FIN.
abbrev pub when_sent : Step ⊤ → Step ⊤
when_sent m c = if num_bytes_not_sent c.send_buf c.snd_nxt == 0 then m c else stuck

unfoldable pub active_close_in : (TcpPacket → Bool) → ℕ → State → Step ⊤
unfolding delete_socket send_ctl ctl_packet set_state num_bytes_not_sent
active_close_in ip_send now syn_sent = delete_socket >>= λ _. fail
active_close_in ip_send now syn_received = λ c.
    if not (c.snd_nxt == add32 c.iss 1) && num_bytes_not_sent c.send_buf c.snd_nxt == 0
    then send_fin ip_send now 0 fin_wait_1 c
    else pass c
active_close_in ip_send now established = when_sent (send_fin ip_send now 1 fin_wait_1)
active_close_in ip_send now close_wait = when_sent (send_fin ip_send now 1 last_ack)
active_close_in ip_send now closed = fail
active_close_in ip_send now listen = fail
active_close_in ip_send now fin_wait_1 = fail
active_close_in ip_send now fin_wait_2 = fail
active_close_in ip_send now closing = fail
active_close_in ip_send now time_wait = fail
active_close_in ip_send now last_ack = fail

-- activeClose.
unfoldable pub active_close : (TcpPacket → Bool) → ℕ → Step ⊤
unfolding active_close_in
active_close ip_send now c = active_close_in ip_send now c.state c
