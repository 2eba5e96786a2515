-- ===== src/Tcp/State.antt =====
-- pkg/tcpstack/state.go: the function of each state on an arriving segment, the dispatch on the
-- state, and the CLOSE call. The network, the clock and the goroutines that are started stand as in
-- `Conn`; an error is logged and ends the function.
mod Keeps
mod Edges
mod Diagram
pub mod Delivery
mod Tests
use gotcp.Prelude.{
  ℕ, ◌+◌, Bool, true, false, ◌&&◌, not, List, [], ◌∷◌, ◌++◌, ltb, leb, ◌==◌, if◌then◌else◌, length,
}
use gotcp.Prelude.Words.{add32}
use gotcp.Proto.Segment.{TcpPacket, is_ack, is_syn, is_fin, tcp_flag_ack, tcp_flag_fin}
use gotcp.Tcp.RecvBuf.{RecvBuf, advance_nxt, set_lbr}
use gotcp.Tcp.SendBuf.{num_bytes_not_sent}
use gotcp.Tcp.Conn.{
  ⊤, State, closed, listen, syn_received, syn_sent, established, fin_wait_1, fin_wait_2, closing,
  time_wait, close_wait, last_ack, Conn, InFlight, Action, sent, sender_started, time_wait_started,
  time_wait_reset, Outcome, panicked, stuck, failed, done, continue, Step, ◌>>=◌, pass, fail,
  set_state, delete_socket, do_action, send_ctl, ctl_packet, reset_retrans_timer,
}
use gotcp.Tcp.Segments.{handle_seq_num, handle_ack, handle_seg_text, handle_fin, send_ack}

abbrev text_part : (TcpPacket → Bool) → List ℕ → Step ⊤
text_part ip_send bytes = if length bytes == 0 then pass else handle_seg_text ip_send bytes

abbrev ack_part : (TcpPacket → Bool) → ℕ → TcpPacket → Step ⊤
ack_part ip_send now segment = if not (is_ack segment) then fail else handle_ack ip_send now segment

-- The part that every state from ESTABLISHED on starts with.
unfoldable pub checked : (TcpPacket → Bool) → ℕ → TcpPacket → Step (List ℕ)
unfolding handle_seq_num is_ack handle_ack
checked ip_send now segment =
    handle_seq_num ip_send segment >>= λ bytes. ack_part ip_send now segment >>= λ _. done bytes

abbrev enter_time_wait : Step ⊤
enter_time_wait = set_state time_wait >>= λ _. do_action time_wait_started

abbrev fin_part : (TcpPacket → Bool) → TcpPacket → Step ⊤
fin_part ip_send segment =
    if is_fin segment then (handle_fin ip_send segment >>= λ _. set_state close_wait) else pass

abbrev establish : TcpPacket → Step ⊤
establish segment c =
    done tt
      (record c { state = established; snd_wnd = segment.window_size; snd_una = segment.ack_num })

abbrev syn_acked : (TcpPacket → Bool) → TcpPacket → List ℕ → Step ⊤
syn_acked ip_send segment bytes c =
    if ltb c.snd_una segment.ack_num && leb segment.ack_num c.snd_nxt
    then (establish segment >>= λ _. text_part ip_send bytes >>= λ _. do_action sender_started) c
    else pass c

abbrev syn_rcvd_part : (TcpPacket → Bool) → TcpPacket → List ℕ → Step ⊤
syn_rcvd_part ip_send segment bytes =
    if not (is_ack segment)
    then delete_socket
    else (syn_acked ip_send segment bytes >>= λ _. fin_part ip_send segment)

unfoldable pub state_func_syn_rcvd : (TcpPacket → Bool) → TcpPacket → Step ⊤
unfolding handle_seq_num is_ack is_fin delete_socket handle_seg_text handle_fin set_state do_action
state_func_syn_rcvd ip_send segment =
    handle_seq_num ip_send segment >>= λ bytes. syn_rcvd_part ip_send segment bytes

-- What SYN-SENT stores of a segment before it looks at its acknowledgement.
unfoldable pub synchronized : TcpPacket → Conn → Conn
unfolding advance_nxt set_lbr
synchronized packet c = record c {
  expected_seq_num = add32 packet.seq_num 1;
  recv_buf = set_lbr (advance_nxt c.recv_buf packet.seq_num false) packet.seq_num;
  irs = packet.seq_num;
  snd_una = packet.ack_num;
}

abbrev or_delete : Outcome ⊤ → Outcome ⊤
or_delete (failed c) = delete_socket c
or_delete (done _ c) = do_action sender_started c
or_delete o = o

abbrev syn_sent_acked : (TcpPacket → Bool) → TcpPacket → Step ⊤
syn_sent_acked ip_send packet c =
    if ltb c.iss c.snd_una
    then or_delete
        (send_ack ip_send (record c { state = established; snd_wnd = packet.window_size }))
    else delete_socket c

unfoldable pub state_func_syn_sent : (TcpPacket → Bool) → TcpPacket → Step ⊤
unfolding is_ack is_syn synchronized delete_socket send_ack do_action
state_func_syn_sent ip_send packet c =
    if not (is_ack packet) && not (is_syn packet)
    then delete_socket c
    else if leb packet.ack_num c.snd_una && ltb c.snd_nxt packet.ack_num
    then delete_socket c
    else syn_sent_acked ip_send packet (synchronized packet c)

unfoldable pub state_func_established : (TcpPacket → Bool) → ℕ → TcpPacket → Step ⊤
unfolding checked is_fin handle_seg_text handle_fin set_state
state_func_established ip_send now segment = checked ip_send now segment >>= λ bytes.
    text_part ip_send bytes >>= λ _. fin_part ip_send segment

abbrev peer_fin : TcpPacket → Step ⊤
peer_fin segment = if is_fin segment then set_state closing else pass

abbrev closing_part : (TcpPacket → Bool) → TcpPacket → List ℕ → Step ⊤
closing_part ip_send segment bytes = peer_fin segment >>= λ _. text_part ip_send bytes

abbrev fin_acked : (TcpPacket → Bool) → TcpPacket → List ℕ → Step ⊤
fin_acked ip_send segment bytes c =
    if segment.ack_num == c.snd_nxt
    then (if is_fin segment
        then enter_time_wait c
        else (set_state fin_wait_2 >>= λ _. closing_part ip_send segment bytes) c)
    else closing_part ip_send segment bytes c

unfoldable pub state_func_fin_wait_1 : (TcpPacket → Bool) → ℕ → TcpPacket → Step ⊤
unfolding checked is_fin set_state do_action handle_seg_text
state_func_fin_wait_1 ip_send now segment =
    checked ip_send now segment >>= λ bytes. fin_acked ip_send segment bytes

abbrev ack_fin : (TcpPacket → Bool) → TcpPacket → Step ⊤
ack_fin ip_send segment c =
    if length c.inflight_q == 0 && is_fin segment
    then send_ack ip_send (record c { expected_seq_num = add32 segment.seq_num 1 })
    else pass c

abbrev last_fin : TcpPacket → Step ⊤
last_fin segment = if is_fin segment then enter_time_wait else pass

unfoldable pub state_func_fin_wait_2 : (TcpPacket → Bool) → ℕ → TcpPacket → Step ⊤
unfolding checked is_fin set_state do_action handle_seg_text send_ack
state_func_fin_wait_2 ip_send now segment = checked ip_send now segment >>= λ bytes.
    ack_fin ip_send segment >>= λ _. text_part ip_send bytes >>= λ _. last_fin segment

unfoldable pub state_func_close_wait : (TcpPacket → Bool) → ℕ → TcpPacket → Step ⊤
unfolding checked
state_func_close_wait ip_send now segment = checked ip_send now segment >>= λ _. pass

abbrev when_fin_acked : TcpPacket → Step ⊤ → Step ⊤
when_fin_acked segment m c = if not (c.snd_nxt == segment.ack_num) then pass c else m c

unfoldable pub state_func_closing : (TcpPacket → Bool) → ℕ → TcpPacket → Step ⊤
unfolding checked set_state do_action
state_func_closing ip_send now segment =
    checked ip_send now segment >>= λ _. when_fin_acked segment enter_time_wait

unfoldable pub state_func_last_ack : (TcpPacket → Bool) → ℕ → TcpPacket → Step ⊤
unfolding checked set_state delete_socket
state_func_last_ack ip_send now segment = checked ip_send now segment >>= λ _.
    when_fin_acked segment (set_state closed >>= λ _. delete_socket)

abbrev ack_again : (TcpPacket → Bool) → TcpPacket → Step ⊤
ack_again ip_send segment c =
    (send_ack ip_send >>= λ _. do_action time_wait_reset)
      (record c { expected_seq_num = add32 segment.seq_num 1 })

unfoldable pub state_func_time_wait : (TcpPacket → Bool) → ℕ → TcpPacket → Step ⊤
unfolding checked send_ack do_action
state_func_time_wait ip_send now segment =
    checked ip_send now segment >>= λ _. ack_again ip_send segment

-- stateMachine.
unfoldable pub state_func : State → (TcpPacket → Bool) → ℕ → TcpPacket → Step ⊤
unfolding state_func_syn_rcvd state_func_syn_sent state_func_established state_func_fin_wait_1
    state_func_fin_wait_2 state_func_closing state_func_time_wait state_func_close_wait
    state_func_last_ack
state_func closed ip_send now segment = pass
state_func listen ip_send now segment = pass
state_func syn_received ip_send now segment = state_func_syn_rcvd ip_send segment
state_func syn_sent ip_send now segment = state_func_syn_sent ip_send segment
state_func established ip_send now segment = state_func_established ip_send now segment
state_func fin_wait_1 ip_send now segment = state_func_fin_wait_1 ip_send now segment
state_func fin_wait_2 ip_send now segment = state_func_fin_wait_2 ip_send now segment
state_func closing ip_send now segment = state_func_closing ip_send now segment
state_func time_wait ip_send now segment = state_func_time_wait ip_send now segment
state_func close_wait ip_send now segment = state_func_close_wait ip_send now segment
state_func last_ack ip_send now segment = state_func_last_ack ip_send now segment

unfoldable pub state_machine : (TcpPacket → Bool) → ℕ → TcpPacket → Step ⊤
unfolding state_func
state_machine ip_send now segment c = state_func c.state ip_send now segment c
