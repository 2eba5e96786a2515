-- ===== src/Tcp/Segments.antt =====
-- pkg/tcpstack/state_internal.go and ackInflight of retransmission.go: the parts of a segment, as
-- the state functions handle them.
mod Acceptable
mod Acks
mod Tests
use gotcp.Prelude.{
  ℕ, ◌+◌, ◌-◌, min, Bool, true, false, ◌&&◌, ◌||◌, not, List, [], ◌∷◌, Option, none, some, ltb, leb,
  ◌==◌, if◌then◌else◌, length, slice,
}
use gotcp.Prelude.Words.{add32, sub32, u16}
use gotcp.Proto.Segment.{TcpPacket, tcp_flag_ack}
use gotcp.Tcp.Early.{Item, PriorityQueue, Aggregated, push, aggregate_early_arrivals}
use gotcp.Tcp.RecvBuf.{RecvBuf, buffer_capacity, advance_nxt}
use gotcp.Tcp.Conn.{
  ⊤, Conn, InFlight, Action, measured, Outcome, panicked, stuck, running, failed, done, Step, ◌>>=◌,
  attempt, fail, pass, send_ctl, reset_retrans_timer, stop_retrans_timer, act,
}

unfoldable pub is_valid_seg : TcpPacket → Conn → Bool
is_valid_seg segment c =
    let seg_len = length segment.payload in
    let seg_seq = segment.seq_num in
    let rcv_wnd = c.window_size in
    let rcv_nxt = c.expected_seq_num in
    let last = sub32 (add32 seg_seq seg_len) 1 in
    let cond1 = leb rcv_nxt seg_seq && ltb seg_seq (add32 rcv_nxt rcv_wnd) in
    let cond2 = leb rcv_nxt last && ltb last (add32 rcv_nxt rcv_wnd) in
    if seg_len == 0 && rcv_wnd == 0
    then seg_seq == rcv_nxt
    else if seg_len == 0
    then cond1
    else if rcv_wnd == 0
    then false
    else cond1 || cond2

-- What an acceptable segment leaves to be written: none when it came early.
abbrev pub trimmed : TcpPacket → Conn → Option (List ℕ)
trimmed segment c =
    let start =
      if ltb segment.seq_num c.expected_seq_num
      then sub32 c.expected_seq_num segment.seq_num
      else 0 in
    slice segment.payload start (min (length segment.payload) c.window_size)

abbrev pub merged_into : Conn → Aggregated → Outcome (List ℕ)
merged_into c Aggregated.panicked = panicked
merged_into c Aggregated.running = running
merged_into c (Aggregated.merged bytes q) = done bytes (record c { early_arrival_q = q })

abbrev pub aggregate_from : TcpPacket → Conn → Option (List ℕ) → Outcome (List ℕ)
aggregate_from segment c none = panicked
aggregate_from segment c (some bytes) = merged_into c (
    aggregate_early_arrivals c.window_size c.early_arrival_q bytes
      (add32 segment.seq_num (length bytes)))

-- The answer with the current SND.NXT, RCV.NXT and window.
unfoldable pub send_ack : (TcpPacket → Bool) → Step ⊤
unfolding send_ctl
send_ack ip_send c = send_ctl ip_send c.snd_nxt c.expected_seq_num tcp_flag_ack c

-- handleSeqNum, with the bytes that it returns. Their number is returned beside them.
unfoldable pub handle_seq_num : (TcpPacket → Bool) → TcpPacket → Step (List ℕ)
unfolding send_ack is_valid_seg aggregate_early_arrivals
handle_seq_num ip_send segment c =
    let early = record c {
      early_arrival_q =
          push c.early_arrival_q (record { value = segment; priority = segment.seq_num });
    } in
    if not (is_valid_seg segment c)
    then (attempt (send_ack ip_send) >>= λ _. fail) c
    else if ltb c.expected_seq_num segment.seq_num
    then (attempt (send_ack ip_send) >>= λ _. done []) early
    else aggregate_from segment c (trimmed segment c)

-- ackInflight: the acknowledged packets leave the front of the queue. A round trip is measured up
-- to the first one that was sent again.
unfoldable pub still_in_flight : ℕ → List InFlight → List InFlight
still_in_flight ack_num [] = []
still_in_flight ack_num (meta ∷ q) =
    let rest = still_in_flight ack_num q in
    if ltb ack_num (add32 meta.packet.seq_num meta.span) then meta ∷ q else rest

unfoldable pub measure : ℕ → ℕ → Bool → List InFlight → List Action → List Action
measure now ack_num ack_retransmit [] out = out
measure now ack_num ack_retransmit (meta ∷ q) out =
    let resent = ack_retransmit || not (meta.counter == 0) in
    let again = measure now ack_num true q out in
    let fresh = measure now ack_num false q (measured (now - meta.time_sent) ∷ out) in
    if ltb ack_num (add32 meta.packet.seq_num meta.span)
    then out
    else if resent
    then again
    else fresh

unfoldable pub ack_inflight : ℕ → ℕ → Step ⊤
unfolding still_in_flight measure stop_retrans_timer
ack_inflight now ack_num c =
    let c' = record c {
      inflight_q = still_in_flight ack_num c.inflight_q;
      actions = measure now ack_num false c.inflight_q c.actions;
    } in
    if length c'.inflight_q == 0 then stop_retrans_timer c' else done tt c'

-- The acknowledged bytes free the send buffer, and a waiting writer is told so.
unfoldable pub acked : TcpPacket → Step ⊤
acked segment c =
    if c.send_buf.freespace == c.send_buf.capacity
    then stuck
    else done tt (record c {
      snd_una = segment.ack_num;
      snd_wnd = segment.window_size;
      send_buf = record (c.send_buf) { freespace = c.send_buf.freespace + 1 };
    })

unfoldable pub handle_ack : (TcpPacket → Bool) → ℕ → TcpPacket → Step ⊤
unfolding send_ack acked ack_inflight reset_retrans_timer
handle_ack ip_send now segment c =
    let seg_ack = segment.ack_num in
    if ltb seg_ack (sub32 c.snd_una buffer_capacity) || ltb c.snd_nxt seg_ack
    then (attempt (send_ack ip_send) >>= λ _. fail) c
    else if ltb c.snd_una seg_ack && leb seg_ack c.snd_nxt
    then (acked segment >>= λ _. reset_retrans_timer >>= λ _. ack_inflight now seg_ack) c
    else if c.snd_una == seg_ack
    then reset_retrans_timer (record c { snd_wnd = segment.window_size })
    else if ltb c.snd_nxt seg_ack
    then (attempt (send_ack ip_send) >>= λ _. fail) c
    else pass c

-- handleSegText: the bytes go into the receive buffer, and the answer tells how far they reach and
-- how much room is left.
abbrev pub received : (TcpPacket → Bool) → Conn → gotcp.Tcp.RecvBuf.WriteResult → Outcome ⊤
received ip_send c gotcp.Tcp.RecvBuf.WriteResult.panicked = panicked
received ip_send c gotcp.Tcp.RecvBuf.WriteResult.stuck = stuck
received ip_send c gotcp.Tcp.RecvBuf.WriteResult.full = failed c
received ip_send c (gotcp.Tcp.RecvBuf.WriteResult.wrote n b) = send_ack ip_send (record c {
  recv_buf = b;
  expected_seq_num = add32 c.expected_seq_num n;
  window_size = min buffer_capacity (gotcp.Tcp.RecvBuf.free_space b);
})

unfoldable pub handle_seg_text : (TcpPacket → Bool) → List ℕ → Step ⊤
unfolding send_ack gotcp.Tcp.RecvBuf.write gotcp.Tcp.RecvBuf.free_space
handle_seg_text ip_send bytes c = received ip_send c (gotcp.Tcp.RecvBuf.write c.recv_buf bytes)

unfoldable pub handle_fin : (TcpPacket → Bool) → TcpPacket → Step ⊤
unfolding send_ack advance_nxt
handle_fin ip_send segment c = send_ack ip_send (record c {
  recv_buf = advance_nxt c.recv_buf segment.seq_num true;
  expected_seq_num = add32 c.expected_seq_num 1;
})
