-- ===== src/Tcp/State/Diagram.antt =====
-- The state diagram that the state functions follow: the handshake, and all states together.
use gotcp.Prelude.{ℕ, ◌≡◌, ◌⊎◌, refl, Bool, ◌&&◌, List, ltb, leb, arith, Bool-cases, inl, inr}
use gotcp.Proto.Segment.{TcpPacket, is_ack, is_fin}
use gotcp.Tcp.Conn.{
  State, closed, listen, syn_received, syn_sent, established, fin_wait_1, fin_wait_2, closing,
  time_wait, close_wait, last_ack, Conn, sender_started, set_state, delete_socket, do_action,
  send_ctl, act,
}
use gotcp.Tcp.Segments.{handle_seq_num, handle_fin, send_ack}
use gotcp.Tcp.State.{
  text_part, syn_rcvd_part, fin_part, syn_acked, state_func_syn_rcvd, synchronized,
  state_func_syn_sent, state_func, state_machine,
}
use gotcp.Tcp.State.Keeps.{
  After, In, After-continue, handle_fin-In, handle_seq_num-In, text_part-In,
}
use gotcp.Tcp.State.Edges.{
  Edge, To, stays-In, then_To, state_func_established-To, state_func_close_wait-To,
  state_func_closing-To, state_func_last_ack-To, state_func_fin_wait_2-To, state_func_fin_wait_1-To,
  state_func_time_wait-To, stays, handshake_acked, opened_and_finished, handshake_dropped,
  syn_answered, syn_refused,
}

syn_acked-To :
    (ip_send : TcpPacket → Bool) (segment : TcpPacket) (bytes : List ℕ) (c : Conn)
    → In syn_received c
    → After (λ c'. In syn_received c' ⊎ In established c') (syn_acked ip_send segment bytes c)
unfolding do_action act
syn_acked-To ip_send segment bytes c p =
    elim (Bool-cases (ltb c.snd_una segment.ack_num && leb segment.ack_num c.snd_nxt)) [
      | inl e ↦ rw e (
          After-continue (In established) _ (text_part ip_send bytes _)
            (λ _. do_action sender_started) (λ c' q. inr q) (λ _ c' q. inr q)
            (text_part-In ip_send bytes established _ refl))
      | inr e ↦ rw e (inl p)
    ]

state_func_syn_rcvd-To :
    (ip_send : TcpPacket → Bool) (segment : TcpPacket) (c : Conn)
    → In syn_received c
    → After (To syn_received) (state_func_syn_rcvd ip_send segment c)
unfolding state_func_syn_rcvd delete_socket set_state
state_func_syn_rcvd-To ip_send segment c h =
    then_To (handle_seq_num ip_send segment) _ c (handle_seq_num-In ip_send segment _ c h) acks
  where
    reached : (c' : Conn) → In syn_received c' ⊎ In established c' → To syn_received c'
    reached c' (inl q) = rw q stays
    reached c' (inr q) = rw q handshake_acked

    fin_from :
        (s : State) (c' : Conn)
        → In s c'
        → Edge syn_received s
        → After (To syn_received) (fin_part ip_send segment c')
    fin_from s c' q e' = elim (Bool-cases (is_fin segment)) [
      | inl e ↦ rw e (
          After-continue (In s) _ (handle_fin ip_send segment c') _ (λ c'' q'. rw q' e')
            (λ _ c'' _. opened_and_finished) (handle_fin-In ip_send segment s c' q))
      | inr e ↦ rw (e, q) e'
    ]

    fins :
        (c' : Conn)
        → In syn_received c' ⊎ In established c'
        → After (To syn_received) (fin_part ip_send segment c')
    fins c' (inl q) = fin_from syn_received c' q stays
    fins c' (inr q) = fin_from established c' q handshake_acked

    dropped : (c' : Conn) → After (To syn_received) (delete_socket c')
    dropped c' = elim (Bool-cases c'.bound) [ inl e ↦ rw e handshake_dropped | inr e ↦ rw e tt ]

    acks :
        (bytes : List ℕ) (c' : Conn)
        → In syn_received c'
        → After (To syn_received) (syn_rcvd_part ip_send segment bytes c')
    acks bytes c' p = elim (Bool-cases (is_ack segment)) [
      | inr e ↦ rw e (dropped c')
      | inl e ↦ rw e (
          After-continue _ (To syn_received) (syn_acked ip_send segment bytes c') _ reached
            (λ _. fins) (syn_acked-To ip_send segment bytes c' p))
    ]

state_func_syn_sent-To :
    (ip_send : TcpPacket → Bool) (packet : TcpPacket) (c : Conn)
    → In syn_sent c
    → After (To syn_sent) (state_func_syn_sent ip_send packet c)
unfolding state_func_syn_sent delete_socket synchronized send_ack send_ctl act do_action
state_func_syn_sent-To ip_send packet c h = ground (arith, h, syn_refused, syn_answered)

-- Whatever segment arrives and however the network fares, a state function that ends leaves the
-- connection in a state to which the diagram has an arrow from the state before: no other
-- transition exists, and CLOSED and LISTEN are never left.
pub state_machine-follows :
    (ip_send : TcpPacket → Bool)
    → (now : ℕ) → (segment : TcpPacket) → (c : Conn)
    → After (λ c'. Edge c.state c'.state) (state_machine ip_send now segment c)
unfolding state_machine state_func
state_machine-follows ip_send now segment c = go c.state refl
  where
    go : (s : State) → c.state ≡ s → After (To s) (state_func s ip_send now segment c)
    go closed h = stays-In _ c h
    go listen h = stays-In _ c h
    go syn_received h = state_func_syn_rcvd-To ip_send segment c h
    go syn_sent h = state_func_syn_sent-To ip_send segment c h
    go established h = state_func_established-To ip_send now segment c h
    go fin_wait_1 h = state_func_fin_wait_1-To ip_send now segment c h
    go fin_wait_2 h = state_func_fin_wait_2-To ip_send now segment c h
    go closing h = state_func_closing-To ip_send now segment c h
    go time_wait h = state_func_time_wait-To ip_send now segment c h
    go close_wait h = state_func_close_wait-To ip_send now segment c h
    go last_ack h = state_func_last_ack-To ip_send now segment c h
