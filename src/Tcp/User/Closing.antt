-- ===== src/Tcp/User/Closing.antt =====
-- CLOSE in every state: which transitions it makes, and that no FIN overtakes bytes not yet sent.
use gotcp.Prelude.{◌+◌, ◌<◌, ◌≡◌, ◌⊎◌, false, ◌∷◌}
use gotcp.Proto.Segment.{TcpPacket, tcp_flag_ack, tcp_flag_fin}
use gotcp.Tcp.SendBuf.{num_bytes_not_sent}
use gotcp.Tcp.Conn.{
  ⊤, State, syn_received, established, fin_wait_1, close_wait, last_ack, Conn, sent, Outcome,
  panicked, stuck, running, failed, done, ctl_packet,
}

-- The transitions of CLOSE that send a FIN.
pub data CloseEdge : State → State → Type 0 where
  opening_closed : CloseEdge syn_received fin_wait_1
  active_closed : CloseEdge established fin_wait_1
  passive_closed : CloseEdge close_wait last_ack

abbrev fin_of : Conn → TcpPacket
fin_of c = ctl_packet c c.snd_nxt c.expected_seq_num (tcp_flag_fin + tcp_flag_ack)

abbrev pub CloseSpec : State → Conn → Outcome ⊤ → Type 0
CloseSpec s c panicked = c.bound ≡ false
CloseSpec s c stuck = 0 < num_bytes_not_sent c.send_buf c.snd_nxt
CloseSpec s c running = ⊥
CloseSpec s c (failed c') = (c'.actions ≡ c.actions) × (c'.snd_nxt ≡ c.snd_nxt)
CloseSpec s c (done _ c') =
    ((c'.state ≡ c.state) × (c'.actions ≡ c.actions) × (c'.inflight_q ≡ c.inflight_q))
    ⊎ (CloseEdge s c'.state
        × (num_bytes_not_sent c.send_buf c.snd_nxt ≡ 0)
        × (c'.actions ≡ sent (fin_of c) ∷ c.actions))
