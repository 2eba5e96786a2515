-- ===== src/Tcp/Sender/Fresh.antt =====
-- sendBufferedData with the peer's window open: which bytes a packet carries.
use gotcp.Prelude.{
  ℕ, max, ◌⊎◌, ◌+◌, ◌-◌, ◌≤◌, ◌<◌, ◌≡◌, ◌%◌, Bool, true, false, List, [], ◌∷◌, ◌++◌, length, take,
  drop,
}
use gotcp.Prelude.Words.{u32_mod}
use gotcp.Proto.Segment.{TcpPacket, tcp_flag_ack, mss}
use gotcp.Tcp.SendBuf.Inv.{IsValid, dist, contents}
use gotcp.Tcp.SendBuf.Send.{sendable}
use gotcp.Tcp.Conn.{Conn, sent, Outcome, panicked, stuck, running, failed, done, ⊤}

-- The bytes that a packet may take now, of those written and not yet acknowledged.
abbrev pub next_bytes : Conn → List ℕ
next_bytes c =
    let b = c.send_buf in
    take (sendable b c.snd_una c.snd_wnd c.snd_nxt mss)
      (drop (dist b c.snd_nxt - dist b c.snd_una) (contents b c.snd_una))

-- SND.NXT lies between SND.UNA and the last byte written.
pub record Sending (c : Conn) : Type 0 where
  pub valid : IsValid c.send_buf c.snd_una
  pub nxt_lt : c.snd_nxt < u32_mod
  pub after_una : dist c.send_buf c.snd_una ≤ dist c.send_buf c.snd_nxt
  pub before_lbw : dist c.send_buf c.snd_nxt ≤ dist c.send_buf c.send_buf.lbw
  pub no_wrap : c.snd_una + c.snd_wnd < u32_mod

-- The segment with the bytes, from SND.NXT on, and with the acknowledgement and the window of now.
abbrev pub next_packet : Conn → List ℕ → TcpPacket
next_packet c bytes = record {
  src_port = c.local_port;
  dst_port = c.remote_port;
  seq_num = c.snd_nxt;
  ack_num = c.expected_seq_num;
  data_offset = 20;
  flags = tcp_flag_ack;
  window_size = c.window_size % 65536;
  checksum = 0;
  urgent_pointer = 0;
  payload = bytes;
}

-- What a turn does that has `bytes` to send, in the packet `p`.
abbrev pub PacketSpec : (TcpPacket → Bool) → ℕ → Conn → List ℕ → TcpPacket → Outcome ⊤ → Type 0
PacketSpec ip_send now c bytes p panicked = ⊥
PacketSpec ip_send now c bytes p stuck = ⊥
PacketSpec ip_send now c bytes p running = ⊥
PacketSpec ip_send now c bytes p (failed c') =
    (0 < length bytes)
    × (ip_send (p) ≡ false)
    × (c'.snd_nxt ≡ c.snd_nxt)
    × (c'.inflight_q ≡ c.inflight_q)
    × (c'.actions ≡ c.actions)
PacketSpec ip_send now c bytes p (done _ c') =
    (c'.snd_nxt ≡ c.snd_nxt + length bytes)
    × (length bytes ≤ mss)
    × (c.snd_nxt + length bytes ≤ max c.snd_nxt (c.snd_una + c.snd_wnd))
    × ((length bytes ≡ 0) × (c'.inflight_q ≡ c.inflight_q) × (c'.actions ≡ c.actions)
        ⊎ (ip_send (p) ≡ true)
          × (c'.inflight_q
              ≡ c.inflight_q
                ++ record { time_sent = now; span = length bytes; counter = 0; packet = p } ∷ [])
          × (c'.actions ≡ sent (p) ∷ c.actions))

abbrev pub FreshSpec : (TcpPacket → Bool) → ℕ → Conn → List ℕ → Outcome ⊤ → Type 0
FreshSpec ip_send now c bytes = PacketSpec ip_send now c bytes (next_packet c bytes)
