-- ===== src/Tcp/Segments/Acks.antt =====
-- ackInflight and handleAck: what an acknowledgement takes off the retransmission queue, and what it
-- does to SND.UNA.

use gotcp.Prelude.{
  ℕ, ◌+◌, ◌≤◌, ◌<◌, ◌≡◌, ◌⊎◌, inl, inr, refl, sym, subst, ap, Bool, false, List, [], ◌∷◌, ◌++◌,
  arith, ltb, Bool-cases,
}
use gotcp.Prelude.Words.{u32_mod, add32}
use gotcp.Proto.Segment.{TcpPacket}
use gotcp.Tcp.RecvBuf.{buffer_capacity}
use gotcp.Tcp.Conn.{
  ⊤, Conn, InFlight, Outcome, panicked, stuck, running, failed, done, send_ctl, reset_retrans_timer,
  stop_retrans_timer, drained, act,
}
use gotcp.Tcp.Segments.{still_in_flight, handle_ack, ack_inflight, acked, send_ack}

-- The step ends with an error or a value, and the connection after it has the property.
abbrev pub Leaves : (Conn → Type 0) → Outcome ⊤ → Type 0
Leaves P panicked = ⊥
Leaves P stuck = ⊥
Leaves P running = ⊥
Leaves P (failed c) = P c
Leaves P (done _ c) = P c

abbrev pub AllAcked : ℕ → List InFlight → Type 0
AllAcked ack_num [] = Unit
AllAcked ack_num (meta ∷ q) = (add32 meta.packet.seq_num meta.span ≤ ack_num) × AllAcked ack_num q

abbrev pub HeadInFlight : ℕ → List InFlight → Type 0
HeadInFlight ack_num [] = Unit
HeadInFlight ack_num (meta ∷ q) = ack_num < add32 meta.packet.seq_num meta.span

abbrev pub AckedPrefix : ℕ → List InFlight → List InFlight → List InFlight → Type 0
AckedPrefix ack_num q rest front =
    (q ≡ front ++ rest) × AllAcked ack_num front × HeadInFlight ack_num rest

-- ackInflight takes off exactly the longest prefix of the queue whose packets all end at or below
-- the acknowledgement: what it leaves is a rest of the queue whose first packet, if there is one,
-- reaches beyond it.
pub still_in_flight_lem :
    (ack_num : ℕ)
    → (q : List InFlight)
    → (front : List InFlight) × AckedPrefix ack_num q (still_in_flight ack_num q) front
unfolding still_in_flight
still_in_flight_lem ack_num [] = ([], (refl, tt, tt))
still_in_flight_lem ack_num (meta ∷ q) =
    let ih = still_in_flight_lem ack_num q in
    elim (Bool-cases (ltb ack_num (add32 meta.packet.seq_num meta.span))) [
      | inl e ↦ rw e ([], (refl, tt, ground (arith, e)))
      | inr e ↦ rw e (meta ∷ ih.0, (ap (λ l. meta ∷ l) ih.1.0, (ground (arith, e), ih.1.1), ih.1.2))
    ]

-- The acknowledgement is not of anything sent and not yet acknowledged, or it is below the code's lower
-- bound, SND.UNA - 65535, where that wraps below zero.
abbrev pub NothingNew : ℕ → Conn → Type 0
NothingNew ack_num c =
    ((c.snd_una < 65535) × (ack_num + 65535 < 4294967296 + c.snd_una))
    ⊎ (ack_num ≤ c.snd_una)
    ⊎ (c.snd_nxt < ack_num)

abbrev pub Advanced : TcpPacket → Conn → Conn → Type 0
Advanced segment c c' =
    ((65535 ≤ c.snd_una) ⊎ (4294967296 + c.snd_una ≤ segment.ack_num + 65535))
    × (c.snd_una < segment.ack_num)
    × (segment.ack_num ≤ c.snd_nxt)
    × (c'.snd_una ≡ segment.ack_num)
    × (c'.snd_wnd ≡ segment.window_size)

abbrev pub AckSpec : TcpPacket → Conn → Conn → Type 0
AckSpec segment c c' =
    (NothingNew segment.ack_num c × (c'.snd_una ≡ c.snd_una) × (c'.inflight_q ≡ c.inflight_q)
      ⊎ Advanced segment c c'
        × (front : List InFlight) × AckedPrefix segment.ack_num c.inflight_q c'.inflight_q front)
    × (c'.snd_nxt ≡ c.snd_nxt)
    × (c'.state ≡ c.state)

-- The same, with what the code leaves in the queue.
abbrev CodeSpec : TcpPacket → Conn → Conn → Type 0
CodeSpec segment c c' =
    (NothingNew segment.ack_num c × (c'.snd_una ≡ c.snd_una) × (c'.inflight_q ≡ c.inflight_q)
      ⊎ Advanced segment c c' × (c'.inflight_q ≡ still_in_flight segment.ack_num c.inflight_q))
    × (c'.snd_nxt ≡ c.snd_nxt)
    × (c'.state ≡ c.state)

handle_ack-CodeSpec :
    (ip_send : TcpPacket → Bool) (now : ℕ) (segment : TcpPacket) (c : Conn)
    → c.snd_una ≤ c.snd_nxt
    → c.snd_nxt < u32_mod
    → c.send_buf.freespace < c.send_buf.capacity
    → drained c ≡ false
    → Leaves (CodeSpec segment c) (handle_ack ip_send now segment c)
unfolding handle_ack send_ack acked ack_inflight reset_retrans_timer stop_retrans_timer send_ctl act
handle_ack-CodeSpec ip_send now segment c h lt room free = ground arith

CodeSpec-AckSpec :
    (segment : TcpPacket) (c c' : Conn) → CodeSpec segment c c' → AckSpec segment c c'
CodeSpec-AckSpec segment c c' (inl p, q, r) = (inl p, q, r)
CodeSpec-AckSpec segment c c' (inr (a, e), q, r) =
    let left = still_in_flight_lem segment.ack_num c.inflight_q in
    (
      inr (
        a,
        left.0,
        subst (λ l. AckedPrefix segment.ack_num c.inflight_q l left.0) (sym e) left.1,
      ),
      q,
      r,
    )

Leaves-weaken :
    (P Q : Conn → Type 0) (o : Outcome ⊤) → ((c : Conn) → P c → Q c) → Leaves P o → Leaves Q o
Leaves-weaken P Q panicked w h = h
Leaves-weaken P Q stuck w h = h
Leaves-weaken P Q running w h = h
Leaves-weaken P Q (failed c) w h = w c h
Leaves-weaken P Q (done _ c) w h = w c h

-- handleAck never panics or waits on a connection with SND.UNA at most SND.NXT, below 2 ^ 32, whose
-- channel for free space has room for a signal, unless handleRTO has taken an expiry of a running
-- timer. If the acknowledgement is above SND.UNA and at most SND.NXT, and SND.UNA is at least 65535 or
-- the acknowledgement at least 2 ^ 32 - 65535 + SND.UNA, then SND.UNA moves to it, the window is the
-- segment's, and the longest prefix of the retransmission queue whose packets all end at or below
-- the acknowledgement is taken off, and no other packet. Else SND.UNA and the queue stay. SND.NXT
-- and the state do not change.
pub handle_ack-AckSpec :
    (ip_send : TcpPacket → Bool)
    → (now : ℕ) → (segment : TcpPacket) → (c : Conn) → c.snd_una ≤ c.snd_nxt
    → c.snd_nxt < u32_mod
    → c.send_buf.freespace < c.send_buf.capacity
    → drained c ≡ false
    → Leaves (AckSpec segment c) (handle_ack ip_send now segment c)
handle_ack-AckSpec ip_send now segment c h lt room free =
    Leaves-weaken _ _ _ (CodeSpec-AckSpec segment c)
      (handle_ack-CodeSpec ip_send now segment c h lt room free)

-- The step ends with an error, and the connection after it has the property.
abbrev pub Refused : (Conn → Type 0) → Outcome ⊤ → Type 0
Refused P panicked = ⊥
Refused P stuck = ⊥
Refused P running = ⊥
Refused P (failed c) = P c
Refused P (done _ c) = ⊥

-- While SND.UNA is below the buffer's capacity, the lower bound that handleAck computes wraps below
-- zero: it refuses every acknowledgement under 2 ^ 32 - 65535 + SND.UNA, and SND.UNA and the
-- retransmission queue stay as they are.
pub handle_ack_low :
    (ip_send : TcpPacket → Bool)
    → (now : ℕ) → (segment : TcpPacket) → (c : Conn) → c.snd_una < buffer_capacity
    → segment.ack_num + buffer_capacity < u32_mod + c.snd_una
    → Refused
        (λ c'. (c'.snd_una ≡ c.snd_una) × (c'.inflight_q ≡ c.inflight_q))
        (handle_ack ip_send now segment c)
unfolding handle_ack send_ack send_ctl act
handle_ack_low ip_send now segment c h low = ground arith
