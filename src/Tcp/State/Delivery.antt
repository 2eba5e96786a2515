-- ===== src/Tcp/State/Delivery.antt =====
-- The receiving side of a connection: RCV.NXT and the advertised window stand for the receive
-- buffer, and a segment in order is delivered.
use gotcp.Prelude.{
  ℕ, ◌+◌, ◌-◌, ◌≤◌, ◌<◌, ◌≡◌, refl, ap, ◌∙◌, inl, inr, Bool, true, false, List, [], ◌++◌, some,
  arith, ltb, ◌==◌, length, take, take_all, Bool-cases,
}
use gotcp.Prelude.Words.{u32_mod}
use gotcp.Proto.Segment.{TcpPacket, is_ack, is_fin, is_syn}
use gotcp.Tcp.RecvBuf.{RecvBuf, buffer_capacity, write, free_space}
use gotcp.Tcp.RecvBuf.Inv.{IsValid, used, contents}
use gotcp.Tcp.RecvBuf.Counts.{free_space-add-used}
use gotcp.Tcp.RecvBuf.Write.{WriteSpec, write-WriteSpec}
use gotcp.Tcp.Early.{aggregate_early_arrivals}
use gotcp.Tcp.Conn.{
  ⊤, State, established, Conn, InFlight, Outcome, panicked, stuck, running, failed, done, continue,
  Step, ◌>>=◌, pass, fail, send_ctl, act, attempt, logged, reset_retrans_timer, stop_retrans_timer,
  drained,
}
use gotcp.Tcp.Segments.{
  handle_seq_num, handle_ack, handle_seg_text, send_ack, acked, ack_inflight, received,
  is_valid_seg, trimmed,
}
use gotcp.Tcp.State.{state_func_established, checked, text_part, fin_part}

-- RCV.NXT is the next byte of the buffer, and the window is the room in it.
pub record InStep (c : Conn) : Type 0 where
  pub valid : IsValid c.recv_buf
  pub whole : c.recv_buf.capacity ≡ buffer_capacity
  pub next : c.expected_seq_num ≡ c.recv_buf.nxt
  pub room : c.window_size ≡ buffer_capacity - used c.recv_buf

-- The step ends, with an error or without, and the connection after it has the property.
abbrev pub Ends : (Conn → Type 0) → Outcome ⊤ → Type 0
Ends P panicked = ⊥
Ends P stuck = ⊥
Ends P running = ⊥
Ends P (failed c) = P c
Ends P (done _ c) = P c

abbrev pub Delivered : Conn → List ℕ → Conn → Type 0
Delivered c bytes c' =
    (contents c'.recv_buf ≡ contents c.recv_buf ++ bytes)
    × (c'.expected_seq_num ≡ c.expected_seq_num + length bytes)
    × (c'.window_size ≡ c.window_size - length bytes)
    × InStep c'

send_ack-Ends :
    (ip_send : TcpPacket → Bool) (P : Conn → Type 0) (c : Conn)
    → ((c' : Conn)
        → c'.recv_buf ≡ c.recv_buf
        → c'.expected_seq_num ≡ c.expected_seq_num
        → c'.window_size ≡ c.window_size
        → P c')
    → Ends P (send_ack ip_send c)
unfolding send_ack send_ctl act
send_ack-Ends ip_send P c h =
    elim (Bool-cases (
      ip_send (
        gotcp.Tcp.Conn.ctl_packet c c.snd_nxt c.expected_seq_num
          gotcp.Proto.Segment.tcp_flag_ack))) [
            | inl e ↦ rw e (h _ refl refl refl)
            | inr e ↦ rw e (h _ refl refl refl)
          ]

-- handleSegText on bytes that fit the advertised window, where the sequence numbers do not reach
-- 2 ^ 32, appends all of them in order to the unread bytes, moves RCV.NXT by their number and
-- shrinks the window by it, whether or not the acknowledgement can be sent.
pub handle_seg_text-Delivered :
    (ip_send : TcpPacket → Bool)
    → (bytes : List ℕ) → (c : Conn) → InStep c
    → 0 < length bytes
    → length bytes ≤ c.window_size
    → c.expected_seq_num + length bytes < u32_mod
    → Ends (Delivered c bytes) (handle_seg_text ip_send bytes c)
unfolding handle_seg_text
handle_seg_text-Delivered ip_send bytes c i some_bytes fit no_wrap =
    go (write c.recv_buf bytes) (write-WriteSpec bytes i.valid (omega (arith, i.next)))
  where
    go :
        (r : gotcp.Tcp.RecvBuf.WriteResult)
        → WriteSpec c.recv_buf bytes r
        → Ends (Delivered c bytes) (received ip_send c r)
    go gotcp.Tcp.RecvBuf.WriteResult.panicked s = s
    go gotcp.Tcp.RecvBuf.WriteResult.stuck s = s
    go gotcp.Tcp.RecvBuf.WriteResult.full (_, f) = absurd (omega (arith, f, i.room, i.whole))
    go (gotcp.Tcp.RecvBuf.WriteResult.wrote n b) (_, en, ec, el, ex, ecap, _, v) =
        let en' : n ≡ length bytes = omega (arith, en, i.room, i.whole) in
        let fs = free_space-add-used v in
        let all : take n bytes ≡ bytes = take_all n bytes (omega (arith, en')) in
        send_ack-Ends ip_send (Delivered c bytes) _ (λ c' eb ee ew.
          let eu : c'.recv_buf.nxt ≡ b.nxt = ap (λ r. r.nxt) eb in
          (
            rw (eb, ec, all) refl,
            omega (arith, ee, en', no_wrap),
            omega (arith, ew, en', fs, ecap, i.room, i.whole, ex, el),
            record {
              valid = rw eb v;
              whole = rw (eb, ecap) i.whole;
              next = omega (arith, ee, eu, ex, i.next, en', no_wrap);
              room = rw eb (omega (arith, ew, fs, ecap, i.whole));
            },
          ))

-- The receiving side of a connection stands as it was.
abbrev pub Unmoved : Conn → Conn → Type 0
Unmoved c c' =
    (c'.recv_buf ≡ c.recv_buf)
    × (c'.expected_seq_num ≡ c.expected_seq_num)
    × (c'.window_size ≡ c.window_size)

abbrev Succeeds : {A : Type 0} → (A → Conn → Type 0) → Outcome A → Type 0
Succeeds P panicked = ⊥
Succeeds P stuck = ⊥
Succeeds P running = ⊥
Succeeds P (failed c) = ⊥
Succeeds P (done a c) = P a c

-- The acknowledgement is of bytes sent and not yet acknowledged, or of nothing new; SND.UNA is at
-- least 65535, SND.NXT is below 2 ^ 32, the channel of the send buffer has room for a signal, and
-- the timer can be reset.
abbrev pub Current : TcpPacket → Conn → Type 0
Current segment c =
    (c.snd_una ≤ segment.ack_num)
    × (segment.ack_num ≤ c.snd_nxt)
    × (buffer_capacity ≤ c.snd_una)
    × (c.snd_nxt < u32_mod)
    × (c.send_buf.freespace < c.send_buf.capacity)
    × (drained c ≡ false)

handle_ack-Succeeds :
    (ip_send : TcpPacket → Bool) (now : ℕ) (segment : TcpPacket) (c : Conn)
    → Current segment c
    → Succeeds (λ _. Unmoved c) (handle_ack ip_send now segment c)
unfolding handle_ack send_ack acked ack_inflight reset_retrans_timer stop_retrans_timer send_ctl act
handle_ack-Succeeds ip_send now segment c h = ground (arith, h)

-- A segment in order with data that fits the window is acceptable, and with no early arrivals its
-- payload is what it leaves to be written.
handle_seq_num_in_order :
    (ip_send : TcpPacket → Bool) (segment : TcpPacket) (c : Conn)
    → segment.seq_num ≡ c.expected_seq_num
    → 0 < length segment.payload
    → length segment.payload ≤ c.window_size
    → c.expected_seq_num + c.window_size < u32_mod
    → c.early_arrival_q ≡ []
    → handle_seq_num ip_send segment c ≡ done segment.payload (record c { early_arrival_q = [] })
unfolding handle_seq_num is_valid_seg aggregate_early_arrivals
handle_seq_num_in_order ip_send segment c es h0 h1 h2 eq =
    rw (valid, early, cut, eq)
      (elim (Bool-cases (c.window_size - length segment.payload == 0)) [
        | inl e ↦ rw e refl
        | inr e ↦ rw e refl
      ])
  where
    valid : is_valid_seg segment c ≡ true
    valid = ground (arith, es, h0, h1, h2)

    early : ltb c.expected_seq_num segment.seq_num ≡ false
    early = ground (arith, es)

    cut : trimmed segment c ≡ some segment.payload
    cut = ground (arith, es, h1, take_all (length segment.payload) segment.payload)

Ends-after :
    {A : Type 0} (P : Conn → Type 0) (Q : Conn → Type 0) (a : A) (o : Outcome ⊤) (f : A → Step ⊤)
    → Succeeds (λ _. P) o
    → ((c : Conn) → P c → Ends Q (f a c))
    → Ends Q (continue f (continue (λ _. done a) o))
Ends-after P Q a panicked f h next = absurd h
Ends-after P Q a stuck f h next = absurd h
Ends-after P Q a running f h next = absurd h
Ends-after P Q a (failed c) f h next = absurd h
Ends-after P Q a (done _ c) f h next = next c h

Ends-pass :
    (P Q : Conn → Type 0) (o : Outcome ⊤)
    → ((c : Conn) → P c → Q c)
    → Ends P o
    → Ends Q (continue (λ _. pass) o)
Ends-pass P Q panicked weaken h = h
Ends-pass P Q stuck weaken h = h
Ends-pass P Q running weaken h = h
Ends-pass P Q (failed c) weaken h = weaken c h
Ends-pass P Q (done _ c) weaken h = weaken c h

Unmoved-InStep : (c c' : Conn) → Unmoved c c' → InStep c → InStep c'
Unmoved-InStep c c' (eb, ee, ew) i = record {
  valid = rw eb i.valid;
  whole = rw eb i.whole;
  next = rw (eb, ee) i.next;
  room = rw (eb, ew) i.room;
}

Unmoved-Delivered :
    (c c' c'' : Conn) (bytes : List ℕ)
    → Unmoved c c'
    → Delivered c' bytes c''
    → Delivered c bytes c''
Unmoved-Delivered c c' c'' bytes (eb, ee, ew) (d0, d1, d2, d3) =
    (d0 ∙ ap (λ r. contents r ++ bytes) eb, omega (arith, d1, ee), omega (arith, d2, ew), d3)

-- In ESTABLISHED, a segment in order with data that fits the window, an acknowledgement between SND.UNA
-- and SND.NXT, and no FIN, on a connection with no early arrivals, is delivered: the state function
-- ends, whatever the network does, the payload stands in order behind the unread bytes, RCV.NXT has
-- moved past it and the window has shrunk by it. This is so if SND.UNA is at least 65535 and
-- SND.NXT below 2 ^ 32, the channel for free space has room for a signal, handleRTO has not taken
-- an expiry of a running timer, the receive buffer has its full capacity and is in step with
-- RCV.NXT and with the window, and the window ends below 2 ^ 32.
pub state_func_established-Delivered :
    (ip_send : TcpPacket → Bool)
    → (now : ℕ) → (segment : TcpPacket) → (c : Conn) → InStep c
    → Current segment c
    → is_ack segment ≡ true
    → is_fin segment ≡ false
    → segment.seq_num ≡ c.expected_seq_num
    → 0 < length segment.payload
    → length segment.payload ≤ c.window_size
    → c.expected_seq_num + c.window_size < u32_mod
    → c.early_arrival_q ≡ []
    → Ends (Delivered c segment.payload) (state_func_established ip_send now segment c)
unfolding state_func_established checked
state_func_established-Delivered ip_send now segment c i cur ack fin es h0 h1 h2 eq =
    rw (handle_seq_num_in_order ip_send segment c es h0 h1 h2 eq, ack)
      (Ends-after (Unmoved c) _ segment.payload (handle_ack ip_send now segment _) _
        (handle_ack-Succeeds ip_send now segment _ cur) texts)
  where
    bytes : List ℕ
    bytes = segment.payload

    texts :
        (c1 : Conn)
        → Unmoved c c1
        → Ends
            (Delivered c bytes)
            (continue (λ _. fin_part ip_send segment) (text_part ip_send bytes c1))
    texts c1 u =
        let nonempty : (length bytes == 0) ≡ false = ground (arith, h0) in
        rw (fin, nonempty)
          (Ends-pass (Delivered c1 bytes) _ _ (λ c'. Unmoved-Delivered c c1 c' bytes u)
            (handle_seg_text-Delivered ip_send bytes c1 (Unmoved-InStep c c1 u i) h0
              (omega (arith, h1, u.2)) (omega (arith, h2, h1, u.1))))
