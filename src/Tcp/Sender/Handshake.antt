-- ===== src/Tcp/Sender/Handshake.antt =====
-- doHandshakes: the attempts that go unanswered.
use gotcp.Prelude.{
  ℕ, zero, suc, ◌+◌, ◌≡◌, refl, Bool, true, false, List, [], ◌∷◌, ◌++◌, arith, ◌==◌, ◌%◌, ap, ◌∙◌,
  if◌then◌else◌, replicate,
}
use gotcp.Proto.Segment.{TcpPacket, new_tcp_packet, tcp_flag_syn, tcp_flag_ack}
use gotcp.Tcp.Conn.{
  Conn, sent, Outcome, panicked, stuck, running, failed, done, send_ctl, ctl_packet, act,
}
use gotcp.Tcp.Sender.{do_handshakes, Event, timed_out}

-- The segment that opens a connection: a SYN with the initial sequence number, which a passive
-- connection sends with the acknowledgement of the peer's.
abbrev pub opening_segment : Bool → Conn → TcpPacket
opening_segment is_active c = record {
  src_port = c.local_port;
  dst_port = c.remote_port;
  seq_num = c.iss;
  ack_num = if is_active then 0 else c.expected_seq_num;
  data_offset = 20;
  flags = if is_active then tcp_flag_syn else tcp_flag_syn + tcp_flag_ack;
  payload = [];
  window_size = c.window_size % 65536;
  checksum = 0;
  urgent_pointer = 0;
}

-- The handshake has failed, with the opening segment sent `n` more times and the rest of the
-- connection as it was.
abbrev pub FailedWith : ℕ → Bool → Conn → Outcome Bool → Type 0
FailedWith n is_active c panicked = ⊥
FailedWith n is_active c stuck = ⊥
FailedWith n is_active c running = ⊥
FailedWith n is_active c (failed c') = ⊥
FailedWith n is_active c (done b c') =
    (b ≡ false)
    × (c'.actions ≡ replicate n (sent (opening_segment is_active c)) ++ c.actions)
    × (c'.state ≡ c.state)
    × (c'.snd_nxt ≡ c.snd_nxt)

replicate_last :
    {A : Type 0}
    → (n : ℕ) → (a : A) → (l : List A) → replicate n a ++ a ∷ l ≡ a ∷ replicate n a ++ l
replicate_last zero a l = refl
replicate_last (suc n) a l = ap (λ k. a ∷ k) (replicate_last n a l)

abbrev opening_packet : Bool → Conn → TcpPacket
opening_packet true c = ctl_packet c c.iss 0 tcp_flag_syn
opening_packet false c = ctl_packet c c.iss c.expected_seq_num (tcp_flag_syn + tcp_flag_ack)

opening_packet-opening_segment : (b : Bool) (c : Conn) → opening_packet b c ≡ opening_segment b c
unfolding ctl_packet new_tcp_packet
opening_packet-opening_segment true c = refl
opening_packet-opening_segment false c = refl

FailedWith-suc :
    (n : ℕ) (b : Bool) (c : Conn) (o : Outcome Bool)
    → FailedWith n b (act (sent (opening_packet b c)) c) o
    → FailedWith (suc n) b c o
unfolding act
FailedWith-suc n b c panicked f = f
FailedWith-suc n b c stuck f = f
FailedWith-suc n b c running f = f
FailedWith-suc n b c (failed c') f = f
FailedWith-suc n b c (done r c') (f0, f1, f2, f3) = (
  f0,
  f1
      ∙ ap (λ p. replicate n (sent (opening_segment b c)) ++ sent p ∷ c.actions)
          (opening_packet-opening_segment b c)
      ∙ replicate_last n (sent (opening_segment b c)) c.actions,
  f2,
  f3,
)

-- Left without an answer, a handshake ends: from attempt `attempt` on, after the timer has expired
-- as often as attempts are left of the four, it has sent its opening segment once for each, if the
-- network takes segments, and nothing else, and reports failure with the state and SND.NXT as they
-- were. The opening segment has the initial sequence number, the flag SYN, from a passive
-- connection SYN and ACK with the sequence number expected, and the window of the connection.
pub do_handshakes_unanswered :
    (ip_send : TcpPacket → Bool)
    → (now : ℕ) → (is_active : Bool) → (n attempt : ℕ) → (events : List Event) → (c : Conn)
    → ((p : TcpPacket) → ip_send p ≡ true)
    → attempt + n ≡ 4
    → FailedWith n is_active c
        (do_handshakes ip_send now is_active (replicate n timed_out ++ events) attempt c)
unfolding do_handshakes send_ctl act
do_handshakes_unanswered ip_send now is_active zero attempt events c net h = over events
  where
    last : (attempt == 4) ≡ true
    last = ground (arith, h)

    over :
        (es : List Event)
        → FailedWith 0 is_active c (do_handshakes ip_send now is_active es attempt c)
    over [] = rw last (refl, refl, refl, refl)
    over (timed_out ∷ es) = rw last (refl, refl, refl, refl)
    over (Event.arrived segment ∷ es) = rw last (refl, refl, refl, refl)
do_handshakes_unanswered ip_send now is_active (suc n) attempt events c net h =
    opened is_active (λ b. FailedWith-suc n b c _ (
      do_handshakes_unanswered ip_send now b n (attempt + 1) events
        (act (sent (opening_packet b c)) c) net (omega (arith, h))))
  where
    more : (attempt == 4) ≡ false
    more = ground (arith, h)

    opened :
        (b : Bool)
        → ((b : Bool)
            → FailedWith (suc n) b c (
                do_handshakes ip_send now b
                  (replicate n timed_out ++ events)
                  (attempt + 1)
                  (act (sent (opening_packet b c)) c)))
        → FailedWith
            (suc n)
            b
            c
            (do_handshakes ip_send now b (replicate (suc n) timed_out ++ events) attempt c)
    opened true next = rw (more, net (opening_packet true c)) (next true)
    opened false next = rw (more, net (opening_packet false c)) (next false)
