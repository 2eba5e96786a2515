-- ===== src/Tcp/Sender/Timeouts.antt =====
-- handleRTO: how often a packet is sent again, and when the connection is given up.
use gotcp.Prelude.{
  ℕ, zero, suc, ◌+◌, ◌≤◌, ◌<◌, ◌≡◌, refl, Bool, true, false, List, [], ◌∷◌, arith, leb,
  if◌then◌else◌, ◌%◌,
}
use gotcp.Proto.Segment.{TcpPacket}
use gotcp.Tcp.Conn.{
  closed, Conn, InFlight, Outcome, panicked, stuck, running, failed, done, continue, Step,
  delete_socket, act, Action, sent, start_retrans_timer,
}
use gotcp.Tcp.Sender.{handle_rto, give_up, send_data, refreshed}

-- No packet has been sent again more than three times.
abbrev pub Bounded : List InFlight → Type 0
Bounded [] = Unit
Bounded (meta ∷ q) = (meta.counter ≤ 3) × Bounded q

-- The packet at the front, as it is sent again: with the acknowledgement and the window of now.
abbrev pub renewed_packet : Conn → InFlight → TcpPacket
renewed_packet c meta = record (meta.packet) {
  ack_num = c.expected_seq_num;
  window_size = c.window_size % 65536;
}

-- The connection goes on, with the queue `q` and these actions.
abbrev GoesOn : Conn → Conn → List InFlight → List Action → Type 0
GoesOn c c' q actions =
    (c'.inflight_q ≡ q)
    × Bounded c'.inflight_q
    × (c'.actions ≡ actions)
    × (c'.state ≡ c.state)
    × (c'.snd_una ≡ c.snd_una)
    × (c'.snd_nxt ≡ c.snd_nxt)

-- What an expiry does, by the queue that it meets.
abbrev pub RtoSpec : (TcpPacket → Bool) → ℕ → Conn → List InFlight → Outcome Bool → Type 0
RtoSpec ip_send now c q panicked = ⊥
RtoSpec ip_send now c q stuck = ⊥
RtoSpec ip_send now c q running = ⊥
RtoSpec ip_send now c [] (failed c') = ⊥
RtoSpec ip_send now c [] (done true c') = GoesOn c c' [] c.actions
RtoSpec ip_send now c [] (done false c') = ⊥
RtoSpec ip_send now c (meta ∷ q) (failed c') =
    let p = renewed_packet c meta in
    (meta.counter < 3)
    × (ip_send p ≡ false)
    × GoesOn c c' (record meta { packet = p } ∷ q) c.actions
RtoSpec ip_send now c (meta ∷ q) (done true c') =
    let p = renewed_packet c meta in
    (meta.counter < 3)
    × (ip_send p ≡ true)
    × GoesOn c c'
        (record { time_sent = now; span = meta.span; counter = meta.counter + 1; packet = p } ∷ q)
        (sent p ∷ c.actions)
RtoSpec ip_send now c (meta ∷ q) (done false c') =
    (3 ≤ meta.counter)
    × (c'.state ≡ closed)
    × (c'.bound ≡ false)
    × (c'.inflight_q ≡ [])
    × (c'.snd_una ≡ c.snd_nxt)
    × (c'.snd_nxt ≡ c.snd_nxt)
    × (c'.actions ≡ c.actions)

-- The timer expires `n` times.
unfoldable pub timeouts : (TcpPacket → Bool) → ℕ → ℕ → Step Bool
unfolding handle_rto
timeouts ip_send now zero c = done true c
timeouts ip_send now (suc n) c =
    continue (λ on. if on then timeouts ip_send now n else done false) (handle_rto ip_send now c)

abbrev pub GivenUp : Outcome Bool → Type 0
GivenUp panicked = ⊥
GivenUp stuck = ⊥
GivenUp running = ⊥
GivenUp (failed c) = ⊥
GivenUp (done on c) = (on ≡ false) × (c.state ≡ closed)

-- When nothing is acknowledged, the timer need only expire once more than the packet at the front
-- may yet be sent again, and a connection of the table is closed, if the network takes the packets.
pub timeouts_give_up :
    (ip_send : TcpPacket → Bool)
    → (now n : ℕ) → (c : Conn) → (meta : InFlight) → (q : List InFlight)
    → ((p : TcpPacket) → ip_send p ≡ true)
    → c.bound ≡ true
    → c.inflight_q ≡ meta ∷ q
    → meta.counter + n ≡ 3
    → GivenUp (timeouts ip_send now (suc n) c)
unfolding timeouts handle_rto give_up send_data act delete_socket start_retrans_timer
timeouts_give_up ip_send now zero c meta q net b e h =
    let last : leb 3 meta.counter ≡ true = ground (arith, h) in rw (e, last, b) (refl, refl)
timeouts_give_up ip_send now (suc n) c meta q net b e h =
    let more : leb 3 meta.counter ≡ false = ground (arith, h) in
    rw (e, more, net (refreshed c meta).packet)
      (timeouts_give_up ip_send now n
        (record c {
          inflight_q =
              record (refreshed c meta) { time_sent = now; counter = meta.counter + 1 } ∷ q;
          rto_is_running = true;
          expiry_taken = false;
          actions = sent (refreshed c meta).packet ∷ c.actions;
        })
        (record (refreshed c meta) { time_sent = now; counter = meta.counter + 1 }) q net b refl
        (omega (arith, h)))
