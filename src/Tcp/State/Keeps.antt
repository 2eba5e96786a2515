-- ===== src/Tcp/State/Keeps.antt =====
-- What a step leaves when it ends, and the steps that leave the state as it is.
use gotcp.Prelude.{ℕ, ◌≡◌, Bool, List, ◌==◌, length, arith, Bool-cases, Option-cases, inl, inr}
use gotcp.Proto.Segment.{TcpPacket, is_ack}
use gotcp.Tcp.RecvBuf.{RecvBuf}
use gotcp.Tcp.Conn.{
  State, Conn, Outcome, panicked, stuck, running, failed, done, continue, Step, send_ctl,
  reset_retrans_timer, stop_retrans_timer, act,
}
use gotcp.Tcp.Segments.{
  handle_seq_num, handle_ack, handle_seg_text, handle_fin, send_ack, acked, ack_inflight, received,
  trimmed,
}
use gotcp.Tcp.State.{text_part, ack_part, checked}

-- The connection after the step has the property, if the step ends.
abbrev pub After : {A : Type 0} → (Conn → Type 0) → Outcome A → Type 0
After P panicked = Unit
After P stuck = Unit
After P running = Unit
After P (failed c) = P c
After P (done _ c) = P c

abbrev pub In : State → Conn → Type 0
In s c = c.state ≡ s

pub After-continue :
    {A B : Type 0} (P Q : Conn → Type 0) (o : Outcome A) (f : A → Step B)
    → ((c : Conn) → P c → Q c)
    → ((a : A) (c : Conn) → P c → After Q (f a c))
    → After P o
    → After Q (continue f o)
After-continue P Q panicked f weaken next h = tt
After-continue P Q stuck f weaken next h = tt
After-continue P Q running f weaken next h = tt
After-continue P Q (failed c) f weaken next h = weaken c h
After-continue P Q (done a c) f weaken next h = next a c h

pub send_ack-In :
    (ip_send : TcpPacket → Bool) (s : State) (c : Conn) → In s c → After (In s) (send_ack ip_send c)
unfolding send_ack send_ctl act
send_ack-In ip_send s c h = ground (arith, h)

pub handle_ack-In :
    (ip_send : TcpPacket → Bool) (now : ℕ) (segment : TcpPacket) (s : State) (c : Conn)
    → In s c
    → After (In s) (handle_ack ip_send now segment c)
unfolding handle_ack send_ack acked ack_inflight reset_retrans_timer stop_retrans_timer send_ctl act
handle_ack-In ip_send now segment s c h = ground (arith, h)

pub handle_seg_text-In :
    (ip_send : TcpPacket → Bool) (bytes : List ℕ) (s : State) (c : Conn)
    → In s c
    → After (In s) (handle_seg_text ip_send bytes c)
unfolding handle_seg_text
handle_seg_text-In ip_send bytes s c h = received-In (gotcp.Tcp.RecvBuf.write c.recv_buf bytes)
  where
    received-In : (r : gotcp.Tcp.RecvBuf.WriteResult) → After (In s) (received ip_send c r)
    received-In gotcp.Tcp.RecvBuf.WriteResult.panicked = tt
    received-In gotcp.Tcp.RecvBuf.WriteResult.stuck = tt
    received-In gotcp.Tcp.RecvBuf.WriteResult.full = h
    received-In (gotcp.Tcp.RecvBuf.WriteResult.wrote n b) = send_ack-In ip_send s _ h

pub handle_fin-In :
    (ip_send : TcpPacket → Bool) (segment : TcpPacket) (s : State) (c : Conn)
    → In s c
    → After (In s) (handle_fin ip_send segment c)
unfolding handle_fin
handle_fin-In ip_send segment s c h = send_ack-In ip_send s _ h

pub handle_seq_num-In :
    (ip_send : TcpPacket → Bool) (segment : TcpPacket) (s : State) (c : Conn)
    → In s c
    → After (In s) (handle_seq_num ip_send segment c)
unfolding handle_seq_num send_ack send_ctl act
handle_seq_num-In ip_send segment s c h = elim (Option-cases (trimmed segment c)) [
  | inl e ↦ rw e (ground (arith, h))
  | inr (bytes, e) ↦ rw e (ground (arith, h))
]

pub text_part-In :
    (ip_send : TcpPacket → Bool) (bytes : List ℕ) (s : State) (c : Conn)
    → In s c
    → After (In s) (text_part ip_send bytes c)
text_part-In ip_send bytes s c h = elim (Bool-cases (length bytes == 0)) [
  | inl e ↦ rw e h
  | inr e ↦ rw e (handle_seg_text-In ip_send bytes s c h)
]

pub then_In :
    {A B : Type 0} {s : State} (m : Step A) (f : A → Step B) (c : Conn)
    → After (In s) (m c)
    → ((a : A) (c' : Conn) → In s c' → After (In s) (f a c'))
    → After (In s) (continue f (m c))
then_In {s = s} m f c h next = After-continue (In s) (In s) (m c) f (λ c' p. p) next h

pub checked-In :
    (ip_send : TcpPacket → Bool) (now : ℕ) (segment : TcpPacket) (s : State) (c : Conn)
    → In s c
    → After (In s) (checked ip_send now segment c)
unfolding checked
checked-In ip_send now segment s c h =
    then_In (handle_seq_num ip_send segment) _ c (handle_seq_num-In ip_send segment s c h)
      (λ bytes c' p.
        then_In (ack_part ip_send now segment) (λ _. done bytes) c' (acks c' p) (λ _ c'' p'. p'))
  where
    acks : (c' : Conn) → In s c' → After (In s) (ack_part ip_send now segment c')
    acks c' p = elim (Bool-cases (is_ack segment)) [
      | inl e ↦ rw e (handle_ack-In ip_send now segment s c' p)
      | inr e ↦ rw e p
    ]
