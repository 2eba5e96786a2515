-- ===== src/Tcp/State/Edges.antt =====
-- The arrows of the state diagram, and the states from ESTABLISHED on.
use gotcp.Prelude.{ℕ, refl, Bool, ◌&&◌, List, ◌==◌, length, Bool-cases, inl, inr}
use gotcp.Proto.Segment.{TcpPacket, is_fin}
use gotcp.Tcp.Conn.{
  ⊤, State, closed, syn_received, syn_sent, established, fin_wait_1, fin_wait_2, closing, time_wait,
  close_wait, last_ack, Conn, Outcome, panicked, stuck, running, failed, done, continue, Step,
  ◌>>=◌, set_state, delete_socket, do_action, act,
}
use gotcp.Tcp.Segments.{handle_fin, send_ack}
use gotcp.Tcp.State.{
  text_part, last_fin, checked, enter_time_wait, fin_part, state_func_established, fin_acked,
  state_func_fin_wait_1, ack_fin, state_func_fin_wait_2, state_func_close_wait, when_fin_acked,
  state_func_closing, state_func_last_ack, state_func_time_wait,
}
use gotcp.Tcp.State.Keeps.{
  After, In, After-continue, send_ack-In, handle_fin-In, text_part-In, checked-In,
}

-- The arrows of the diagram, one per transition that a segment can cause.
pub data Edge : State → State → Type 0 where
  stays : {s : State} → Edge s s
  handshake_acked : Edge syn_received established
  opened_and_finished : Edge syn_received close_wait
  handshake_dropped : Edge syn_received closed
  syn_answered : Edge syn_sent established
  syn_refused : Edge syn_sent closed
  peer_finished : Edge established close_wait
  fin_acknowledged : Edge fin_wait_1 fin_wait_2
  both_finished : Edge fin_wait_1 closing
  finished_at_once : Edge fin_wait_1 time_wait
  peer_finished_last : Edge fin_wait_2 time_wait
  closing_acked : Edge closing time_wait
  last_acked : Edge last_ack closed

abbrev pub To : State → Conn → Type 0
To s c = Edge s c.state

pub stays-In : (s : State) (c : Conn) → In s c → To s c
stays-In s c h = rw h stays

pub then_To :
    {A B : Type 0} {s : State} (m : Step A) (f : A → Step B) (c : Conn)
    → After (In s) (m c)
    → ((a : A) (c' : Conn) → In s c' → After (To s) (f a c'))
    → After (To s) (continue f (m c))
then_To {s = s} m f c h next = After-continue (In s) (To s) (m c) f (stays-In s) next h

pub state_func_established-To :
    (ip_send : TcpPacket → Bool) (now : ℕ) (segment : TcpPacket) (c : Conn)
    → In established c
    → After (To established) (state_func_established ip_send now segment c)
unfolding state_func_established set_state
state_func_established-To ip_send now segment c h =
    then_To (checked ip_send now segment) _ c (checked-In ip_send now segment _ c h) (λ bytes c' p.
      then_To (text_part ip_send bytes) _ c' (text_part-In ip_send bytes _ c' p)
        (λ _ c'' q. fins c'' q))
  where
    fins : (c' : Conn) → In established c' → After (To established) (fin_part ip_send segment c')
    fins c' p = elim (Bool-cases (is_fin segment)) [
      | inl e ↦ rw e (
          then_To (handle_fin ip_send segment) _ c' (handle_fin-In ip_send segment _ c' p)
            (λ _ c'' _. peer_finished))
      | inr e ↦ rw e (stays-In _ c' p)
    ]

pub state_func_close_wait-To :
    (ip_send : TcpPacket → Bool) (now : ℕ) (segment : TcpPacket) (c : Conn)
    → In close_wait c
    → After (To close_wait) (state_func_close_wait ip_send now segment c)
unfolding state_func_close_wait
state_func_close_wait-To ip_send now segment c h =
    then_To (checked ip_send now segment) _ c (checked-In ip_send now segment _ c h)
      (λ bytes c' p. stays-In _ c' p)

pub when_fin_acked-To :
    (segment : TcpPacket) (m : Step ⊤) (s : State) (c : Conn)
    → After (To s) (m c)
    → In s c
    → After (To s) (when_fin_acked segment m c)
when_fin_acked-To segment m s c h p = elim (Bool-cases (c.snd_nxt == segment.ack_num)) [
  | inl e ↦ rw e h
  | inr e ↦ rw e (stays-In s c p)
]

pub state_func_closing-To :
    (ip_send : TcpPacket → Bool) (now : ℕ) (segment : TcpPacket) (c : Conn)
    → In closing c
    → After (To closing) (state_func_closing ip_send now segment c)
unfolding state_func_closing set_state do_action act
state_func_closing-To ip_send now segment c h =
    then_To (checked ip_send now segment) _ c (checked-In ip_send now segment _ c h)
      (λ bytes c' p. when_fin_acked-To segment enter_time_wait _ c' closing_acked p)

pub state_func_last_ack-To :
    (ip_send : TcpPacket → Bool) (now : ℕ) (segment : TcpPacket) (c : Conn)
    → In last_ack c
    → After (To last_ack) (state_func_last_ack ip_send now segment c)
unfolding state_func_last_ack set_state delete_socket
state_func_last_ack-To ip_send now segment c h =
    then_To (checked ip_send now segment) _ c (checked-In ip_send now segment _ c h) (λ bytes c' p.
      when_fin_acked-To segment (set_state closed >>= λ _. delete_socket) _ c' (gone c') p)
  where
    gone : (c' : Conn) → After (To last_ack) ((set_state closed >>= λ _. delete_socket) c')
    gone c' = elim (Bool-cases c'.bound) [ inl e ↦ rw e last_acked | inr e ↦ rw e tt ]

pub enter_time_wait-To :
    (s : State) (c : Conn) → Edge s time_wait → After (To s) (enter_time_wait c)
unfolding set_state do_action act
enter_time_wait-To s c e = e

pub state_func_fin_wait_2-To :
    (ip_send : TcpPacket → Bool) (now : ℕ) (segment : TcpPacket) (c : Conn)
    → In fin_wait_2 c
    → After (To fin_wait_2) (state_func_fin_wait_2 ip_send now segment c)
unfolding state_func_fin_wait_2
state_func_fin_wait_2-To ip_send now segment c h =
    then_To (checked ip_send now segment) _ c (checked-In ip_send now segment _ c h) (λ bytes c1 p1.
      then_To (ack_fin ip_send segment) _ c1 (fin_acks c1 p1) (λ _ c2 p2.
        then_To (text_part ip_send bytes) _ c2 (text_part-In ip_send bytes _ c2 p2)
          (λ _ c3 p3. ends c3 p3)))
  where
    fin_acks : (c' : Conn) → In fin_wait_2 c' → After (In fin_wait_2) (ack_fin ip_send segment c')
    fin_acks c' p = elim (Bool-cases (length c'.inflight_q == 0 && is_fin segment)) [
      | inl e ↦ rw e (send_ack-In ip_send _ _ p)
      | inr e ↦ rw e p
    ]

    ends : (c' : Conn) → In fin_wait_2 c' → After (To fin_wait_2) (last_fin segment c')
    ends c' p = elim (Bool-cases (is_fin segment)) [
      | inl e ↦ rw e (enter_time_wait-To _ c' peer_finished_last)
      | inr e ↦ rw e (stays-In _ c' p)
    ]

pub moved_on : (s u : State) (o : Outcome ⊤) → Edge s u → After (In u) o → After (To s) o
moved_on s u panicked e h = tt
moved_on s u stuck e h = tt
moved_on s u running e h = tt
moved_on s u (failed c') e h = rw h e
moved_on s u (done _ c') e h = rw h e

pub state_func_fin_wait_1-To :
    (ip_send : TcpPacket → Bool) (now : ℕ) (segment : TcpPacket) (c : Conn)
    → In fin_wait_1 c
    → After (To fin_wait_1) (state_func_fin_wait_1 ip_send now segment c)
unfolding state_func_fin_wait_1 set_state
state_func_fin_wait_1-To ip_send now segment c h =
    then_To (checked ip_send now segment) _ c (checked-In ip_send now segment _ c h) acks
  where
    acks :
        (bytes : List ℕ) (c' : Conn)
        → In fin_wait_1 c'
        → After (To fin_wait_1) (fin_acked ip_send segment bytes c')
    acks bytes c' p = elim (Bool-cases (segment.ack_num == c'.snd_nxt)) [
      | inl e ↦ rw e (elim (Bool-cases (is_fin segment)) [
        | inl f ↦ rw f (enter_time_wait-To _ c' finished_at_once)
        | inr f ↦ rw f (texts fin_wait_2 _ fin_acknowledged refl)
      ])
      | inr e ↦ rw e (elim (Bool-cases (is_fin segment)) [
        | inl f ↦ rw f (texts closing _ both_finished refl)
        | inr f ↦ rw f (texts fin_wait_1 c' stays p)
      ])
    ]
      where
        texts :
            (u : State) (c'' : Conn)
            → Edge fin_wait_1 u
            → In u c''
            → After (To fin_wait_1) (text_part ip_send bytes c'')
        texts u c'' e q = moved_on _ u _ e (text_part-In ip_send bytes u c'' q)

pub state_func_time_wait-To :
    (ip_send : TcpPacket → Bool) (now : ℕ) (segment : TcpPacket) (c : Conn)
    → In time_wait c
    → After (To time_wait) (state_func_time_wait ip_send now segment c)
unfolding state_func_time_wait do_action act
state_func_time_wait-To ip_send now segment c h =
    then_To (checked ip_send now segment) _ c (checked-In ip_send now segment _ c h) (λ bytes c' p.
      then_To (send_ack ip_send) _ _ (send_ack-In ip_send _ _ p) (λ _ c'' q. stays-In _ c'' q))
