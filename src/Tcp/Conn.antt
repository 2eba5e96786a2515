-- ===== src/Tcp/Conn.antt =====
-- pkg/tcpstack/tcpstack.go and conn.go: the state of a connection, its transmission control block,
-- and the steps that the handlers of segments share. A step takes the connection and ends in a
-- panic, in a wait that nothing of the same goroutine ends, in a loop that never ends, in an error
-- that the callers log and return on, or with a value. What leaves the connection is a list of
-- actions, the last one first. The network below is a parameter: whether the IP layer takes a
-- segment.
use gotcp.Prelude.{ℕ, ◌≡◌, arith, Bool, true, false, ◌&&◌, List, [], ◌∷◌, if◌then◌else◌}
use gotcp.Prelude.Words.{u16, add32}
use gotcp.Proto.Segment.{TcpPacket, new_tcp_packet}
use gotcp.Tcp.Early.{PriorityQueue}
use gotcp.Tcp.SendBuf.{SendBuf, new_send_buf}
use gotcp.Tcp.RecvBuf.{RecvBuf, buffer_capacity}

abbrev pub ⊤ : Type 0
⊤ = Unit

pub data State : Type 0 where
  closed listen syn_received syn_sent established fin_wait_1 fin_wait_2 closing : State
  time_wait close_wait last_ack : State

-- packetMetadata.
pub record InFlight : Type 0 where
  pub time_sent : ℕ
  pub span : ℕ  -- length
  pub counter : ℕ
  pub packet : TcpPacket

-- A segment given to the IP layer, a measured round trip, and the goroutines started or told to
-- start over.
pub data Action : Type 0 where
  sent : TcpPacket → Action
  measured : ℕ → Action
  sender_started time_wait_started time_wait_reset : Action

pub record Conn : Type 0 where
  pub local_port : ℕ
  pub remote_port : ℕ
  pub state : State
  pub iss : ℕ
  pub irs : ℕ
  pub snd_nxt : ℕ
  pub snd_una : ℕ
  pub snd_wnd : ℕ
  pub expected_seq_num : ℕ
  pub window_size : ℕ
  pub send_buf : SendBuf
  pub recv_buf : RecvBuf
  pub early_arrival_q : PriorityQueue
  pub inflight_q : List InFlight
  pub rto_is_running : Bool
  pub expiry_taken : Bool  -- whether handleRTO has taken an expiry and not started the timer again
  pub bound : Bool  -- whether connTable holds the connection
  pub actions : List Action

-- NewSocket, with the random number that it draws for the initial sequence number.
unfoldable pub new_socket : State → ℕ → ℕ → ℕ → ℕ → Conn
new_socket state local_port remote_port remote_init_seq_num iss = record {
  local_port = local_port;
  remote_port = remote_port;
  state = state;
  iss = iss;
  irs = remote_init_seq_num;
  snd_nxt = iss;
  snd_una = iss;
  snd_wnd = 0;
  expected_seq_num = add32 remote_init_seq_num 1;
  window_size = buffer_capacity;
  send_buf = new_send_buf buffer_capacity iss;
  recv_buf = gotcp.Tcp.RecvBuf.new buffer_capacity remote_init_seq_num;
  early_arrival_q = [];
  inflight_q = [];
  rto_is_running = false;
  expiry_taken = false;
  bound = false;
  actions = [];
}

pub data Outcome (A : Type 0) : Type 0 where
  panicked stuck running : Outcome A
  failed : Conn → Outcome A
  done : A → Conn → Outcome A

abbrev pub Step : Type 0 → Type 0
Step A = Conn → Outcome A

abbrev pub continue : {A B : Type 0} → (A → Step B) → Outcome A → Outcome B
continue f panicked = panicked
continue f stuck = stuck
continue f running = running
continue f (failed c) = failed c
continue f (done a c) = f a c

infixl 5 ◌>>=◌
abbrev pub ◌>>=◌ : {A B : Type 0} → Step A → (A → Step B) → Step B
◌>>=◌ m f c = continue f (m c)

-- An error that is only logged.
abbrev pub logged : Outcome ⊤ → Outcome ⊤
logged (failed c) = done tt c
logged o = o

abbrev pub attempt : Step ⊤ → Step ⊤
attempt m c = logged (m c)

abbrev pub pass : Step ⊤
pass = done tt

abbrev pub fail : {A : Type 0} → Step A
fail = failed

unfoldable pub act : Action → Conn → Conn
act a c = record c { actions = a ∷ c.actions }

unfoldable pub set_state : State → Step ⊤
set_state s c = done tt (record c { state = s })

-- deleteSocket: the table's entry is dereferenced, and a missing one is a nil pointer.
unfoldable pub delete_socket : Step ⊤
delete_socket c = if c.bound then done tt (record c { state = closed; bound = false }) else panicked

unfoldable pub do_action : Action → Step ⊤
unfolding act
do_action a c = done tt (act a c)

unfoldable pub ctl_packet : Conn → ℕ → ℕ → ℕ → TcpPacket
ctl_packet c seq ack flag =
    new_tcp_packet c.local_port c.remote_port seq ack flag [] (u16 c.window_size)

-- sendCTL.
unfoldable pub send_ctl : (TcpPacket → Bool) → ℕ → ℕ → ℕ → Step ⊤
unfolding ctl_packet act
send_ctl ip_send seq ack flag c =
    let packet = ctl_packet c seq ack flag in
    if ip_send packet then done tt (act (sent packet) c) else failed c

-- A timer that has expired is drained: what it put in its channel is received, with `rtoMu` held. If
-- handleRTO has received that already, it waits for `rtoMu` in its turn, and neither goes on.
abbrev pub drained : Conn → Bool
drained c = c.rto_is_running && c.expiry_taken

-- resetRetransTimer(true).
unfoldable pub reset_retrans_timer : Step ⊤
reset_retrans_timer c =
    if drained c then stuck else done tt (record c { rto_is_running = true; expiry_taken = false })

unfoldable pub stop_retrans_timer : Step ⊤
stop_retrans_timer c = if drained c then stuck else done tt (record c { rto_is_running = false })

-- resetRetransTimer(false), which leaves a running timer as it is.
unfoldable pub start_retrans_timer : Conn → Conn
start_retrans_timer c =
    if c.rto_is_running then c else record c { rto_is_running = true; expiry_taken = false }

pub start_retrans_timer-actions : (c : Conn) → (start_retrans_timer c).actions ≡ c.actions
unfolding start_retrans_timer
start_retrans_timer-actions c = ground arith

pub start_retrans_timer-snd_nxt : (c : Conn) → (start_retrans_timer c).snd_nxt ≡ c.snd_nxt
unfolding start_retrans_timer
start_retrans_timer-snd_nxt c = ground arith

pub start_retrans_timer-inflight_q : (c : Conn) → (start_retrans_timer c).inflight_q ≡ c.inflight_q
unfolding start_retrans_timer
start_retrans_timer-inflight_q c = ground arith
