-- ===== src/Tcp/User/Writing.antt =====
-- VWrite of pkg/tcpstack/conn.go: its loop over writeToSendBuf, while the connection sends what is
-- written and takes in acknowledgements.
pub mod Appended
pub mod Appends
pub mod Ends
use gotcp.Prelude.{
  ℕ, ◌+◌, ◌-◌, Bool, true, false, ◌&&◌, not, List, [], ◌∷◌, min, length, drop, ◌==◌, if◌then◌else◌,
}
use gotcp.Prelude.Words.{add32}
use gotcp.Tcp.SendBuf.{SendBuf, WriteResult, write_to_send_buf}
use gotcp.Tcp.SendBuf.Inv.{held}
use gotcp.Tcp.Conn.{
  State, closed, listen, syn_received, syn_sent, established, fin_wait_1, fin_wait_2, closing,
  time_wait, close_wait, last_ack,
}

-- What the loop finds each time that it runs: the state, how many more bytes are acknowledged, at
-- most those that are held, and how many signals wait for the sender.
pub record Round : Type 0 where
  pub state : State
  pub acked : ℕ
  pub unsent : ℕ

abbrev pub una_after : Round → SendBuf → ℕ → ℕ
una_after r b una = add32 una (min r.acked (held b una))

abbrev pub is_closing : State → Bool
is_closing fin_wait_1 = true
is_closing fin_wait_2 = true
is_closing closing = true
is_closing time_wait = true
is_closing _ = false

-- A panic, a wait for room in the channel with the lock held, a wait for free space, the error of a
-- closing connection, or the end of the loop; the last three with the number of bytes written, the
-- buffer and SND.UNA.
pub data Written : Type 0 where
  panicked stuck : Written
  waiting refused wrote_all : ℕ → SendBuf → ℕ → Written

-- The loop, on the rounds to come, from inside of writeToSendBuf or not.
abbrev pub Loop : Type 0
Loop = Bool → SendBuf → ℕ → List ℕ → ℕ → Written

abbrev pub write_round : Loop → SendBuf → ℕ → List ℕ → ℕ → WriteResult → Written
write_round loop b una src n WriteResult.panicked = panicked
write_round loop b una src n WriteResult.stuck = stuck
write_round loop b una src n WriteResult.blocked = loop true b una src n
write_round loop b una src n (WriteResult.wrote w b') = loop false b' una (drop w src) (n + w)

-- The state is looked at before a call of writeToSendBuf, but not as a blocked call goes on.
unfoldable pub v_write_from : List Round → Loop
unfolding write_to_send_buf
v_write_from [] inside b una src n = if length src == 0 then wrote_all n b una else waiting n b una
v_write_from (r ∷ rs) inside b una src n =
    let b1 = record b { has_unsent = r.unsent } in
    let una1 = una_after r b una in
    let rest = write_round (v_write_from rs) b1 una1 src n (write_to_send_buf b1 una1 src) in
    if length src == 0
    then wrote_all n b una
    else if not inside && is_closing r.state
    then refused n b1 una1
    else rest

unfoldable pub v_write : List Round → SendBuf → ℕ → List ℕ → Written
unfolding v_write_from
v_write rounds b una src = v_write_from rounds false b una src 0
