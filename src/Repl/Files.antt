-- ===== src/Repl/Files.antt =====
-- The goroutine of the command `sf` of pkg/tcpstack/tcp_repl.go: it reads a file piece by piece and
-- gives each piece to VWrite.
pub mod Sent
use gotcp.Prelude.{ℕ, ◌+◌, List, [], ◌∷◌}
use gotcp.Tcp.SendBuf.{SendBuf}
use gotcp.Tcp.User.Writing.{Round, Written, v_write}

-- A read of the file: a piece of it, with the rounds of the call of VWrite that gets it, the end of
-- the file, or an error.
pub data FileRead : Type 0 where
  piece : List ℕ → List Round → FileRead
  ended failed : FileRead

-- A panic or a wait with the lock held inside VWrite, a wait for room in it, its error, no read as
-- yet, or a call of VClose, at the end of the file or after an error; the last with the number of
-- bytes that are counted, the buffer and SND.UNA.
pub data Sending : Type 0 where
  panicked stuck : Sending
  waiting refused reading sent broken_off : ℕ → SendBuf → ℕ → Sending

abbrev pub after_piece : (ℕ → SendBuf → ℕ → Sending) → ℕ → Written → Sending
after_piece next n Written.panicked = panicked
after_piece next n Written.stuck = stuck
after_piece next n (Written.waiting w b una) = waiting n b una
after_piece next n (Written.refused w b una) = refused n b una
after_piece next n (Written.wrote_all w b una) = next (n + w) b una

unfoldable pub send_pieces : List FileRead → ℕ → SendBuf → ℕ → Sending
unfolding v_write
send_pieces [] n b una = reading n b una
send_pieces (piece buf rounds ∷ reads) n b una =
    after_piece (send_pieces reads) n (v_write rounds b una buf)
send_pieces (ended ∷ _) n b una = sent n b una
send_pieces (failed ∷ _) n b una = broken_off n b una

unfoldable pub send_file : List FileRead → SendBuf → ℕ → Sending
unfolding send_pieces
send_file reads b una = send_pieces reads 0 b una
