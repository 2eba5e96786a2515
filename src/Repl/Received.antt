-- ===== src/Repl/Received.antt =====
-- The goroutine of the command `rf` of pkg/tcpstack/tcp_repl.go: it reads a connection until the
-- sender closes it, and writes what it reads to a file.
pub mod Turns
pub mod Saved
pub mod Hangs
use gotcp.Prelude.{
  ℕ, ◌+◌, ◌-◌, ◌==◌, if◌then◌else◌, Bool, true, false, List, [], ◌∷◌, ◌++◌, length, take, replicate,
}
use gotcp.Prelude.Words.{add32, sub32}
use gotcp.Proto.Segment.{mss}
use gotcp.Tcp.RecvBuf.{
  RecvBuf, ReadResult, WriteResult, read, read_copy, read_done, write, advance_nxt,
}

-- What happens next: bytes of the sender come in, its FIN does, or the loop takes a turn.
pub data Event : Type 0 where
  arrived : List ℕ → Event
  finished turn : Event

-- A panic or a wait for room in the signal channel; the loop still running, and whether its call of
-- Read waits for a signal, or at its end; with the file, the number of bytes read, the window and
-- the buffer.
pub data Receiving : Type 0 where
  panicked stuck : Receiving
  receiving : Bool → List ℕ → ℕ → ℕ → RecvBuf → Receiving
  saved : List ℕ → ℕ → ℕ → RecvBuf → Receiving

-- `f.Truncate(n)`, which makes a shorter file longer.
abbrev pub truncate : ℕ → List ℕ → List ℕ
truncate n file = take n file ++ replicate (n - length file) 0

abbrev pub after_write : (RecvBuf → Receiving) → RecvBuf → WriteResult → Receiving
after_write next cb WriteResult.panicked = panicked
after_write next cb WriteResult.stuck = stuck
after_write next cb WriteResult.full = next cb
after_write next cb (WriteResult.wrote n cb') = next cb'

abbrev pub slice_of_mss : List ℕ
slice_of_mss = replicate mss 0

-- The loop's call of Read. One that waits already goes on only when there is a signal, and then past
-- the test for the end of the stream.
unfoldable pub next_read : Bool → RecvBuf → ReadResult
unfolding read read_copy
next_read false cb = read cb slice_of_mss
next_read true cb =
    if cb.can_read == 0 then ReadResult.blocked else read_done cb (read_copy cb slice_of_mss)

-- At the end of the stream the last byte of the file is taken for a terminator, and cut off.
abbrev pub after_read :
    (Bool → List ℕ → ℕ → ℕ → RecvBuf → Receiving)
    → List ℕ
    → ℕ
    → ℕ
    → RecvBuf
    → ReadResult
    → Receiving
after_read next file total window cb ReadResult.panicked = panicked
after_read next file total window cb ReadResult.blocked = next true file total window cb
after_read next file total window cb ReadResult.eof =
    saved (truncate (sub32 total 1) file) total window cb
after_read next file total window cb (ReadResult.took n buf cb') =
    next false (file ++ take n buf) (add32 total n) (window + n) cb'

-- `waiting` is whether a call of Read waits for a signal, which a Write gives and a FIN does not.
unfoldable pub receive_file : List Event → Bool → List ℕ → ℕ → ℕ → RecvBuf → Receiving
unfolding write advance_nxt next_read
receive_file [] waiting file total window cb = receiving waiting file total window cb
receive_file (arrived buf ∷ es) waiting file total window cb =
    after_write (receive_file es waiting file total window) cb (write cb buf)
receive_file (finished ∷ es) waiting file total window cb =
    receive_file es waiting file total window (advance_nxt cb cb.nxt true)
receive_file (turn ∷ es) waiting file total window cb =
    after_read (receive_file es) file total window cb (next_read waiting cb)
