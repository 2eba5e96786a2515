-- ===== src/Tcp/User/Reading.antt =====
-- VRead on an open connection: it keeps RCV.NXT and the window in step with the receive buffer.
use gotcp.Prelude.{ℕ, ◌+◌, ◌≡◌, false, List, ◌++◌, length, take, min}
use gotcp.Tcp.RecvBuf.{RecvBuf}
use gotcp.Tcp.RecvBuf.Inv.{used, contents}
use gotcp.Tcp.Conn.{Conn}
use gotcp.Tcp.State.Delivery.{InStep}
use gotcp.Tcp.User.{Got, panicked, blocked, eof, not_permitted, got}

-- Nothing is taken while there is nothing to read; else the oldest bytes are, and the window has
-- grown by their number.
abbrev pub GotSpec : Conn → List ℕ → Got → Type 0
GotSpec c buf panicked = ⊥
GotSpec c buf blocked = used c.recv_buf ≡ 0
GotSpec c buf eof = used c.recv_buf ≡ 0
GotSpec c buf not_permitted = ⊥
GotSpec c buf (got n out at_end c') =
    (n ≡ min (length buf) (used c.recv_buf))
    × (contents c.recv_buf ≡ take n out ++ contents c'.recv_buf)
    × (c'.window_size ≡ c.window_size + n)
    × (c'.expected_seq_num ≡ c.expected_seq_num)
    × (at_end ≡ false)
    × InStep c'
