-- ===== src/Tcp/User/Tests.antt =====
-- Instances of the theorems on the user's calls.
use gotcp.Prelude.{refl, Bool, true, [], ◌∷◌, arith}
use gotcp.Proto.Segment.{TcpPacket}
use gotcp.Tcp.Conn.{Conn, established, new_socket}
use gotcp.Tcp.SendBuf.{SendBuf}
use gotcp.Tcp.SendBuf.Inv.{IsValid}
use gotcp.Tcp.User.Writing.{Round, v_write}
use gotcp.Tcp.User.Writing.Appends.{WrittenSpec, v_write-WrittenSpec}
use gotcp.Tcp.User.Writing.Ends.{IsWhole, v_write-IsWhole}

abbrev network : TcpPacket → Bool
network _ = true

abbrev conn : Conn
unfolding new_socket
conn = new_socket established 5000 80 1000 100000

-- Bytes 7, 8 and 9 held, wrapped round the end of the array.
abbrev held_three : SendBuf
held_three = record {
  buf = 8 ∷ 9 ∷ 0 ∷ 7 ∷ [];
  capacity = 4;
  iss = 100;
  lbw = 106;
  has_unsent = 1;
  freespace = 0;
}

held_three-IsValid : IsValid held_three 103
held_three-IsValid = record {
  sized = refl;
  some_room = omega arith;
  small = omega arith;
  iss_lt = omega arith;
  lbw_lt = omega arith;
  una_lt = omega arith;
  ordered = omega arith;
  fits = omega arith;
}

-- One byte is acknowledged, and no signal is left for the sender.
abbrev round : Round
round = record { state = established; acked = 1; unsent = 0 }

v_write-WrittenSpec_example :
    WrittenSpec held_three 103 (1 ∷ 2 ∷ []) 0 (v_write (round ∷ []) held_three 103 (1 ∷ 2 ∷ []))
v_write-WrittenSpec_example =
    v_write-WrittenSpec (round ∷ []) held_three 103 (1 ∷ 2 ∷ []) held_three-IsValid
      (omega arith, tt) (omega arith)

v_write-IsWhole_example : IsWhole 2 (v_write (round ∷ round ∷ []) held_three 103 (1 ∷ 2 ∷ []))
v_write-IsWhole_example =
    v_write-IsWhole (round ∷ round ∷ []) held_three 103 (1 ∷ 2 ∷ []) held_three-IsValid
      ((omega arith, omega arith, refl), ((omega arith, omega arith, refl), tt)) (omega arith)
      (omega arith)
