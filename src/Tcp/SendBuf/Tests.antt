-- ===== src/Tcp/SendBuf/Tests.antt =====
-- A run of the contents of a send buffer of four bytes, which wrap round the end of its array.
use gotcp.Prelude.{◌≡◌, refl, [], ◌∷◌, arith}
use gotcp.Tcp.SendBuf.{SendBuf}
use gotcp.Tcp.SendBuf.Inv.{IsValid, contents}

-- Bytes 7, 8 and 9 held, wrapped round the end of the array; 7 is acknowledged next.
abbrev held_three : SendBuf
held_three = record {
  buf = 8 ∷ 9 ∷ 0 ∷ 7 ∷ [];
  capacity = 4;
  iss = 100;
  lbw = 106;
  has_unsent = 1;
  freespace = 0;
}

held_three-IsValid : IsValid held_three 103
held_three-IsValid = record {
  sized = refl;
  some_room = omega arith;
  small = omega arith;
  iss_lt = omega arith;
  lbw_lt = omega arith;
  una_lt = omega arith;
  ordered = omega arith;
  fits = omega arith;
}

held_three-contents : contents held_three 103 ≡ 7 ∷ 8 ∷ 9 ∷ []
unfolding gotcp.Tcp.Ring.window gotcp.Tcp.SendBuf.index
held_three-contents = refl
