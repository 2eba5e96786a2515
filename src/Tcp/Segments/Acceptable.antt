-- ===== src/Tcp/Segments/Acceptable.antt =====
-- isValidSeg: the test of RFC 9293, 3.10.7.4, on the first and the last byte, against the bytes of
-- the segment that lie in the window.
use gotcp.Prelude.{ℕ, ◌+◌, ◌-◌, ◌≤◌, ◌<◌, ◌≡◌, ◌↔◌, inl, inr, true, arith, leb, length, Bool-cases}
use gotcp.Prelude.Words.{u32_mod}
use gotcp.Proto.Segment.{TcpPacket}
use gotcp.Tcp.Conn.{Conn}
use gotcp.Tcp.Segments.{is_valid_seg}

-- The number of a byte that the segment has and the window awaits.
abbrev pub InBoth : TcpPacket → Conn → ℕ → Type 0
InBoth segment c k =
    (segment.seq_num ≤ k)
    × (k < segment.seq_num + length segment.payload)
    × (c.expected_seq_num ≤ k)
    × (k < c.expected_seq_num + c.window_size)

-- Of a segment with data, no longer than an open window by more than a byte, where neither the
-- segment nor the window reaches the end of the sequence numbers, the test accepts exactly those
-- that have a byte in the window.
pub is_valid_seg_iff :
    (segment : TcpPacket)
    → (c : Conn) → 0 < length segment.payload
    → 0 < c.window_size
    → length segment.payload ≤ c.window_size + 1
    → segment.seq_num + length segment.payload < u32_mod
    → c.expected_seq_num + c.window_size < u32_mod
    → (is_valid_seg segment c ≡ true) ↔ ((k : ℕ) × InBoth segment c k)
unfolding is_valid_seg
is_valid_seg_iff segment c h0 h1 h2 h3 h4 = (to, from)
  where
    len : ℕ
    len = length segment.payload

    to : is_valid_seg segment c ≡ true → (k : ℕ) × InBoth segment c k
    to e = elim (Bool-cases (leb c.expected_seq_num segment.seq_num)) [
      | inl f ↦ (segment.seq_num, ground (arith, f, e, h0, h1, h2, h3, h4))
      | inr f ↦ (segment.seq_num + len - 1, ground (arith, f, e, h0, h1, h2, h3, h4))
    ]

    from : (k : ℕ) × InBoth segment c k → is_valid_seg segment c ≡ true
    from (k, p) = ground (arith, p, h0, h1, h2, h3, h4)
