-- ===== src/Tcp/RecvBuf/Wraparound.antt =====
-- The sequence numbers past 2 ^ 32. The capacity of 65535 does not divide 2 ^ 32, so the index of
-- a sequence number jumps by one where the numbers wrap.
use gotcp.Prelude.{ℕ, ◌+◌, ◌-◌, ◌≤◌, ◌<◌, ◌≡◌, false, arith}
use gotcp.Prelude.Words.{u32_mod, add32}
use gotcp.Tcp.RecvBuf.{RecvBuf, buffer_capacity, window_size, free_space}

-- While the `u` unread bytes straddle the wrap, the code counts one byte too few.
pub window_size_wrapped :
    (cb : RecvBuf) (u : ℕ)
    → cb.capacity ≡ buffer_capacity
    → cb.is_full ≡ false
    → 0 < u
    → u < buffer_capacity
    → cb.lbr < u32_mod
    → u32_mod ≤ cb.lbr + u
    → cb.nxt ≡ add32 cb.lbr (u + 1)
    → (window_size cb + 1 ≡ u) × (free_space cb ≡ buffer_capacity - u + 1)
unfolding window_size free_space
window_size_wrapped cb u c f h k l w e = rw (c, e) (ground arith)
