-- ===== src/Tcp/RecvBuf/Inv.antt =====
-- What holds of a receive buffer between two calls, and the bytes that it stands for.
use gotcp.Prelude.{ℕ, ◌+◌, ◌-◌, ◌≤◌, ◌<◌, ◌≡◌, List, arith, ◌==◌, length, length-replicate}
use gotcp.Prelude.Words.{u32_mod, add-mod_step, sub32}
use gotcp.Tcp.Ring.{wrap, window}
use gotcp.Tcp.RecvBuf.{RecvBuf, new, head, tail}

-- The number of unread bytes, and the bytes, oldest first.
abbrev pub used : RecvBuf → ℕ
used cb = cb.nxt - cb.lbr - 1

abbrev pub contents : RecvBuf → List ℕ
contents cb = window cb.buff (head cb) (used cb)

-- The sequence numbers in the buffer have not wrapped past 2 ^ 32.
pub record IsValid (cb : RecvBuf) : Type 0 where
  pub sized : length cb.buff ≡ cb.capacity
  pub some_room : 0 < cb.capacity
  pub small : cb.capacity ≤ 65535
  pub ordered : cb.lbr < cb.nxt
  pub no_wrap : cb.nxt < u32_mod
  pub fits : used cb ≤ cb.capacity
  pub full_iff : cb.is_full ≡ (used cb == cb.capacity)
  pub signals : cb.can_read ≤ used cb

-- A new buffer is valid and empty.
pub new-IsValid :
    (capacity start : ℕ)
    → 0 < capacity
    → capacity ≤ 65535
    → start + 1 < u32_mod
    → IsValid (new capacity start) × (used (new capacity start) ≡ 0)
unfolding new
new-IsValid capacity start h k l = ground (arith, length-replicate {A = ℕ} capacity 0)

module _ {cb : RecvBuf} (v : IsValid cb) where
  pub last-eq : sub32 cb.nxt 1 ≡ cb.lbr + used cb
  last-eq = omega (arith, v)

  pub head-lt : head cb < cb.capacity
  head-lt = omega (arith, v)

  -- The index one past the unread bytes.
  pub tail-eq : tail cb ≡ wrap cb.capacity (head cb + used cb)
  tail-eq = ground (arith, last-eq, add-mod_step cb.lbr (used cb) cb.capacity v.some_room v.fits)
