-- ===== src/Tcp/RecvBuf/Fin.antt =====
-- AdvanceNxt when a FIN arrives: the FIN's own sequence number is counted among the unread bytes.
use gotcp.Prelude.{◌+◌, ◌-◌, ◌<◌, ◌≡◌, true, arith, take}
use gotcp.Prelude.Words.{u32_mod}
use gotcp.Tcp.Ring.{take-window}
use gotcp.Tcp.RecvBuf.{RecvBuf, advance_nxt, head}
use gotcp.Tcp.RecvBuf.Inv.{IsValid, used, contents}

-- A FIN that arrives in order leaves one byte more to read than the peer sent: the unread bytes
-- are still there, and behind them comes a byte of the array that no Write put there.
pub advance_nxt_fin :
    {cb : RecvBuf}
    → IsValid cb
    → used cb + 1 < cb.capacity
    → cb.nxt + 1 < u32_mod
    → let cb' = advance_nxt cb cb.nxt true in
      IsValid cb' × (used cb' ≡ used cb + 1) × (take (used cb) (contents cb') ≡ contents cb)
unfolding advance_nxt
advance_nxt_fin {cb} v h k =
    ground (arith, v, more, take-window cb.buff (head cb) (used cb) (used cb + 1))
  where
    more : cb.nxt + 1 - cb.lbr - 1 ≡ used cb + 1
    more = omega (arith, v)
