-- ===== src/Repl/Received/Hangs.antt =====
-- The loop of `rf` when the FIN finds its call of Read waiting.
use gotcp.Prelude.{
  ℕ, zero, suc, ◌+◌, ◌<◌, ◌≡◌, refl, ◌∙◌, arith, true, false, List, [], ◌∷◌, ◌++◌, replicate, ◌==◌,
}
use gotcp.Prelude.Words.{u32_mod}
use gotcp.Tcp.RecvBuf.{RecvBuf, advance_nxt}
use gotcp.Tcp.RecvBuf.Inv.{IsValid, contents}
use gotcp.Repl.Received.{Event, finished, turn, receiving, next_read, receive_file}
use gotcp.Repl.Received.Saved.{network, offered, Open, Open-Through}

-- Without a signal, no turn changes anything.
turns_wait :
    (k : ℕ) (file : List ℕ) (total window : ℕ) (cb : RecvBuf)
    → cb.can_read ≡ 0
    → receive_file (replicate k turn) true file total window cb
      ≡ receiving true file total window cb
unfolding receive_file next_read
turns_wait zero file total window cb h = refl
turns_wait (suc k) file total window cb h = rw none_left (turns_wait k file total window cb h)
  where
    none_left : (cb.can_read == 0) ≡ true
    none_left = ground (arith, h)

-- From a valid buffer without a FIN: whatever comes in, with turns of the loop at any time; if the FIN
-- arrives while the loop's call of Read waits and no signal is there, the loop never ends, however
-- many turns it takes: it still waits, with the buffer that the FIN left, and its file and
-- the bytes that were unread when the FIN came are those unread at the start and all those that the
-- buffer accepted, in order. The sequence numbers stay below 2 ^ 32.
pub receive_file-hangs :
    (es : List Event) (k window : ℕ) (cb : RecvBuf)
    → IsValid cb
    → Open es
    → cb.fin_recvd ≡ false
    → cb.nxt + offered es + 1 < u32_mod
    → (network es false cb).1 ≡ true
    → (network es false cb).2.can_read ≡ 0
    → let (xs, waiting, d) = network es false cb in
      (file : List ℕ) × (m : ℕ) × (u : ℕ) × (receive_file
          (es ++ (finished ∷ replicate k turn))
          false
          []
          0
          window
          cb
        ≡ receiving true file m u (advance_nxt d d.nxt true))
      × (file ++ contents d ≡ contents cb ++ xs)
unfolding receive_file advance_nxt
receive_file-hangs es k window cb v o f small waiting none =
    let (g, n, w, q, same, _, _, _, _) =
      Open-Through es (finished ∷ replicate k turn) false [] 0 window cb o
        (record { valid = v; exact = refl; far = omega (arith, v, small) }) small f in
    (
      g,
      n,
      w,
      q
          ∙ rw waiting (
              turns_wait k g n w
                (advance_nxt (network es false cb).2 (network es false cb).2.nxt true) none),
      same,
    )
