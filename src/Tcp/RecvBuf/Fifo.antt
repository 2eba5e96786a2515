-- ===== src/Tcp/RecvBuf/Fifo.antt =====
-- Any sequence of Write and Read calls on one buffer: the bytes come out once, in order, unchanged.
use gotcp.Prelude.{
  ℕ, ◌+◌, ◌≤◌, ◌<◌, ◌≡◌, refl, sym, ◌∙◌, ap, List, [], ◌∷◌, ◌++◌, some, none, arith, length, take,
  Option, take-append-drop,
}
use mathlib.Core.Path.{ap₂}
use mathlib.Core.List.{append-nil, append_assoc}
use gotcp.Prelude.Words.{u32_mod}
use gotcp.Tcp.RecvBuf.{
  RecvBuf, ReadResult, panicked, blocked, eof, took, WriteResult, stuck, full, wrote, read, write,
}
use gotcp.Tcp.RecvBuf.Inv.{IsValid, contents}
use gotcp.Tcp.RecvBuf.Write.{WriteSpec, write-WriteSpec}
use gotcp.Tcp.RecvBuf.Read.{ReadSpec, read-ReadSpec}

pub data Call : Type 0 where
  write_call read_call : List ℕ → Call

-- What a sequence of calls has done: the bytes that Write accepted, the bytes that Read
-- delivered, and the buffer at the end.
pub record Trace : Type 0 where
  pub accepted : List ℕ
  pub delivered : List ℕ
  pub final : RecvBuf

abbrev after_write : RecvBuf → List ℕ → WriteResult → Option Trace
after_write cb buf panicked = none
after_write cb buf stuck = none
after_write cb buf full = some (record { accepted = []; delivered = []; final = cb })
after_write cb buf (wrote n cb') =
    some (record { accepted = take n buf; delivered = []; final = cb' })

-- A call that would wait is given up: the buffer stays as it is.
abbrev after_read : RecvBuf → ReadResult → Option Trace
after_read cb panicked = none
after_read cb blocked = some (record { accepted = []; delivered = []; final = cb })
after_read cb eof = some (record { accepted = []; delivered = []; final = cb })
after_read cb (took n buf' cb') =
    some (record { accepted = []; delivered = take n buf'; final = cb' })

abbrev call : RecvBuf → Call → Option Trace
call cb (write_call buf) = after_write cb buf (write cb buf)
call cb (read_call buf) = after_read cb (read cb buf)

abbrev append_trace : Trace → Option Trace → Option Trace
append_trace t none = none
append_trace t (some u) =
    some (record u { accepted = t.accepted ++ u.accepted; delivered = t.delivered ++ u.delivered })

pub run : RecvBuf → List Call → Option Trace
run cb [] = some (record { accepted = []; delivered = []; final = cb })
run cb (c ∷ cs) = elim (call cb c) [ none ↦ none | some t ↦ append_trace t (run t.final cs) ]

-- The bytes that the calls offer, at most.
abbrev pub offered : List Call → ℕ
offered [] = 0
offered (write_call buf ∷ cs) = length buf + offered cs
offered (read_call buf ∷ cs) = offered cs

abbrev pub SlicesFit : List Call → Type 0
SlicesFit [] = Unit
SlicesFit (write_call buf ∷ cs) = SlicesFit cs
SlicesFit (read_call buf ∷ cs) = (length buf < u32_mod) × SlicesFit cs

-- What came in equals what went out and what is left.
pub record Conserves (cb : RecvBuf) (t : Trace) : Type 0 where
  pub bytes : contents cb ++ t.accepted ≡ t.delivered ++ contents t.final
  pub valid : IsValid t.final

after_write-Conserves :
    (cb : RecvBuf) (buf : List ℕ) (r : WriteResult)
    → IsValid cb
    → WriteSpec cb buf r
    → (t : Trace) × (after_write cb buf r ≡ some t)
      × Conserves cb t
      × (t.final.nxt ≤ cb.nxt + length buf)
after_write-Conserves cb buf panicked v s = absurd s
after_write-Conserves cb buf stuck v s = absurd s
after_write-Conserves cb buf full v s =
    (_, refl, record { bytes = append-nil (contents cb); valid = v }, omega arith)
after_write-Conserves cb buf (wrote n cb') v (_, count, bytes, _, nxt, _, _, valid) =
    (_, refl, record { bytes = sym bytes; valid = valid }, omega arith)

after_read-Conserves :
    (cb : RecvBuf) (buf : List ℕ) (r : ReadResult)
    → IsValid cb
    → ReadSpec cb buf r
    → (t : Trace) × (after_read cb r ≡ some t) × Conserves cb t × (t.final.nxt ≡ cb.nxt)
after_read-Conserves cb buf panicked v s = absurd s
after_read-Conserves cb buf blocked v s =
    (_, refl, record { bytes = append-nil (contents cb); valid = v }, refl)
after_read-Conserves cb buf eof v s =
    (_, refl, record { bytes = append-nil (contents cb); valid = v }, refl)
after_read-Conserves cb buf (took n buf' cb') v (_, _, front, _, rest, nxt, _, _, valid) = (
  _,
  refl,
  record {
    bytes =
        append-nil (contents cb)
        ∙ sym (take-append-drop n (contents cb))
        ∙ ap₂ ◌++◌ (sym front) (sym rest);
    valid = valid;
  },
  nxt,
)

call-Conserves :
    (cb : RecvBuf) (c : Call) (cs : List Call)
    → IsValid cb
    → cb.nxt + offered (c ∷ cs) < u32_mod
    → SlicesFit (c ∷ cs)
    → (t : Trace) × (call cb c ≡ some t)
      × Conserves cb t
      × (t.final.nxt + offered cs < u32_mod)
      × SlicesFit cs
call-Conserves cb (write_call buf) cs v h k =
    let (t, e, c, l) =
      after_write-Conserves cb buf (write cb buf) v (write-WriteSpec buf v (omega arith)) in
    (t, e, c, omega arith, k)
call-Conserves cb (read_call buf) cs v h (k, ks) =
    let (t, e, c, l) = after_read-Conserves cb buf (read cb buf) v (read-ReadSpec buf v k) in
    (t, e, c, omega arith, ks)

-- Joining what one call conserves with what the later calls conserve.
append_trace-Conserves :
    (cb : RecvBuf) (t u : Trace)
    → Conserves cb t
    → Conserves t.final u
    → Conserves cb
        (record u { accepted = t.accepted ++ u.accepted; delivered = t.delivered ++ u.delivered })
append_trace-Conserves cb t u p q = record {
  bytes =
      sym (append_assoc (contents cb) t.accepted u.accepted)
      ∙ ap (λ (l : List ℕ). l ++ u.accepted) p.bytes
      ∙ append_assoc t.delivered (contents t.final) u.accepted
      ∙ ap (λ (l : List ℕ). t.delivered ++ l) q.bytes
      ∙ sym (append_assoc t.delivered u.delivered (contents u.final));
  valid = q.valid;
}

run_cons :
    (cb : RecvBuf) (c : Call) (cs : List Call) (t u : Trace)
    → call cb c ≡ some t
    → run t.final cs ≡ some u
    → run cb (c ∷ cs) ≡ append_trace t (some u)
unfolding run
run_cons cb c cs t u e e' = ground arith

-- Every sequence of Write and Read calls on a valid buffer runs with no panic and no wait for room
-- in the signal channel, and conserves the bytes: those unread at the start with those accepted
-- are those delivered with those unread at the end, in order. The sequence numbers must not reach
-- 2 ^ 32 on the way, and the slices given to Read must be shorter than that.
pub run-Conserves :
    (cb : RecvBuf) (cs : List Call)
    → IsValid cb
    → cb.nxt + offered cs < u32_mod
    → SlicesFit cs
    → (t : Trace) × (run cb cs ≡ some t) × Conserves cb t
unfolding run
run-Conserves cb [] v h k = (_, refl, record { bytes = append-nil (contents cb); valid = v })
run-Conserves cb (c ∷ cs) v h k =
    let (t, e, p, h', k') = call-Conserves cb c cs v h k in
    let (u, e', q) = run-Conserves t.final cs p.valid h' k' in
    (_, run_cons cb c cs t u e e', append_trace-Conserves cb t u p q)
