-- ===== src/Tcp/Early/Hang.antt =====
-- Where the window cuts a segment short: `end` is counted from the start of the payload, not from
-- the bytes still wanted, so aggregateEarlyArrivals panics or never ends.
use gotcp.Prelude.{
  ℕ, zero, suc, ◌+◌, ◌-◌, ◌≤◌, ◌<◌, ◌≡◌, ◌∙◌, false, List, [], ◌∷◌, none, some, arith, leb, length,
}
use mathlib.Core.List.{append-nil}
use gotcp.Prelude.Words.{u32_mod, add32, sub32}
use gotcp.Proto.Segment.{TcpPacket}
use gotcp.Tcp.Early.{Item, PriorityQueue, panicked, running, fitting, seg_end, aggregate_loop}
use gotcp.Tcp.Early.Merge.{round_merge, round_panic, loop_zero}

cut_none :
    (seg : TcpPacket) (n a : ℕ)
    → seg.seq_num + n < u32_mod
    → n ≤ length seg.payload
    → a < n
    → fitting seg (seg.seq_num + n) a ≡ none
unfolding fitting
cut_none seg n a b l h = ground (arith, offset)
  where
    offset : sub32 (seg.seq_num + n) seg.seq_num ≡ n
    offset = omega arith

cut_empty :
    (seg : TcpPacket) (n : ℕ)
    → seg.seq_num + n < u32_mod
    → 0 < n
    → n ≤ length seg.payload
    → fitting seg (seg.seq_num + n) n ≡ some []
unfolding fitting
cut_empty seg n b z l = ground (arith, offset, no_width)
  where
    offset : sub32 (seg.seq_num + n) seg.seq_num ≡ n
    offset = omega arith

    no_width : n - n ≡ 0
    no_width = omega arith

-- One round leaves everything as it was.
same_again :
    (fuel : ℕ) (x : Item) (q : PriorityQueue) (bytes : List ℕ) (n : ℕ)
    → 0 < n
    → n < length x.value.payload
    → x.value.seq_num + length x.value.payload < u32_mod
    → aggregate_loop (suc fuel) (x ∷ q) bytes (x.value.seq_num + n) n
      ≡ aggregate_loop fuel (x ∷ q) bytes (x.value.seq_num + n) n
same_again fuel x q bytes n z l w =
    round_merge fuel x q bytes (x.value.seq_num + n) n [] (omega arith) (omega arith)
      (cut_empty x.value n (omega arith) z (omega arith))
    ∙ ground (arith, append-nil bytes, not_all, still, no_less)
  where
    not_all : leb (seg_end x.value) (add32 (x.value.seq_num + n) 0) ≡ false
    not_all = ground arith

    still : add32 (x.value.seq_num + n) 0 ≡ x.value.seq_num + n
    still = omega arith

    no_less : n - 0 ≡ n
    no_less = omega arith

never_ends :
    (fuel : ℕ) (x : Item) (q : PriorityQueue) (bytes : List ℕ) (n : ℕ)
    → 0 < n
    → n < length x.value.payload
    → x.value.seq_num + length x.value.payload < u32_mod
    → aggregate_loop fuel (x ∷ q) bytes (x.value.seq_num + n) n ≡ running
never_ends zero x q bytes n z l w = loop_zero (x ∷ q) bytes (x.value.seq_num + n) n
never_ends (suc fuel) x q bytes n z l w =
    same_again fuel x q bytes n z l w ∙ never_ends fuel x q bytes n z l w

-- The first segment of the queue begins `n` bytes before the bytes that are wanted, and the window
-- has room for `avai_wnd` more. With less room than `n` the slice is out of range, a panic, whether
-- anything of the segment is wanted or not. With room for just `n`, and some of it wanted, no
-- number of rounds ends the loop.
pub aggregate_loop_cut :
    (fuel : ℕ) (x : Item) (q : PriorityQueue) (bytes : List ℕ) (n avai_wnd : ℕ)
    → 0 < n
    → n ≤ length x.value.payload
    → x.value.seq_num + length x.value.payload < u32_mod
    → (avai_wnd < n
        → aggregate_loop (suc fuel) (x ∷ q) bytes (x.value.seq_num + n) avai_wnd ≡ panicked)
      × (avai_wnd ≡ n
          → n < length x.value.payload
          → aggregate_loop fuel (x ∷ q) bytes (x.value.seq_num + n) avai_wnd ≡ running)
aggregate_loop_cut fuel x q bytes n a z l w = (
  λ h.
      round_panic fuel x q bytes (x.value.seq_num + n) a (omega arith) (omega arith)
        (cut_none x.value n a (omega arith) l h),
  λ e k. rw e (never_ends fuel x q bytes n z k w),
)
