-- ===== src/Tcp/Early/Merge.antt =====
-- aggregateEarlyArrivals puts segments together into one stretch of the peer's stream.
use gotcp.Prelude.{
  ℕ, suc, ◌+◌, ◌-◌, ◌≤◌, ◌<◌, ◌≡◌, refl, ap, List, [], ◌∷◌, ◌++◌, none, some, arith, ltb, leb, ◌==◌,
  if◌then◌else◌, min, length, take, drop, get_elem?, length-take, length-append, lt→ltb,
  le→ltb_false,
}
use gotcp.Prelude.Words.{u32_mod, add32, sub32}
use gotcp.Prelude.Pointwise.{get_elem?-take, get_elem?-drop, get_elem?-append}
use gotcp.Proto.Segment.{TcpPacket}
use gotcp.Tcp.Early.{
  Item, PriorityQueue, heap_pop, Aggregated, panicked, running, merged, fitting, seg_end,
  aggregate_loop,
}
use gotcp.Tcp.Early.Queue.{EachItem}

-- `bytes` is what the stream holds from the sequence number `seq` on.
abbrev pub Carries : (ℕ → ℕ) → ℕ → List ℕ → Type 0
Carries stream seq bytes = (i : ℕ) (x : ℕ) → get_elem? bytes i ≡ some x → x ≡ stream (seq + i)

-- A queued segment that carries its part of the stream, below 2 ^ 32.
abbrev pub IsGenuine : (ℕ → ℕ) → Item → Type 0
IsGenuine stream x =
    Carries stream x.value.seq_num x.value.payload
    × (x.value.seq_num + length x.value.payload < u32_mod)

pub fitting-some :
    (seg : TcpPacket) (start_seq avai_wnd : ℕ) {trim : List ℕ}
    → seg.seq_num < u32_mod
    → start_seq < u32_mod
    → seg.seq_num ≤ start_seq
    → fitting seg start_seq avai_wnd ≡ some trim
    → let start = start_seq - seg.seq_num in
      let end = min (length seg.payload) avai_wnd in
      (start ≤ end) × (trim ≡ take (end - start) (drop start seg.payload))
unfolding fitting
fitting-some seg start_seq avai_wnd a b c h = ground (arith, offset)
  where
    offset :
        (if ltb seg.seq_num start_seq then sub32 start_seq seg.seq_num else 0)
        ≡ start_seq - seg.seq_num
    offset = ground arith

module _ (stream : ℕ → ℕ) where
  pub fitting-Carries :
      (seg : TcpPacket) (start_seq avai_wnd : ℕ) {trim : List ℕ}
      → Carries stream seg.seq_num seg.payload
      → seg.seq_num < u32_mod
      → start_seq < u32_mod
      → seg.seq_num ≤ start_seq
      → fitting seg start_seq avai_wnd ≡ some trim
      → Carries stream start_seq trim × (length trim ≤ avai_wnd)
  fitting-Carries seg start_seq avai_wnd {trim} g a b c h =
      let (le, e) = fitting-some seg start_seq avai_wnd a b c h in
      let start = start_seq - seg.seq_num in
      let end = min (length seg.payload) avai_wnd in
      let len = length-take (end - start) (drop start seg.payload) in
      (
        λ i x k. ground (
          arith,
          get_elem?-take (end - start) (drop start seg.payload) i,
          get_elem?-drop start seg.payload i,
          g (start + i) x,
          index i,
        ),
        omega (arith, ap length e, len),
      )
    where
      index : (i : ℕ) → seg.seq_num + (start_seq - seg.seq_num + i) ≡ start_seq + i
      index i = omega arith

  pub Carries-append :
      (seq : ℕ) (xs ys : List ℕ)
      → Carries stream seq xs
      → Carries stream (seq + length xs) ys
      → Carries stream seq (xs ++ ys)
  Carries-append seq xs ys p q i x h =
      ground (arith, get_elem?-append xs ys i, p i x, q (i - length xs) x, index)
    where
      index : length xs ≤ i → seq + length xs + (i - length xs) ≡ seq + i
      index k = omega arith

-- What aggregateEarlyArrivals has done when it returns: the bytes it got are still at the front,
-- what it added continues the stream and fits the window, and the queue still holds genuine
-- segments.
abbrev pub MergeSpec : (ℕ → ℕ) → ℕ → List ℕ → ℕ → Aggregated → Type 0
MergeSpec stream seq bytes avai_wnd panicked = Unit
MergeSpec stream seq bytes avai_wnd running = Unit
MergeSpec stream seq bytes avai_wnd (merged bytes' q') =
    Carries stream seq bytes'
    × (length bytes ≤ length bytes')
    × (length bytes' ≤ length bytes + avai_wnd)
    × EachItem (IsGenuine stream) q'

-- A later stretch that meets its own specification meets that of an earlier one.
pub MergeSpec-extend :
    (stream : ℕ → ℕ) (seq : ℕ) (bytes trim : List ℕ) (avai_wnd : ℕ) (r : Aggregated)
    → length trim ≤ avai_wnd
    → MergeSpec stream seq (bytes ++ trim) (avai_wnd - length trim) r
    → MergeSpec stream seq bytes avai_wnd r
MergeSpec-extend stream seq bytes trim avai_wnd panicked h s = tt
MergeSpec-extend stream seq bytes trim avai_wnd running h s = tt
MergeSpec-extend stream seq bytes trim avai_wnd (merged b q) h (c, lo, hi, e) =
    let len = length-append bytes trim in (c, omega (arith, len), omega (arith, len), e)

-- The ways in which a round of the loop goes on.
module _ (fuel : ℕ) (x : Item) (q : PriorityQueue) (bytes : List ℕ) (start_seq avai_wnd : ℕ) where
  pub round_discard :
      seg_end x.value < start_seq
      → aggregate_loop (suc fuel) (x ∷ q) bytes start_seq avai_wnd
        ≡ aggregate_loop fuel (heap_pop (x ∷ q)) bytes start_seq avai_wnd
  unfolding aggregate_loop
  round_discard h = rw (lt→ltb (seg_end x.value) start_seq h)

  pub round_gap :
      start_seq ≤ seg_end x.value
      → start_seq < x.value.seq_num
      → aggregate_loop (suc fuel) (x ∷ q) bytes start_seq avai_wnd ≡ merged bytes (x ∷ q)
  unfolding aggregate_loop
  round_gap h k =
      rw (le→ltb_false (seg_end x.value) start_seq h, lt→ltb start_seq x.value.seq_num k)

  -- The queue after a segment was merged.
  abbrev pub queue_after : List ℕ → PriorityQueue
  queue_after trim =
      if leb (seg_end x.value) (add32 start_seq (length trim)) then heap_pop (x ∷ q) else x ∷ q

  abbrev pub merged_after : List ℕ → Aggregated
  merged_after trim =
      if avai_wnd - length trim == 0
      then merged (bytes ++ trim) (queue_after trim)
      else aggregate_loop fuel (queue_after trim) (bytes ++ trim) (add32 start_seq (length trim))
          (avai_wnd - length trim)

  pub round_merge :
      (trim : List ℕ)
      → start_seq ≤ seg_end x.value
      → x.value.seq_num ≤ start_seq
      → fitting x.value start_seq avai_wnd ≡ some trim
      → aggregate_loop (suc fuel) (x ∷ q) bytes start_seq avai_wnd ≡ merged_after trim
  unfolding aggregate_loop
  round_merge trim h k e =
      rw (le→ltb_false (seg_end x.value) start_seq h, le→ltb_false start_seq x.value.seq_num k, e)

  pub round_panic :
      start_seq ≤ seg_end x.value
      → x.value.seq_num ≤ start_seq
      → fitting x.value start_seq avai_wnd ≡ none
      → aggregate_loop (suc fuel) (x ∷ q) bytes start_seq avai_wnd ≡ panicked
  unfolding aggregate_loop
  round_panic h k e =
      rw (le→ltb_false (seg_end x.value) start_seq h, le→ltb_false start_seq x.value.seq_num k, e)

pub loop_nil :
    (fuel : ℕ) (bytes : List ℕ) (s a : ℕ) → aggregate_loop (suc fuel) [] bytes s a ≡ merged bytes []
unfolding aggregate_loop
loop_nil fuel bytes s a = refl

pub loop_zero :
    (q : PriorityQueue) (bytes : List ℕ) (s a : ℕ) → aggregate_loop 0 q bytes s a ≡ running
unfolding aggregate_loop
loop_zero q bytes s a = refl
