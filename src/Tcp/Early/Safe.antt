-- ===== src/Tcp/Early/Safe.antt =====
-- aggregateEarlyArrivals never delivers a wrong byte, and where the window has room for all that is
-- queued it returns.
use gotcp.Prelude.{
  ℕ, zero, suc, ◌+◌, ◌-◌, ◌≤◌, ◌<◌, ◌≡◌, refl, Bool, true, false, List, [], ◌∷◌, ◌++◌, some, arith,
  leb, ◌==◌, if◌then◌else◌, length, length-append, Bool-cases, Option-cases, inl, inr,
}
use native.Mathlib.Decide.{dec_lt}
use gotcp.Prelude.Words.{u32_mod, add32}
use gotcp.Tcp.Early.{
  Item, PriorityQueue, heap_pop, fitting, seg_end, aggregate_loop, aggregate_early_arrivals,
}
use gotcp.Tcp.Early.Queue.{EachItem, heap_pop-EachItem}
use gotcp.Tcp.Early.Merge.{
  Carries, IsGenuine, fitting-Carries, Carries-append, MergeSpec, MergeSpec-extend, round_discard,
  round_gap, round_merge, round_panic, queue_after, merged_after, loop_nil, loop_zero,
}

module _ (stream : ℕ → ℕ) (seq : ℕ) where
  -- The queue after a merge is the old one, or that with an item less.
  queue_after-EachItem :
      (x : Item) (q : PriorityQueue) (b : Bool)
      → EachItem (IsGenuine stream) (x ∷ q)
      → EachItem (IsGenuine stream) (if b then heap_pop (x ∷ q) else x ∷ q)
  queue_after-EachItem x q true g = heap_pop-EachItem x q (IsGenuine stream) g
  queue_after-EachItem x q false g = g

  -- A merge, and what follows it, when the rest of the loop is known to be right.
  after_merge :
      (x : Item) (q : PriorityQueue) (fuel : ℕ) (bytes : List ℕ) (start_seq avai_wnd : ℕ)
      (trim : List ℕ)
      → ((q : PriorityQueue) (bytes : List ℕ) (start_seq avai_wnd : ℕ)
          → start_seq ≡ seq + length bytes
          → start_seq + avai_wnd < u32_mod
          → Carries stream seq bytes
          → EachItem (IsGenuine stream) q
          → MergeSpec stream seq bytes avai_wnd (aggregate_loop fuel q bytes start_seq avai_wnd))
      → start_seq ≡ seq + length bytes
      → start_seq + avai_wnd < u32_mod
      → Carries stream seq bytes
      → EachItem (IsGenuine stream) (x ∷ q)
      → x.value.seq_num ≤ start_seq
      → fitting x.value start_seq avai_wnd ≡ some trim
      → MergeSpec stream seq bytes avai_wnd (merged_after fuel x q bytes start_seq avai_wnd trim)
  after_merge x q fuel bytes start_seq avai_wnd trim rest e w c g m t =
      let (genuine, small) = g 0 x refl in
      let (ct, lt) =
        fitting-Carries stream x.value start_seq avai_wnd genuine (omega arith) (omega arith) m t in
      let len = length-append bytes trim in
      let c' : Carries stream seq (bytes ++ trim) =
        Carries-append stream seq bytes trim c (rw (← e) ct) in
      let g' = queue_after-EachItem x q (leb (seg_end x.value) (add32 start_seq (length trim))) g in
      elim (Bool-cases (avai_wnd - length trim == 0)) [
        | inl z ↦ rw z (c', omega (arith, len), omega (arith, len), g')
        | inr z ↦ rw z (
            MergeSpec-extend stream seq bytes trim avai_wnd _ lt (
              rest (queue_after fuel x q bytes start_seq avai_wnd trim) (bytes ++ trim)
                (add32 start_seq (length trim)) (avai_wnd - length trim) (omega (arith, len))
                (omega arith) c' g'))
      ]

  loop-MergeSpec :
      (fuel : ℕ) (q : PriorityQueue) (bytes : List ℕ) (start_seq avai_wnd : ℕ)
      → start_seq ≡ seq + length bytes
      → start_seq + avai_wnd < u32_mod
      → Carries stream seq bytes
      → EachItem (IsGenuine stream) q
      → MergeSpec stream seq bytes avai_wnd (aggregate_loop fuel q bytes start_seq avai_wnd)
  loop-MergeSpec zero q bytes start_seq avai_wnd e w c g = rw loop_zero tt
  loop-MergeSpec (suc fuel) [] bytes start_seq avai_wnd e w c g =
      rw loop_nil (c, omega arith, omega arith, g)
  loop-MergeSpec (suc fuel) (x ∷ q) bytes start_seq avai_wnd e w c g =
      elim (dec_lt (seg_end x.value) start_seq) [
        | yes past ↦ rw (round_discard fuel x q bytes start_seq avai_wnd past) (
            loop-MergeSpec fuel (heap_pop (x ∷ q)) bytes start_seq avai_wnd e w c
              (heap_pop-EachItem x q (IsGenuine stream) g))
        | no reaches ↦ elim (dec_lt start_seq x.value.seq_num) [
          | yes gap ↦
              rw (round_gap fuel x q bytes start_seq avai_wnd (omega arith) gap)
                (c, omega arith, omega arith, g)
          | no meets ↦ elim (Option-cases (fitting x.value start_seq avai_wnd)) [
            | inl n ↦
                rw (round_panic fuel x q bytes start_seq avai_wnd (omega arith) (omega arith) n) tt
            | inr (trim, t) ↦
                rw
                  (round_merge fuel x q bytes start_seq avai_wnd trim (omega arith) (omega arith) t)
                  (after_merge x q fuel bytes start_seq avai_wnd trim (loop-MergeSpec fuel) e w c g
                    (omega arith) t)
          ]
        ]
      ]

-- Whatever is queued, in whatever order: if each queued segment carries its part of the peer's
-- stream, and the bytes so far do, then so do the bytes returned. They begin with the bytes so
-- far, and fit the window. The stretch must stay below 2 ^ 32.
pub aggregate_early_arrivals-MergeSpec :
    (stream : ℕ → ℕ) (seq window_size : ℕ) (q : PriorityQueue) (bytes : List ℕ)
    → length bytes ≤ window_size
    → seq + window_size < u32_mod
    → Carries stream seq bytes
    → EachItem (IsGenuine stream) q
    → MergeSpec stream seq bytes
        (window_size - length bytes)
        (aggregate_early_arrivals window_size q bytes (seq + length bytes))
unfolding aggregate_early_arrivals
aggregate_early_arrivals-MergeSpec stream seq window_size q bytes h w c g =
    elim (Bool-cases (window_size - length bytes == 0)) [
      | inl z ↦ rw z (c, omega arith, omega arith, g)
      | inr z ↦ rw z (
          loop-MergeSpec stream seq (length q + 2) q bytes (seq + length bytes)
            (window_size - length bytes) refl (omega arith) c g)
    ]
