-- ===== src/Tcp/RecvBuf/Counts.antt =====
-- The calls that only look at the buffer.
use gotcp.Prelude.{
  ℕ, ◌+◌, ◌-◌, ◌%◌, ◌≤◌, ◌<◌, ◌≡◌, not, ◌&&◌, List, some, arith, ltb, ◌==◌, if◌then◌else◌, length,
  take, drop, replicate, copy_at, length-replicate, length-drop, length-copy_at, take_all,
}
use gotcp.Prelude.Words.{add32, sub32, add-mod_step}
use gotcp.Prelude.Copies.{copy_at_twice, copy_at_whole}
use native.Mathlib.Decide.{dec_lt}
use gotcp.Tcp.Ring.{length-window, window, window_in_order, window_wrapped}
use gotcp.Tcp.RecvBuf.{RecvBuf, head, tail, window_size, free_space, is_empty, bytes}
use gotcp.Tcp.RecvBuf.Inv.{IsValid, used, contents, head-lt, tail-eq, last-eq}

-- The code's count of unread bytes is exact, full and empty buffers included.
pub window_size-eq : {cb : RecvBuf} → IsValid cb → window_size cb ≡ used cb
unfolding window_size
window_size-eq v = ground (arith, head-lt v, tail-eq v)

-- The free space and the unread bytes make up the capacity.
pub free_space-add-used : {cb : RecvBuf} → IsValid cb → free_space cb + used cb ≡ cb.capacity
unfolding free_space
free_space-add-used v = ground (arith, head-lt v, tail-eq v)

-- IsEmpty compares with `nxt % capacity - 1`, so it knows an empty buffer except where `nxt` is a
-- multiple of the capacity.
pub is_empty-eq :
    {cb : RecvBuf} → IsValid cb → is_empty cb ≡ ((used cb == 0) && not (cb.nxt % cb.capacity == 0))
unfolding is_empty
is_empty-eq {cb} v = ground (arith, v, head-lt v, tail-eq v, last-eq v, next_index)
  where
    next_nxt : sub32 cb.nxt 1 + 1 ≡ cb.nxt
    next_nxt = omega (arith, v)

    next_index : cb.nxt % cb.capacity ≡ (if ltb (tail cb + 1) cb.capacity then tail cb + 1 else 0)
    next_index = rw (← next_nxt) (ground (arith, v, add-mod_step (sub32 cb.nxt 1) 1 cb.capacity))

module _ {cb : RecvBuf} (v : IsValid cb) where
  whole : (n : ℕ) (s : List ℕ) → length s ≡ n → copy_at (replicate n 0) 0 s ≡ s
  whole n s e =
      copy_at_whole (replicate n 0) s (omega (arith, length-replicate {A = ℕ} n 0))
        (omega (arith, length-replicate {A = ℕ} n 0))

  whole_window :
      (n : ℕ)
      → n ≤ cb.capacity
      → copy_at (replicate n 0) 0 (window cb.buff (head cb) n) ≡ window cb.buff (head cb) n
  whole_window n h =
      whole n _ (length-window cb.buff (head cb) n (omega (arith, v, head-lt v)) (omega (arith, v)))

  bytes_in_order : 0 < used cb → head cb + used cb < cb.capacity → bytes cb ≡ some (contents cb)
  unfolding bytes
  bytes_in_order h p =
      let t : tail cb ≡ head cb + used cb = ground (arith, tail-eq v) in
      rw (t, n)
        (ground (arith, v, window_in_order cb.buff (head cb) (used cb), whole_window (used cb)))
    where
      n : sub32 (head cb + used cb) (head cb) ≡ used cb
      n = omega (arith, v, head-lt v)

  bytes_round : 0 < used cb → cb.capacity ≤ head cb + used cb → bytes cb ≡ some (contents cb)
  unfolding bytes
  bytes_round h p =
      let t : tail cb ≡ head cb + used cb - cb.capacity = ground (arith, tail-eq v) in
      rw (t, n, r, e)
        (ground (
          arith,
          v,
          head-lt v,
          window_wrapped cb.buff (head cb) (used cb),
          copy_at_twice (replicate (used cb) 0) (drop (head cb) cb.buff)
              (take (head cb + used cb - cb.capacity) cb.buff),
          length-drop (head cb) cb.buff,
          length-copy_at (replicate (used cb) 0) 0 (drop (head cb) cb.buff),
          length-replicate {A = ℕ} (used cb) 0,
          take_all (cb.capacity - head cb) (drop (head cb) cb.buff),
          whole_window (used cb),
          sub_zero,
          rest,
        ))
    where
      r : sub32 cb.capacity (head cb) ≡ cb.capacity - head cb
      r = omega (arith, v, head-lt v)

      n : add32 (sub32 cb.capacity (head cb)) (head cb + used cb - cb.capacity) ≡ used cb
      n = omega (arith, v, head-lt v)

      e : add32 (head cb) (used cb) ≡ head cb + used cb
      e = omega (arith, v, head-lt v)

      rest : sub32 (used cb) (cb.capacity - head cb) ≡ head cb + used cb - cb.capacity
      rest = omega (arith, v, head-lt v)

      sub_zero : head cb + used cb - cb.capacity - 0 ≡ head cb + used cb - cb.capacity
      sub_zero = omega arith

  bytes_empty : used cb ≡ 0 → bytes cb ≡ some (contents cb)
  unfolding bytes window
  bytes_empty e = ground (arith, v, tail-eq v, head-lt v)

  -- Bytes copies out just the unread bytes, in order, and never panics.
  pub bytes-eq : bytes cb ≡ some (contents cb)
  bytes-eq = elim (dec_lt 0 (used cb)) [
    | yes h ↦ elim (dec_lt (head cb + used cb) cb.capacity) [
      | yes p ↦ bytes_in_order h p
      | no p ↦ bytes_round h (omega arith)
    ]
    | no h ↦ bytes_empty (omega arith)
  ]
