-- ===== src/Tcp/RecvBuf/Read.antt =====
-- Read: it yields the oldest bytes, as many as the caller's slice holds, and consumes just those.
use gotcp.Prelude.{
  ℕ, ◌+◌, ◌-◌, ◌%◌, ◌≤◌, ◌<◌, ◌≡◌, refl, true, false, not, List, [], ◌∷◌, some, arith, min, ◌==◌,
  if◌then◌else◌, length, take, drop, copy_at, Option, length-copy_at, length-drop, take_all, ◌&&◌,
  lt→ltb, le→ltb_false, le→leb, lt→leb_false,
}
use native.Mathlib.Nat.{mod-eq_of_lt, mod-eq-sub-mod}
use native.Mathlib.Decide.{dec_le, dec_lt}
use gotcp.Prelude.Words.{u32_mod, add32, sub32, add-mod_step}
use gotcp.Prelude.Copies.{copy_at_twice, take-copy_at, drop-copy_at}
use gotcp.Tcp.Ring.{
  window, window_in_order, window_wrapped, take-window, drop-window, length-window,
}
use gotcp.Tcp.RecvBuf.{
  RecvBuf, head, tail, ReadResult, panicked, blocked, eof, took, read, read_copy, clip,
}
use gotcp.Tcp.RecvBuf.Inv.{IsValid, used, contents, head-lt, tail-eq, last-eq}

module _ {cb : RecvBuf} (v : IsValid cb) (buf : List ℕ) (small : length buf < u32_mod) where
  abbrev count : ℕ
  count = min (length buf) (used cb)

  clip-count : clip (used cb) buf ≡ count
  clip-count = ground (arith, mod-eq_of_lt small)

  abbrev result : Option (ℕ × List ℕ)
  result = some (count, copy_at buf 0 (window cb.buff (head cb) count))

  read_copy_in_order : 0 < used cb → head cb + used cb < cb.capacity → read_copy cb buf ≡ result
  unfolding read_copy
  read_copy_in_order h p =
      let t : tail cb ≡ head cb + used cb = ground (arith, tail-eq v) in
      rw (t, lt→ltb (head cb) (head cb + used cb) (omega arith), n, clip-count, e)
        (ground (arith, v, window_in_order cb.buff (head cb) count))
    where
      n : sub32 (head cb + used cb) (head cb) ≡ used cb
      n = omega (arith, v, head-lt v)

      e : add32 (head cb) count ≡ head cb + count
      e = omega (arith, v, head-lt v)

  read_copy_round : 0 < used cb → cb.capacity ≤ head cb + used cb → read_copy cb buf ≡ result
  unfolding read_copy
  read_copy_round h p =
      let t : tail cb ≡ head cb + used cb - cb.capacity = ground (arith, tail-eq v) in
      rw
        (
          t,
          le→ltb_false (head cb) (head cb + used cb - cb.capacity) (omega (arith, v)),
          n,
          clip-count,
          e,
        )
        (elim (dec_le (head cb + count) cb.capacity) [
          | yes q ↦
              rw (le→leb (head cb + count) cb.capacity q)
                (ground (arith, v, head-lt v, window_in_order cb.buff (head cb) count))
          | no q ↦
              rw (lt→leb_false (head cb + count) cb.capacity (omega arith), past q, r)
                (ground (
                  arith,
                  v,
                  head-lt v,
                  window_wrapped cb.buff (head cb) count,
                  copy_at_twice buf (drop (head cb) cb.buff)
                      (take (head cb + count - cb.capacity) cb.buff),
                  length-drop (head cb) cb.buff,
                  length-copy_at buf 0 (drop (head cb) cb.buff),
                  take_all (cb.capacity - head cb) (drop (head cb) cb.buff),
                  sub_zero,
                ))
        ])
    where
      r : sub32 cb.capacity (head cb) ≡ cb.capacity - head cb
      r = omega (arith, v, head-lt v)

      n : add32 (sub32 cb.capacity (head cb)) (head cb + used cb - cb.capacity) ≡ used cb
      n = omega (arith, v, head-lt v)

      e : add32 (head cb) count ≡ head cb + count
      e = omega (arith, v, head-lt v)

      past :
          ¬ (head cb + count ≤ cb.capacity)
          → (head cb + count) % cb.capacity ≡ head cb + count - cb.capacity
      past q = ground (
        arith,
        v,
        head-lt v,
        mod-eq-sub-mod {n = head cb + count} {m = cb.capacity},
        mod-eq_of_lt {n = head cb + count - cb.capacity} {m = cb.capacity},
      )

      sub_zero : head cb + count - cb.capacity - 0 ≡ head cb + count - cb.capacity
      sub_zero = omega arith

  -- Where there are unread bytes, every way of copying takes the same stretch, and none panics.
  pub read_copy-eq : 0 < used cb → read_copy cb buf ≡ result
  read_copy-eq h = elim (dec_lt (head cb + used cb) cb.capacity) [
    | yes p ↦ read_copy_in_order h p
    | no p ↦ read_copy_round h (omega arith)
  ]

-- What a Read may do. It never panics. It waits only if the buffer is empty, and reports the end
-- of the stream only if it is empty and a FIN was received. Else it puts the oldest bytes, as many
-- as the slice holds, at the front of the slice, leaves the rest of the slice alone, consumes
-- exactly those bytes, and the buffer is valid again.
abbrev pub ReadSpec : RecvBuf → List ℕ → ReadResult → Type 0
ReadSpec cb buf panicked = ⊥
ReadSpec cb buf blocked = (0 < length buf) × (used cb ≡ 0)
ReadSpec cb buf eof = (0 < length buf) × (used cb ≡ 0) × (cb.fin_recvd ≡ true)
ReadSpec cb buf (took n buf' cb') =
    (0 < length buf → 0 < used cb)
    × (n ≡ min (length buf) (used cb))
    × (take n buf' ≡ take n (contents cb))
    × (drop n buf' ≡ drop n buf)
    × (contents cb' ≡ drop n (contents cb))
    × (cb'.nxt ≡ cb.nxt)
    × (cb'.capacity ≡ cb.capacity)
    × (cb'.fin_recvd ≡ cb.fin_recvd)
    × IsValid cb'

-- The buffer with its first `n` bytes consumed.
abbrev consumed : RecvBuf → ℕ → RecvBuf
consumed cb n = record cb { is_full = false; lbr = cb.lbr + n; can_read = 0 }

module _ {cb : RecvBuf} (v : IsValid cb) (n : ℕ) (some_bytes : 0 < n) (fit : n ≤ used cb) where
  consumed-IsValid : IsValid (consumed cb n)
  consumed-IsValid = ground (arith, v, fewer)
    where
      fewer : cb.nxt - (cb.lbr + n) - 1 ≡ used cb - n
      fewer = omega (arith, v)

  contents-consumed : contents (consumed cb n) ≡ drop n (contents cb)
  contents-consumed = ground (
    arith,
    v,
    fewer,
    head-lt v,
    add-mod_step cb.lbr n cb.capacity,
    drop-window cb.buff (head cb) n (used cb),
  )
    where
      fewer : cb.nxt - (cb.lbr + n) - 1 ≡ used cb - n
      fewer = omega (arith, v)

read_nil : (cb : RecvBuf) → read cb [] ≡ took 0 [] cb
unfolding read
read_nil cb = refl

-- An empty buffer: the end of the stream after a FIN, else a wait.
read_empty :
    {cb : RecvBuf} (x : ℕ) (xs : List ℕ)
    → IsValid cb
    → used cb ≡ 0
    → read cb (x ∷ xs) ≡ (if cb.fin_recvd then eof else blocked)
unfolding read
read_empty {cb} x xs v e = ground (arith, v, last-eq v)

-- A buffer that holds bytes never looks empty: where head and tail meet, it is full.
pub not_waiting :
    {cb : RecvBuf} → IsValid cb → 0 < used cb → (tail cb == head cb && not cb.is_full) ≡ false
not_waiting {cb} v h = ground (arith, v, tail-eq v, head-lt v)

read_some :
    {cb : RecvBuf} (x : ℕ) (xs : List ℕ)
    → IsValid cb
    → length (x ∷ xs) < u32_mod
    → 0 < used cb
    → let n = min (length (x ∷ xs)) (used cb) in
      read cb (x ∷ xs) ≡ took n (copy_at (x ∷ xs) 0 (window cb.buff (head cb) n)) (consumed cb n)
unfolding read
read_some {cb} x xs v small h =
    rw (read_copy-eq v (x ∷ xs) small h, not_at_end, not_waiting v h, moved) (ground arith)
  where
    not_at_end : (sub32 cb.nxt 1 == cb.lbr) ≡ false
    not_at_end = ground (arith, v, last-eq v)

    moved :
        add32 cb.lbr (min (length (x ∷ xs)) (used cb)) ≡ cb.lbr + min (length (x ∷ xs)) (used cb)
    moved = omega (arith, v)

read_some-ReadSpec :
    {cb : RecvBuf} (x : ℕ) (xs : List ℕ)
    → IsValid cb
    → 0 < used cb
    → let n = min (length (x ∷ xs)) (used cb) in
      ReadSpec cb
        (x ∷ xs)
        (took n (copy_at (x ∷ xs) 0 (window cb.buff (head cb) n)) (consumed cb n))
read_some-ReadSpec {cb} x xs v h = (
  λ _. h,
  refl,
  ground (arith, size, take-copy_at (x ∷ xs) s, take-window cb.buff (head cb) n (used cb)),
  ground (arith, size, drop-copy_at (x ∷ xs) s),
  contents-consumed v n (omega arith) (omega arith),
  refl,
  refl,
  refl,
  consumed-IsValid v n (omega arith) (omega arith),
)
  where
    n : ℕ
    n = min (length (x ∷ xs)) (used cb)

    s : List ℕ
    s = window cb.buff (head cb) n

    size : length s ≡ n
    size = ground (arith, v, head-lt v, length-window cb.buff (head cb) n)

-- On a valid buffer, and with a slice shorter than 2 ^ 32, Read never panics. It waits or reports
-- the end only when nothing is unread, and the end only after a FIN. Else it puts the oldest unread
-- bytes at the front of the slice, in order, as many as fit, leaves the rest of the slice alone,
-- consumes just those bytes, and the buffer is valid again.
pub read-ReadSpec :
    {cb : RecvBuf} (buf : List ℕ)
    → IsValid cb
    → length buf < u32_mod
    → ReadSpec cb buf (read cb buf)
read-ReadSpec {cb} [] v small =
    rw read_nil (λ h. absurd (omega arith), omega arith, refl, refl, refl, refl, refl, refl, v)
read-ReadSpec {cb} (x ∷ xs) v small = elim (dec_lt 0 (used cb)) [
  | yes h ↦ rw (read_some x xs v small h) (read_some-ReadSpec x xs v h)
  | no h ↦ rw (read_empty x xs v (omega arith)) (ground (arith, v))
]
