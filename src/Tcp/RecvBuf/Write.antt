-- ===== src/Tcp/RecvBuf/Write.antt =====
-- Write: it takes as many bytes as fit and appends exactly those, in order.
use gotcp.Prelude.{
  ℕ, ◌+◌, ◌-◌, ◌%◌, ◌≤◌, ◌<◌, ◌≡◌, refl, true, List, [], ◌∷◌, ◌++◌, some, arith, min, ◌==◌, length,
  length-copy_at, length-drop, take_all, take, drop, length-take, sym, Bool-cases, inl, inr,
}
use native.Mathlib.Nat.{mod-eq_of_lt, mod_self}
use mathlib.Core.List.{append-nil}
use gotcp.Prelude.Words.{u32_mod, add32, sub32}
use gotcp.Tcp.Ring.{place, place_fits, place_wrapped, length-place, window-place}
use gotcp.Tcp.RecvBuf.{
  RecvBuf, head, tail, WriteResult, panicked, stuck, full, wrote, write, write_copy, trimmed, avail,
  write_done,
}
use gotcp.Tcp.RecvBuf.Inv.{IsValid, used, contents, head-lt, tail-eq}

module _ {cb : RecvBuf} (v : IsValid cb) where
  -- Where the buffer is not full, the room that Write computes is the free space.
  avail-eq : used cb < cb.capacity → avail cb ≡ cb.capacity - used cb
  avail-eq h = ground (arith, head-lt v, tail-eq v)

  tail_lt : tail cb < cb.capacity
  tail_lt = omega (arith, v)

  room_to_end : sub32 cb.capacity (tail cb) ≡ cb.capacity - tail cb
  room_to_end = omega (arith, v, tail_lt)

  -- Both ways of copying are one placing, and neither panics.
  write_copy-eq :
      (src : List ℕ)
      → used cb < cb.capacity
      → length src ≤ cb.capacity - used cb
      → write_copy cb src ≡ some (place cb.buff (tail cb) src)
  unfolding write_copy
  write_copy-eq src h k = ground (
    arith,
    v,
    tail-eq v,
    head-lt v,
    tail_lt,
    room_to_end,
    place_fits cb.buff (tail cb) src,
    place_wrapped cb.buff (tail cb) src,
    length-copy_at cb.buff (tail cb) (take (cb.capacity - tail cb) src),
    take_all (length src - (cb.capacity - tail cb)) (drop (cb.capacity - tail cb) src),
    length-drop (cb.capacity - tail cb) src,
    sub_zero (cb.capacity - tail cb),
  )
    where
      sub_zero : (n : ℕ) → n - 0 ≡ n
      sub_zero n = omega arith

-- What a Write may do. It never panics and never waits for room in the signal channel. It is
-- refused only if the buffer is full; else it takes as many bytes as fit, appends them in order
-- to the unread bytes, and the buffer is valid again.
abbrev pub WriteSpec : RecvBuf → List ℕ → WriteResult → Type 0
WriteSpec cb buf panicked = ⊥
WriteSpec cb buf stuck = ⊥
WriteSpec cb buf full = (0 < length buf) × (used cb ≡ cb.capacity)
WriteSpec cb buf (wrote n cb') =
    (0 < length buf → used cb < cb.capacity)
    × (n ≡ min (length buf) (cb.capacity - used cb))
    × (contents cb' ≡ contents cb ++ take n buf)
    × (cb'.lbr ≡ cb.lbr)
    × (cb'.nxt ≡ cb.nxt + n)
    × (cb'.capacity ≡ cb.capacity)
    × (cb'.fin_recvd ≡ cb.fin_recvd)
    × IsValid cb'

-- The buffer with `src` appended.
abbrev written : RecvBuf → List ℕ → RecvBuf
written cb src = record cb {
  buff = place cb.buff (tail cb) src;
  nxt = cb.nxt + length src;
  can_read = cb.can_read + 1;
  is_full = used cb + length src == cb.capacity;
}

module _ {cb : RecvBuf} (v : IsValid cb) (src : List ℕ) (some_bytes : 0 < length src)
    (fit : used cb + length src ≤ cb.capacity) (no_wrap : cb.nxt + length src < u32_mod) where
  write_done-eq :
      write_done cb (length src % u32_mod) (some (place cb.buff (tail cb) src))
      ≡ wrote (length src) (written cb src)
  write_done-eq = ground (
    arith,
    v,
    grown,
    mod-eq_of_lt {n = used cb + length src} {m = cb.capacity},
    mod_self cb.capacity,
  )
    where
      grown : sub32 (sub32 (add32 cb.nxt (length src)) 1) cb.lbr ≡ used cb + length src
      grown = omega (arith, v)

  written-IsValid : IsValid (written cb src)
  written-IsValid = ground (arith, v, length-place cb.buff (tail cb) src)

  contents-written : contents (written cb src) ≡ contents cb ++ src
  contents-written =
      ground (arith, v, grown, tail-eq v, head-lt v, window-place cb.buff (head cb) (used cb) src)
    where
      grown : cb.nxt + length src - cb.lbr - 1 ≡ used cb + length src
      grown = omega (arith, v)

-- The bytes that Write keeps.
trimmed-eq :
    {cb : RecvBuf} (buf : List ℕ)
    → IsValid cb
    → used cb < cb.capacity
    → trimmed cb buf ≡ take (min (length buf) (cb.capacity - used cb)) buf
trimmed-eq {cb} buf v h =
    ground (arith, avail-eq v h, take_all (min (length buf) (cb.capacity - used cb)) buf)

write_some :
    {cb : RecvBuf} (buf : List ℕ)
    → IsValid cb
    → cb.nxt + length buf < u32_mod
    → 0 < length buf
    → used cb < cb.capacity
    → let n = min (length buf) (cb.capacity - used cb) in
      (write cb buf ≡ wrote n (written cb (take n buf)))
      × (contents (written cb (take n buf)) ≡ contents cb ++ take n buf)
      × IsValid (written cb (take n buf))
unfolding write
write_some {cb} buf v room some_bytes h = ground (
  arith,
  v,
  trimmed-eq buf v h,
  length-take n buf,
  write_copy-eq v (take n buf) h,
  write_done-eq v (take n buf),
  contents-written v (take n buf),
  written-IsValid v (take n buf),
)
  where
    n : ℕ
    n = min (length buf) (cb.capacity - used cb)

write_full : (cb : RecvBuf) (x : ℕ) (xs : List ℕ) → cb.is_full ≡ true → write cb (x ∷ xs) ≡ full
unfolding write
write_full cb x xs f = ground arith

write_nil : (cb : RecvBuf) → write cb [] ≡ wrote 0 cb
unfolding write
write_nil cb = refl

-- On a valid buffer, as long as the sequence numbers do not reach 2 ^ 32, Write never panics and
-- never waits. It is refused only if the buffer is full; else it appends as many bytes as fit, in
-- order, to the unread bytes, and the buffer is valid again.
pub write-WriteSpec :
    {cb : RecvBuf} (buf : List ℕ)
    → IsValid cb
    → cb.nxt + length buf < u32_mod
    → WriteSpec cb buf (write cb buf)
write-WriteSpec {cb} [] v room = rw write_nil (
  λ h. absurd (omega arith),
  omega arith,
  sym (append-nil (contents cb)),
  refl,
  omega arith,
  refl,
  refl,
  v,
)
write-WriteSpec {cb} (x ∷ xs) v room = elim (Bool-cases cb.is_full) [
  | inl f ↦ rw (write_full cb x xs f) (ground (arith, v))
  | inr e ↦
      let not_full : used cb < cb.capacity = ground (arith, v) in
      let (runs, bytes, valid) = write_some (x ∷ xs) v room (omega arith) not_full in
      let len = length-take (min (length (x ∷ xs)) (cb.capacity - used cb)) (x ∷ xs) in
      rw runs (λ _. not_full, refl, bytes, refl, omega (arith, len), refl, refl, valid)
]
