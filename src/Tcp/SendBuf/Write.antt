-- ===== src/Tcp/SendBuf/Write.antt =====
-- writeToSendBuf appends as many bytes as there is room for.
use gotcp.Prelude.{
  ℕ, ◌+◌, ◌-◌, ◌≤◌, ◌<◌, ◌≡◌, refl, List, ◌++◌, arith, some, min, length, take, drop, length-take,
  length-copy_at, lt→leb_false, le→leb,
}
use native.Mathlib.Decide.{dec_lt, dec_le}
use gotcp.Prelude.Pointwise.{list_ext, get_elem?-take, get_elem?-drop}
use gotcp.Prelude.Words.{u32_mod, add32}
use gotcp.Tcp.Ring.{wrap, place, place_fits, place_wrapped, length-place, window-place}
use gotcp.Tcp.SendBuf.{
  SendBuf, index, WriteResult, panicked, blocked, stuck, wrote, write_copy, write_to_send_buf,
}
use gotcp.Tcp.SendBuf.Inv.{dist, held, contents, IsValid, free_space-eq, index-lt, index-eq}

-- `src[a:n]` is the rest of `src[:n]` past `a`.
drop-take : (a n : ℕ) (src : List ℕ) → take (n - a) (drop a src) ≡ drop a (take n src)
drop-take a n src = list_ext _ _ λ i. ground (
  arith,
  get_elem?-take (n - a) (drop a src) i,
  get_elem?-drop a src i,
  get_elem?-drop a (take n src) i,
  get_elem?-take n src (a + i),
)

take-take : (a n : ℕ) (src : List ℕ) → a ≤ n → take a src ≡ take a (take n src)
take-take a n src h = list_ext _ _ λ i.
    ground (arith, get_elem?-take a src i, get_elem?-take a (take n src) i, get_elem?-take n src i)

-- Both ways of copying are one placing of the bytes taken, and neither panics.
write_copy-eq :
    {b : SendBuf} {una : ℕ} (v : IsValid b una) (n : ℕ) (src : List ℕ)
    → n ≤ b.capacity
    → n ≤ length src
    → write_copy b n src ≡ some (place b.buf (index b b.lbw) (take n src))
unfolding write_copy
write_copy-eq {b} v n src h k = elim (dec_le (index b b.lbw + n) b.capacity) [
  | yes p ↦ rw (le→leb (index b b.lbw + n) b.capacity p) (
      ground (
        arith,
        v,
        index-lt v b.lbw,
        no_start,
        place_fits b.buf (index b b.lbw) (take n src),
        length-take n src,
      ))
  | no p ↦ rw (lt→leb_false (index b b.lbw + n) b.capacity (omega arith)) (
      ground (
        arith,
        v,
        index-lt v b.lbw,
        no_less,
        drop-take room n src,
        take-take room n src,
        length-take n src,
        length-copy_at b.buf (index b b.lbw) (take room src),
        place_wrapped b.buf (index b b.lbw) (take n src),
      ))
]
  where
    room : ℕ
    room = b.capacity - index b b.lbw

    no_start : n - 0 ≡ n
    no_start = omega arith

    no_less : room - 0 ≡ room
    no_less = omega arith

-- What a write may do. It never panics. It waits only if the buffer is full; else it takes as many
-- bytes as there is room for, at least one if there are any, and appends them in order to the
-- bytes that are not yet acknowledged.
abbrev pub WriteSpec : SendBuf → ℕ → List ℕ → WriteResult → Type 0
WriteSpec b una src panicked = ⊥
WriteSpec b una src stuck = ⊥
WriteSpec b una src blocked = held b una ≡ b.capacity
WriteSpec b una src (wrote n b') =
    (held b una < b.capacity)
    × (n ≡ min (b.capacity - held b una) (length src))
    × (contents b' una ≡ contents b una ++ take n src)
    × (dist b' b'.lbw ≡ dist b b.lbw + n)
    × IsValid b' una

-- The buffer with `src` appended.
abbrev pub written : SendBuf → List ℕ → SendBuf
written b src = record b {
  buf = place b.buf (index b b.lbw) src;
  lbw = add32 b.lbw (length src);
  has_unsent = b.has_unsent + 1;
  freespace = 0;
}

module _ {b : SendBuf} {una : ℕ} (v : IsValid b una) (src : List ℕ)
    (fit : held b una + length src ≤ b.capacity) (far : dist b b.lbw + length src < u32_mod) where
  pub moved : dist b (add32 b.lbw (length src)) ≡ dist b b.lbw + length src
  moved = omega (arith, v)

  grown : held (written b src) una ≡ held b una + length src
  grown = omega (arith, v, moved)

  pub written-IsValid : IsValid (written b src) una
  written-IsValid = ground (arith, v, moved, grown, length-place b.buf (index b b.lbw) src)

  pub contents-written : contents (written b src) una ≡ contents b una ++ src
  unfolding index
  contents-written =
      rw (grown, to_end)
        (ground (arith, v, index-lt v una, window-place b.buf (index b una) (held b una) src))
    where
      to_end : index b b.lbw ≡ wrap b.capacity (index b una + held b una)
      to_end = index-eq v b.lbw (held b una) (omega (arith, v)) v.fits

pub write_some :
    {b : SendBuf} {una : ℕ} (v : IsValid b una) (src : List ℕ)
    → held b una < b.capacity
    → b.has_unsent < b.capacity
    → let n = min (b.capacity - held b una) (length src) in
      write_to_send_buf b una src ≡ wrote n (written b (take n src))
unfolding write_to_send_buf
write_some {b} {una} v src h k =
    ground (arith, v, free_space-eq v, write_copy-eq v n src, length-take n src)
  where
    n : ℕ
    n = min (b.capacity - held b una) (length src)

pub write_full :
    {b : SendBuf} {una : ℕ} (v : IsValid b una) (src : List ℕ)
    → held b una ≡ b.capacity
    → write_to_send_buf b una src ≡ blocked
unfolding write_to_send_buf
write_full v src h = ground (arith, free_space-eq v)

-- On a valid buffer, if there is room in the signal channel and less than 2 ^ 32 bytes are written
-- after the initial sequence number, writeToSendBuf never panics. It waits only while the buffer is
-- full; else it appends as many bytes as fit, in order, to those held, moves the last byte written
-- by their number, and the buffer is valid again.
pub write_to_send_buf-WriteSpec :
    {b : SendBuf} {una : ℕ} (v : IsValid b una) (src : List ℕ)
    → b.has_unsent < b.capacity
    → dist b b.lbw + length src < u32_mod
    → WriteSpec b una src (write_to_send_buf b una src)
write_to_send_buf-WriteSpec {b} {una} v src k far = elim (dec_lt (held b una) b.capacity) [
  | yes h ↦
      let n = min (b.capacity - held b una) (length src) in
      let len : length (take n src) ≡ n = omega (arith, length-take n src) in
      let fit : held b una + length (take n src) ≤ b.capacity = omega (arith, len) in
      let far' : dist b b.lbw + length (take n src) < u32_mod = omega (arith, len) in
      rw (write_some v src h k) (
        h,
        refl,
        contents-written v (take n src) fit far',
        omega (arith, moved v (take n src) fit far', len),
        written-IsValid v (take n src) fit far',
      )
  | no h ↦ let e : held b una ≡ b.capacity = omega (arith, v) in rw (write_full v src e) e
]
