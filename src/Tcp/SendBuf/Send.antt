-- ===== src/Tcp/SendBuf/Send.antt =====
-- bytesNotSent hands out the bytes from SND.NXT on, in the order in which they were written, as far
-- as the peer's window lets it.
use gotcp.Prelude.{
  ℕ, ◌+◌, ◌-◌, ◌≤◌, ◌<◌, ◌≡◌, refl, List, [], arith, some, min, ◌==◌, true, length, take, drop,
  copy_at, length-take, length-drop, length-copy_at, take_all, lt→leb_false, le→leb, Bool-cases,
  inl, inr, ==_iff, replicate, length-replicate,
}
use native.Mathlib.Decide.{dec_le}
use gotcp.Prelude.Copies.{copy_at_twice, copy_at_whole}
use gotcp.Prelude.Words.{u32_mod, sub32}
use gotcp.Tcp.Ring.{
  wrap, window, window_in_order, window_wrapped, length-window, take-window, drop-window,
}
use gotcp.Tcp.SendBuf.{
  SendBuf, index, read_copy, bytes_not_sent, num_bytes_not_sent, usable_send_window,
}
use gotcp.Tcp.SendBuf.Inv.{dist, held, contents, IsValid, index-lt, index-eq}

-- How many bytes may be sent now: the limit, the bytes not yet sent, and the room that the peer's
-- window leaves, which reaches from SND.UNA.
abbrev pub sendable : SendBuf → ℕ → ℕ → ℕ → ℕ → ℕ
sendable b una wnd nxt limit = min (min limit (dist b b.lbw - dist b nxt)) (una + wnd - nxt)

window_zero : (buf : List ℕ) (i : ℕ) → window buf i 0 ≡ []
unfolding window
window_zero buf i = refl

module _ {b : SendBuf} {una : ℕ} (v : IsValid b una) (i n : ℕ) (i_lt : i < b.capacity)
    (n_le : n ≤ b.capacity) where
  whole : copy_at (replicate n 0) 0 (window b.buf i n) ≡ window b.buf i n
  whole =
      copy_at_whole (replicate n 0) (window b.buf i n) (omega (arith, r, w)) (omega (arith, r, w))
    where
      r : length (replicate {A = ℕ} n 0) ≡ n
      r = length-replicate n 0

      w : length (window b.buf i n) ≡ n
      w = length-window b.buf i n (omega (arith, v)) (omega (arith, v))

  -- Both ways of copying take the same stretch, and neither panics.
  read_copy-eq : read_copy b i n ≡ some (window b.buf i n)
  unfolding read_copy
  read_copy-eq = elim (dec_le (i + n) b.capacity) [
    | yes p ↦
        rw (le→leb (i + n) b.capacity p)
          (ground (arith, v, whole, window_in_order b.buf i n, width))
    | no p ↦ rw (lt→leb_false (i + n) b.capacity (omega arith)) (
        ground (
          arith,
          v,
          whole,
          window_wrapped b.buf i n,
          length-drop i b.buf,
          take_all (b.capacity - i) (drop i b.buf),
          length-copy_at (replicate n 0) 0 (drop i b.buf),
          length-replicate {A = ℕ} n 0,
          copy_at_twice (replicate n 0) (drop i b.buf) (take (i + n - b.capacity) b.buf),
          rest p,
          no_start,
        ))
  ]
    where
      width : i + n - i ≡ n
      width = omega arith

      rest : ¬ (i + n ≤ b.capacity) → n - (b.capacity - i) ≡ i + n - b.capacity
      rest p = omega arith

      no_start : i + n - b.capacity - 0 ≡ i + n - b.capacity
      no_start = omega arith

module _ {b : SendBuf} {una : ℕ} (v : IsValid b una) (wnd nxt limit : ℕ) (nxt_lt : nxt < u32_mod)
    (after_una : dist b una ≤ dist b nxt) (before_lbw : dist b nxt ≤ dist b b.lbw)
    (no_wrap : una + wnd < u32_mod) where
  abbrev n : ℕ
  n = sendable b una wnd nxt limit

  count-eq : min (min limit (num_bytes_not_sent b nxt)) (usable_send_window una wnd nxt) ≡ n
  unfolding num_bytes_not_sent usable_send_window
  count-eq = ground (arith, gap)
    where
      gap : sub32 b.lbw nxt ≡ dist b b.lbw - dist b nxt
      gap = omega (arith, v)

  n-le : n ≤ held b una - (dist b nxt - dist b una)
  n-le = omega arith

  -- The bytes handed out are those held from SND.NXT on.
  held_stretch :
      window b.buf (index b nxt) n ≡ take n (drop (dist b nxt - dist b una) (contents b una))
  held_stretch = ground (
    arith,
    v,
    n-le,
    index-lt v una,
    index-eq v nxt k (omega arith) (omega (arith, v)),
    drop-window b.buf (index b una) k (held b una),
    take-window b.buf (wrap b.capacity (index b una + k)) n (held b una - k),
  )
    where
      k : ℕ
      k = dist b nxt - dist b una

  bytes-eq :
      bytes_not_sent b una wnd nxt limit
      ≡ some (take n (drop (dist b nxt - dist b una) (contents b una)))
  unfolding bytes_not_sent
  bytes-eq =
      rw (count-eq, ← held_stretch)
        (elim (Bool-cases (n == 0)) [
          | inl z ↦ rw z (ground (arith, empty z))
          | inr z ↦ rw z (read_copy-eq v (index b nxt) n (index-lt v nxt) (omega (arith, v)))
        ])
    where
      empty : (n == 0) ≡ true → window b.buf (index b nxt) n ≡ []
      empty z = rw ((==_iff n 0).0 z) (window_zero b.buf (index b nxt))

-- If SND.NXT lies between SND.UNA and the last byte written, bytesNotSent never panics. It hands
-- out as many bytes as the limit, the bytes not yet sent and the peer's window allow, and they are
-- the bytes written from SND.NXT on, in order.
pub bytes_not_sent_lem :
    {b : SendBuf} {una : ℕ} (v : IsValid b una) (wnd nxt limit : ℕ)
    → nxt < u32_mod
    → dist b una ≤ dist b nxt
    → dist b nxt ≤ dist b b.lbw
    → una + wnd < u32_mod
    → let n = sendable b una wnd nxt limit in
      (bytes_not_sent b una wnd nxt limit
        ≡ some (take n (drop (dist b nxt - dist b una) (contents b una))))
      × (length (take n (drop (dist b nxt - dist b una) (contents b una))) ≡ n)
bytes_not_sent_lem {b} {una} v wnd nxt limit h a c w =
    (bytes-eq v wnd nxt limit h a c w, omega (arith, v, t, d, len, n-le v wnd nxt limit h a c w))
  where
    k : ℕ
    k = dist b nxt - dist b una

    t :
        length (take (sendable b una wnd nxt limit) (drop k (contents b una)))
        ≡ min (sendable b una wnd nxt limit) (length (drop k (contents b una)))
    t = length-take (sendable b una wnd nxt limit) (drop k (contents b una))

    d : length (drop k (contents b una)) ≡ length (contents b una) - k
    d = length-drop k (contents b una)

    len : length (contents b una) ≡ held b una
    len =
        length-window b.buf (index b una) (held b una) (omega (arith, v, index-lt v una))
          (omega (arith, v))
