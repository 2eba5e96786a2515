-- ===== src/Tcp/User/Writing/Ends.antt =====
-- VWrite, as acknowledgements keep coming.
use gotcp.Prelude.{
  ℕ, ◌+◌, ◌-◌, ◌≤◌, ◌<◌, ◌≡◌, refl, arith, Bool, true, false, ◌&&◌, not, List, [], ◌∷◌, min, length,
  take, drop, ◌==◌, Bool-cases, inl, inr, length-take, length-drop, ==_iff,
}
use gotcp.Prelude.Words.{u32_mod}
use gotcp.Prelude.Quantifiers.{All}
use gotcp.Tcp.SendBuf.{SendBuf, index}
use gotcp.Tcp.SendBuf.Inv.{dist, held, IsValid}
use gotcp.Tcp.SendBuf.Write.{written, write_some}
use gotcp.Tcp.User.Writing.{Round, una_after, is_closing, Written, wrote_all, v_write_from, v_write}
use gotcp.Tcp.User.Writing.Appended.{Appended, acked-Appended, written-Appended}

-- A round of an open connection with room in the channel and with an acknowledgement.
abbrev pub Acking : ℕ → Round → Type 0
Acking cap r = (r.unsent < cap) × (0 < r.acked) × (is_closing r.state ≡ false)

abbrev pub IsWhole : ℕ → Written → Type 0
IsWhole n (wrote_all m b una) = m ≡ n
IsWhole n _ = ⊥

v_write_from-IsWhole :
    (rs : List Round) (inside : Bool) (b : SendBuf) (una : ℕ) (src : List ℕ) (n cap total : ℕ)
    → IsValid b una
    → b.capacity ≡ cap
    → All (Acking cap) rs
    → dist b b.lbw + length src < u32_mod
    → length src ≤ length rs
    → total ≡ n + length src
    → IsWhole total (v_write_from rs inside b una src n)
unfolding v_write_from index
v_write_from-IsWhole [] inside b una src n cap total v c a far l t =
    rw ((==_iff (length src) 0).1 (omega (arith, l))) (omega (arith, l, t))
v_write_from-IsWhole (r ∷ rs) inside b una src n cap total v c ((u, k, x), a) far l t =
    elim (Bool-cases (length src == 0)) [
      | inl e ↦ rw e (omega (arith, (==_iff (length src) 0).0 e, t))
      | inr e ↦
          rw (e, x, open_round inside, write_some acked.valid src room (omega (arith, c, u)))
            (v_write_from-IsWhole rs false (written b1 (take w src)) una1 (drop w src) (n + w) cap
              total grown.valid c a (omega (arith, grown.written_on, len, length-drop w src, far))
              (omega (arith, length-drop w src, some_bytes e, l))
              (omega (arith, length-drop w src, t)))
    ]
  where
    b1 : SendBuf
    b1 = record b { has_unsent = r.unsent }

    una1 : ℕ
    una1 = una_after r b una

    open_round : (i : Bool) → (not i && false) ≡ false
    open_round true = refl
    open_round false = refl

    acked : Appended b una [] b1 una1
    acked = acked-Appended v r

    room : held b1 una1 < b.capacity
    room = omega (arith, v, k)

    w : ℕ
    w = min (b.capacity - held b1 una1) (length src)

    some_bytes : (length src == 0) ≡ false → 0 < w
    some_bytes e = ground (arith, e, room)

    len : length (take w src) ≡ w
    len = omega (arith, length-take w src)

    grown : Appended b1 una1 (take w src) (written b1 (take w src)) una1
    grown =
        written-Appended acked.valid (take w src) (omega (arith, len, acked.valid))
          (omega (arith, len, far))

-- On a valid buffer, if the bytes written and the argument end below 2 ^ 32, and in each round the
-- connection is open, the channel for unsent bytes has room for a signal, and an acknowledgement
-- frees some of the bytes held: VWrite has written all of its argument after as many rounds as the
-- argument has bytes, at most.
pub v_write-IsWhole :
    (rounds : List Round) (b : SendBuf) (una : ℕ) (src : List ℕ)
    → IsValid b una
    → All (Acking b.capacity) rounds
    → dist b b.lbw + length src < u32_mod
    → length src ≤ length rounds
    → IsWhole (length src) (v_write rounds b una src)
unfolding v_write
v_write-IsWhole rounds b una src v a far l =
    v_write_from-IsWhole rounds false b una src 0 b.capacity (length src) v refl a far l
      (omega arith)
