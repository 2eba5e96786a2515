-- ===== src/Tcp/User/Writing/Appends.antt =====
-- VWrite, against the bytes that the send buffer holds.
use gotcp.Prelude.{
  ℕ, ◌+◌, ◌-◌, ◌≤◌, ◌<◌, ◌≡◌, refl, sym, ◌∙◌, subst, arith, Bool, true, false, ◌&&◌, not, List, [],
  ◌∷◌, min, length, take, drop, ◌==◌, Bool-cases, inl, inr, length-take, length-drop,
  take-append-drop, ==_iff,
}
use native.Mathlib.Decide.{dec_lt}
use gotcp.Prelude.Words.{u32_mod}
use gotcp.Prelude.Quantifiers.{All}
use gotcp.Tcp.SendBuf.{SendBuf, index, write_to_send_buf}
use gotcp.Tcp.SendBuf.Inv.{dist, held, IsValid}
use gotcp.Tcp.SendBuf.Write.{written, write_some, write_full}
use gotcp.Tcp.User.Writing.{
  Loop, Round, una_after, is_closing, Written, panicked, stuck, waiting, refused, wrote_all,
  write_round, v_write_from, v_write,
}
use gotcp.Tcp.User.Writing.Appended.{
  Appended, Appended-trans, self-Appended, acked-Appended, written-Appended, take-more,
}

-- Some first bytes of the source were appended, and their number was added to the count.
abbrev pub Took : SendBuf → ℕ → List ℕ → ℕ → ℕ → SendBuf → ℕ → Type 0
Took b una src n m b' una' =
    (k : ℕ) × (k ≤ length src) × (m ≡ n + k) × Appended b una (take k src) b' una'

abbrev pub WrittenSpec : SendBuf → ℕ → List ℕ → ℕ → Written → Type 0
WrittenSpec b una src n panicked = ⊥
WrittenSpec b una src n stuck = ⊥
WrittenSpec b una src n (waiting m b' una') = Took b una src n m b' una'
WrittenSpec b una src n (refused m b' una') = Took b una src n m b' una'
WrittenSpec b una src n (wrote_all m b' una') = (m ≡ n + length src) × Appended b una src b' una'

none-Took :
    {b b' : SendBuf} {una una' : ℕ} (src : List ℕ) (n : ℕ)
    → Appended b una [] b' una'
    → Took b una src n n b' una'
none-Took src n p = (0, omega arith, omega arith, p)

Took-after :
    {b b1 b' : SendBuf} {una una1 una' : ℕ} (src : List ℕ) (n w : ℕ) {m : ℕ}
    → IsValid b una
    → w ≤ length src
    → Appended b una (take w src) b1 una1
    → Took b1 una1 (drop w src) (n + w) m b' una'
    → Took b una src n m b' una'
Took-after {b} {b1} {b'} {una} {una1} {una'} src n w v l p (k, h, e, q) = (
  w + k,
  omega (arith, h, length-drop w src, l),
  omega (arith, e),
  subst (λ xs. Appended b una xs b' una') (take-more w k src) (Appended-trans v p q),
)

-- What was done before, and then the loop on the rest of the source.
WrittenSpec-after :
    {b b1 : SendBuf} {una una1 : ℕ} (src : List ℕ) (n w : ℕ) (o : Written)
    → IsValid b una
    → w ≤ length src
    → Appended b una (take w src) b1 una1
    → WrittenSpec b1 una1 (drop w src) (n + w) o
    → WrittenSpec b una src n o
WrittenSpec-after src n w panicked v l p h = h
WrittenSpec-after src n w stuck v l p h = h
WrittenSpec-after src n w (waiting m b' una') v l p h = Took-after src n w v l p h
WrittenSpec-after src n w (refused m b' una') v l p h = Took-after src n w v l p h
WrittenSpec-after {b} {b1} {una} {una1} src n w (wrote_all m b' una') v l p (e, q) = (
  omega (arith, e, length-drop w src, l),
  subst (λ xs. Appended b una xs b' una') (take-append-drop w src) (Appended-trans v p q),
)

length-none : (xs : List ℕ) → length xs ≡ 0 → xs ≡ []
length-none [] h = refl
length-none (x ∷ xs) h = absurd (omega (arith, h))

all_written :
    {b : SendBuf} {una : ℕ} (src : List ℕ) (n : ℕ)
    → IsValid b una
    → (length src == 0) ≡ true
    → WrittenSpec b una src n (wrote_all n b una)
all_written {b} {una} src n v e =
    let zero_long : length src ≡ 0 = (==_iff _ _).0 e in
    (
      omega (arith, zero_long),
      subst (λ xs. Appended b una xs b una) (sym (length-none src zero_long)) (self-Appended v),
    )

-- Acknowledgements before the loop goes on.
WrittenSpec-acked :
    {b b1 : SendBuf} {una una1 : ℕ} (src : List ℕ) (n : ℕ) (o : Written)
    → IsValid b una
    → Appended b una [] b1 una1
    → WrittenSpec b1 una1 src n o
    → WrittenSpec b una src n o
WrittenSpec-acked src n panicked v p h = h
WrittenSpec-acked src n stuck v p h = h
WrittenSpec-acked src n (waiting m b' una') v p (k, l, e, q) = (k, l, e, Appended-trans v p q)
WrittenSpec-acked src n (refused m b' una') v p (k, l, e, q) = (k, l, e, Appended-trans v p q)
WrittenSpec-acked src n (wrote_all m b' una') v p (e, q) = (e, Appended-trans v p q)

write_round-WrittenSpec :
    (loop : Loop) (b : SendBuf) (una : ℕ) (src : List ℕ) (n : ℕ)
    → IsValid b una
    → b.has_unsent < b.capacity
    → dist b b.lbw + length src < u32_mod
    → ((inside : Bool) (b' : SendBuf) (rest : List ℕ) (m : ℕ)
        → IsValid b' una
        → b'.capacity ≡ b.capacity
        → dist b' b'.lbw + length rest < u32_mod
        → WrittenSpec b' una rest m (loop inside b' una rest m))
    → WrittenSpec b una src n (write_round loop b una src n (write_to_send_buf b una src))
write_round-WrittenSpec loop b una src n v u far next = elim (dec_lt (held b una) b.capacity) [
  | yes h ↦ rw (write_some v src h u) (
      WrittenSpec-after src n w _ v least grown (
        next false (written b (take w src)) (drop w src) (n + w) grown.valid refl
          (omega (arith, grown.written_on, len, length-drop w src, far))))
  | no h ↦ rw (write_full v src (omega (arith, v))) (next true b src n v refl far)
]
  where
    w : ℕ
    w = min (b.capacity - held b una) (length src)

    least : w ≤ length src
    least = omega arith

    len : length (take w src) ≡ w
    len = omega (arith, length-take w src)

    grown : Appended b una (take w src) (written b (take w src)) una
    grown = written-Appended v (take w src) (omega (arith, len, v)) (omega (arith, len, far))

v_write_from-WrittenSpec :
    (rs : List Round) (inside : Bool) (b : SendBuf) (una : ℕ) (src : List ℕ) (n cap : ℕ)
    → IsValid b una
    → b.capacity ≡ cap
    → All (λ r. r.unsent < cap) rs
    → dist b b.lbw + length src < u32_mod
    → WrittenSpec b una src n (v_write_from rs inside b una src n)
unfolding v_write_from index
v_write_from-WrittenSpec [] inside b una src n cap v c u far = elim (Bool-cases (length src == 0)) [
  | inl e ↦ rw e (all_written src n v e)
  | inr e ↦ rw e (none-Took src n (self-Appended v))
]
v_write_from-WrittenSpec (r ∷ rs) inside b una src n cap v c (u, us) far =
    elim (Bool-cases (length src == 0)) [
      | inl e ↦ rw e (all_written src n v e)
      | inr e ↦ elim (Bool-cases (not inside && is_closing r.state)) [
        | inl x ↦ rw (e, x) (none-Took src n acked)
        | inr x ↦
            rw (e, x)
              (WrittenSpec-acked src n _ v acked (
                write_round-WrittenSpec (v_write_from rs) b1 una1 src n acked.valid
                  (omega (arith, c, u)) far
                  (λ i b' rest m w k f.
                    v_write_from-WrittenSpec rs i b' una1 rest m cap w (k ∙ c) us f)))
      ]
    ]
  where
    b1 : SendBuf
    b1 = record b { has_unsent = r.unsent }

    una1 : ℕ
    una1 = una_after r b una

    acked : Appended b una [] b1 una1
    acked = acked-Appended v r

-- On a valid buffer, while the sender keeps room in its channel and less than 2 ^ 32 bytes are
-- written: VWrite never panics and never waits with the lock held; whether it ends with all bytes
-- written, with the error of a closing connection or is still waiting, it has counted the first bytes
-- of its argument, all of them at the end, and they stand behind the bytes that were held, in order,
-- less the ones that SND.UNA moved past; the buffer is valid.
pub v_write-WrittenSpec :
    (rounds : List Round) (b : SendBuf) (una : ℕ) (src : List ℕ)
    → IsValid b una
    → All (λ r. r.unsent < b.capacity) rounds
    → dist b b.lbw + length src < u32_mod
    → WrittenSpec b una src 0 (v_write rounds b una src)
unfolding v_write
v_write-WrittenSpec rounds b una src v u far =
    v_write_from-WrittenSpec rounds false b una src 0 b.capacity v refl u far
