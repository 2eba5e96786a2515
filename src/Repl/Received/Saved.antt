-- ===== src/Repl/Received/Saved.antt =====
-- The bytes that come in, and the file that `rf` saves.
use mathlib.Core.List.{append-nil, append_assoc}
use gotcp.Prelude.{
  ℕ, ◌+◌, ◌<◌, ◌≡◌, refl, sym, ◌∙◌, ap, arith, inl, inr, Bool, true, false, List, [], ◌∷◌, ◌++◌,
  length, take,
}
use gotcp.Prelude.Words.{u32_mod, add32}
use gotcp.Tcp.RecvBuf.{RecvBuf, ReadResult, WriteResult, read, write}
use gotcp.Tcp.RecvBuf.Inv.{contents}
use gotcp.Tcp.RecvBuf.Write.{WriteSpec, write-WriteSpec}
use gotcp.Tcp.RecvBuf.Read.{ReadSpec, read-ReadSpec}
use gotcp.Repl.Received.{Event, arrived, finished, turn, slice_of_mss, next_read, receive_file}
use gotcp.Repl.Received.Turns.{next_read-cases, Counts, took-Taken}

-- The bytes that Write accepts of what comes in, whether the loop's call of Read waits then, and the
-- buffer that is left.
abbrev Left : Type 0
Left = List ℕ × Bool × RecvBuf

abbrev after_arrival : (RecvBuf → Left) → List ℕ → RecvBuf → WriteResult → Left
after_arrival next buf cb (WriteResult.wrote n cb') =
    let (xs, w, d) = next cb' in (take n buf ++ xs, w, d)
after_arrival next buf cb _ = next cb

abbrev after_turn : (Bool → RecvBuf → Left) → RecvBuf → ReadResult → Left
after_turn next cb (ReadResult.took n buf cb') = next false cb'
after_turn next cb ReadResult.blocked = next true cb
after_turn next cb _ = next false cb

unfoldable pub network : List Event → Bool → RecvBuf → Left
unfolding write next_read
network [] waiting cb = ([], waiting, cb)
network (arrived buf ∷ es) waiting cb = after_arrival (network es waiting) buf cb (write cb buf)
network (finished ∷ es) waiting cb = network es waiting cb
network (turn ∷ es) waiting cb = after_turn (network es) cb (next_read waiting cb)

-- How many bytes come in; a FIN does not.
abbrev pub offered : List Event → ℕ
offered [] = 0
offered (arrived buf ∷ es) = length buf + offered es
offered (finished ∷ es) = offered es
offered (turn ∷ es) = offered es

abbrev pub Open : List Event → Type 0
Open [] = Unit
Open (arrived buf ∷ es) = Open es
Open (finished ∷ es) = ⊥
Open (turn ∷ es) = Open es

false_not : false ≡ true → ⊥
false_not h = cc

-- What comes in before the FIN, and the turns of the loop meanwhile.
abbrev pub Through : List Event → List Event → Bool → List ℕ → ℕ → ℕ → RecvBuf → Type 0
Through es rest waiting file total window cb =
    let (xs, still, d) = network es waiting cb in
    (g : List ℕ) × (n : ℕ) × (w : ℕ) × (receive_file (es ++ rest) waiting file total window cb
      ≡ receive_file rest still g n w d)
    × (g ++ contents d ≡ (file ++ contents cb) ++ xs)
    × Counts g n d 1
    × (d.nxt + 1 < u32_mod)
    × (d.fin_recvd ≡ false)
    × (d.capacity ≡ cb.capacity)

module _ (es rest : List Event)
    (next : (q : Bool) (f : List ℕ) (t w : ℕ) (d : RecvBuf)
      → Counts f t d (offered es + 1)
      → d.nxt + offered es + 1 < u32_mod
      → d.fin_recvd ≡ false
      → Through es rest q f t w d) where
  write-Through :
      (buf : List ℕ) (waiting : Bool) (file : List ℕ) (total window : ℕ) (cb : RecvBuf)
      (r : WriteResult)
      → Counts file total cb (length buf + offered es + 1)
      → cb.nxt + (length buf + offered es) + 1 < u32_mod
      → cb.fin_recvd ≡ false
      → write cb buf ≡ r
      → WriteSpec cb buf r
      → Through (arrived buf ∷ es) rest waiting file total window cb
  unfolding receive_file network
  write-Through buf waiting file total window cb WriteResult.panicked c h f e s = absurd s
  write-Through buf waiting file total window cb WriteResult.stuck c h f e s = absurd s
  write-Through buf waiting file total window cb WriteResult.full c h f e s = rw e (
      next waiting file total window cb
        (record { valid = c.valid; exact = c.exact; far = omega (arith, c.far) }) (omega (arith, h))
        f)
  write-Through buf waiting file total window cb (WriteResult.wrote n cb') c h f e
        (_, count, grown, lbr, nxt, cap, fin, v) =
      rw e (
        let (g, m, w, q, same, k, l, ff, kept) =
          next waiting file total window cb'
            (record {
              valid = v;
              exact = c.exact;
              far = omega (arith, c.far, c.valid, lbr, nxt, count);
            })
            (omega (arith, h, nxt, count)) (fin ∙ f) in
        (g, m, w, q, same ∙ joined (network es waiting cb').0, k, l, ff, kept ∙ cap))
    where
      joined :
          (xs : List ℕ) → (file ++ contents cb') ++ xs ≡ (file ++ contents cb) ++ (take n buf ++ xs)
      joined xs =
          ap (λ l. (file ++ l) ++ xs) grown
          ∙ ap (λ l. l ++ xs) (sym (append_assoc file (contents cb) (take n buf)))
          ∙ append_assoc (file ++ contents cb) (take n buf) xs

  read-Through :
      (waiting : Bool) (file : List ℕ) (total window : ℕ) (cb : RecvBuf) (r : ReadResult)
      → Counts file total cb (offered es + 1)
      → cb.nxt + offered es + 1 < u32_mod
      → cb.fin_recvd ≡ false
      → next_read waiting cb ≡ r
      → ReadSpec cb slice_of_mss r
      → Through (turn ∷ es) rest waiting file total window cb
  unfolding receive_file network
  read-Through waiting file total window cb ReadResult.panicked c h f e s = absurd s
  read-Through waiting file total window cb ReadResult.blocked c h f e s =
      rw e (next true file total window cb c h f)
  read-Through waiting file total window cb ReadResult.eof c h f e (_, _, fin) =
      absurd (false_not (sym f ∙ fin))
  read-Through waiting file total window cb (ReadResult.took n buf cb') c h f e s =
      let t = took-Taken file total n buf c s in
      let (_, _, _, _, _, nxt, cap, fin, _) = s in
      rw e (
        let (g, m, w, q, same, k, l, ff, kept) =
          next false (file ++ take n buf) (add32 total n) (window + n) cb' t.counts
            (omega (arith, h, nxt)) (fin ∙ f) in
        (g, m, w, q, same ∙ ap (λ l. l ++ (network es false cb').0) t.same, k, l, ff, kept ∙ cap))

pub Open-Through :
    (es rest : List Event) (waiting : Bool) (file : List ℕ) (total window : ℕ) (cb : RecvBuf)
    → Open es
    → Counts file total cb (offered es + 1)
    → cb.nxt + offered es + 1 < u32_mod
    → cb.fin_recvd ≡ false
    → Through es rest waiting file total window cb
unfolding receive_file network
Open-Through [] rest waiting file total window cb o c h f =
    (file, total, window, refl, sym (append-nil _), c, omega (arith, h), f, refl)
Open-Through (arrived buf ∷ es) rest waiting file total window cb o c h f =
    write-Through es rest (λ q g t w d. Open-Through es rest q g t w d o) buf waiting file total
      window cb (write cb buf) c h f refl (write-WriteSpec buf c.valid (omega (arith, h)))
Open-Through (finished ∷ es) rest waiting file total window cb o c h f = absurd o
Open-Through (turn ∷ es) rest waiting file total window cb o c h f =
    elim (next_read-cases waiting c.valid) [
      | inl e ↦ rw e (Open-Through es rest true file total window cb o c h f)
      | inr e ↦
          read-Through es rest (λ q g t w d. Open-Through es rest q g t w d o) waiting file total
            window cb (read cb slice_of_mss) c h f e
            (read-ReadSpec slice_of_mss c.valid (omega arith))
    ]
