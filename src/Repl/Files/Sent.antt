-- ===== src/Repl/Files/Sent.antt =====
-- The bytes of a file that `sf` reads, and the send buffer.
use mathlib.Core.List.{append_assoc}
use gotcp.Prelude.{
  ℕ, ◌+◌, ◌<◌, ◌≡◌, refl, sym, ◌∙◌, ap, arith, List, [], ◌∷◌, ◌++◌, length, take, drop,
  length-append, take-append-drop,
}
use gotcp.Prelude.Words.{u32_mod}
use gotcp.Prelude.Quantifiers.{All}
use gotcp.Tcp.SendBuf.{SendBuf}
use gotcp.Tcp.SendBuf.Inv.{dist, IsValid}
use gotcp.Tcp.User.Writing.{Written, v_write}
use gotcp.Tcp.User.Writing.Appended.{Appended, Appended-trans, self-Appended}
use gotcp.Tcp.User.Writing.Appends.{Took, WrittenSpec, v_write-WrittenSpec}
use gotcp.Repl.Files.{
  FileRead, piece, ended, failed, Sending, panicked, stuck, waiting, refused, reading, sent,
  broken_off, after_piece, send_pieces, send_file,
}

-- What is read of the file, up to its end or an error.
abbrev pub file_bytes : List FileRead → List ℕ
file_bytes [] = []
file_bytes (piece buf rounds ∷ reads) = buf ++ file_bytes reads
file_bytes (ended ∷ _) = []
file_bytes (failed ∷ _) = []

-- The sender keeps room in its channel.
abbrev pub HasRoom : ℕ → List FileRead → Type 0
HasRoom cap [] = Unit
HasRoom cap (piece buf rounds ∷ reads) = All (λ r. r.unsent < cap) rounds × HasRoom cap reads
HasRoom cap (ended ∷ _) = Unit
HasRoom cap (failed ∷ _) = Unit

-- Some first bytes were appended.
abbrev pub Partly : SendBuf → ℕ → List ℕ → SendBuf → ℕ → Type 0
Partly b una bytes b' una' =
    (xs : List ℕ) × (ys : List ℕ) × (bytes ≡ xs ++ ys) × Appended b una xs b' una'

abbrev pub SentSpec : SendBuf → ℕ → List ℕ → ℕ → Sending → Type 0
SentSpec b una bytes n panicked = ⊥
SentSpec b una bytes n stuck = ⊥
SentSpec b una bytes n (waiting m b' una') = Partly b una bytes b' una'
SentSpec b una bytes n (refused m b' una') = Partly b una bytes b' una'
SentSpec b una bytes n (reading m b' una') = (m ≡ n + length bytes) × Appended b una bytes b' una'
SentSpec b una bytes n (sent m b' una') = (m ≡ n + length bytes) × Appended b una bytes b' una'
SentSpec b una bytes n (broken_off m b' una') =
    (m ≡ n + length bytes) × Appended b una bytes b' una'

nothing_more :
    {b : SendBuf} {una : ℕ} (n : ℕ) → IsValid b una → (n ≡ n + 0) × Appended b una [] b una
nothing_more n v = (omega arith, self-Appended v)

Took-Partly :
    {b b' : SendBuf} {una una' m : ℕ} (buf rest : List ℕ)
    → Took b una buf 0 m b' una'
    → Partly b una (buf ++ rest) b' una'
Took-Partly buf rest (k, l, e, p) = (
  take k buf,
  drop k buf ++ rest,
  ap (λ xs. xs ++ rest) (sym (take-append-drop k buf))
      ∙ append_assoc (take k buf) (drop k buf) rest,
  p,
)

module _ {b b1 : SendBuf} {una una1 : ℕ} (buf rest : List ℕ) (v : IsValid b una)
    (p : Appended b una buf b1 una1) where
  Partly-after :
      {b' : SendBuf} {una' : ℕ} → Partly b1 una1 rest b' una' → Partly b una (buf ++ rest) b' una'
  Partly-after (xs, ys, e, q) =
      (buf ++ xs, ys, ap (λ l. buf ++ l) e ∙ sym (append_assoc buf xs ys), Appended-trans v p q)

  whole-after :
      {b' : SendBuf} {una' : ℕ} (n m : ℕ)
      → (m ≡ n + length buf + length rest) × Appended b1 una1 rest b' una'
      → (m ≡ n + length (buf ++ rest)) × Appended b una (buf ++ rest) b' una'
  whole-after n m (e, q) = (omega (arith, e, length-append buf rest), Appended-trans v p q)

  -- What the reads after a piece do, seen from before it.
  SentSpec-after :
      (n : ℕ) (o : Sending)
      → SentSpec b1 una1 rest (n + length buf) o
      → SentSpec b una (buf ++ rest) n o
  SentSpec-after n panicked h = h
  SentSpec-after n stuck h = h
  SentSpec-after n (waiting m b' una') h = Partly-after h
  SentSpec-after n (refused m b' una') h = Partly-after h
  SentSpec-after n (reading m b' una') h = whole-after n m h
  SentSpec-after n (sent m b' una') h = whole-after n m h
  SentSpec-after n (broken_off m b' una') h = whole-after n m h

-- One piece, and then the reads that follow it.
after_piece-SentSpec :
    (next : ℕ → SendBuf → ℕ → Sending) (buf rest : List ℕ) (n : ℕ) (b : SendBuf) (una : ℕ)
    (w : Written)
    → IsValid b una
    → WrittenSpec b una buf 0 w
    → ((b1 : SendBuf) (una1 : ℕ)
        → Appended b una buf b1 una1
        → SentSpec b1 una1 rest (n + length buf) (next (n + length buf) b1 una1))
    → SentSpec b una (buf ++ rest) n (after_piece next n w)
after_piece-SentSpec next buf rest n b una Written.panicked v h k = h
after_piece-SentSpec next buf rest n b una Written.stuck v h k = h
after_piece-SentSpec next buf rest n b una (Written.waiting m b' una') v h k =
    Took-Partly buf rest h
after_piece-SentSpec next buf rest n b una (Written.refused m b' una') v h k =
    Took-Partly buf rest h
after_piece-SentSpec next buf rest n b una (Written.wrote_all m b1 una1) v (e, p) k =
    SentSpec-after buf rest v p n (next (n + m) b1 una1) (rw (whole_length e) (k b1 una1 p))
  where
    whole_length : m ≡ 0 + length buf → m ≡ length buf
    whole_length h = omega (arith, h)

send_pieces-SentSpec :
    (reads : List FileRead) (n : ℕ) (b : SendBuf) (una cap : ℕ)
    → IsValid b una
    → b.capacity ≡ cap
    → HasRoom cap reads
    → dist b b.lbw + length (file_bytes reads) < u32_mod
    → SentSpec b una (file_bytes reads) n (send_pieces reads n b una)
unfolding send_pieces
send_pieces-SentSpec [] n b una cap v c r far = nothing_more n v
send_pieces-SentSpec (ended ∷ _) n b una cap v c r far = nothing_more n v
send_pieces-SentSpec (failed ∷ _) n b una cap v c r far = nothing_more n v
send_pieces-SentSpec (piece buf rounds ∷ reads) n b una cap v c (r, rs) far =
    after_piece-SentSpec (send_pieces reads) buf rest n b una (v_write rounds b una buf) v
      (v_write-WrittenSpec rounds b una buf v (rw c r) (omega (arith, far, both)))
      (λ b1 una1 p.
        send_pieces-SentSpec reads (n + length buf) b1 una1 cap p.valid (p.same_capacity ∙ c) rs
          (rw p.same_iss (omega (arith, far, both, p.written_on))))
  where
    rest : List ℕ
    rest = file_bytes reads

    both : length (buf ++ rest) ≡ length buf + length rest
    both = length-append buf rest

-- On a valid buffer, while the sender keeps room in its channel and less than 2 ^ 32 bytes are
-- written: `sf` never panics and never waits with the lock held. When it closes the connection, at the
-- end of the file or as a read fails, it has counted all the bytes that it read, and they stand in order
-- behind the bytes held, less those acknowledged; so do the first of them while VWrite waits, and
-- when its error ends the command.
pub send_file-SentSpec :
    (reads : List FileRead) (b : SendBuf) (una : ℕ)
    → IsValid b una
    → HasRoom b.capacity reads
    → dist b b.lbw + length (file_bytes reads) < u32_mod
    → SentSpec b una (file_bytes reads) 0 (send_file reads b una)
unfolding send_file
send_file-SentSpec reads b una v r far = send_pieces-SentSpec reads 0 b una b.capacity v refl r far
