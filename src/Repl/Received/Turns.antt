-- ===== src/Repl/Received/Turns.antt =====
-- The turns of the loop of `rf`, one by one and after the FIN.
use mathlib.Core.List.{append-nil, append_assoc}
use gotcp.Prelude.{
  ℕ, zero, suc, ◌+◌, ◌-◌, ◌<◌, ◌≡◌, refl, sym, ◌∙◌, ap, arith, ◌==◌, ◌⊎◌, inl, inr, Bool-cases,
  Bool, true, false, List, [], ◌∷◌, ◌++◌, length, take, replicate, length-append, take-append-drop,
  length-take, length-drop,
}
use native.Mathlib.Decide.{dec_lt}
use gotcp.Prelude.Words.{u32_mod, add32, sub32}
use gotcp.Prelude.Copies.{take-append}
use gotcp.Tcp.Ring.{length-window}
use gotcp.Tcp.RecvBuf.{RecvBuf, head, ReadResult, read, eof}
use gotcp.Tcp.RecvBuf.Inv.{IsValid, used, contents, head-lt, last-eq}
use gotcp.Tcp.RecvBuf.Read.{ReadSpec, read-ReadSpec, not_waiting}
use gotcp.Repl.Received.{turn, saved, truncate, after_read, slice_of_mss, next_read, receive_file}

read_at_end :
    {cb : RecvBuf} → IsValid cb → cb.fin_recvd ≡ true → used cb ≡ 0 → read cb slice_of_mss ≡ eof
unfolding read
read_at_end {cb} v f u = ground (arith, v)

pub length-contents : {cb : RecvBuf} → IsValid cb → length (contents cb) ≡ used cb
length-contents {cb} v =
    length-window cb.buff (head cb) (used cb) (omega (arith, v, head-lt v)) (omega (arith, v))

contents-none : {cb : RecvBuf} → IsValid cb → used cb ≡ 0 → contents cb ≡ []
contents-none {cb} v u = none_left (contents cb) (length-contents v ∙ u)
  where
    none_left : (xs : List ℕ) → length xs ≡ 0 → xs ≡ []
    none_left [] h = refl
    none_left (x ∷ xs) h = absurd (omega (arith, h))

-- Nothing but the bytes read and the bytes unread.
pub truncate-all : (xs ys : List ℕ) → truncate (length xs) (xs ++ ys) ≡ xs
truncate-all xs ys =
    rw (take-append xs ys, length-append xs ys)
      (ap (λ n. xs ++ replicate n 0) none_more ∙ append-nil xs)
  where
    none_more : length xs - (length xs + length ys) ≡ 0
    none_more = omega arith

-- What holds of the file and the count as the loop goes on.
pub record Counts (file : List ℕ) (total : ℕ) (cb : RecvBuf) (more : ℕ) : Type 0 where
  pub valid : IsValid cb
  pub exact : total ≡ length file
  pub far : length file + used cb + more < u32_mod

-- What a turn of the loop takes moves from the buffer to the file.
pub record Taken (file : List ℕ) (cb : RecvBuf) (more : ℕ) (file' : List ℕ) (total' : ℕ)
    (cb' : RecvBuf) : Type 0 where
  pub counts : Counts file' total' cb' more
  pub same : file' ++ contents cb' ≡ file ++ contents cb
  pub shifted : length file' + used cb' ≡ length file + used cb
  pub fewer : 0 < used cb → used cb' < used cb

pub took-Taken :
    {cb cb' : RecvBuf} {more : ℕ} (file : List ℕ) (total n : ℕ) (buf : List ℕ)
    → Counts file total cb more
    → ReadSpec cb slice_of_mss (ReadResult.took n buf cb')
    → Taken file cb more (file ++ take n buf) (add32 total n) cb'
took-Taken {cb} {cb'} {more} file total n buf c (some_left, count, front, _, rest, _, _, _, v) =
    record {
      counts = record {
        valid = v;
        exact = omega (arith, c.exact, c.far, length-append file (take n buf), size, left);
        far = omega (arith, c.far, length-append file (take n buf), size, left);
      };
      same =
          append_assoc file (take n buf) (contents cb')
          ∙ ap (λ l. file ++ l)
              (ap (λ l. l ++ contents cb') front
                ∙ ap (λ l. take n (contents cb) ++ l) rest
                ∙ take-append-drop n (contents cb));
      shifted = omega (arith, length-append file (take n buf), size, left);
      fewer = λ h. omega (arith, count, left, h);
    }
  where
    size : length (take n buf) ≡ n
    size =
        omega (arith, ap length front, length-take n (contents cb), length-contents c.valid, count)

    left : used cb' + n ≡ used cb
    left = omega (
      arith,
      ap length rest,
      length-drop n (contents cb),
      length-contents c.valid,
      length-contents v,
      count,
    )

-- The loop ends in so many turns, with the file less the last byte that is left to read.
abbrev Saves : ℕ → Bool → List ℕ → ℕ → ℕ → RecvBuf → Type 0
Saves k waiting file total window cb =
    (n : ℕ) × (w : ℕ) × (d : RecvBuf) × (receive_file (replicate k turn) waiting file total window
        cb
      ≡ saved (truncate (sub32 n 1) (file ++ contents cb)) n w d)
    × (n ≡ length file + used cb)

blocked_not : ReadResult.blocked ≡ eof → ⊥
blocked_not q = cc

-- A turn after the FIN, and then the others.
turn-Saves :
    (k : ℕ) (file : List ℕ) (total window : ℕ) (cb : RecvBuf)
    → ((f : List ℕ) (t w : ℕ) (d : RecvBuf)
        → Counts f t d 0
        → d.fin_recvd ≡ true
        → used d < k
        → Saves k false f t w d)
    → Counts file total cb 0
    → cb.fin_recvd ≡ true
    → used cb < suc k
    → (r : ReadResult) → read cb slice_of_mss ≡ r
    → ReadSpec cb slice_of_mss r
    → (n : ℕ) × (w : ℕ) × (d : RecvBuf) × (after_read
          (receive_file (replicate k turn))
          file
          total
          window
          cb
          r
        ≡ saved (truncate (sub32 n 1) (file ++ contents cb)) n w d)
      × (n ≡ length file + used cb)
turn-Saves k file total window cb next c f l ReadResult.panicked e h = absurd h
turn-Saves k file total window cb next c f l ReadResult.blocked e (_, u) =
    absurd (blocked_not (sym e ∙ read_at_end c.valid f u))
turn-Saves k file total window cb next c f l ReadResult.eof e (_, u, _) = (
  total,
  window,
  cb,
  rw (contents-none c.valid u, append-nil file) refl,
  omega (arith, c.exact, u),
)
turn-Saves k file total window cb next c f l (ReadResult.took n buf cb') e h =
    let t = took-Taken file total n buf c h in
    let (m, w, d, q, s) =
      next (file ++ take n buf) (add32 total n) (window + n) cb' t.counts (still_finished h ∙ f)
        (fewer_left t) in
    (m, w, d, q ∙ ap (λ g. saved (truncate (sub32 m 1) g) m w d) t.same, whole t s)
  where
    still_finished :
        ReadSpec cb slice_of_mss (ReadResult.took n buf cb') → cb'.fin_recvd ≡ cb.fin_recvd
    still_finished (_, _, _, _, _, _, _, fin, _) = fin

    fewer_left : {g : List ℕ} {m : ℕ} → Taken file cb 0 g m cb' → used cb' < k
    fewer_left t = omega (arith, t.fewer (h.0 (omega arith)), l)

    whole :
        {g : List ℕ} {m a : ℕ}
        → Taken file cb 0 g m cb'
        → a ≡ length g + used cb'
        → a ≡ length file + used cb
    whole t q = q ∙ t.shifted

-- A call of Read that does not wait, or for which there is a signal, does what a new call does.
abbrev pub Awake : Bool → RecvBuf → Type 0
Awake waiting cb = (waiting ≡ false) ⊎ (0 < cb.can_read)

next_read-Awake :
    {cb : RecvBuf}
    → (waiting : Bool) → IsValid cb
    → Awake waiting cb
    → next_read waiting cb ≡ read cb slice_of_mss
unfolding next_read read
next_read-Awake false v a = refl
next_read-Awake true v (inl q) = absurd cc
next_read-Awake {cb} true v (inr h) = elim (Bool-cases cb.fin_recvd) [
  | inl y ↦ rw (some_signal, y, not_at_end, not_waiting v unread) refl
  | inr n ↦ rw (some_signal, n, not_waiting v unread) refl
]
  where
    unread : 0 < used cb
    unread = omega (arith, v, h)

    some_signal : (cb.can_read == 0) ≡ false
    some_signal = ground (arith, h)

    not_at_end : (sub32 cb.nxt 1 == cb.lbr) ≡ false
    not_at_end = ground (arith, v, last-eq v, unread)

pub next_read-cases :
    {cb : RecvBuf}
    → (waiting : Bool) → IsValid cb
    → (next_read waiting cb ≡ ReadResult.blocked) ⊎ (next_read waiting cb ≡ read cb slice_of_mss)
unfolding next_read
next_read-cases false v = inr refl
next_read-cases {cb} true v = elim (dec_lt 0 cb.can_read) [
  | yes h ↦ inr (next_read-Awake true v (inr h))
  | no h ↦ let none_left : (cb.can_read == 0) ≡ true = ground (arith, h) in inl (rw none_left refl)
]

-- After the FIN, one turn more than there are bytes to read, at most.
pub turns_save :
    (k : ℕ) (waiting : Bool) (file : List ℕ) (total window : ℕ) (cb : RecvBuf)
    → Awake waiting cb
    → Counts file total cb 0
    → cb.fin_recvd ≡ true
    → used cb < k
    → Saves k waiting file total window cb
unfolding receive_file
turns_save zero waiting file total window cb a c f l = absurd (omega (arith, l))
turns_save (suc k) waiting file total window cb a c f l = rw (next_read-Awake waiting c.valid a) (
    turn-Saves k file total window cb (λ g t w d. turns_save k false g t w d (inl refl)) c f l
      (read cb slice_of_mss) refl (read-ReadSpec slice_of_mss c.valid (omega arith)))
