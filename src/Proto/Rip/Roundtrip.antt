-- ===== src/Proto/Rip/Roundtrip.antt =====
-- What Marshal writes, Unmarshal reads back; what is too short for its entry count is a panic.
use gotcp.Prelude.{
  ℕ, zero, suc, ◌+◌, ◌*◌, ◌-◌, ◌/◌, ◌%◌, ◌≤◌, ◌<◌, ◌≡◌, refl, ◌∙◌, ap, List, [], ◌∷◌, ◌++◌, some,
  arith, length, take, drop, slice, length-append, length-take, length-drop,
}
use mathlib.Core.List.{append_assoc}
use native.Mathlib.Decide.{dec_lt}
use gotcp.Prelude.Words.{u16_mod, u32_mod}
use gotcp.Prelude.Copies.{slice_middle}
use gotcp.Proto.Rip.{
  RipEntry, RipMsg, uint16_to_bytes, uint32_to_bytes, bytes_to_uint16, bytes_to_uint32,
  marshal_entry, marshal_entries, marshal, Unmarshalled, panicked, parsed, unmarshal_entry,
  unmarshal_entries, unmarshal, with_parsed,
}

-- The fields are machine words.
pub record IsWordEntry (r : RipEntry) : Type 0 where
  pub cost_lt : r.cost < u32_mod
  pub address_lt : r.address < u32_mod
  pub mask_lt : r.mask < u32_mod

abbrev pub AreWordEntries : List RipEntry → Type 0
AreWordEntries [] = Unit
AreWordEntries (r ∷ rs) = IsWordEntry r × AreWordEntries rs

bytes_to_uint32-uint32_to_bytes : (u : ℕ) → u < u32_mod → bytes_to_uint32 (uint32_to_bytes u) ≡ u
unfolding bytes_to_uint32 uint32_to_bytes
bytes_to_uint32-uint32_to_bytes u h = omega arith

bytes_to_uint16-uint16_to_bytes : (u : ℕ) → u < u16_mod → bytes_to_uint16 (uint16_to_bytes u) ≡ u
unfolding bytes_to_uint16 uint16_to_bytes
bytes_to_uint16-uint16_to_bytes u h = omega arith

length-marshal_entry : (r : RipEntry) → length (marshal_entry r) ≡ 12
unfolding marshal_entry
length-marshal_entry r = refl

unmarshal_entry-marshal_entry :
    (r : RipEntry) → IsWordEntry r → unmarshal_entry (marshal_entry r) ≡ parsed r
unfolding unmarshal_entry marshal_entry bytes_to_uint32
unmarshal_entry-marshal_entry r w = ground (arith, w)

entries_cons :
    (b : List ℕ) (i n : ℕ) (s : List ℕ) (r : RipEntry) (rs : List RipEntry)
    → slice b (4 + i * 12) (4 + (i + 1) * 12) ≡ some s
    → unmarshal_entry s ≡ parsed r
    → unmarshal_entries b (i + 1) n ≡ parsed rs
    → unmarshal_entries b i (suc n) ≡ parsed (r ∷ rs)
unfolding unmarshal_entries
entries_cons b i n s r rs p q t = rw (p, q, t)

unmarshal_entries_zero : (b : List ℕ) (i : ℕ) → unmarshal_entries b i 0 ≡ parsed []
unfolding unmarshal_entries
unmarshal_entries_zero b i = refl

marshal_entries_cons :
    (r : RipEntry) (rs : List RipEntry)
    → marshal_entries (r ∷ rs) ≡ marshal_entry r ++ marshal_entries rs
unfolding marshal_entries
marshal_entries_cons r rs = refl

unmarshal_entries-marshal_entries :
    (pre : List ℕ) (rs : List RipEntry) (rest : List ℕ) (i : ℕ)
    → length pre ≡ 4 + i * 12
    → AreWordEntries rs
    → unmarshal_entries (pre ++ (marshal_entries rs ++ rest)) i (length rs) ≡ parsed rs
unmarshal_entries-marshal_entries pre [] rest i e w = unmarshal_entries_zero _ i
unmarshal_entries-marshal_entries pre (r ∷ rs) rest i e (w, ws) =
    entries_cons b i (length rs) (marshal_entry r) r rs here (unmarshal_entry-marshal_entry r w) (
      rw split_b' (
        unmarshal_entries-marshal_entries (pre ++ marshal_entry r) rs rest (i + 1)
          (omega (arith, length-append pre (marshal_entry r), e, len)) ws))
  where
    b : List ℕ
    b = pre ++ (marshal_entries (r ∷ rs) ++ rest)

    len : length (marshal_entry r) ≡ 12
    len = length-marshal_entry r

    split_b : b ≡ pre ++ (marshal_entry r ++ (marshal_entries rs ++ rest))
    split_b = rw (marshal_entries_cons, append_assoc)

    split_b' : b ≡ (pre ++ marshal_entry r) ++ (marshal_entries rs ++ rest)
    split_b' = rw (marshal_entries_cons) (simp append_assoc)

    here : slice b (4 + i * 12) (4 + (i + 1) * 12) ≡ some (marshal_entry r)
    here = rw split_b (
        slice_middle pre (marshal_entry r) (marshal_entries rs ++ rest) (4 + i * 12)
          (4 + (i + 1) * 12) (omega arith) (omega (arith, len)))

-- Unmarshal past its first four bytes.
abbrev with_header : ℕ → ℕ → Unmarshalled (List RipEntry) → Unmarshalled RipMsg
with_header c n e =
    with_parsed e λ rs. parsed (record { command = c; num_entries = n; entries = rs })

unmarshal_header :
    (w x y z : ℕ) (r : List ℕ)
    → unmarshal (w ∷ x ∷ y ∷ z ∷ r)
      ≡ with_header
          (w * 256 + x)
          (y * 256 + z)
          (unmarshal_entries (w ∷ x ∷ y ∷ z ∷ r) 0 (y * 256 + z))
unfolding unmarshal
unmarshal_header w x y z r = ground arith

header_bytes : (u : ℕ) → u < u16_mod → u / 256 % 256 * 256 + u % 256 ≡ u
header_bytes u h = omega arith

-- A message whose count is right, with fields that are machine words, is read back from its
-- encoding whatever bytes follow, so the padding of the receive buffer does no harm.
pub unmarshal-marshal :
    (m : RipMsg) (rest : List ℕ)
    → m.command < u16_mod
    → m.num_entries < u16_mod
    → m.num_entries ≡ length m.entries
    → AreWordEntries m.entries
    → unmarshal (marshal m ++ rest) ≡ parsed m
unfolding unmarshal marshal
unmarshal-marshal m rest hc hn e w =
    rw (unmarshal_header, header_bytes m.command hc, header_bytes m.num_entries hn)
      (ap (λ k. with_header m.command m.num_entries (unmarshal_entries b 0 k)) e
        ∙ ap (with_header m.command m.num_entries) loop)
  where
    pre : List ℕ
    pre = uint16_to_bytes m.command ++ uint16_to_bytes m.num_entries

    b : List ℕ
    b = pre ++ (marshal_entries m.entries ++ rest)

    loop :
        unmarshal_entries (pre ++ (marshal_entries m.entries ++ rest)) 0 (length m.entries)
        ≡ parsed m.entries
    loop = unmarshal_entries-marshal_entries pre m.entries rest 0 refl w

-- The bytes that a message with `n` entries takes.
abbrev pub needed : ℕ → ℕ
needed n = 4 + n * 12

unmarshal_entry_some :
    (s : List ℕ) → length s ≡ 12 → (r : RipEntry) × (unmarshal_entry s ≡ parsed r)
unfolding unmarshal_entry
unmarshal_entry_some s h = (
  record {
    cost = bytes_to_uint32 (take 4 s);
    address = bytes_to_uint32 (take 4 (drop 4 s));
    mask = bytes_to_uint32 (take 4 (drop 8 s));
  },
  ground arith,
)

slice_entry :
    (b : List ℕ) (i : ℕ)
    → 4 + (i + 1) * 12 ≤ length b
    → (s : List ℕ) × (slice b (4 + i * 12) (4 + (i + 1) * 12) ≡ some s) × (length s ≡ 12)
slice_entry b i h = (
  take (4 + (i + 1) * 12 - (4 + i * 12)) (drop (4 + i * 12) b),
  ground arith,
  omega (
    arith,
    length-take (4 + (i + 1) * 12 - (4 + i * 12)) (drop (4 + i * 12) b),
    length-drop (4 + i * 12) b,
  ),
)

slice_panics :
    (b : List ℕ) (i n : ℕ) → length b < 4 + (i + 1) * 12 → unmarshal_entries b i (suc n) ≡ panicked
unfolding unmarshal_entries
slice_panics b i n h = ground arith

entries_panic :
    (b : List ℕ) (i n : ℕ) (s : List ℕ) (r : RipEntry)
    → slice b (4 + i * 12) (4 + (i + 1) * 12) ≡ some s
    → unmarshal_entry s ≡ parsed r
    → unmarshal_entries b (i + 1) n ≡ panicked
    → unmarshal_entries b i (suc n) ≡ panicked
unfolding unmarshal_entries
entries_panic b i n s r p q t = rw (p, q, t)

unmarshal_entries_short :
    (b : List ℕ) (i n : ℕ)
    → 4 + i * 12 ≤ length b
    → length b < 4 + (i + n) * 12
    → unmarshal_entries b i n ≡ panicked
unmarshal_entries_short b i zero h k = absurd (omega arith)
unmarshal_entries_short b i (suc n) h k = elim (dec_lt (length b) (4 + (i + 1) * 12)) [
  | yes out ↦ slice_panics b i n out
  | no fits ↦
      let (s, e, len) = slice_entry b i (omega arith) in
      let (r, e') = unmarshal_entry_some s len in
      entries_panic b i n s r e e' (unmarshal_entries_short b (i + 1) n (omega arith) (omega arith))
]

unmarshal_entries_enough :
    (b : List ℕ) (i n : ℕ)
    → 4 + (i + n) * 12 ≤ length b
    → (rs : List RipEntry) × (unmarshal_entries b i n ≡ parsed rs) × (length rs ≡ n)
unmarshal_entries_enough b i zero h = ([], unmarshal_entries_zero b i, refl)
unmarshal_entries_enough b i (suc n) h =
    let (s, e, len) = slice_entry b i (omega arith) in
    let (r, e') = unmarshal_entry_some s len in
    let (rs, t, c) = unmarshal_entries_enough b (i + 1) n (omega arith) in
    (r ∷ rs, entries_cons b i n s r rs e e' t, ap suc c)

-- Unmarshal panics if the bytes are too few for the count in the message, reads a message with
-- that many entries if they are enough, and never returns its error.
pub unmarshal_total :
    (b : List ℕ)
    → 4 ≤ length b
    → let n = bytes_to_uint16 (take 2 (drop 2 b)) in
      (length b < needed n → unmarshal b ≡ panicked)
      × (needed n ≤ length b
          → (m : RipMsg) × (unmarshal b ≡ parsed m) × (m.num_entries ≡ n) × (length m.entries ≡ n))
unfolding bytes_to_uint16
unmarshal_total (w ∷ x ∷ y ∷ z ∷ r) h = (
  λ short. rw unmarshal_header (
      rw (unmarshal_entries_short (w ∷ x ∷ y ∷ z ∷ r) 0 (y * 256 + z) (omega arith) (omega arith))),
  λ enough.
      let (rs, e, len) =
        unmarshal_entries_enough (w ∷ x ∷ y ∷ z ∷ r) 0 (y * 256 + z) (omega arith) in
      (_, unmarshal_header w x y z r ∙ ap (with_header (w * 256 + x) (y * 256 + z)) e, refl, len),
)
unmarshal_total [] h = absurd (omega arith)
unmarshal_total (w ∷ []) h = absurd (omega arith)
unmarshal_total (w ∷ x ∷ []) h = absurd (omega arith)
unmarshal_total (w ∷ x ∷ y ∷ []) h = absurd (omega arith)
