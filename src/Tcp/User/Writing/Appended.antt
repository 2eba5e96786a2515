-- ===== src/Tcp/User/Writing/Appended.antt =====
-- What writes and acknowledgements do to the bytes of a send buffer, and one after the other.
use gotcp.Prelude.{
  ℕ, zero, suc, ◌+◌, ◌-◌, ◌≤◌, ◌<◌, ◌≡◌, refl, sym, ap, ◌∙◌, arith, List, [], ◌∷◌, ◌++◌, min,
  length, take, drop, length-drop, length-append,
}
use mathlib.Core.List.{append-nil, append_assoc}
use gotcp.Prelude.Words.{u32_mod}
use gotcp.Prelude.Pointwise.{list_ext, get_elem?-drop, get_elem?-append}
use gotcp.Tcp.Ring.{length-window}
use gotcp.Tcp.SendBuf.{SendBuf, index}
use gotcp.Tcp.SendBuf.Inv.{dist, held, contents, IsValid, index-lt, contents-ack}
use gotcp.Tcp.SendBuf.Write.{written, moved, written-IsValid, contents-written}
use gotcp.Tcp.User.Writing.{Round, una_after}

module _ {A : Type 0} where
  take_at : (xs : List A) (m n : ℕ) → m ≡ n → take m xs ≡ take n xs
  take_at xs m n e = ap (λ k. take k xs) e

  pub drop_at : (xs : List A) (m n : ℕ) → m ≡ n → drop m xs ≡ drop n xs
  drop_at xs m n e = ap (λ k. drop k xs) e

  take-none : (n : ℕ) → take {A = A} n [] ≡ []
  take-none zero = refl
  take-none (suc n) = refl

  pub take-more : (n k : ℕ) (xs : List A) → take n xs ++ take k (drop n xs) ≡ take (n + k) xs
  take-more zero k xs = take_at xs k (0 + k) (omega arith)
  take-more (suc n) k [] = take-none k ∙ sym (take-none (suc n + k))
  take-more (suc n) k (x ∷ xs) =
      ap (◌∷◌ x) (take-more n k xs) ∙ take_at (x ∷ xs) (suc (n + k)) (suc n + k) (omega arith)

  drop-more :
      (n k : ℕ) (xs ys : List A)
      → n ≤ length xs
      → drop k (drop n xs ++ ys) ≡ drop (n + k) (xs ++ ys)
  drop-more n k xs ys h = list_ext _ _ λ i. ground (
    arith,
    get_elem?-drop k (drop n xs ++ ys) i,
    get_elem?-append (drop n xs) ys (k + i),
    length-drop n xs,
    get_elem?-drop n xs (k + i),
    get_elem?-drop (n + k) (xs ++ ys) i,
    get_elem?-append xs ys (n + k + i),
  )

-- What a part of the loop does: the bytes are appended, those that SND.UNA moved past are gone, and
-- the buffer is valid.
pub record Appended (b : SendBuf) (una : ℕ) (xs : List ℕ) (b' : SendBuf) (una' : ℕ) : Type 0 where
  pub valid : IsValid b' una'
  pub same_iss : b'.iss ≡ b.iss
  pub same_capacity : b'.capacity ≡ b.capacity
  pub written_on : dist b b'.lbw ≡ dist b b.lbw + length xs
  pub acked_on : dist b una ≤ dist b una'
  pub held_now : contents b' una' ≡ drop (dist b una' - dist b una) (contents b una ++ xs)

length-contents : {b : SendBuf} {una : ℕ} (v : IsValid b una) → length (contents b una) ≡ held b una
length-contents {b} {una} v =
    length-window b.buf (index b una) (held b una) (omega (arith, v, index-lt v una))
      (omega (arith, v))

pub Appended-trans :
    {b b1 b2 : SendBuf} {una una1 una2 : ℕ} {xs ys : List ℕ}
    → IsValid b una
    → Appended b una xs b1 una1
    → Appended b1 una1 ys b2 una2
    → Appended b una (xs ++ ys) b2 una2
Appended-trans {b} {b1} {b2} {una} {una1} {una2} {xs} {ys} v p q = record {
  valid = q.valid;
  same_iss = q.same_iss ∙ p.same_iss;
  same_capacity = q.same_capacity ∙ p.same_capacity;
  written_on = omega (arith, (rw p.same_iss at q.written_on), p.written_on, length-append xs ys);
  acked_on = omega (arith, (rw p.same_iss at q.acked_on), p.acked_on);
  held_now =
      q.held_now
      ∙ ap (λ l. drop (dist b1 una2 - dist b1 una1) (l ++ ys)) p.held_now
      ∙ drop-more (dist b una1 - dist b una) (dist b1 una2 - dist b1 una1) (contents b una ++ xs) ys
          within
      ∙ ap (drop (dist b una1 - dist b una + (dist b1 una2 - dist b1 una1)))
          (append_assoc (contents b una) xs ys)
      ∙ drop_at (contents b una ++ (xs ++ ys)) _ (dist b una2 - dist b una) total;
}
  where
    within : dist b una1 - dist b una ≤ length (contents b una ++ xs)
    within = omega (
      arith,
      length-append (contents b una) xs,
      length-contents v,
      p.written_on,
      (rw p.same_iss at p.valid.ordered),
    )

    total : dist b una1 - dist b una + (dist b1 una2 - dist b1 una1) ≡ dist b una2 - dist b una
    total = rw p.same_iss (omega (arith, p.acked_on, (rw p.same_iss at q.acked_on)))

pub acked-Appended :
    {b : SendBuf} {una : ℕ} (v : IsValid b una) (r : Round)
    → Appended b una [] (record b { has_unsent = r.unsent }) (una_after r b una)
unfolding index
acked-Appended {b} {una} v r = record {
  valid = ground (arith, (contents-ack v (una_after r b una) k lt on some_held).0);
  same_iss = refl;
  same_capacity = refl;
  written_on = omega arith;
  acked_on = omega (arith, on);
  held_now =
      (contents-ack v (una_after r b una) k lt on some_held).1
      ∙ drop_at (contents b una) k (dist b (una_after r b una) - dist b una) (omega (arith, on))
      ∙ ap (drop (dist b (una_after r b una) - dist b una)) (sym (append-nil (contents b una)));
}
  where
    k : ℕ
    k = min r.acked (held b una)

    lt : una_after r b una < u32_mod
    lt = omega arith

    on : dist b (una_after r b una) ≡ dist b una + k
    on = omega (arith, v)

    some_held : k ≤ held b una
    some_held = omega arith

pub written-Appended :
    {b : SendBuf} {una : ℕ} (v : IsValid b una) (xs : List ℕ)
    → held b una + length xs ≤ b.capacity
    → dist b b.lbw + length xs < u32_mod
    → Appended b una xs (written b xs) una
written-Appended {b} {una} v xs fit far = record {
  valid = written-IsValid v xs fit far;
  same_iss = refl;
  same_capacity = refl;
  written_on = moved v xs fit far;
  acked_on = omega arith;
  held_now =
      contents-written v xs fit far
      ∙ drop_at (contents b una ++ xs) 0 (dist b una - dist b una) (omega arith);
}

pub self-Appended : {b : SendBuf} {una : ℕ} → IsValid b una → Appended b una [] b una
self-Appended {b} {una} v = record {
  valid = v;
  same_iss = refl;
  same_capacity = refl;
  written_on = omega arith;
  acked_on = omega arith;
  held_now =
      sym (append-nil (contents b una))
      ∙ drop_at (contents b una ++ []) 0 (dist b una - dist b una) (omega arith);
}
