-- ===== src/Prelude/Copies.antt =====
-- Go's `copy` into a slice, in one part and in two.
use gotcp.Prelude.{
  ℕ, ◌+◌, ◌-◌, ◌≤◌, ◌≡◌, ◌∙◌, sym, List, ◌++◌, arith, length, take, drop, copy_at, length-append,
  length-copy_at, take_all, ap, refl, [], ◌∷◌, slice, some,
}
use gotcp.Prelude.Pointwise.{
  list_ext, get_elem?-copy_at, get_elem?-append, get_elem?-take, get_elem?-drop, get_elem?-past,
}

module _ {A : Type 0} where
  -- A copy in two parts is a copy of the two parts joined.
  pub copy_at_twice :
      (xs ys zs : List A) → copy_at (copy_at xs 0 ys) (length ys) zs ≡ copy_at xs 0 (ys ++ zs)
  copy_at_twice xs ys zs = list_ext _ _ λ i. ground (
    arith,
    get_elem?-copy_at (copy_at xs 0 ys) (length ys) zs i,
    get_elem?-copy_at xs 0 ys i,
    get_elem?-copy_at xs 0 (ys ++ zs) i,
    get_elem?-append ys zs i,
    length-append ys zs,
    length-copy_at xs 0 ys,
  )

module _ {A : Type 0} where
  pub take-append : (xs ys : List A) → take (length xs) (xs ++ ys) ≡ xs
  take-append [] ys = refl
  take-append (x ∷ xs) ys = ap (◌∷◌ x) (take-append xs ys)

  drop-append : (xs ys : List A) → drop (length xs) (xs ++ ys) ≡ ys
  drop-append [] ys = refl
  drop-append (x ∷ xs) ys = drop-append xs ys

  -- The slice that holds just the middle part.
  pub slice_middle :
      (xs ys zs : List A) (lo hi : ℕ)
      → lo ≡ length xs
      → hi ≡ length xs + length ys
      → slice (xs ++ (ys ++ zs)) lo hi ≡ some ys
  slice_middle xs ys zs lo hi p q =
      rw (p, q, drop-append xs (ys ++ zs), size, width) (ground (arith, take-append ys zs))
    where
      size : length (xs ++ (ys ++ zs)) ≡ length xs + (length ys + length zs)
      size = omega (arith, length-append xs (ys ++ zs), length-append ys zs)

      width : length xs + length ys - length xs ≡ length ys
      width = omega arith

module _ {A : Type 0} (buf : List A) (s : List A) (fits : length s ≤ length buf) where
  pub take-copy_at : take (length s) (copy_at buf 0 s) ≡ s
  take-copy_at = list_ext _ _ λ i. ground (
    arith,
    get_elem?-take (length s) (copy_at buf 0 s) i,
    get_elem?-copy_at buf 0 s i,
    get_elem?-past s i,
  )

  pub drop-copy_at : drop (length s) (copy_at buf 0 s) ≡ drop (length s) buf
  drop-copy_at = list_ext _ _ λ i. ground (
    arith,
    get_elem?-drop (length s) (copy_at buf 0 s) i,
    get_elem?-drop (length s) buf i,
    get_elem?-copy_at buf 0 s (length s + i),
  )

  -- A slice of just the size of what is copied.
  pub copy_at_whole : length s ≡ length buf → copy_at buf 0 s ≡ s
  copy_at_whole e =
      sym (take_all (length s) (copy_at buf 0 s) (omega (arith, length-copy_at buf 0 s)))
      ∙ take-copy_at
