-- ===== src/Prelude/Quantifiers.antt =====
-- Each element of a list, and some element of it.
use mathlib.Core.Logic.{◌⊎◌, inl, inr}
use mathlib.Core.List.{List, [], ◌∷◌, ◌++◌}

module _ {A : Type 0} where
  -- Each element of the list has the property; some element has it.
  abbrev pub All : (A → Type 0) → List A → Type 0
  All P [] = Unit
  All P (x ∷ xs) = P x × All P xs

  abbrev pub Any : (A → Type 0) → List A → Type 0
  Any P [] = ⊥
  Any P (x ∷ xs) = P x ⊎ Any P xs

  pub All-append : (P : A → Type 0) (xs : List A) (y : A) → All P xs → P y → All P (xs ++ y ∷ [])
  All-append P [] y h k = (k, tt)
  All-append P (x ∷ xs) y (h, hs) k = (h, All-append P xs y hs k)

  pub Any-append : (P : A → Type 0) (xs : List A) (y : A) → Any P xs → Any P (xs ++ y ∷ [])
  Any-append P [] y h = elim h [ ]
  Any-append P (x ∷ xs) y (inl h) = inl h
  Any-append P (x ∷ xs) y (inr h) = inr (Any-append P xs y h)

  pub All-map : {P Q : A → Type 0} (xs : List A) → ((x : A) → P x → Q x) → All P xs → All Q xs
  All-map [] f h = tt
  All-map (x ∷ xs) f (h, hs) = (f x h, All-map xs f hs)
