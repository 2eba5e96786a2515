-- ===== src/Config/Fields.antt =====
-- The words between the literal texts of a format, and `fscanf`.
use Prim.Native.Char.{code}
use Prim.Native.String.{String}
use mathlib.Core.Bool.{false≢true}
use gotcp.Prelude.{
  Bool, true, false, some, List, [], ◌∷◌, ◌≡◌, refl, arith, ◌==◌, if◌then◌else◌, Bool-cases, inl,
  inr, ==_iff,
}
use gotcp.Config.Text.{is_space, skip_space, take_word, scan_word, match_text, fscanf}

-- Texts put together.
infixr 65 ◌&◌
abbrev pub ◌&◌ : String → String → String
String.[] & t = t
(String.◌∷◌ c s) & t = String.◌∷◌ c (s & t)

abbrev no_spaces : String → Bool
no_spaces String.[] = true
no_spaces (String.◌∷◌ c s) = if is_space c then false else no_spaces s

abbrev starts_word : String → Bool
starts_word String.[] = false
starts_word (String.◌∷◌ c s) = if is_space c then false else true

-- Not empty, and without a space.
abbrev pub is_word : String → Bool
is_word w = if starts_word w then no_spaces w else false

abbrev pub ends_word : String → Bool
ends_word String.[] = true
ends_word (String.◌∷◌ c s) = is_space c

take_word-word :
    (w rest : String)
    → no_spaces w ≡ true
    → ends_word rest ≡ true
    → take_word (w & rest) ≡ (w, rest)
unfolding take_word
take_word-word String.[] String.[] h k = refl
take_word-word String.[] (String.◌∷◌ c s) h k = ground arith
take_word-word (String.◌∷◌ c w) rest h k = elim (Bool-cases (is_space c)) [
  | inl e ↦ absurd (false≢true (rw e at h))
  | inr e ↦ rw (e, take_word-word w rest (rw e at h) k) refl
]

skip_space_none : (s : String) → starts_word s ≡ true → skip_space s ≡ s
unfolding skip_space
skip_space_none (String.◌∷◌ c s) h = ground arith
skip_space_none String.[] h = ground arith

scan_word-word :
    (w rest : String)
    → is_word w ≡ true
    → ends_word rest ≡ true
    → scan_word (w & rest) ≡ some (w, rest)
unfolding scan_word
scan_word-word String.[] rest h k = ground arith
scan_word-word (String.◌∷◌ c w) rest h k = elim (Bool-cases (is_space c)) [
  | inl e ↦ absurd (false≢true (rw e at h))
  | inr e ↦
      rw
        (
          skip_space_none (String.◌∷◌ c (w & rest)) (rw e refl),
          take_word-word (String.◌∷◌ c w) rest (rw e (rw e at h)) k,
        )
        refl
]

-- After each space of the literal text, a character that is no space follows.
abbrev is_tight : String → String → Bool
is_tight String.[] s = true
is_tight (String.◌∷◌ f fs) s =
    if code f == b' '
    then (if starts_word (fs & s) then is_tight fs s else false)
    else is_tight fs s

match_text-text : (l s : String) → is_tight l s ≡ true → match_text l (l & s) ≡ some s
unfolding match_text
match_text-text String.[] s h = refl
match_text-text (String.◌∷◌ f fs) s h = elim (Bool-cases (code f == b' ')) [
  | inr e ↦ rw (e, (==_iff (code f) (code f)).1 refl) (match_text-text fs s (rw e at h))
  | inl e ↦ elim (Bool-cases (starts_word (fs & s))) [
    | inl e' ↦ rw (e, skip_space_none (fs & s) e') (match_text-text fs s (rw (e, e') at h))
    | inr e' ↦ absurd (false≢true (rw (e, e') at h))
  ]
]

-- The literal texts of a format, each followed by its word, and the rest of the line.
abbrev pub filled : List String → List String → String → String
filled (l ∷ ls) (w ∷ ws) rest = l & (w & filled ls ws rest)
filled _ _ rest = rest

-- As many words as literal texts, with a space behind each word.
abbrev pub Fits : List String → List String → String → Type 0
Fits [] [] rest = Unit
Fits (l ∷ ls) (w ∷ ws) rest =
    (is_tight l (w & filled ls ws rest) ≡ true)
    × (is_word w ≡ true)
    × (ends_word (filled ls ws rest) ≡ true)
    × Fits ls ws rest
Fits _ _ rest = ⊥

pub fscanf-filled :
    (ls ws : List String) (rest : String)
    → Fits ls ws rest
    → fscanf ls (filled ls ws rest) ≡ some ws
unfolding fscanf
fscanf-filled [] [] rest h = refl
fscanf-filled [] (w ∷ ws) rest h = absurd h
fscanf-filled (l ∷ ls) [] rest h = absurd h
fscanf-filled (l ∷ ls) (w ∷ ws) rest (t, h, e, k) =
    rw
      (
        match_text-text l (w & filled ls ws rest) t,
        scan_word-word w (filled ls ws rest) h e,
        fscanf-filled ls ws rest k,
      )
      refl

-- A literal text whose only space is its last character.
pub tight-word :
    (w rest : String) → is_word w ≡ true → (if starts_word (w & rest) then true else false) ≡ true
tight-word String.[] rest h = absurd (false≢true h)
tight-word (String.◌∷◌ c w) rest h = elim (Bool-cases (is_space c)) [
  | inl e ↦ absurd (false≢true (rw e at h))
  | inr e ↦ rw e refl
]
