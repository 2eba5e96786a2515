-- ===== src/Repl/Combine.antt =====
-- CombineRepls: what the combined REPL dispatches, and when there is an overlap.
use Prim.Native.String.{String}
use text.Mathlib.TextEquality.{eq_iff}
use mathlib.Core.Bool.{false≢true}
use gotcp.Prelude.{
  ℕ, ◌+◌, ◌≤◌, ◌≡◌, refl, subst, ap, ◌∙◌, true, false, Option, none, some, List, [], ◌∷◌,
  if◌then◌else◌, Bool-cases, inl, inr, arith,
}
use gotcp.Ip.Forward.{name_eq, get}
use gotcp.Ip.Init.{put}
use gotcp.Ip.Init.Tables.{or_other}
use gotcp.Ip.Named.{get-put}
use gotcp.Repl.{
  Repl, new_repl, is_key, handler_of, combine_help, and_then, combine_from, combine_repls,
}

-- A Go map has one entry for each key.
abbrev pub UniqueNames : {A : Type 0} → List (String × A) → Type 0
UniqueNames [] = Unit
UniqueNames ((k, _) ∷ m) = (get k m ≡ none) × UniqueNames m

module _ {H : Type 0} where
  -- A REPL's own loop: an overlap with what is there, or all of its commands over what is there.
  abbrev HelpSpec :
      List (String × Option H) → List (String × String) → Repl H → Option (Repl H) → Type 0
  HelpSpec commands help combined none =
      (k : String) × (is_key (get k help) ≡ true) × (is_key (get k combined.help) ≡ true)
  HelpSpec commands help combined (some c) =
      (k : String)
      → (is_key (get k c.help)
          ≡ (if is_key (get k help) then true else is_key (get k combined.help)))
        × (get k c.commands ≡ (
            if is_key (get k help)
            then some (handler_of (get k commands))
            else get k combined.commands))
        × (is_key (get k help) ≡ true → is_key (get k combined.help) ≡ false)

  combine_help-HelpSpec :
      (commands : List (String × Option H)) (help : List (String × String)) (combined : Repl H)
      → UniqueNames help
      → HelpSpec commands help combined (combine_help commands help combined)
  unfolding combine_help
  combine_help-HelpSpec commands [] combined u = λ k. (refl, refl, λ h. cc)
  combine_help-HelpSpec commands ((j, v) ∷ help) combined (n, u) =
      elim (Bool-cases (is_key (get j combined.help))) [
        | inl y ↦ rw y (j, rw ((eq_iff j j).1 refl) refl, y)
        | inr e ↦ rw e (further _ (combine_help-HelpSpec commands help next u) e)
      ]
    where
      next : Repl H
      next = record {
        commands = put j (handler_of (get j commands)) combined.commands;
        help = put j v combined.help;
      }

      further :
          (o : Option (Repl H))
          → HelpSpec commands help next o
          → is_key (get j combined.help) ≡ false
          → HelpSpec commands ((j, v) ∷ help) combined o
      further none (k, a, b) e = elim (Bool-cases (name_eq j k)) [
        | inl y ↦ absurd (false≢true (rw (← (eq_iff j k).0 y, n) at a))
        | inr d ↦ (k, rw d a, rw (get-put j k v combined.help, d) at b)
      ]
      further (some c) h e = λ k.
          let (x, y, z) = h k in
          elim (Bool-cases (name_eq j k)) [
            | inl d ↦
                let p = (eq_iff j k).0 d in
                let m : get k help ≡ none = subst (λ i. get i help ≡ none) p n in
                rw d (
                  rw (get-put j k v combined.help, d, m) at x,
                  (rw (get-put j k (handler_of (get j commands)) combined.commands, d, m) at y)
                      ∙ ap (λ i. some (handler_of (get i commands))) p,
                  λ _. subst (λ i. is_key (get i combined.help) ≡ false) p e,
                )
            | inr d ↦ rw d (
              rw (get-put j k v combined.help, d) at x,
              rw (get-put j k (handler_of (get j commands)) combined.commands, d) at y,
              rw (get-put j k v combined.help, d) at z,
            )
          ]

  -- How many of the REPLs have the command, and the handler that the first of them has.
  abbrev pub owners : String → List (Repl H) → ℕ
  owners k [] = 0
  owners k (r ∷ rs) = (if is_key (get k r.help) then 1 else 0) + owners k rs

  abbrev pub first_handler : String → List (Repl H) → Option (Option H)
  first_handler k [] = none
  first_handler k (r ∷ rs) =
      if is_key (get k r.help) then some (handler_of (get k r.commands)) else first_handler k rs

  abbrev pub AreMaps : List (Repl H) → Type 0
  AreMaps [] = Unit
  AreMaps (r ∷ rs) = UniqueNames r.help × AreMaps rs

  abbrev owned : String → Repl H → ℕ
  owned k c = if is_key (get k c.help) then 1 else 0

  abbrev FromSpec : List (Repl H) → Repl H → Option (Repl H) → Type 0
  FromSpec rs combined none = (k : String) × (2 ≤ owned k combined + owners k rs)
  FromSpec rs combined (some c) =
      (k : String)
      → (owned k combined + owners k rs ≤ 1)
        × (get k c.commands ≡ or_other (first_handler k rs) (get k combined.commands))

  first_handler-none :
      (k : String) (rs : List (Repl H)) → owners k rs ≡ 0 → first_handler k rs ≡ none
  first_handler-none k [] h = refl
  first_handler-none k (r ∷ rs) h = elim (Bool-cases (is_key (get k r.help))) [
    | inl y ↦ absurd (omega (arith, (rw y at h)))
    | inr n ↦ rw n (first_handler-none k rs (omega (arith, (rw n at h))))
  ]

  owned-combine_help :
      (r combined c : Repl H) (k : String)
      → HelpSpec r.commands r.help combined (some c)
      → owned k c ≡ owned k combined + owned k r
  owned-combine_help r combined c k h =
      let (x, _, z) = h k in
      elim (Bool-cases (is_key (get k r.help))) [
        | inl y ↦ rw (y, rw y at x, z y) refl
        | inr n ↦ rw (n, rw n at x) (omega arith)
      ]

  combine_from-FromSpec :
      (rs : List (Repl H)) (combined : Repl H)
      → AreMaps rs
      → FromSpec rs combined (combine_from rs combined)
  unfolding combine_from
  combine_from-FromSpec [] combined u = λ k. (ground arith, refl)
  combine_from-FromSpec (r ∷ rs) combined (u, us) =
      further (combine_help r.commands r.help combined)
        (combine_help-HelpSpec r.commands r.help combined u) (λ c. combine_from-FromSpec rs c us)
    where
      beyond :
          (c : Repl H) (o : Option (Repl H))
          → HelpSpec r.commands r.help combined (some c)
          → FromSpec rs c o
          → FromSpec (r ∷ rs) combined o
      beyond c none h (k, l) = (k, omega (arith, l, owned-combine_help r combined c k h))
      beyond c (some d) h f = λ k.
          let (l, e) = f k in
          let total = owned-combine_help r combined c k h in
          let (_, y, _) = h k in
          (
            omega (arith, l, total),
            elim (Bool-cases (is_key (get k r.help))) [
              | inr n ↦ rw n (e ∙ ap (or_other (first_handler k rs)) (rw n at y))
              | inl m ↦
                  let none_left : owners k rs ≡ 0 = omega (arith, l, (rw m at total)) in
                  rw m (rw (first_handler-none k rs none_left) at e ∙ (rw m at y))
            ],
          )

      further :
          (o : Option (Repl H))
          → HelpSpec r.commands r.help combined o
          → ((c : Repl H) → FromSpec rs c (combine_from rs c))
          → FromSpec (r ∷ rs) combined (and_then o (combine_from rs))
      further none (k, a, b) f = (k, rw (a, b) (omega arith))
      further (some c) h f = beyond c (combine_from rs c) h (f c)

  abbrev pub CombineSpec : List (Repl H) → Option (Repl H) → Type 0
  CombineSpec rs none = (k : String) × (2 ≤ owners k rs)
  CombineSpec rs (some c) =
      (k : String) → (owners k rs ≤ 1) × (get k c.commands ≡ first_handler k rs)

  -- CombineRepls fails only if some two of the REPLs have a command in common. Else no command has two
  -- owners, and each command is the one of its owner.
  pub combine_repls-CombineSpec :
      (rs : List (Repl H)) → AreMaps rs → CombineSpec rs (combine_repls rs)
  unfolding combine_repls
  combine_repls-CombineSpec rs u =
      from (combine_from rs new_repl) (combine_from-FromSpec rs new_repl u)
    where
      or_other-none : (o : Option (Option H)) → or_other o none ≡ o
      or_other-none none = refl
      or_other-none (some a) = refl

      from : (o : Option (Repl H)) → FromSpec rs new_repl o → CombineSpec rs o
      from none (k, l) = (k, omega (arith, l))
      from (some c) f =
          λ k. let (l, e) = f k in (omega (arith, l), e ∙ or_other-none (first_handler k rs))
