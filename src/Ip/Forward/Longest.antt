-- ===== src/Ip/Forward/Longest.antt =====
-- findLongestMatchedPrefix, against what its name says.
use gotcp.Prelude.{
  ℕ, ◌≤◌, ◌+◌, ◌≡◌, ◌⊎◌, inl, inr, refl, sym, subst, true, false, ◌&&◌, Option, none, some, [], ◌∷◌,
  arith, leb, Bool-cases,
}
use gotcp.Ip.Addr.{Addr, Prefix}
use gotcp.Ip.Table.{RoutingTable}
use gotcp.Ip.Forward.{longest_from, find_longest_matched_prefix, contains?, bits_of}

-- The prefix is a key of the table.
abbrev pub HasKey : Prefix → RoutingTable → Type 0
HasKey p [] = ⊥
HasKey p ((q, _) ∷ t) = (q ≡ p) ⊎ HasKey p t

abbrev pub Matches : Option Addr → RoutingTable → Prefix → Type 0
Matches dest t p = HasKey p t × (contains? p dest ≡ true)

-- There is a prefix, of at least that length.
abbrev pub AtLeast : ℕ → Option Prefix → Type 0
AtLeast n none = ⊥
AtLeast n (some p) = n ≤ bits_of p

AtLeast-trans : (m n : ℕ) (o : Option Prefix) → m ≤ n → AtLeast n o → AtLeast m o
AtLeast-trans m n none h a = a
AtLeast-trans m n (some p) h a = omega arith

-- The two variables of the loop agree.
abbrev Coherent : Option Prefix → ℕ → Type 0
Coherent none m = m ≡ 0
Coherent (some p) m = m ≡ bits_of p

kept :
    (dest : Option Addr) (t : RoutingTable) (p : Prefix) (m : ℕ)
    → m ≡ bits_of p
    → AtLeast m (longest_from dest t (some p) m)
unfolding longest_from
kept dest [] p m h = omega arith
kept dest ((q, _) ∷ t) p m h = elim (Bool-cases (contains? q dest && leb m (bits_of q))) [
  | inl e ↦
      rw e (AtLeast-trans m (bits_of q) _ (ground (arith, e)) (kept dest t q (bits_of q) refl))
  | inr e ↦ rw e (kept dest t p m h)
]

upper :
    (dest : Option Addr) (t : RoutingTable) (longest : Option Prefix) (m : ℕ) (q : Prefix)
    → Coherent longest m
    → Matches dest t q
    → AtLeast (bits_of q) (longest_from dest t longest m)
unfolding longest_from
upper dest [] longest m q c (k, _) = absurd k
upper dest ((p, e0) ∷ t) longest m q c (k, h) =
    elim (Bool-cases (contains? p dest && leb m (bits_of p))) [
      | inl e ↦ rw e (elim k [
        | inl same ↦
            AtLeast-trans _ (bits_of p) _ (rw same (omega arith)) (kept dest t p (bits_of p) refl)
        | inr k' ↦ upper dest t (some p) (bits_of p) q refl (k', h)
      ])
      | inr e ↦ rw e (elim k [
        | inl same ↦ skipped longest c (shorter same e)
        | inr k' ↦ upper dest t longest m q c (k', h)
      ])
    ]
  where
    shorter : p ≡ q → (contains? p dest && leb m (bits_of p)) ≡ false → bits_of q + 1 ≤ m
    shorter same e =
        let h' : contains? p dest ≡ true = rw same h in
        let l : leb m (bits_of p) ≡ false = ground (arith, h', e) in
        rw (sym same) (ground (arith, l))

    skipped :
        (o : Option Prefix)
        → Coherent o m
        → bits_of q + 1 ≤ m
        → AtLeast (bits_of q) (longest_from dest t o m)
    skipped none c' l = absurd (omega (arith, c', l))
    skipped (some p') c' l = AtLeast-trans _ m _ (omega arith) (kept dest t p' m c')

source :
    (dest : Option Addr) (t : RoutingTable) (longest : Option Prefix) (m : ℕ) (p : Prefix)
    → longest_from dest t longest m ≡ some p
    → (longest ≡ some p) ⊎ Matches dest t p
unfolding longest_from
source dest [] longest m p h = inl h
source dest ((q, e0) ∷ t) longest m p h =
    elim (Bool-cases (contains? q dest && leb m (bits_of q))) [
      | inl e ↦ elim (source dest t (some q) (bits_of q) p (rw e at h)) [
        | inl same ↦
            inr
              (inl (key same), subst (λ r. contains? r dest ≡ true) (key same) (ground (arith, e)))
        | inr (k, c) ↦ inr (inr k, c)
      ]
      | inr e ↦ elim (source dest t longest m p (rw e at h)) [
        | inl same ↦ inl same
        | inr (k, c) ↦ inr (inr k, c)
      ]
    ]
  where
    key : some q ≡ some p → q ≡ p
    key same = cc

abbrev pub LongestSpec : Option Addr → RoutingTable → Option Prefix → Type 0
LongestSpec dest t none = (q : Prefix) → ¬ Matches dest t q
LongestSpec dest t (some p) =
    Matches dest t p × ((q : Prefix) → Matches dest t q → bits_of q ≤ bits_of p)

-- findLongestMatchedPrefix yields the zero prefix only if no key of the table contains the address;
-- else it yields a key that contains it, and no key that contains it is longer, in whatever order
-- the map is visited.
pub find_longest_matched_prefix-LongestSpec :
    (dest : Option Addr)
    → (t : RoutingTable) → LongestSpec dest t (find_longest_matched_prefix t dest)
unfolding find_longest_matched_prefix
find_longest_matched_prefix-LongestSpec dest t = go (longest_from dest t none 0) refl
  where
    go : (o : Option Prefix) → longest_from dest t none 0 ≡ o → LongestSpec dest t o
    go none e = λ q m. subst (AtLeast (bits_of q)) e (upper dest t none 0 q refl m)
    go (some p) e = (
      elim (source dest t none 0 p e) [ inl n ↦ absurd (cc) | inr m ↦ m ],
      λ q m. subst (AtLeast (bits_of q)) e (upper dest t none 0 q refl m),
    )
