-- ===== src/Router/Announce.antt =====
-- Which changes of the table are announced to the neighbours.
use gotcp.Prelude.{
  ℕ, ◌≡◌, ◌≢◌, refl, sym, ◌∙◌, Bool, true, false, not, ◌⊎◌, ◌||◌, List, [], ◌∷◌, ◌++◌, Option, none,
  some, arith, ltb, ◌==◌, if◌then◌else◌, Bool-cases, Option-cases, inl, inr,
}
use gotcp.Ip.Addr.{opt_eq, Prefix, prefix_eq, prefix_eq_iff}
use gotcp.Ip.Table.{RoutingEntry, RoutingTable, lookup_route}
use gotcp.Proto.Rip.{infinity}
use gotcp.Router.Update.{
  is_rip, Updating, update_entry, update_entries, update_routing_table, resolve,
}
use gotcp.Router.Relax.{relax, relax_all, update_entry-relax, update_routing_table-relax}

abbrev mentions : Prefix → List Prefix → Bool
mentions p [] = false
mentions p (q ∷ qs) = prefix_eq q p || mentions p qs

mentions-append :
    (p : Prefix) (qs rs : List Prefix) → mentions p (qs ++ rs) ≡ (mentions p qs || mentions p rs)
mentions-append p [] rs = refl
mentions-append p (q ∷ qs) rs = ground (arith, mentions-append p qs rs)

-- Two routes with the same next hop at the same cost, or no route twice.
abbrev pub SameRoute : Option RoutingEntry → Option RoutingEntry → Type 0
SameRoute none none = Unit
SameRoute (some a) (some b) = (a.next_hop ≡ b.next_hop) × (a.cost ≡ b.cost)
SameRoute _ _ = ⊥

SameRoute-refl : (o : Option RoutingEntry) → SameRoute o o
SameRoute-refl none = tt
SameRoute-refl (some a) = (refl, refl)

SameRoute-trans : (a b c : Option RoutingEntry) → SameRoute a b → SameRoute b c → SameRoute a c
SameRoute-trans none none none p q = tt
SameRoute-trans none none (some z) p q = absurd q
SameRoute-trans none (some y) c p q = absurd p
SameRoute-trans (some x) none c p q = absurd p
SameRoute-trans (some x) (some y) none p q = absurd q
SameRoute-trans (some x) (some y) (some z) p q = (p.0 ∙ q.0, p.1 ∙ q.1)

-- Does the loop leave the entry out of the announcement?
abbrev quiet : Option RoutingEntry → RoutingEntry → Bool
quiet none e = not (ltb e.cost infinity)
quiet (some old) e =
    not (is_rip old.route_type)
    || (if opt_eq old.next_hop e.next_hop then old.cost == e.cost else not (ltb e.cost old.cost))

updated-update_entry :
    (now : ℕ) (s : Updating) (e : RoutingEntry)
    → (update_entry now s e).updated
      ≡ (if quiet (lookup_route e.prefix s.table) e then s.updated else s.updated ++ e.prefix ∷ [])
unfolding update_entry
updated-update_entry now s e = elim (Option-cases (lookup_route e.prefix s.table)) [
  | inl n ↦ ground arith
  | inr (old, o) ↦ ground arith
]

quiet-SameRoute :
    (now : ℕ) (o : Option RoutingEntry) (e : RoutingEntry)
    → quiet o e ≡ true
    → SameRoute o (relax now o e)
quiet-SameRoute now none e h = ground arith
quiet-SameRoute now (some old) e h = ground arith

update_entry_quiet :
    (now : ℕ) (s : Updating) (e : RoutingEntry) (p : Prefix)
    → mentions p (update_entry now s e).updated ≡ false
    → (mentions p s.updated ≡ false)
      × SameRoute (lookup_route p s.table) (lookup_route p (update_entry now s e).table)
update_entry_quiet now s e p h = elim (Bool-cases (prefix_eq e.prefix p)) [
  | inl same ↦ (before, rw (update_entry-relax, same) (kept same))
  | inr other ↦ (before, rw (update_entry-relax, other) (SameRoute-refl (lookup_route p s.table)))
]
  where
    before : mentions p s.updated ≡ false
    before =
        ground (arith, updated-update_entry now s e, mentions-append p s.updated (e.prefix ∷ []))

    hushed : prefix_eq e.prefix p ≡ true → quiet (lookup_route e.prefix s.table) e ≡ true
    hushed same =
        ground (arith, updated-update_entry now s e, mentions-append p s.updated (e.prefix ∷ []))

    kept :
        prefix_eq e.prefix p ≡ true
        → SameRoute (lookup_route p s.table) (relax now (lookup_route p s.table) e)
    kept same =
        rw (← (prefix_eq_iff e.prefix p).0 same)
          (quiet-SameRoute now (lookup_route e.prefix s.table) e (hushed same))

update_entries_quiet :
    (now : ℕ) (s : Updating) (es : List RoutingEntry) (p : Prefix)
    → mentions p (update_entries now s es).updated ≡ false
    → (mentions p s.updated ≡ false)
      × SameRoute (lookup_route p s.table) (lookup_route p (update_entries now s es).table)
unfolding update_entries
update_entries_quiet now s [] p h = (h, SameRoute-refl (lookup_route p s.table))
update_entries_quiet now s (e ∷ es) p h =
    let (m, same) = update_entries_quiet now (update_entry now s e) es p h in
    let (m', same') = update_entry_quiet now s e p m in
    (
      m',
      SameRoute-trans (lookup_route p s.table) (lookup_route p (update_entry now s e).table) _ same'
          same,
    )

abbrev pub Elem : RoutingEntry → List RoutingEntry → Type 0
Elem r [] = ⊥
Elem r (e ∷ es) = (r ≡ e) ⊎ Elem r es

resolve_hit :
    (t : RoutingTable) (p : Prefix) (ps : List Prefix) (e : RoutingEntry)
    → lookup_route p t ≡ some e
    → resolve t (p ∷ ps) ≡ e ∷ resolve t ps
unfolding resolve
resolve_hit t p ps e h = ground arith

resolve_miss :
    (t : RoutingTable) (p : Prefix) (ps : List Prefix)
    → lookup_route p t ≡ none
    → resolve t (p ∷ ps) ≡ resolve t ps
unfolding resolve
resolve_miss t p ps h = ground arith

Elem-resolve :
    (t : RoutingTable) (p : Prefix) (ps : List Prefix) {r : RoutingEntry}
    → lookup_route p t ≡ some r
    → mentions p ps ≡ true
    → Elem r (resolve t ps)
Elem-resolve t p [] h m = cc
Elem-resolve t p (q ∷ qs) {r} h m = elim (Bool-cases (prefix_eq q p)) [
  | inl same ↦ rw (resolve_hit t q qs r (rw ((prefix_eq_iff q p).0 same) h)) (inl refl)
  | inr other ↦
      let ih : Elem r (resolve t qs) = Elem-resolve t p qs h (ground arith) in
      elim (Option-cases (lookup_route q t)) [
        | inl n ↦ rw (resolve_miss t q qs n) ih
        | inr (e, s) ↦ rw (resolve_hit t q qs e s) (inr ih)
      ]
]

-- A route is never dropped by an update.
relax-some :
    (now : ℕ) (p : Prefix) (old e : RoutingEntry)
    → (if prefix_eq e.prefix p then relax now (some old) e else some old) ≢ none
relax-some now p old e h = ground arith

relax_all-none :
    (now : ℕ) (p : Prefix) (es : List RoutingEntry) (o : Option RoutingEntry)
    → relax_all now p o es ≡ none
    → o ≡ none
unfolding relax_all
relax_all-none now p [] o h = h
relax_all-none now p (e ∷ es) none h = refl
relax_all-none now p (e ∷ es) (some old) h = absurd (
    relax-some now p old e (
      relax_all-none now p es (if prefix_eq e.prefix p then relax now (some old) e else some old)
        h))

-- Triggered updates miss nothing: for every prefix, either next hop and cost are what they were,
-- or the entry of the new table is among those handed to sendRipUpdate.
pub update_routing_table_announces :
    (now : ℕ) (t : RoutingTable) (es : List RoutingEntry) (p : Prefix)
    → let (t', updated) = update_routing_table now t es in
      SameRoute (lookup_route p t) (lookup_route p t')
      ⊎ ((r : RoutingEntry) × (lookup_route p t' ≡ some r) × Elem r updated)
unfolding update_routing_table
update_routing_table_announces now t es p = elim (Bool-cases (mentions p s.updated)) [
  | inr m ↦ inl (update_entries_quiet now (record { table = t; updated = [] }) es p m).1
  | inl m ↦ elim (Option-cases (lookup_route p s.table)) [
    | inr (r, h) ↦ inr (r, h, Elem-resolve s.table p s.updated h m)
    | inl n ↦ inl (rw (n, gone n) tt)
  ]
]
  where
    s : Updating
    s = update_entries now (record { table = t; updated = [] }) es

    gone : lookup_route p s.table ≡ none → lookup_route p t ≡ none
    gone n =
        relax_all-none now p es (lookup_route p t) (sym (update_routing_table-relax now t es p) ∙ n)
