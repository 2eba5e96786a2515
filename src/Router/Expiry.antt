-- ===== src/Router/Expiry.antt =====
-- RemoveExpiredEntries: which routes go, and how they are announced.
use gotcp.Prelude.{
  ℕ, ◌+◌, ◌<◌, ◌↔◌, ◌≡◌, refl, ◌&&◌, ltb, Bool, true, false, List, [], ◌∷◌, Option, none, some,
  arith, if◌then◌else◌, Bool-cases, inl, inr,
}
use gotcp.Ip.Addr.{Prefix, prefix_eq, prefix_eq_iff}
use gotcp.Ip.Table.{
  RouteType, local, static, rip, RoutingEntry, RoutingTable, lookup_route, UniqueKeys,
}
use gotcp.Proto.Rip.{infinity}
use gotcp.Router.Announce.{Elem}
use gotcp.Router.Update.{is_rip, lifetime, is_expired, remove_expired_entries}

-- A route without the expired ones.
abbrev pub unexpired : ℕ → Option RoutingEntry → Option RoutingEntry
unexpired now none = none
unexpired now (some e) = if is_expired now e then none else some e

pub rows_left :
    (now : ℕ) (t : RoutingTable) (p : Prefix)
    → UniqueKeys t
    → lookup_route p (remove_expired_entries now t).0 ≡ unexpired now (lookup_route p t)
unfolding remove_expired_entries lookup_route
rows_left now [] p u = refl
rows_left now ((q, e) ∷ t) p (n, u) = elim (Bool-cases (prefix_eq q p)) [
  | inl h ↦
      let m : lookup_route p t ≡ none = rw (← (prefix_eq_iff q p).0 h) n in
      ground (arith, m, rows_left now t p u)
  | inr h ↦ ground (arith, rows_left now t p u)
]

rows_announced :
    (now : ℕ) (t : RoutingTable) (p : Prefix) (r : RoutingEntry)
    → lookup_route p t ≡ some r
    → is_expired now r ≡ true
    → Elem (record r { cost = infinity }) (remove_expired_entries now t).1
unfolding remove_expired_entries lookup_route
rows_announced now [] p r h x = cc
rows_announced now ((q, e) ∷ t) p r h x = elim (Bool-cases (prefix_eq q p)) [
  | inl same ↦ let e≡r : e ≡ r = ground arith in rw (← e≡r) (rw (e≡r, x) (inl refl))
  | inr other ↦
      let ih = rows_announced now t p r (ground arith) x in
      elim (Bool-cases (is_expired now e)) [ inl y ↦ rw y (inr ih) | inr y ↦ rw y ih ]
]

-- A RIP route that was last refreshed more than 12 seconds ago; no local or static route expires.
abbrev pub Expired : ℕ → RoutingEntry → Type 0
Expired now e = (e.route_type ≡ rip) × (e.updated_at + 12000000000 < now)

is_expired_iff : (now : ℕ) (e : RoutingEntry) → (is_expired now e ≡ true) ↔ Expired now e
is_expired_iff now e = by_type e.route_type
  where
    false_not : false ≡ true → ⊥
    false_not h = cc

    local_not : local ≡ rip → ⊥
    local_not q = cc

    static_not : static ≡ rip → ⊥
    static_not q = cc

    by_type :
        (route_type : RouteType)
        → ((is_rip route_type && ltb (e.updated_at + lifetime) now) ≡ true)
          ↔ ((route_type ≡ rip) × (e.updated_at + 12000000000 < now))
    by_type rip = (λ h. (refl, ground arith), λ (_, l). ground arith)
    by_type local = (λ h. absurd (false_not h), λ (q, _). absurd (local_not q))
    by_type static = (λ h. absurd (false_not h), λ (q, _). absurd (static_not q))

-- What becomes of a prefix, by the route that it had.
abbrev pub ExpirySpec : ℕ → Option RoutingEntry → Option RoutingEntry → List RoutingEntry → Type 0
ExpirySpec now none after updated = after ≡ none
ExpirySpec now (some e) after updated =
    (Expired now e → (after ≡ none) × Elem (record e { cost = infinity }) updated)
    × (¬ Expired now e → after ≡ some e)

-- On a table with one row for a prefix: a RIP route that was last refreshed more than 12 seconds ago
-- goes and is announced at infinite cost; every other route stays as it is, the local and static ones
-- among them, and no prefix gets a route that it did not have.
pub remove_expired_entries_lem :
    (now : ℕ) (t : RoutingTable) (p : Prefix)
    → UniqueKeys t
    → let (t', updated) = remove_expired_entries now t in
      ExpirySpec now (lookup_route p t) (lookup_route p t') updated
remove_expired_entries_lem now t p u = by_route (lookup_route p t) refl
  where
    never : {b : Bool} → b ≡ true → b ≡ false → ⊥
    never y n = cc

    by_route :
        (o : Option RoutingEntry)
        → lookup_route p t ≡ o
        → ExpirySpec now o
            (lookup_route p (remove_expired_entries now t).0)
            (remove_expired_entries now t).1
    by_route none q = rw (rows_left now t p u, q) refl
    by_route (some e) q =
        rw (rows_left now t p u, q)
          (elim (Bool-cases (is_expired now e)) [
            | inl y ↦ rw y (
              λ _. (refl, rows_announced now t p e q y),
              λ n. absurd (n ((is_expired_iff now e).0 y)),
            )
            | inr k ↦ rw k (λ x. absurd (never ((is_expired_iff now e).1 x) k), λ _. refl)
          ])
