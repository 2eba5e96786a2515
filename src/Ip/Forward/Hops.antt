-- ===== src/Ip/Forward/Hops.antt =====
-- findNextHopEntry: when its loop ends, and with what.
use gotcp.Prelude.{
  ℕ, zero, suc, ◌<◌, ◌≡◌, inl, inr, refl, subst, true, false, Option, none, some, [], ◌∷◌, arith,
  Bool-cases, Option-cases,
}
use gotcp.Ip.Addr.{Addr, Prefix, prefix_eq, prefix_eq_iff}
use gotcp.Ip.Table.{RoutingEntry, RoutingTable, lookup_route}
use gotcp.Ip.Forward.{
  Hop, panicked, running, no_route, hop, follow, find_next_hop_entry, find_longest_matched_prefix,
  name_eq,
}
use gotcp.Ip.Forward.Longest.{HasKey, LongestSpec, find_longest_matched_prefix-LongestSpec}

HasKey-lookup_route :
    (p : Prefix) (t : RoutingTable) → HasKey p t → (e : RoutingEntry) × (lookup_route p t ≡ some e)
unfolding lookup_route
HasKey-lookup_route p [] k = absurd k
HasKey-lookup_route p ((q, e) ∷ t) k = elim (Bool-cases (prefix_eq q p)) [
  | inl h ↦ rw h (e, refl)
  | inr h ↦ rw h (elim k [
    | inl same ↦ absurd (ground (arith, h, (prefix_eq_iff q p).1 same))
    | inr k' ↦ HasKey-lookup_route p t k'
  ])
]

pub found-lookup_route :
    (t : RoutingTable) (dest : Option Addr) (p : Prefix)
    → find_longest_matched_prefix t dest ≡ some p
    → (e : RoutingEntry) × (lookup_route p t ≡ some e)
found-lookup_route t dest p h =
    let s : LongestSpec dest t (some p) =
      subst (LongestSpec dest t) h (find_longest_matched_prefix-LongestSpec dest t) in
    HasKey-lookup_route p t s.0.0

-- Every route that is not local points at a next hop whose best match, if it has one, is of a lower
-- rank.
abbrev pub Ranked : RoutingTable → (Prefix → ℕ) → Type 0
Ranked t rank =
    (p q : Prefix) (e : RoutingEntry)
    → lookup_route p t ≡ some e
    → name_eq e.local_next_hop "" ≡ true
    → find_longest_matched_prefix t e.next_hop ≡ some q
    → rank q < rank p

-- The search ended, and the entry it found, if any, names an interface.
abbrev pub Resolved : Hop → Type 0
Resolved panicked = ⊥
Resolved running = ⊥
Resolved (no_route alt) = Unit
Resolved (hop e alt) = name_eq e.local_next_hop "" ≡ false

follow-Resolved :
    (fuel : ℕ) (t : RoutingTable) (rank : Prefix → ℕ) (alt : Option Addr) (p : Prefix)
    → Ranked t rank
    → rank p < fuel
    → (e : RoutingEntry) × (lookup_route p t ≡ some e)
    → Resolved (follow fuel t alt (lookup_route p t))
unfolding follow
follow-Resolved zero t rank alt p r h k = absurd (omega arith)
follow-Resolved (suc fuel) t rank alt p r h (e, k) =
    elim (Bool-cases (name_eq e.local_next_hop "")) [
      | inr l ↦ rw (k, l) l
      | inl l ↦
          rw (k, l)
            (elim (Option-cases (find_longest_matched_prefix t e.next_hop)) [
              | inl n ↦ rw n tt
              | inr (q, m) ↦ rw m (
                  follow-Resolved fuel t rank e.next_hop q r (omega (arith, r p q e k l m))
                    (found-lookup_route t e.next_hop q m))
            ])
    ]

-- If the routes can be ranked so that each non-local one leads to one of a lower rank, then for
-- any destination findNextHopEntry ends within as many rounds as the ranks allow, with no nil
-- dereference, and an entry that it returns names an interface.
pub find_next_hop_entry-Resolved :
    (fuel : ℕ)
    → (t : RoutingTable) → (rank : Prefix → ℕ) → (dest_ip : Addr) → Ranked t rank
    → ((p : Prefix) → rank p < fuel)
    → Resolved (find_next_hop_entry fuel t dest_ip)
unfolding find_next_hop_entry
find_next_hop_entry-Resolved fuel t rank dest_ip r h =
    elim (Option-cases (find_longest_matched_prefix t (some dest_ip))) [
      | inl n ↦ rw (n, Resolved, find_next_hop_entry) tt
      | inr (p, m) ↦
          rw (m, Resolved, find_next_hop_entry)
            (follow-Resolved fuel t rank none p r (h p) (found-lookup_route t (some dest_ip) p m))
    ]

follow_circular :
    (fuel : ℕ) (t : RoutingTable) (alt : Option Addr) (p : Prefix) (e : RoutingEntry)
    → lookup_route p t ≡ some e
    → name_eq e.local_next_hop "" ≡ true
    → find_longest_matched_prefix t e.next_hop ≡ some p
    → follow fuel t alt (lookup_route p t) ≡ running
unfolding follow
follow_circular zero t alt p e k l m = refl
follow_circular (suc fuel) t alt p e k l m =
    rw (k, l, m) (follow_circular fuel t e.next_hop p e k l m)

-- A route whose own next hop it matches best is never left: for a destination that it matches best,
-- the loop of findNextHopEntry runs on, whatever the number of rounds.
pub find_next_hop_entry_circular :
    (fuel : ℕ)
    → (t : RoutingTable) → (dest_ip : Addr) → (p : Prefix) → (e : RoutingEntry)
    → find_longest_matched_prefix t (some dest_ip) ≡ some p
    → lookup_route p t ≡ some e
    → name_eq e.local_next_hop "" ≡ true
    → find_longest_matched_prefix t e.next_hop ≡ some p
    → find_next_hop_entry fuel t dest_ip ≡ running
unfolding find_next_hop_entry
find_next_hop_entry_circular fuel t dest_ip p e d k l m =
    rw (d, find_next_hop_entry) (follow_circular fuel t none p e k l m)
