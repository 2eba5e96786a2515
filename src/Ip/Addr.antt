-- ===== src/Ip/Addr.antt =====
-- IPv4 addresses and prefixes, as pkg/ipstack and pkg/vrouter use net/netip: an address is a
-- number below 2 ^ 32, and the zero value `netip.Addr{}`, which is not valid, is `none`.
use gotcp.Prelude.{
  ℕ, ◌-◌, ◌/◌, ◌^◌, ◌≡◌, ◌↔◌, Bool, true, false, ◌&&◌, Option, none, some, arith, ◌==◌,
}

abbrev pub Addr : Type 0
Addr = ℕ

-- Equality of addresses that may be the zero value, and of other optional numbers.
abbrev pub opt_eq : Option ℕ → Option ℕ → Bool
opt_eq none none = true
opt_eq (some a) (some b) = a == b
opt_eq _ _ = false

pub opt_eq_iff : (a b : Option ℕ) → (opt_eq a b ≡ true) ↔ (a ≡ b)
opt_eq_iff a b = (λ h. ground arith, λ h. ground arith)

-- `bits` is `none` in a prefix that `netip.PrefixFrom` found out of range.
pub record Prefix : Type 0 where
  pub addr : Addr
  pub bits : Option ℕ

abbrev pub prefix_eq : Prefix → Prefix → Bool
prefix_eq p q = p.addr == q.addr && opt_eq p.bits q.bits

pub prefix_eq_iff : (p q : Prefix) → (prefix_eq p q ≡ true) ↔ (p ≡ q)
prefix_eq_iff p q = (λ h. ground arith, λ h. ground arith)

-- `prefix.Contains(ip)`: the first `bits` bits agree.
abbrev agree : ℕ → Addr → Addr → Bool
agree n a b = a / 2 ^ (32 - n) == b / 2 ^ (32 - n)

unfoldable pub contains : Prefix → Addr → Bool
contains p a = elim p.bits [ none ↦ false | some n ↦ agree n p.addr a ]
