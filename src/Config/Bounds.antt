-- ===== src/Config/Bounds.antt =====
-- The ranges of the numbers that the texts of a configuration give.

use Prim.Native.String.{String}
use gotcp.Prelude.{
  ℕ, zero, suc, ◌-◌, ◌/◌, ◌^◌, ==_iff, ◌≤◌, ◌<◌, ◌≡◌, Option, none, some, List, [], ◌∷◌, arith, inl,
  inr, leb, leb→le, Bool, true, false, Bool-cases, refl, if◌then◌else◌, ◌>>=◌,
}
use native.Mathlib.Nat.{mul-div_cancel, div-mul-le_self}
use gotcp.Ip.Addr.{Addr, Prefix, contains}
use gotcp.Ip.Forward.{AddrPort}
use gotcp.Config.Text.{split}
use gotcp.Config.Netip.{
  parse_uint, parse_field, parse_addr, parse_prefix, parse_addr_port, masked, at_most, octets,
  prefix_of, addr_port_of,
}

-- The value, if there is one, has the property.
abbrev pub Gives {ℓ} : {A : Type ℓ} → (A → Type 0) → Option A → Type 0
Gives P none = Unit
Gives P (some a) = P a

pub Gives->>= :
    {A B : Type 0} (P : A → Type 0) (Q : B → Type 0) (o : Option A) (f : A → Option B)
    → Gives P o
    → ((a : A) → P a → Gives Q (f a))
    → Gives Q (o >>= f)
Gives->>= P Q none f h k = tt
Gives->>= P Q (some a) f h k = k a h

Gives-if :
    {A : Type 0} (P : A → Type 0) (b : Bool) (x y : Option A)
    → Gives P x
    → Gives P y
    → Gives P (if b then x else y)
Gives-if P true x y h k = h
Gives-if P false x y h k = k

at_most_le : (bound : ℕ) (o : Option ℕ) → Gives (λ n. n ≤ bound) (o >>= at_most bound)
at_most_le bound none = tt
at_most_le bound (some n) = elim (Bool-cases (leb n bound)) [
  | inl h ↦ rw h (leb→le n bound h)
  | inr h ↦ rw h tt
]

parse_uint_le : (bound : ℕ) (s : String) → Gives (λ n. n ≤ bound) (parse_uint bound s)
unfolding parse_uint
parse_uint_le bound String.[] = tt
parse_uint_le bound (String.◌∷◌ c s) = search at_most_le

parse_field_le : (bound : ℕ) (s : String) → Gives (λ n. n ≤ bound) (parse_field bound s)
unfolding parse_field
parse_field_le bound String.[] = tt
parse_field_le bound (String.◌∷◌ c String.[]) = parse_uint_le bound (String.◌∷◌ c String.[])
parse_field_le bound (String.◌∷◌ c (String.◌∷◌ d s)) =
    Gives-if (λ n. n ≤ bound) _ none _ tt (parse_uint_le bound (String.◌∷◌ c (String.◌∷◌ d s)))

octets_lt : (ws : List String) → Gives (λ a. a < 4294967296) (octets ws)
octets_lt [] = tt
octets_lt (a ∷ []) = tt
octets_lt (a ∷ b ∷ []) = tt
octets_lt (a ∷ b ∷ c ∷ []) = tt
octets_lt (a ∷ b ∷ c ∷ d ∷ []) =
    octet a _ λ w hw. octet b _ λ x hx. octet c _ λ y hy. octet d _ λ z hz. omega arith
  where
    octet :
        (s : String) (f : ℕ → Option Addr)
        → ((n : ℕ) → n ≤ 255 → Gives (λ a. a < 4294967296) (f n))
        → Gives (λ a. a < 4294967296) (parse_field 255 s >>= f)
    octet s f k =
        Gives->>= (λ n. n ≤ 255) (λ a. a < 4294967296) (parse_field 255 s) f (parse_field_le 255 s)
          k
octets_lt (a ∷ b ∷ c ∷ d ∷ e ∷ ws) = tt

pub parse_addr_lt : (s : String) → Gives (λ a. a < 4294967296) (parse_addr s)
unfolding parse_addr
parse_addr_lt s = octets_lt (split b'.' s)

-- The text of a prefix gives an address with the length of the prefix.
abbrev pub IsPrefix : Prefix → Type 0
IsPrefix p = (p.addr < 4294967296) × ((n : ℕ) × (p.bits ≡ some n) × (n ≤ 32))

prefix_of_ok : (ws : List String) → Gives IsPrefix (prefix_of ws)
prefix_of_ok [] = tt
prefix_of_ok (a ∷ []) = tt
prefix_of_ok (a ∷ n ∷ []) =
    Gives->>= (λ a. a < 4294967296) IsPrefix (parse_addr a) _ (parse_addr_lt a)
      λ ip h.
        Gives->>= (λ n. n ≤ 32) IsPrefix (parse_field 32 n) _ (parse_field_le 32 n)
          λ bits k. (h, (bits, refl, k))
prefix_of_ok (a ∷ n ∷ b ∷ ws) = tt

pub parse_prefix_ok : (s : String) → Gives IsPrefix (parse_prefix s)
unfolding parse_prefix
parse_prefix_ok s = prefix_of_ok (split b'/' s)

abbrev pub IsAddrPort : AddrPort → Type 0
IsAddrPort a = (a.0 < 4294967296) × (a.1 < 65536)

addr_port_of_ok : (ws : List String) → Gives IsAddrPort (addr_port_of ws)
addr_port_of_ok [] = tt
addr_port_of_ok (a ∷ []) = tt
addr_port_of_ok (a ∷ p ∷ []) =
    Gives->>= (λ n. n ≤ 65535) IsAddrPort (parse_uint 65535 p) _ (parse_uint_le 65535 p)
      λ port h.
        Gives->>= (λ a. a < 4294967296) IsAddrPort (parse_addr a) _ (parse_addr_lt a)
          λ ip k. (k, omega arith)
addr_port_of_ok (a ∷ p ∷ b ∷ ws) = tt

pub parse_addr_port_ok : (s : String) → Gives IsAddrPort (parse_addr_port s)
unfolding parse_addr_port
parse_addr_port_ok s = addr_port_of_ok (split b':' s)

pub pow_pos : (n : ℕ) → 0 < 2 ^ n
pow_pos zero = omega arith
pow_pos (suc n) = omega (arith, pow_pos n)

-- A masked prefix has the length of the prefix, and contains the address that was masked.
pub masked-IsPrefix : (p : Prefix) → IsPrefix p → IsPrefix (masked p)
unfolding masked
masked-IsPrefix p (h, (n, e, k)) =
    rw e (omega (arith, div-mul-le_self p.addr (2 ^ (32 - n))), (n, refl, k))

pub contains-masked : (p : Prefix) → IsPrefix p → contains (masked p) p.addr ≡ true
unfolding contains masked
contains-masked p (h, (n, e, k)) =
    rw e ((==_iff _ _).1 (mul-div_cancel (p.addr / 2 ^ (32 - n)) (pow_pos (32 - n))))
