-- ===== src/Repl/Words.antt =====
-- The words of a command, and their numbers: strconv.Atoi, the conversions of Go's `int`, and IsUint16
-- of pkg/tcpstack/utils.go.
use Prim.Native.Char.{code}
use Prim.Native.String.{String}
use gotcp.Prelude.{
  ℕ, ◌-◌, ◌%◌, Bool, true, false, ◌&&◌, ◌||◌, not, Option, none, some, List, [], ◌∷◌, ◌++◌, leb,
  ◌==◌, if◌then◌else◌,
}
use gotcp.Prelude.Words.{u16_mod, u32_mod}
use gotcp.Config.Netip.{parse_uint}

-- An `int`, of 64 bits: whether it is negative, and its distance from 0.
abbrev pub Int64 : Type 0
Int64 = Bool × ℕ

-- The largest `int`.
abbrev pub max_int : ℕ
max_int = 9223372036854775807

abbrev signed : Bool → Option ℕ → Option Int64
signed negative none = none
signed negative (some n) = some (negative, n)

unfoldable pub atoi : String → Option Int64
unfolding parse_uint
atoi String.[] = none
atoi (String.◌∷◌ c s) =
    if code c == b'-'
    then signed true (parse_uint 9223372036854775808 s)
    else if code c == b'+'
    then signed false (parse_uint max_int s)
    else signed false (parse_uint max_int (String.◌∷◌ c s))

unfoldable pub is_uint16 : Int64 → Bool
is_uint16 (negative, n) = (not negative || n == 0) && leb n 65535

-- `uint16(n)`
unfoldable pub to_uint16 : Int64 → ℕ
to_uint16 (negative, n) = if negative then (u16_mod - n % u16_mod) % u16_mod else n % u16_mod

-- `int32(n)`, as its 32 bits.
unfoldable pub to_int32 : Int64 → ℕ
to_int32 (negative, n) = if negative then (u32_mod - n % u32_mod) % u32_mod else n % u32_mod

-- `[]byte(s)` of ASCII text.
unfoldable pub to_bytes : String → List ℕ
to_bytes String.[] = []
to_bytes (String.◌∷◌ c s) = code c ∷ to_bytes s

-- `strings.Join(words, " ")`, as bytes.
unfoldable pub join_words : List String → List ℕ
unfolding to_bytes
join_words [] = []
join_words (w ∷ []) = to_bytes w
join_words (w ∷ v ∷ ws) = to_bytes w ++ (b' ' ∷ join_words (v ∷ ws))
