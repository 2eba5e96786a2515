-- ===== src/Proto/Rip.antt =====
-- pkg/proto/rip.go: the RIP message and its big-endian encoding. A byte is a number below 256. A
-- slice out of range is a panic, and `invalid input` is the error of RipEntry.unmarshal.
pub mod Roundtrip
mod Tests
use gotcp.Prelude.{
  ℕ, zero, suc, ◌+◌, ◌*◌, ◌/◌, ◌%◌, List, [], ◌∷◌, ◌++◌, Option, none, some, ltb, if◌then◌else◌,
  length, take, slice, ◌>>=◌,
}

abbrev pub infinity : ℕ
infinity = 16

abbrev pub rip_entries_offset : ℕ
rip_entries_offset = 4

pub record RipEntry : Type 0 where
  pub cost : ℕ  -- uint32
  pub address : ℕ  -- uint32
  pub mask : ℕ  -- uint32

abbrev pub routing_cmd_type_request : ℕ
routing_cmd_type_request = 1

abbrev pub routing_cmd_type_response : ℕ
routing_cmd_type_response = 2

pub record RipMsg : Type 0 where
  pub command : ℕ  -- uint16
  pub num_entries : ℕ  -- uint16
  pub entries : List RipEntry

-- binary.BigEndian
unfoldable pub uint16_to_bytes : ℕ → List ℕ
uint16_to_bytes u = u / 256 % 256 ∷ u % 256 ∷ []

unfoldable pub uint32_to_bytes : ℕ → List ℕ
uint32_to_bytes u = u / 16777216 % 256 ∷ u / 65536 % 256 ∷ u / 256 % 256 ∷ u % 256 ∷ []

unfoldable pub bytes_to_uint16 : List ℕ → ℕ
bytes_to_uint16 (a ∷ b ∷ _) = a * 256 + b
bytes_to_uint16 _ = 0

unfoldable pub bytes_to_uint32 : List ℕ → ℕ
bytes_to_uint32 (a ∷ b ∷ c ∷ d ∷ _) = a * 16777216 + b * 65536 + c * 256 + d
bytes_to_uint32 _ = 0

unfoldable pub marshal_entry : RipEntry → List ℕ
unfolding uint32_to_bytes
marshal_entry r = uint32_to_bytes r.cost ++ (uint32_to_bytes r.address ++ uint32_to_bytes r.mask)

marshal_entries : List RipEntry → List ℕ
unfolding marshal_entry
marshal_entries [] = []
marshal_entries (r ∷ rs) = marshal_entry r ++ marshal_entries rs

unfoldable pub marshal : RipMsg → List ℕ
unfolding marshal_entries uint16_to_bytes
marshal m =
    uint16_to_bytes m.command ++ (uint16_to_bytes m.num_entries ++ marshal_entries m.entries)

pub data Unmarshalled (A : Type 0) : Type 0 where
  panicked invalid_input : Unmarshalled A
  parsed : A → Unmarshalled A

-- A slice that may panic, and what is done with it.
abbrev with_slice : {A : Type 0} → Option (List ℕ) → (List ℕ → Unmarshalled A) → Unmarshalled A
with_slice none f = panicked
with_slice (some b) f = f b

-- A step that may fail, and what follows it.
abbrev with_parsed : {A B : Type 0} → Unmarshalled A → (A → Unmarshalled B) → Unmarshalled B
with_parsed panicked f = panicked
with_parsed invalid_input f = invalid_input
with_parsed (parsed a) f = f a

unmarshal_entry : List ℕ → Unmarshalled RipEntry
unfolding bytes_to_uint32
unmarshal_entry b =
    if ltb (length b) 12
    then invalid_input
    else with_slice (slice b 0 4) λ c. with_slice (slice b 4 8) λ a. with_slice (slice b 8 12) λ m.
      parsed
        (record { cost = bytes_to_uint32 c; address = bytes_to_uint32 a; mask = bytes_to_uint32 m })

-- The loop over the entries, `n` of them from number `i` on.
unmarshal_entries : List ℕ → ℕ → ℕ → Unmarshalled (List RipEntry)
unfolding unmarshal_entry
unmarshal_entries b i zero = parsed []
unmarshal_entries b i (suc n) =
    let rest = unmarshal_entries b (i + 1) n in
    with_slice (slice b (rip_entries_offset + i * 12) (rip_entries_offset + (i + 1) * 12))
      λ s. with_parsed (unmarshal_entry s) λ r. with_parsed rest λ rs. parsed (r ∷ rs)

unfoldable pub unmarshal : List ℕ → Unmarshalled RipMsg
unfolding unmarshal_entries bytes_to_uint16
unmarshal b = with_slice (slice b 0 2) λ c. with_slice (slice b 2 4) λ n.
    with_parsed (unmarshal_entries b 0 (bytes_to_uint16 n)) λ rs.
      parsed (record { command = bytes_to_uint16 c; num_entries = bytes_to_uint16 n; entries = rs })
