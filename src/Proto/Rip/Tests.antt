-- ===== src/Proto/Rip/Tests.antt =====
-- Runs of the RIP encoding, and instances of its theorems.
use gotcp.Prelude.{ℕ, ◌≡◌, ◌≤◌, ◌<◌, refl, List, [], ◌∷◌, ◌++◌, arith, length, take, drop}
use gotcp.Proto.Rip.{RipMsg, marshal, unmarshal, panicked, parsed, bytes_to_uint16}
use gotcp.Proto.Rip.Roundtrip.{unmarshal-marshal, unmarshal_total, needed, IsWordEntry}

abbrev message : RipMsg
message = record {
  command = 2;
  num_entries = 1;
  entries = record { cost = 3; address = 167772161; mask = 4294967040 } ∷ [];
}

unmarshal-marshal_example : unmarshal (marshal message ++ 0 ∷ 0 ∷ []) ≡ parsed message
unmarshal-marshal_example =
    unmarshal-marshal message (0 ∷ 0 ∷ []) (omega arith) (omega arith) refl (word, tt)
  where
    word : IsWordEntry (record { cost = 3; address = 167772161; mask = 4294967040 })
    word = ground arith

abbrev short_message : List ℕ
short_message = 0 ∷ 2 ∷ 0 ∷ 1 ∷ 9 ∷ []

unmarshal_total_example :
    let n = bytes_to_uint16 (take 2 (drop 2 short_message)) in
    (length short_message < needed n → unmarshal short_message ≡ panicked)
    × (needed n ≤ length short_message
        → (m : RipMsg) × (unmarshal short_message ≡ parsed m)
          × (m.num_entries ≡ n)
          × (length m.entries ≡ n))
unmarshal_total_example = unmarshal_total short_message (omega arith)
