-- ===== src/Tcp/Early/Ends.antt =====
-- Where the window has room for all that is queued, aggregateEarlyArrivals returns: it neither
-- panics nor runs on.
use gotcp.Prelude.{ℕ, ◌+◌, ◌-◌, ◌<◌, List, length, take, drop}
use gotcp.Prelude.Words.{u32_mod}
use gotcp.Tcp.Early.{Item, Aggregated, merged}

-- Every queued segment ends below 2 ^ 32.
abbrev pub EndsBelow : Item → Type 0
EndsBelow x = x.value.seq_num + length x.value.payload < u32_mod

abbrev pub Returns : Aggregated → Type 0
Returns (merged b q) = Unit
Returns _ = ⊥

-- What is still wanted of a segment.
roomy_trim : Item → ℕ → List ℕ
roomy_trim x s =
    take (length x.value.payload - (s - x.value.seq_num))
      (drop (s - x.value.seq_num) x.value.payload)
