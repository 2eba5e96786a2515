-- ===== src/Tcp/Early/Tests.antt =====
-- Instances of the theorems on early arrivals: a stream whose byte with number `n` is `n`.
use gotcp.Prelude.{ℕ, zero, suc, ◌≡◌, refl, [], ◌∷◌, arith}
use gotcp.Proto.Segment.{new_tcp_packet, tcp_flag_ack}
use gotcp.Tcp.Early.{Item, merged, aggregate_early_arrivals}
use gotcp.Tcp.Early.Queue.{EachItem}
use gotcp.Tcp.Early.Merge.{Carries, IsGenuine, MergeSpec}
use gotcp.Tcp.Early.Safe.{aggregate_early_arrivals-MergeSpec}

-- The bytes 12, 13 and 14.
abbrev item : Item
item = record {
  value = new_tcp_packet 80 5000 12 1 tcp_flag_ack (12 ∷ 13 ∷ 14 ∷ []) 100;
  priority = 12;
}

abbrev stream : ℕ → ℕ
stream n = n

received-Carries : Carries stream 10 (10 ∷ 11 ∷ [])
received-Carries zero x h = cc
received-Carries (suc zero) x h = cc
received-Carries (suc (suc i)) x h = cc

payload-Carries : Carries stream 12 (12 ∷ 13 ∷ 14 ∷ [])
payload-Carries zero x h = cc
payload-Carries (suc zero) x h = cc
payload-Carries (suc (suc zero)) x h = cc
payload-Carries (suc (suc (suc i))) x h = cc

item-IsGenuine : EachItem (IsGenuine stream) (item ∷ [])
unfolding new_tcp_packet
item-IsGenuine zero x h = let e : item ≡ x = cc in rw⁻¹ e (payload-Carries, omega arith)
item-IsGenuine (suc i) x h = cc

aggregate_early_arrivals-MergeSpec_example :
    MergeSpec stream 10 (10 ∷ 11 ∷ []) 6 (aggregate_early_arrivals 8 (item ∷ []) (10 ∷ 11 ∷ []) 12)
aggregate_early_arrivals-MergeSpec_example =
    aggregate_early_arrivals-MergeSpec stream 10 8 (item ∷ []) (10 ∷ 11 ∷ []) (omega arith)
      (omega arith) received-Carries item-IsGenuine

aggregate_runs :
    aggregate_early_arrivals 8 (item ∷ []) (10 ∷ 11 ∷ []) 12
    ≡ merged (10 ∷ 11 ∷ 12 ∷ 13 ∷ 14 ∷ []) []
unfolding aggregate_early_arrivals new_tcp_packet
aggregate_runs = refl
