-- ===== src/Tcp/Early.antt =====
-- The queue of early arrivals: pkg/tcpstack/priorityqueue.go, the calls of Go's container/heap on
-- it, and aggregateEarlyArrivals of pkg/tcpstack/tcp_internal.go. The field `index` of an item is
-- written and never read on these paths, so an item is its segment and its priority.
pub mod Queue
pub mod Merge
pub mod Safe
pub mod Ends
mod Hang
mod Tests
use gotcp.Prelude.{
  ℕ, zero, suc, ◌+◌, ◌-◌, ◌*◌, min, Bool, true, false, ◌&&◌, not, List, [], ◌∷◌, ◌++◌, Option, none,
  some, ltb, leb, ◌==◌, if◌then◌else◌, length, take, get_elem?, set, slice,
}
use gotcp.Prelude.Words.{add32, sub32}
use gotcp.Proto.Segment.{TcpPacket}

pub record Item : Type 0 where
  pub value : TcpPacket
  pub priority : ℕ

abbrev pub PriorityQueue : Type 0
PriorityQueue = List Item

-- The item of highest priority comes first.
abbrev above : Option Item → Option Item → Bool
above (some a) (some b) = ltb b.priority a.priority
above _ _ = false

unfoldable pub less : PriorityQueue → ℕ → ℕ → Bool
less q i j = above (get_elem? q i) (get_elem? q j)

abbrev swap_items : PriorityQueue → ℕ → ℕ → Option Item → Option Item → PriorityQueue
swap_items q i j (some a) (some b) = set (set q i b) j a
swap_items q i j _ _ = q

unfoldable pub swap : PriorityQueue → ℕ → ℕ → PriorityQueue
swap q i j = swap_items q i j (get_elem? q i) (get_elem? q j)

-- PriorityQueue.Push: at the end, with no sifting.
unfoldable pub push : PriorityQueue → Item → PriorityQueue
push q item = q ++ item ∷ []

-- `down` of container/heap: item `i` sinks among the first `n`, below the better of its children. It
-- at least doubles `i` each round, so `n` rounds are enough.
unfoldable pub better_child : PriorityQueue → ℕ → ℕ → ℕ
better_child q i n =
    let j1 = 2 * i + 1 in let j2 = j1 + 1 in if ltb j2 n && less q j2 j1 then j2 else j1

unfoldable pub down : ℕ → PriorityQueue → ℕ → ℕ → PriorityQueue
unfolding less swap better_child
down zero q i n = q
down (suc fuel) q i n =
    let j1 = 2 * i + 1 in
    let j = better_child q i n in
    let rest = down fuel (swap q i j) j n in
    if leb n j1 then q else if not (less q j i) then q else rest

-- heap.Pop, less the item that it returns, which no caller uses.
unfoldable pub heap_pop : PriorityQueue → PriorityQueue
unfolding down swap
heap_pop q = let n = length q - 1 in take n (down n (swap q 0 n) 0 n)

-- aggregateEarlyArrivals: a panic of a slice out of range, fuel that ran out, or the data and the
-- queue at the end.
pub data Aggregated : Type 0 where
  panicked running : Aggregated
  merged : List ℕ → PriorityQueue → Aggregated

-- `payload[start:end]` of the segment at the head, for the bytes wanted from `start_seq` on.
unfoldable pub fitting : TcpPacket → ℕ → ℕ → Option (List ℕ)
fitting seg start_seq avai_wnd =
    let start = if ltb seg.seq_num start_seq then sub32 start_seq seg.seq_num else 0 in
    slice seg.payload start (min (length seg.payload) avai_wnd)

abbrev seg_end : TcpPacket → ℕ
seg_end seg = add32 seg.seq_num (length seg.payload)

unfoldable pub aggregate_loop : ℕ → PriorityQueue → List ℕ → ℕ → ℕ → Aggregated
unfolding heap_pop fitting
aggregate_loop zero q bytes start_seq avai_wnd = running
aggregate_loop (suc fuel) [] bytes start_seq avai_wnd = merged bytes []
aggregate_loop (suc fuel) (item ∷ q) bytes start_seq avai_wnd =
    let seg = item.value in
    let discarded = aggregate_loop fuel (heap_pop (item ∷ q)) bytes start_seq avai_wnd in
    if ltb (seg_end seg) start_seq
    then discarded
    else if ltb start_seq seg.seq_num
    then merged bytes (item ∷ q)
    else elim (fitting seg start_seq avai_wnd) [
      | none ↦ panicked
      | some trim ↦
          let avai_wnd' = avai_wnd - length trim in
          let start_seq' = add32 start_seq (length trim) in
          let q' = if leb (seg_end seg) start_seq' then heap_pop (item ∷ q) else item ∷ q in
          let rest = aggregate_loop fuel q' (bytes ++ trim) start_seq' avai_wnd' in
          if avai_wnd' == 0 then merged (bytes ++ trim) q' else rest
    ]

-- A round takes an item off the queue or leaves the loop, unless the window cuts a segment short;
-- after that a round panics, or no round ends the loop (`Hang`).
unfoldable pub aggregate_early_arrivals : ℕ → PriorityQueue → List ℕ → ℕ → Aggregated
unfolding aggregate_loop
aggregate_early_arrivals window_size q bytes start_seq =
    let avai_wnd = window_size - length bytes in
    if avai_wnd == 0
    then merged bytes q
    else aggregate_loop (length q + 2) q bytes start_seq avai_wnd
