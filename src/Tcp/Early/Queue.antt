-- ===== src/Tcp/Early/Queue.antt =====
-- What the calls of container/heap keep: an item popped leaves the others, whole.
use gotcp.Prelude.{
  ℕ, zero, suc, ◌+◌, ◌-◌, ◌*◌, ◌≤◌, ◌<◌, ◌≡◌, refl, ◌∙◌, ap, ◌⊎◌, [], ◌∷◌, some, arith, leb, ◌==◌,
  if◌then◌else◌, length, take, get_elem?, set, length-set, length-take, Bool-cases, Option-cases,
  inl, inr,
}
use gotcp.Prelude.Pointwise.{get_elem?-set, get_elem?-take, get_elem?-within}
use gotcp.Tcp.Early.{Item, PriorityQueue, less, swap, swap_items, better_child, down, heap_pop}

-- The payload bytes in the queue.
abbrev pub total : PriorityQueue → ℕ
total [] = 0
total (x ∷ q) = length x.value.payload + total q

abbrev weight : Item → ℕ
weight x = length x.value.payload

-- A property of every item in the queue.
abbrev pub EachItem : (Item → Type 0) → PriorityQueue → Type 0
EachItem P q = (i : ℕ) (x : Item) → get_elem? q i ≡ some x → P x

total-set :
    (q : PriorityQueue) (i : ℕ) (v : Item) {x : Item}
    → get_elem? q i ≡ some x
    → total (set q i v) + weight x ≡ total q + weight v
total-set [] i v h = cc
total-set (y ∷ q) zero v {x} h = let e : y ≡ x = cc in rw e (omega arith)
total-set (y ∷ q) (suc i) v h = omega (arith, total-set q i v h)

length-swap : (q : PriorityQueue) (i j : ℕ) → length (swap q i j) ≡ length q
unfolding swap
length-swap q i j = elim (Option-cases (get_elem? q i)) [
  | inl n ↦ rw (n, swap_items)
  | inr (a, ea) ↦ elim (Option-cases (get_elem? q j)) [
    | inl n ↦ rw (ea, n, swap_items)
    | inr (b, eb) ↦ rw (ea, eb, swap_items) (length-set (set q i b) j a ∙ length-set q i b)
  ]
]

total-swap : (q : PriorityQueue) (i j : ℕ) → total (swap q i j) ≡ total q
unfolding swap
total-swap q i j = elim (Option-cases (get_elem? q i)) [
  | inl n ↦ rw (n, swap_items)
  | inr (a, ea) ↦ elim (Option-cases (get_elem? q j)) [
    | inl n ↦ rw (ea, n, swap_items)
    | inr (b, eb) ↦
        rw (ea, eb, swap_items)
          (omega (arith, total-set q i b ea, total-set (set q i b) j a (now_b b eb)))
  ]
]
  where
    now_b : (b : Item) → get_elem? q j ≡ some b → get_elem? (set q i b) j ≡ some b
    now_b b eb = ground (arith, eb, get_elem?-set q i b j)

get_elem?-swap :
    (q : PriorityQueue) (i j k : ℕ)
    → i < length q
    → j < length q
    → get_elem? (swap q i j) k
      ≡ (if k == j then get_elem? q i else if k == i then get_elem? q j else get_elem? q k)
unfolding swap
get_elem?-swap q i j k hi hj =
    let (a, ea) = get_elem?-within q i hi in
    let (b, eb) = get_elem?-within q j hj in
    ground (arith, ea, eb, get_elem?-set (set q i b) j a k, get_elem?-set q i b k, length-set q i b)

swap-EachItem :
    (P : Item → Type 0) (q : PriorityQueue) (i j : ℕ) → EachItem P q → EachItem P (swap q i j)
unfolding swap
swap-EachItem P q i j p = elim (Option-cases (get_elem? q i)) [
  | inl n ↦ rw (n, swap_items) p
  | inr (a, ea) ↦ elim (Option-cases (get_elem? q j)) [
    | inl n ↦ rw (ea, n, swap_items) p
    | inr (b, eb) ↦ rw (ea, eb, swap_items) (λ k x h. from a b ea eb k x h)
  ]
]
  where
    from :
        (a b : Item)
        → get_elem? q i ≡ some a
        → get_elem? q j ≡ some b
        → EachItem P (set (set q i b) j a)
    from a b ea eb k x h =
        ground
          (arith, get_elem?-set (set q i b) j a k, get_elem?-set q i b k, p i a ea, p j b eb, p k x)

-- Sinking an item below `n` leaves the items from `n` on alone, and only exchanges the others.
record Keeps (q r : PriorityQueue) (n : ℕ) : Type 1 where
  size : length r ≡ length q
  weighs : total r ≡ total q
  beyond : (k : ℕ) → n ≤ k → get_elem? r k ≡ get_elem? q k
  each : (P : Item → Type 0) → EachItem P q → EachItem P r

swap-Keeps : (q : PriorityQueue) (i j n : ℕ) → i < n → j < n → n ≤ length q → Keeps q (swap q i j) n
swap-Keeps q i j n hi hj hn = record {
  size = length-swap q i j;
  weighs = total-swap q i j;
  beyond = λ k h. ground (arith, get_elem?-swap q i j k);
  each = λ P p. swap-EachItem P q i j p;
}

Keeps-refl : (q : PriorityQueue) (n : ℕ) → Keeps q q n
Keeps-refl q n = record { size = refl; weighs = refl; beyond = λ k h. refl; each = λ P p. p }

Keeps-trans : (q r s : PriorityQueue) (n : ℕ) → Keeps q r n → Keeps r s n → Keeps q s n
Keeps-trans q r s n a b = record {
  size = b.size ∙ a.size;
  weighs = b.weighs ∙ a.weighs;
  beyond = λ k h. b.beyond k h ∙ a.beyond k h;
  each = λ P p. b.each P (a.each P p);
}

better_child-lt : (q : PriorityQueue) (i n : ℕ) → 2 * i + 1 < n → better_child q i n < n
unfolding better_child
better_child-lt q i n h = ground arith

-- One round of `down`, and what follows it.
down_step :
    (fuel : ℕ) (q : PriorityQueue) (i n : ℕ)
    → (down (suc fuel) q i n ≡ q)
      ⊎ ((j : ℕ) × (down (suc fuel) q i n ≡ down fuel (swap q i j) j n) × (i < n) × (j < n))
unfolding down
down_step fuel q i n = elim (Bool-cases (leb n (2 * i + 1))) [
  | inl h ↦ inl (rw h)
  | inr h ↦ elim (Bool-cases (less q (better_child q i n) i)) [
    | inl l ↦
        inr (better_child q i n, rw (h, l), ground arith, better_child-lt q i n (ground arith))
    | inr l ↦ inl (rw (h, l))
  ]
]

down_zero : (q : PriorityQueue) (i n : ℕ) → down 0 q i n ≡ q
unfolding down
down_zero q i n = refl

down-Keeps : (fuel : ℕ) (q : PriorityQueue) (i n : ℕ) → n ≤ length q → Keeps q (down fuel q i n) n
down-Keeps zero q i n h = rw down_zero (Keeps-refl q n)
down-Keeps (suc fuel) q i n h = elim (down_step fuel q i n) [
  | inl e ↦ rw e (Keeps-refl q n)
  | inr (j, e, hi, hj) ↦ rw e (
      Keeps-trans q (swap q i j) (down fuel (swap q i j) j n) n (swap-Keeps q i j n hi hj h)
        (down-Keeps fuel (swap q i j) j n (omega (arith, length-swap q i j))))
]

total-take :
    (n : ℕ) (q : PriorityQueue) {x : Item}
    → length q ≡ suc n
    → get_elem? q n ≡ some x
    → total (take n q) + weight x ≡ total q
total-take zero [] l h = cc
total-take zero (y ∷ []) {x} l h = let e : y ≡ x = cc in rw e (omega arith)
total-take zero (y ∷ z ∷ q) l h = absurd (omega arith)
total-take (suc n) [] l h = cc
total-take (suc n) (y ∷ q) l h = omega (arith, total-take n q (omega arith) h)

module _ (x : Item) (q : PriorityQueue) where
  sunk : PriorityQueue
  sunk = down (length q) (swap (x ∷ q) 0 (length q)) 0 (length q)

  heap_pop-eq : heap_pop (x ∷ q) ≡ take (length q) sunk
  unfolding heap_pop sunk
  heap_pop-eq =
      ap (λ (n : ℕ). take n (down n (swap (x ∷ q) 0 n) 0 n)) {x = length (x ∷ q) - 1} {y = length q}
        (omega arith)

  sunk-Keeps : Keeps (swap (x ∷ q) 0 (length q)) sunk (length q)
  unfolding sunk
  sunk-Keeps =
      down-Keeps (length q) (swap (x ∷ q) 0 (length q)) 0 (length q)
        (omega (arith, length-swap (x ∷ q) 0 (length q)))

  length-sunk : length sunk ≡ suc (length q)
  length-sunk = sunk-Keeps.size ∙ length-swap (x ∷ q) 0 (length q)

  -- The head of the queue goes to the end, and is cut off.
  head_last : get_elem? sunk (length q) ≡ some x
  head_last = ground (
    arith,
    sunk-Keeps.beyond (length q) (omega arith),
    get_elem?-swap (x ∷ q) 0 (length q) (length q),
  )

  -- heap.Pop takes one item off,
  pub length-heap_pop : length (heap_pop (x ∷ q)) ≡ length q
  length-heap_pop = rw heap_pop-eq (omega (arith, length-take (length q) sunk, length-sunk))

  -- with the payload of the head of the queue,
  pub total-heap_pop : total (heap_pop (x ∷ q)) + length x.value.payload ≡ total (x ∷ q)
  total-heap_pop = rw heap_pop-eq (
      total-take (length q) sunk length-sunk head_last
      ∙ sunk-Keeps.weighs
      ∙ total-swap (x ∷ q) 0 (length q))

  -- and what holds of every item still holds.
  pub heap_pop-EachItem : (P : Item → Type 0) → EachItem P (x ∷ q) → EachItem P (heap_pop (x ∷ q))
  heap_pop-EachItem P p i y h =
      sunk-Keeps.each P (swap-EachItem P (x ∷ q) 0 (length q) p) i y
        (ground (arith, heap_pop-eq, get_elem?-take (length q) sunk i))
