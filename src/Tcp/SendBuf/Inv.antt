-- ===== src/Tcp/SendBuf/Inv.antt =====
-- What holds of a send buffer, and the bytes that it stands for: those written and not yet
-- acknowledged. Distances are counted from the initial sequence number.
use gotcp.Prelude.{ℕ, ◌+◌, ◌-◌, ◌≤◌, ◌<◌, ◌≡◌, List, arith, length, drop}
use gotcp.Prelude.Words.{u32_mod, add-mod_step, sub32}
use gotcp.Tcp.Ring.{wrap, window, drop-window}
use gotcp.Tcp.SendBuf.{SendBuf, index, free_space}

-- How far a sequence number lies behind the initial one.
abbrev pub dist : SendBuf → ℕ → ℕ
dist b num = sub32 num b.iss

-- How many bytes are held, and which, when SND.UNA is `una`.
abbrev pub held : SendBuf → ℕ → ℕ
held b una = dist b b.lbw - dist b una

abbrev pub contents : SendBuf → ℕ → List ℕ
contents b una = window b.buf (index b una) (held b una)

pub record IsValid (b : SendBuf) (una : ℕ) : Type 0 where
  pub sized : length b.buf ≡ b.capacity
  pub some_room : 0 < b.capacity
  pub small : b.capacity ≤ 65535
  pub iss_lt : b.iss < u32_mod
  pub lbw_lt : b.lbw < u32_mod
  pub una_lt : una < u32_mod
  pub ordered : dist b una ≤ dist b b.lbw
  pub fits : held b una ≤ b.capacity

module _ {b : SendBuf} {una : ℕ} (v : IsValid b una) where
  pub free_space-eq : free_space b una ≡ b.capacity - held b una
  unfolding free_space
  free_space-eq = ground (arith, v, gap)
    where
      gap : sub32 b.lbw una ≡ held b una
      gap = omega (arith, v)

  pub index-lt : (num : ℕ) → index b num < b.capacity
  unfolding index
  index-lt num = omega (arith, v)

  -- The index of a sequence number that lies `k` bytes past SND.UNA.
  pub index-eq :
      (num k : ℕ)
      → dist b num ≡ dist b una + k
      → k ≤ b.capacity
      → index b num ≡ wrap b.capacity (index b una + k)
  unfolding index
  index-eq num k e h = ground (arith, e, add-mod_step (dist b una) k b.capacity v.some_room h)

  -- An acknowledgement that moves SND.UNA on by `k` bytes drops just those.
  pub contents-ack :
      (una' k : ℕ)
      → una' < u32_mod
      → dist b una' ≡ dist b una + k
      → k ≤ held b una
      → IsValid b una' × (contents b una' ≡ drop k (contents b una))
  contents-ack una' k l e h = (
    ground (arith, v),
    ground (
      arith,
      v,
      index-eq una' k e,
      index-lt una,
      fewer,
      drop-window b.buf (index b una) k (held b una),
    ),
  )
    where
      fewer : held b una' ≡ held b una - k
      fewer = omega (arith, v)
