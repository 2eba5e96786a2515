-- ===== src/Tcp/SendBuf.antt =====
-- pkg/tcpstack/sendbuf.go: the circular send buffer. `lbw` and the connection's SND.UNA and SND.NXT
-- are sequence numbers; the byte with number `n` stands at `(n - iss) % capacity`. The functions
-- take from the connection what they read of it, under its lock. The channels are kept as the
-- number of signals in them.
pub mod Inv
pub mod Write
pub mod Send
mod Tests
use gotcp.Prelude.{
  ℕ, ◌+◌, ◌-◌, ◌%◌, min, List, [], Option, none, some, ltb, leb, ◌==◌, if◌then◌else◌, length,
  replicate, slice, copy_to?, ◌>>=◌,
}
use gotcp.Prelude.Words.{u32_mod, add32, sub32}

pub record SendBuf : Type 0 where
  pub buf : List ℕ
  pub capacity : ℕ
  pub iss : ℕ
  pub lbw : ℕ
  pub has_unsent : ℕ
  pub freespace : ℕ

unfoldable pub new_send_buf : ℕ → ℕ → SendBuf
new_send_buf capacity iss = record {
  buf = replicate capacity 0;
  capacity = capacity;
  iss = iss;
  lbw = add32 iss 1;
  has_unsent = 0;
  freespace = 0;
}

unfoldable pub index : SendBuf → ℕ → ℕ
index b num = sub32 num b.iss % b.capacity

unfoldable pub free_space : SendBuf → ℕ → ℕ
free_space b una = if leb (sub32 b.lbw una) b.capacity then b.capacity - sub32 b.lbw una else 0

unfoldable pub num_bytes_not_sent : SendBuf → ℕ → ℕ
num_bytes_not_sent b nxt = sub32 b.lbw nxt

-- From SND.UNA, SND.WND and SND.NXT.
unfoldable pub usable_send_window : ℕ → ℕ → ℕ → ℕ
usable_send_window una wnd nxt =
    if ltb nxt (add32 una (wnd % u32_mod)) then sub32 (add32 una (wnd % u32_mod)) nxt else 0

-- A panic, a wait for free space, a wait for room in `hasUnsentC` with the lock held, or the number
-- of bytes written and the buffer after it.
pub data WriteResult : Type 0 where
  panicked blocked stuck : WriteResult
  wrote : ℕ → SendBuf → WriteResult

unfoldable pub write_copy : SendBuf → ℕ → List ℕ → Option (List ℕ)
unfolding index
write_copy b num_bytes src =
    let lbw_idx = index b b.lbw in
    if leb (lbw_idx + num_bytes) b.capacity
    then (slice src 0 num_bytes >>= λ s. copy_to? b.buf lbw_idx s)
    else let first_half = b.capacity - lbw_idx in
      (slice src 0 first_half >>= λ s.
      copy_to? b.buf lbw_idx s >>= λ b'. slice src first_half num_bytes >>= λ s'. copy_to? b' 0 s')

abbrev write_done : SendBuf → ℕ → Option (List ℕ) → WriteResult
write_done b n none = panicked
write_done b n (some buf') =
    if b.has_unsent == b.capacity
    then stuck
    else wrote n (record b {
      buf = buf';
      lbw = add32 b.lbw (n % u32_mod);
      has_unsent = b.has_unsent + 1;
      freespace = 0;
    })

-- writeToSendBuf. A writer that finds no room waits, and starts over when bytes are acknowledged.
unfoldable pub write_to_send_buf : SendBuf → ℕ → List ℕ → WriteResult
unfolding write_copy free_space
write_to_send_buf b una src =
    let num_bytes = min (free_space b una) (length src) in
    if free_space b una == 0 then blocked else write_done b num_bytes (write_copy b num_bytes src)

-- The part of bytesNotSent that copies, from the index `nxt_idx` on. A `make` and a `copy` of just
-- its size give the slice.
unfoldable pub read_copy : SendBuf → ℕ → ℕ → Option (List ℕ)
read_copy b nxt_idx num_bytes =
    if leb (nxt_idx + num_bytes) b.capacity
    then (slice b.buf nxt_idx (nxt_idx + num_bytes) >>= λ s. copy_to? (replicate num_bytes 0) 0 s)
    else let first_half = b.capacity - nxt_idx in
      (slice b.buf nxt_idx (length b.buf) >>= λ s. copy_to? (replicate num_bytes 0) 0 s >>= λ r.
      slice b.buf 0 (num_bytes - first_half) >>= λ s'. copy_to? r first_half s')

-- bytesNotSent: `none` is a panic, and no bytes are `nil`.
unfoldable pub bytes_not_sent : SendBuf → ℕ → ℕ → ℕ → ℕ → Option (List ℕ)
unfolding index num_bytes_not_sent usable_send_window read_copy
bytes_not_sent b una wnd nxt limit =
    let num_bytes = min (min limit (num_bytes_not_sent b nxt)) (usable_send_window una wnd nxt) in
    if num_bytes == 0 then some [] else read_copy b (index b nxt) num_bytes
