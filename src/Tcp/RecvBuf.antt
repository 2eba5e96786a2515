-- ===== src/Tcp/RecvBuf.antt =====
-- pkg/tcpstack/recvbuf.go: the circular receive buffer. `lbr` and `nxt` are sequence numbers: the
-- bytes from `lbr` up to `nxt - 1` are unread, at the index `number % capacity`. A call returns
-- what it yields and the new buffer. The mutex makes each call one step; `canRead` is a buffered
-- channel of signals, kept as the number of signals in it. Every capacity in the program is
-- BUFFER_CAPACITY, so no `%` divides by zero.
pub mod Inv
pub mod Counts
pub mod Write
pub mod Read
mod Fifo
pub mod Fin
mod Wraparound
mod Tests
use gotcp.Prelude.{
  ℕ, ◌+◌, ◌-◌, ◌%◌, Bool, true, false, not, ◌&&◌, Option, none, some, List, [], ltb, leb, ◌==◌,
  if◌then◌else◌, length, take, drop, replicate, slice, copy_to?, ◌>>=◌,
}
use gotcp.Prelude.Words.{u32_mod, add32, sub32}

abbrev pub buffer_capacity : ℕ
buffer_capacity = 65535

pub record RecvBuf : Type 0 where
  pub buff : List ℕ
  pub capacity : ℕ
  pub lbr : ℕ
  pub nxt : ℕ
  pub is_full : Bool
  pub fin_recvd : Bool
  pub can_read : ℕ

unfoldable pub new : ℕ → ℕ → RecvBuf
new capacity start = record {
  buff = replicate capacity 0;
  capacity = capacity;
  lbr = start;
  nxt = add32 start 1;
  is_full = false;
  fin_recvd = false;
  can_read = 0;
}

abbrev pub head : RecvBuf → ℕ
head cb = cb.lbr % cb.capacity

abbrev pub tail : RecvBuf → ℕ
tail cb = sub32 cb.nxt 1 % cb.capacity

-- What a call of Read yields: a panic, a wait on `canRead`, the error `io.EOF`, or a number of
-- bytes with the caller's slice and the buffer after it.
pub data ReadResult : Type 0 where
  panicked blocked eof : ReadResult
  took : ℕ → List ℕ → RecvBuf → ReadResult

abbrev clip : ℕ → List ℕ → ℕ
clip n buf = if ltb (length buf % u32_mod) n then length buf % u32_mod else n

-- The part of Read that moves bytes: how many, and the caller's slice after it.
unfoldable pub read_copy : RecvBuf → List ℕ → Option (ℕ × List ℕ)
read_copy cb buf =
    if ltb (head cb) (tail cb)
    then (let n = clip (sub32 (tail cb) (head cb)) buf in
        slice cb.buff (head cb) (add32 (head cb) n) >>= λ s.
        copy_to? buf 0 s >>= λ out. some (n, out))
    else let n = clip (add32 (sub32 cb.capacity (head cb)) (tail cb)) buf in
      let end = add32 (head cb) n in
      if leb end cb.capacity
      then (slice cb.buff (head cb) end >>= λ s. copy_to? buf 0 s >>= λ out. some (n, out))
      else (slice cb.buff (head cb) cb.capacity >>= λ s. copy_to? buf 0 s >>= λ out.
          slice cb.buff 0 (end % cb.capacity) >>= λ s'.
          copy_to? out (sub32 cb.capacity (head cb)) s' >>= λ out'. some (n, out'))

-- Its end: the bytes are consumed, and the channel is made anew.
abbrev pub read_done : RecvBuf → Option (ℕ × List ℕ) → ReadResult
read_done cb none = panicked
read_done cb (some (n, out)) =
    took n out (record cb { is_full = false; lbr = add32 cb.lbr n; can_read = 0 })

-- Where the buffer is empty a signal in the channel lets Read go on at once.
unfoldable pub read : RecvBuf → List ℕ → ReadResult
unfolding read_copy
read cb buf =
    if length buf == 0
    then took 0 buf cb
    else if cb.fin_recvd && sub32 cb.nxt 1 == cb.lbr
    then eof
    else if (tail cb == head cb && not cb.is_full) && cb.can_read == 0
    then blocked
    else read_done cb (read_copy cb buf)

-- What a call of Write yields: a panic, a wait for room in `canRead` with the mutex held, the
-- error "buffer is full", or the number of bytes written with the buffer after it.
pub data WriteResult : Type 0 where
  panicked stuck full : WriteResult
  wrote : ℕ → RecvBuf → WriteResult

abbrev avail : RecvBuf → ℕ
avail cb =
    if leb (head cb) (tail cb)
    then add32 (sub32 cb.capacity (tail cb)) (head cb)
    else sub32 (head cb) (tail cb)

abbrev trimmed : RecvBuf → List ℕ → List ℕ
trimmed cb buf = if ltb (avail cb) (length buf) then take (avail cb) buf else buf

-- The part of Write that moves bytes.
unfoldable pub write_copy : RecvBuf → List ℕ → Option (List ℕ)
write_copy cb src =
    if leb (head cb) (tail cb)
    then (let tail_space = sub32 cb.capacity (tail cb) in
        if leb (length src % u32_mod) tail_space
        then copy_to? cb.buff (tail cb) src
        else (slice src 0 tail_space >>= λ s. copy_to? cb.buff (tail cb) s >>= λ b.
            slice src tail_space (length src) >>= λ s'. copy_to? b 0 s'))
    else copy_to? cb.buff (tail cb) src

abbrev write_done : RecvBuf → ℕ → Option (List ℕ) → WriteResult
write_done cb n none = panicked
write_done cb n (some b) =
    let nxt' = add32 cb.nxt n in
    if cb.can_read == cb.capacity
    then stuck
    else wrote n (record cb {
      buff = b;
      nxt = nxt';
      can_read = cb.can_read + 1;
      is_full = if sub32 (sub32 nxt' 1) cb.lbr % cb.capacity == 0 then true else cb.is_full;
    })

unfoldable pub write : RecvBuf → List ℕ → WriteResult
unfolding write_copy
write cb buf =
    if length buf == 0
    then wrote 0 cb
    else if cb.is_full
    then full
    else (let src = trimmed cb buf in write_done cb (length src % u32_mod) (write_copy cb src))

-- The unread bytes, by the code's own count.
unfoldable pub window_size : RecvBuf → ℕ
window_size cb =
    if head cb == tail cb
    then (if cb.is_full then cb.capacity else 0)
    else if ltb (tail cb) (head cb)
    then add32 (sub32 cb.capacity (head cb)) (tail cb)
    else sub32 (tail cb) (head cb)

unfoldable pub free_space : RecvBuf → ℕ
free_space cb =
    if head cb == tail cb
    then (if cb.is_full then 0 else cb.capacity)
    else if ltb (tail cb) (head cb)
    then sub32 (head cb) (tail cb)
    else add32 (sub32 cb.capacity (tail cb)) (head cb)

unfoldable pub is_empty : RecvBuf → Bool
is_empty cb = head cb == sub32 (cb.nxt % cb.capacity) 1 && not cb.is_full

-- A copy of the unread bytes; `nil` is the empty list.
unfoldable pub bytes : RecvBuf → Option (List ℕ)
bytes cb =
    if head cb == tail cb
    then (if cb.is_full
        then (slice cb.buff (head cb) (length cb.buff) >>= λ s.
            copy_to? (replicate cb.capacity 0) 0 s >>= λ b.
            slice cb.buff 0 (tail cb) >>= λ s'. copy_to? b (sub32 cb.capacity (head cb)) s')
        else some [])
    else if ltb (head cb) (tail cb)
    then (slice cb.buff (head cb) (tail cb) >>= λ s.
        copy_to? (replicate (sub32 (tail cb) (head cb)) 0) 0 s)
    else let n = add32 (sub32 cb.capacity (head cb)) (tail cb) in
      if ltb (add32 (head cb) n) cb.capacity
      then (slice cb.buff (head cb) (add32 (head cb) n) >>= λ s. copy_to? (replicate n 0) 0 s)
      else let head_bytes = sub32 cb.capacity (head cb) in
        (slice cb.buff (head cb) cb.capacity >>= λ s. copy_to? (replicate n 0) 0 s >>= λ b.
        slice cb.buff 0 (sub32 n head_bytes) >>= λ s'. copy_to? b head_bytes s')

unfoldable pub advance_nxt : RecvBuf → ℕ → Bool → RecvBuf
advance_nxt cb seq is_fin = record cb { fin_recvd = is_fin; nxt = add32 seq 1 }

unfoldable pub set_lbr : RecvBuf → ℕ → RecvBuf
set_lbr cb seq = record cb { lbr = seq }
