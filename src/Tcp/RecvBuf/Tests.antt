-- ===== src/Tcp/RecvBuf/Tests.antt =====
-- Runs of the receive buffer, and instances of its theorems, on buffers of a few bytes.
use gotcp.Prelude.{◌+◌, ◌-◌, ◌≡◌, refl, false, List, [], ◌∷◌, some, arith}
use gotcp.Tcp.RecvBuf.{RecvBuf, new, write, read, window_size, free_space, buffer_capacity}
use gotcp.Tcp.RecvBuf.Inv.{IsValid, used, contents}
use gotcp.Tcp.RecvBuf.Counts.{free_space-add-used}
use gotcp.Tcp.RecvBuf.Write.{WriteSpec, write-WriteSpec}
use gotcp.Tcp.RecvBuf.Read.{ReadSpec, read-ReadSpec}
use gotcp.Tcp.RecvBuf.Fifo.{Call, write_call, read_call, run, Trace, Conserves, run-Conserves}
use gotcp.Tcp.RecvBuf.Wraparound.{window_size_wrapped}

abbrev empty_buffer : RecvBuf
unfolding new
empty_buffer = new 4 10

-- Bytes 9, 8 and 7 unread, wrapped round the end of the array.
abbrev wrapped_buffer : RecvBuf
wrapped_buffer = record {
  buff = 8 ∷ 7 ∷ 5 ∷ 9 ∷ [];
  capacity = 4;
  lbr = 11;
  nxt = 15;
  is_full = false;
  fin_recvd = false;
  can_read = 1;
}

empty_buffer-IsValid : IsValid empty_buffer
unfolding new
empty_buffer-IsValid = record {
  sized = refl;
  some_room = omega arith;
  small = omega arith;
  ordered = omega arith;
  no_wrap = omega arith;
  fits = omega arith;
  full_iff = refl;
  signals = omega arith;
}

wrapped_buffer-IsValid : IsValid wrapped_buffer
wrapped_buffer-IsValid = record {
  sized = refl;
  some_room = omega arith;
  small = omega arith;
  ordered = omega arith;
  no_wrap = omega arith;
  fits = omega arith;
  full_iff = refl;
  signals = omega arith;
}

wrapped_buffer-contents : contents wrapped_buffer ≡ 9 ∷ 8 ∷ 7 ∷ []
unfolding gotcp.Tcp.Ring.window
wrapped_buffer-contents = refl

write-WriteSpec_example :
    WriteSpec wrapped_buffer (1 ∷ 2 ∷ 3 ∷ []) (write wrapped_buffer (1 ∷ 2 ∷ 3 ∷ []))
write-WriteSpec_example = write-WriteSpec (1 ∷ 2 ∷ 3 ∷ []) wrapped_buffer-IsValid (omega arith)

read-ReadSpec_example : ReadSpec wrapped_buffer (0 ∷ 0 ∷ []) (read wrapped_buffer (0 ∷ 0 ∷ []))
read-ReadSpec_example = read-ReadSpec (0 ∷ 0 ∷ []) wrapped_buffer-IsValid (omega arith)

abbrev calls : List Call
calls = write_call (1 ∷ 2 ∷ 3 ∷ []) ∷ read_call (0 ∷ 0 ∷ []) ∷ write_call (4 ∷ 5 ∷ []) ∷ []

run-Conserves_example : (t : Trace) × (run empty_buffer calls ≡ some t) × Conserves empty_buffer t
unfolding empty_buffer
run-Conserves_example =
    run-Conserves empty_buffer calls empty_buffer-IsValid (omega arith) (omega arith, tt)

free_space-add-used_example :
    free_space wrapped_buffer + used wrapped_buffer ≡ wrapped_buffer.capacity
free_space-add-used_example = free_space-add-used wrapped_buffer-IsValid

-- Two unread bytes, numbered 2 ^ 32 - 1 and 0.
abbrev late_buffer : RecvBuf
late_buffer = record {
  buff = [];
  capacity = buffer_capacity;
  lbr = 4294967294;
  nxt = 1;
  is_full = false;
  fin_recvd = false;
  can_read = 1;
}

window_size_wrapped_example :
    (window_size late_buffer + 1 ≡ 2) × (free_space late_buffer ≡ buffer_capacity - 2 + 1)
window_size_wrapped_example =
    window_size_wrapped late_buffer 2 refl refl (omega arith) (omega arith) (omega arith)
      (omega arith) refl
