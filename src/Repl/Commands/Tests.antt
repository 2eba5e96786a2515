-- ===== src/Repl/Commands/Tests.antt =====
-- Runs: the two sets of commands do not overlap, and lines go to their handlers.
use Prim.Native.String.{String}
use gotcp.Prelude.{◌≡◌, refl, Option, some, none}
use gotcp.Repl.{Repl, Dispatched, invalid, called, dispatch}
use gotcp.Repl.Commands.{Handler, up, close, host_repl}

abbrev dispatched : Option (Repl Handler) → String → Dispatched Handler
dispatched none line = invalid
dispatched (some r) line = dispatch r line

host_repl-closes : dispatched host_repl "cl 3" ≡ called close "cl 3"
unfolding host_repl dispatch
host_repl-closes = refl

host_repl_up : dispatched host_repl "up if0" ≡ called up "up if0"
unfolding host_repl dispatch
host_repl_up = refl

host_repl_unknown : dispatched host_repl "upp if0" ≡ invalid
unfolding host_repl dispatch
host_repl_unknown = refl
