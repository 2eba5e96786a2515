-- ===== src/Repl.antt =====
-- pkg/repl/repl.go: the commands of a node, by their first words. The type of handlers is a
-- parameter; a Go map is an association list, and a handler that is missing from a map is nil,
-- `none`. The terminal is left out.
pub mod Combine
pub mod Words
pub mod Ip
pub mod Tcp
pub mod Commands
pub mod Files
pub mod Received
mod Closing
mod Tests
use Prim.Native.String.{String}
use gotcp.Prelude.{Bool, true, false, Option, none, some, List, [], ◌∷◌, if◌then◌else◌}
use gotcp.Ip.Forward.{name_eq, get}
use gotcp.Ip.Init.{put}
use gotcp.Config.Text.{split}

pub record Repl (H : Type 0) : Type 0 where
  pub commands : List (String × Option H)
  pub help : List (String × String)

abbrev pub is_key : {A : Type 0} → Option A → Bool
is_key none = false
is_key (some _) = true

-- What Run does with a line, with the space around it trimmed: an invalid command, a call of a nil
-- handler, or a call of the handler of the first word.
pub data Dispatched (H : Type 0) : Type 0 where
  invalid nil_call : Dispatched H
  called : H → String → Dispatched H

abbrev first_word : List String → String
first_word [] = ""
first_word (w ∷ _) = w

module _ {H : Type 0} where
  abbrev pub new_repl : Repl H
  new_repl = record { commands = []; help = [] }

  unfoldable pub add_command : String → H → String → Repl H → Repl H
  unfolding put
  add_command trigger handler help r = if name_eq trigger "" then r else record {
    commands = put trigger (some handler) r.commands;
    help = put trigger help r.help;
  }

  -- `m[k]`, nil if there is no such key.
  abbrev pub handler_of : Option (Option H) → Option H
  handler_of none = none
  handler_of (some o) = o

  -- The inner loop of CombineRepls, over the help of one REPL; `none` is the error of an overlap.
  unfoldable pub combine_help :
      List (String × Option H) → List (String × String) → Repl H → Option (Repl H)
  unfolding put
  combine_help commands [] combined = some combined
  combine_help commands ((k, v) ∷ help) combined =
      let rest = combine_help commands help (record {
        commands = put k (handler_of (get k commands)) combined.commands;
        help = put k v combined.help;
      }) in
      if is_key (get k combined.help) then none else rest

  abbrev pub and_then : Option (Repl H) → (Repl H → Option (Repl H)) → Option (Repl H)
  and_then none f = none
  and_then (some r) f = f r

  unfoldable pub combine_from : List (Repl H) → Repl H → Option (Repl H)
  unfolding combine_help
  combine_from [] combined = some combined
  combine_from (r ∷ rs) combined =
      and_then (combine_help r.commands r.help combined) (combine_from rs)

  unfoldable pub combine_repls : List (Repl H) → Option (Repl H)
  unfolding combine_from
  combine_repls rs = combine_from rs new_repl

  abbrev call : String → Option (Option H) → Dispatched H
  call input none = invalid
  call input (some none) = nil_call
  call input (some (some h)) = called h input

  unfoldable pub dispatch : Repl H → String → Dispatched H
  unfolding split
  dispatch r input = call input (get (first_word (split b' ' input)) r.commands)
