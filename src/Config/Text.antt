-- ===== src/Config/Text.antt =====
-- The text handling that pkg/lnxconfig/lnxconfig.go takes from Go's standard library: strings.Split
-- at one separator, and fmt.Fscanf with a format of literal texts and `%s` verbs. A line is a
-- `String` of ASCII characters without a newline.
use Prim.Native.Char.{Char, code}
use Prim.Native.String.{String}
use gotcp.Prelude.{
  ℕ, Bool, ◌&&◌, ◌||◌, Option, none, some, List, [], ◌∷◌, leb, ◌==◌, if◌then◌else◌, ◌>>=◌,
}

split_first : ℕ → String → String × List String
split_first sep String.[] = (String.[], [])
split_first sep (String.◌∷◌ c s) =
    let (w, ws) = split_first sep s in
    if code c == sep then (String.[], w ∷ ws) else (String.◌∷◌ c w, ws)

-- `strings.Split(s, sep)` for a separator of one byte: one text more than there are separators.
unfoldable pub split : ℕ → String → List String
unfolding split_first
split sep s = let (w, ws) = split_first sep s in w ∷ ws

abbrev pub is_space : Char → Bool
is_space c = code c == b' ' || (leb 9 (code c) && leb (code c) 13)

unfoldable pub skip_space : String → String
skip_space String.[] = String.[]
skip_space (String.◌∷◌ c s) = if is_space c then skip_space s else String.◌∷◌ c s

-- The characters up to the next space, and what follows.
unfoldable pub take_word : String → String × String
take_word String.[] = (String.[], String.[])
take_word (String.◌∷◌ c s) =
    let (w, rest) = take_word s in
    if is_space c then (String.[], String.◌∷◌ c s) else (String.◌∷◌ c w, rest)

abbrev non_empty : String × String → Option (String × String)
non_empty (String.[], rest) = none
non_empty (w, rest) = some (w, rest)

-- `%s`: spaces, then a word, which is not empty.
unfoldable pub scan_word : String → Option (String × String)
unfolding skip_space take_word
scan_word s = non_empty (take_word (skip_space s))

-- A space of the format: one space or more, or the end of the line.
abbrev match_spaces : String → Option String
match_spaces String.[] = some String.[]
match_spaces (String.◌∷◌ c s) = if is_space c then some (skip_space s) else none

-- A literal text of the format, which `%s` follows.
unfoldable pub match_text : String → String → Option String
unfolding skip_space
match_text String.[] s = some s
match_text (String.◌∷◌ f fs) String.[] = if code f == b' ' then match_text fs String.[] else none
match_text (String.◌∷◌ f fs) (String.◌∷◌ c s) =
    let spaces = match_spaces (String.◌∷◌ c s) >>= match_text fs in
    let same = match_text fs s in
    if code f == b' ' then spaces else if code f == code c then same else none

-- `fmt.Fscanf`: each literal text of the format is followed by a `%s`. What is left of the line is
-- not read.
unfoldable pub fscanf : List String → String → Option (List String)
unfolding match_text scan_word
fscanf [] s = some []
fscanf (l ∷ ls) s =
    match_text l s >>= λ s1. scan_word s1 >>= λ (w, rest). fscanf ls rest >>= λ ws. some (w ∷ ws)
