-- ===== src/Base/Text.antt =====
-- Text as its code points, and the parts of `str` that the program calls.
use Prim.Native.Nat.{ℕ, zero, suc, ◌+◌, ◌-◌, ◌*◌, ◌^◌}
use Prim.Native.Char.{code}
use Prim.Native.String.{String}
use mathlib.Core.Bool.{Bool, true, false, ◌&&◌, ◌||◌}
use mathlib.Core.List.{List, [], ◌∷◌, ◌++◌}
use mathlib.Core.Option.{Option, none, some}
use mathlib.Core.Option
use passkey.Base.Tests.{ltb, leb, same, ◌==◌, if◌then◌else◌}

abbrev pub Text : Type 0
Text = List ℕ

-- The code points of a literal. `String` has its own `[]` and `∷`.
abbrev pub codes : String → List ℕ
codes String.[] = []
codes (String.◌∷◌ c s) = code c ∷ codes s

-- `char::is_whitespace`: the code points with the Unicode property White_Space.
unfoldable pub is_whitespace : ℕ → Bool
is_whitespace c =
    leb 9 c && leb c 13
    || c == 0x20
    || c == 0x85
    || c == 0xa0
    || c == 0x1680
    || leb 0x2000 c && leb c 0x200a
    || c == 0x2028
    || c == 0x2029
    || c == 0x202f
    || c == 0x205f
    || c == 0x3000

-- A field that starts at the first character of a text, before the texts that follow it.
abbrev pub extend : ℕ → List Text → List Text
extend c [] = (c ∷ []) ∷ []
extend c (t ∷ ts) = (c ∷ t) ∷ ts

-- `str::split` at one character: always one field more than there are separators.
unfoldable pub split : ℕ → Text → List Text
split sep [] = [] ∷ []
split sep (c ∷ s) = if c == sep then [] ∷ split sep s else extend c (split sep s)

-- The words of `str::split_whitespace`: `word` is the word that is being read.
abbrev pub close_word : Text → List Text → List Text
close_word [] ws = ws
close_word (c ∷ w) ws = (c ∷ w) ∷ ws

unfoldable pub words_from : Text → Text → List Text
words_from word [] = close_word word []
words_from word (c ∷ s) =
    let next = words_from (word ++ c ∷ []) s in
    let apart = close_word word (words_from [] s) in if is_whitespace c then apart else next

unfoldable pub split_whitespace : Text → List Text
unfolding words_from is_whitespace
split_whitespace s = words_from [] s

-- `[_]::join`.
unfoldable pub join : Text → List Text → Text
join sep [] = []
join sep (t ∷ []) = t
join sep (t ∷ u ∷ ts) = t ++ (sep ++ join sep (u ∷ ts))

-- `str::strip_prefix`; `str::starts_with` asks whether there is a result.
unfoldable pub strip_prefix : Text → Text → Option Text
strip_prefix [] s = some s
strip_prefix (p ∷ ps) [] = none
strip_prefix (p ∷ ps) (c ∷ s) = if p == c then strip_prefix ps s else none

-- `str::parse` of an unsigned number: a sign `+` is allowed, and a number from `limit` on is an
-- error.
abbrev pub parse_digits : ℕ → Option ℕ → List ℕ → Option ℕ
parse_digits limit n [] = n
parse_digits limit none (c ∷ cs) = none
parse_digits limit (some n) (c ∷ cs) =
    parse_digits limit
      (if leb 48 c && leb c 57 && ltb (n * 10 + (c - 48)) limit
        then some (n * 10 + (c - 48))
        else none)
      cs

abbrev parse_number : ℕ → List ℕ → Option ℕ
parse_number limit [] = none
parse_number limit (c ∷ cs) = parse_digits limit (some 0) (c ∷ cs)

unfoldable pub parse_unsigned : ℕ → Text → Option ℕ
parse_unsigned limit [] = none
parse_unsigned limit (c ∷ cs) =
    if c == 43 then parse_number limit cs else parse_number limit (c ∷ cs)

unfoldable pub parse_u32 : Text → Option ℕ
unfolding parse_unsigned
parse_u32 s = parse_unsigned (2 ^ 32) s

unfoldable pub parse_usize : Text → Option ℕ
unfolding parse_unsigned
parse_usize s = parse_unsigned (2 ^ 64) s

-- `str::lines`: a line ends with "\n" or "\r\n", and an empty last line is none.
abbrev pub strip_return : Text → Text
strip_return [] = []
strip_return (c ∷ []) = if c == 13 then [] else c ∷ []
strip_return (c ∷ d ∷ s) = c ∷ strip_return (d ∷ s)

abbrev pub close_lines : List Text → List Text
close_lines [] = []
close_lines ([] ∷ []) = []
close_lines ((c ∷ s) ∷ []) = (c ∷ s) ∷ []
close_lines (s ∷ t ∷ ts) = strip_return s ∷ close_lines (t ∷ ts)

unfoldable pub lines : Text → List Text
unfolding split
lines s = close_lines (split 10 s)

-- `str::trim_end_matches` at one character.
abbrev pub keep_unless : ℕ → ℕ → Text → Text
keep_unless sep c [] = if c == sep then [] else c ∷ []
keep_unless sep c (d ∷ s) = c ∷ d ∷ s

unfoldable pub trim_end_matches : ℕ → Text → Text
trim_end_matches sep [] = []
trim_end_matches sep (c ∷ s) = keep_unless sep c (trim_end_matches sep s)

-- `str::contains`.
abbrev is_prefix : Text → Text → Bool
is_prefix [] s = true
is_prefix (p ∷ ps) [] = false
is_prefix (p ∷ ps) (c ∷ s) = p == c && is_prefix ps s

unfoldable pub contains : Text → Text → Bool
contains s pattern = elim s [
  | [] ↦ is_prefix pattern []
  | ◌∷◌ c (rest → found) ↦ is_prefix pattern (c ∷ rest) || found
]

-- `str::trim`.
unfoldable pub trim_start : Text → Text
unfolding is_whitespace
trim_start [] = []
trim_start (c ∷ s) = if is_whitespace c then trim_start s else c ∷ s

abbrev keep_unless_white : ℕ → Text → Text
keep_unless_white c [] = if is_whitespace c then [] else c ∷ []
keep_unless_white c (d ∷ s) = c ∷ d ∷ s

unfoldable pub trim_end : Text → Text
unfolding is_whitespace
trim_end [] = []
trim_end (c ∷ s) = keep_unless_white c (trim_end s)

unfoldable pub trim : Text → Text
unfolding trim_start trim_end
trim s = trim_end (trim_start s)

-- `str::trim_start_matches` at one character.
unfoldable pub trim_start_matches : ℕ → Text → Text
trim_start_matches sep [] = []
trim_start_matches sep (c ∷ s) = if c == sep then trim_start_matches sep s else c ∷ s

-- `split(sep).next()`, which is always there.
abbrev pub first : List Text → Text
first [] = []
first (t ∷ ts) = t

-- `str::split_once` at one character.
abbrev pub cut : ℕ → Option (Text × Text) → Option (Text × Text)
cut c none = none
cut c (some (a, b)) = some (c ∷ a, b)

unfoldable pub split_once : ℕ → Text → Option (Text × Text)
split_once sep [] = none
split_once sep (c ∷ s) = if c == sep then some ([], s) else cut c (split_once sep s)

-- `str::splitn` at one character.
abbrev pub cut_fields : (Text → List Text) → Text → Option (Text × Text) → List Text
cut_fields more s none = s ∷ []
cut_fields more s (some (a, b)) = a ∷ more b

unfoldable pub splitn : ℕ → ℕ → Text → List Text
unfolding split_once
splitn zero sep s = []
splitn (suc zero) sep s = s ∷ []
splitn (suc (suc n)) sep s = cut_fields (splitn (suc n) sep) s (split_once sep s)

-- `str::strip_suffix`.
unfoldable pub strip_suffix : Text → Text → Option Text
unfolding same
strip_suffix suffix [] = if same [] suffix then some [] else none
strip_suffix suffix (c ∷ s) =
    let later = Option.map (λ t. c ∷ t) (strip_suffix suffix s) in
    if same (c ∷ s) suffix then some [] else later

-- `str::replace` of one character by another.
abbrev pub replace : ℕ → ℕ → Text → Text
replace old new [] = []
replace old new (c ∷ s) = (if c == old then new else c) ∷ replace old new s
