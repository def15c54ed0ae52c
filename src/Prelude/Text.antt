-- ===== src/Prelude/Text.antt =====
-- `str` as its UTF-8 bytes: the standard library's operations on it that the source uses.
use Prim.Native.Nat.{ℕ, ◌+◌, ◌-◌, ◌*◌, ◌/◌}
use mathlib.Core.Bool.{Bool, true, false, ◌&&◌, ◌||◌}
use mathlib.Core.List.{List, [], ◌∷◌, ◌++◌}
use mathlib.Core.Option.{Option, none, some}
use synology_filestation.Prelude.Tests.{◌==◌, ltb, leb, if◌then◌else◌}
use synology_filestation.Prelude.Lists.{length, drop}
use synology_filestation.Prelude.Bytes.{same}
use synology_filestation.Prelude.Keyed.{starts_with}

abbrev pub Text : Type 0
Text = List ℕ

-- `str::strip_prefix`
unfoldable pub strip_prefix : Text → Text → Option Text
unfolding starts_with
strip_prefix text prefix =
    if starts_with text prefix then some (drop (length prefix) text) else none

-- `str::eq_ignore_ascii_case`
abbrev ascii_lower : ℕ → ℕ
ascii_lower b = if leb b'A' b && leb b b'Z' then b + 32 else b

abbrev lowered : Text → Text
lowered [] = []
lowered (b ∷ text) = ascii_lower b ∷ lowered text

unfoldable pub eq_ignore_ascii_case : Text → Text → Bool
unfolding same
eq_ignore_ascii_case a b = same (lowered a) (lowered b)

-- The pieces between the bytes that are `separator`: at least one.
abbrev in_first : ℕ → List Text → List Text
in_first b [] = (b ∷ []) ∷ []
in_first b (piece ∷ pieces) = (b ∷ piece) ∷ pieces

unfoldable pub split_on : ℕ → Text → List Text
split_on separator [] = [] ∷ []
split_on separator (b ∷ text) =
    let pieces = split_on separator text in
    if b == separator then [] ∷ pieces else in_first b pieces

-- The characters: a byte of the form 10xxxxxx goes on with the character before it.
abbrev is_continuation : ℕ → Bool
is_continuation b = b / 64 == 2

abbrev with_byte : ℕ → Text → List Text → List Text
with_byte b [] chars = (b ∷ []) ∷ []
with_byte b (next ∷ text) chars =
    if is_continuation next then in_first b chars else (b ∷ []) ∷ chars

unfoldable pub chars : Text → List Text
chars [] = []
chars (b ∷ text) = with_byte b text (chars text)

-- `char::is_whitespace`
abbrev between : ℕ → ℕ → ℕ → Bool
between low high b = leb low b && leb b high

unfoldable pub is_whitespace : Text → Bool
is_whitespace (a ∷ []) = between 9 13 a || a == 32
is_whitespace (a ∷ b ∷ []) = a == 0xC2 && (b == 0x85 || b == 0xA0)
is_whitespace (a ∷ b ∷ c ∷ []) =
    a == 0xE1 && b == 0x9A && c == 0x80
    || a == 0xE2 && b == 0x80 && (between 0x80 0x8A c || c == 0xA8 || c == 0xA9 || c == 0xAF)
    || a == 0xE2 && b == 0x81 && c == 0x9F
    || a == 0xE3 && b == 0x80 && c == 0x80
is_whitespace _ = false

abbrev pub joined : List Text → Text
joined [] = []
joined (c ∷ cs) = c ++ joined cs

-- `str::trim`
unfoldable skip_spaces : List Text → List Text
unfolding is_whitespace
skip_spaces [] = []
skip_spaces (c ∷ cs) = let rest = skip_spaces cs in if is_whitespace c then rest else c ∷ cs

unfoldable drop_spaces_behind : List Text → List Text
unfolding is_whitespace
drop_spaces_behind [] = []
drop_spaces_behind (c ∷ cs) = elim (drop_spaces_behind cs) [
  | [] ↦ if is_whitespace c then [] else c ∷ []
  | d ∷ ds ↦ c ∷ d ∷ ds
]

unfoldable pub trim : Text → Text
unfolding chars skip_spaces drop_spaces_behind
trim text = joined (drop_spaces_behind (skip_spaces (chars text)))

-- `str::split_whitespace`: the pieces between white space that are not empty.
abbrev flush : Text → List Text → List Text
flush [] words = words
flush (b ∷ word) words = (b ∷ word) ∷ words

abbrev word_char : Text → Bool → Text × List Text → Text × List Text
word_char c true (word, words) = ([], flush word words)
word_char c false (word, words) = (c ++ word, words)

-- The word that is open, and those behind it.
unfoldable words_of : List Text → Text × List Text
unfolding is_whitespace
words_of [] = ([], [])
words_of (c ∷ cs) = word_char c (is_whitespace c) (words_of cs)

unfoldable pub split_whitespace : Text → List Text
unfolding chars words_of
split_whitespace text = let (word, words) = words_of (chars text) in flush word words

-- `str::parse` for an unsigned number up to a bound: an optional `+`, and digits.
abbrev is_digit : ℕ → Bool
is_digit b = between b'0' b'9' b

unfoldable digits_from : ℕ → Text → Option ℕ
digits_from value [] = some value
digits_from value (b ∷ text) =
    let rest = digits_from (value * 10 + (b - b'0')) text in if is_digit b then rest else none

abbrev at_most : ℕ → Option ℕ → Option ℕ
at_most bound none = none
at_most bound (some value) = if leb value bound then some value else none

unfoldable pub parse_unsigned : ℕ → Text → Option ℕ
unfolding digits_from
parse_unsigned bound [] = none
parse_unsigned bound (b ∷ []) = at_most bound (digits_from 0 (b ∷ []))
parse_unsigned bound (b ∷ c ∷ text) =
    at_most bound (digits_from 0 (if b == b'+' then c ∷ text else b ∷ c ∷ text))

-- `str::parse` for an IPv4 address: four numbers up to 255 of one to three digits, with no zero in
-- front of another digit, joined by dots.
unfoldable octet : Text → Option ℕ
unfolding digits_from
octet [] = none
octet (b ∷ text) =
    if ltb 2 (length text) || b == b'0' && ltb 0 (length text)
    then none
    else at_most 255 (digits_from 0 (b ∷ text))

unfoldable octets : List Text → Option (List ℕ)
unfolding octet
octets [] = some []
octets (piece ∷ pieces) = elim (octet piece) [
  | none ↦ none
  | some b ↦ elim (octets pieces) [ none ↦ none | some bs ↦ some (b ∷ bs) ]
]

unfoldable pub parse_ipv4 : Text → Option (List ℕ)
unfolding split_on octets
parse_ipv4 text =
    let pieces = split_on b'.' text in if length pieces == 4 then octets pieces else none
