-- ===== src/Http/Text.antt =====
-- The operations of the standard library on text that the handshake uses. A text is the list of its
-- code points. `to_lowercase` is in Headers.
use wust_socket.Prelude.{
  ℕ, ◌+◌, ◌/◌, ◌%◌, List, [], ◌∷◌, ◌++◌, Option, none, some, Bool, true, false, ◌==◌, ◌&&◌, ◌||◌,
  not, list_eq, leb, ltb, if◌then◌else◌, is_empty, map,
}

-- `char::is_whitespace`, the property White_Space of Unicode.
unfoldable pub is_whitespace : ℕ → Bool
is_whitespace c =
    leb 9 c && leb c 13
    || c == 0x20
    || c == 0x85
    || c == 0xA0
    || c == 0x1680
    || leb 0x2000 c && leb c 0x200A
    || c == 0x2028
    || c == 0x2029
    || c == 0x202F
    || c == 0x205F
    || c == 0x3000

unfoldable pub trim_start : List ℕ → List ℕ
trim_start [] = []
trim_start (c ∷ cs) = let rest = trim_start cs in if is_whitespace c then rest else c ∷ cs

unfoldable pub trim_end : List ℕ → List ℕ
trim_end [] = []
trim_end (c ∷ cs) =
    let rest = trim_end cs in if is_empty rest && is_whitespace c then [] else c ∷ rest

abbrev pub trim : List ℕ → List ℕ
trim s = trim_start (trim_end s)

-- `split(sep)`, with `cur` before the rest of the text.
unfoldable pub split_from : ℕ → List ℕ → List ℕ → List (List ℕ)
split_from sep cur [] = cur ∷ []
split_from sep cur (c ∷ cs) =
    let later = split_from sep (if c == sep then [] else cur ++ c ∷ []) cs in
    if c == sep then cur ∷ later else later

abbrev pub split : ℕ → List ℕ → List (List ℕ)
split sep s = split_from sep [] s

unfoldable pub split_once_from : ℕ → List ℕ → List ℕ → Option (List ℕ × List ℕ)
split_once_from sep cur [] = none
split_once_from sep cur (c ∷ cs) =
    let later = split_once_from sep (cur ++ c ∷ []) cs in if c == sep then some (cur, cs) else later

abbrev pub split_once : ℕ → List ℕ → Option (List ℕ × List ℕ)
split_once sep s = split_once_from sep [] s

-- `split_whitespace`: the words, none of them empty.
unfoldable pub words_from : List ℕ → List ℕ → List (List ℕ)
words_from cur [] = if is_empty cur then [] else cur ∷ []
words_from cur (c ∷ cs) =
    let later = words_from (if is_whitespace c then [] else cur ++ c ∷ []) cs in
    if is_whitespace c && not (is_empty cur) then cur ∷ later else later

abbrev pub split_whitespace : List ℕ → List (List ℕ)
split_whitespace s = words_from [] s

unfoldable pub starts_with : List ℕ → List ℕ → Bool
starts_with [] s = true
starts_with (p ∷ ps) [] = false
starts_with (p ∷ ps) (c ∷ cs) = (p == c) && starts_with ps cs

abbrev pub ascii_lower : ℕ → ℕ
ascii_lower c = if leb 0x41 c && leb c 0x5A then c + 0x20 else c

unfoldable pub eq_ignore_ascii_case : List ℕ → List ℕ → Bool
eq_ignore_ascii_case a b = list_eq (map ascii_lower a) (map ascii_lower b)

-- `as_bytes`, the encoding of a text in UTF-8.
abbrev pub char_bytes : ℕ → List ℕ
char_bytes c =
    if ltb c 0x80
    then c ∷ []
    else if ltb c 0x800
    then (0xC0 + c / 64) ∷ (0x80 + c % 64) ∷ []
    else if ltb c 0x10000
    then (0xE0 + c / 4096) ∷ (0x80 + c / 64 % 64) ∷ (0x80 + c % 64) ∷ []
    else (0xF0 + c / 262144) ∷ (0x80 + c / 4096 % 64) ∷ (0x80 + c / 64 % 64) ∷ (0x80 + c % 64) ∷ []

unfoldable pub as_bytes : List ℕ → List ℕ
as_bytes [] = []
as_bytes (c ∷ cs) = char_bytes c ++ as_bytes cs
