-- ===== src/Prelude/Utf8.antt =====
-- `str::from_utf8`, as to success: the well-formed byte sequences of UTF-8.
use Prim.Native.Nat.{ℕ}
use mathlib.Core.Bool.{Bool, true, false, ◌&&◌}
use mathlib.Core.List.{List, [], ◌∷◌}
use wust_socket.Prelude.Tests.{leb, ltb, if◌then◌else◌, ◌==◌}

abbrev pub between : ℕ → ℕ → ℕ → Bool
between lo hi b = leb lo b && leb b hi

-- A continuation byte.
abbrev pub is_cont_byte : ℕ → Bool
is_cont_byte b = between 0x80 0xBF b

-- The second byte of a sequence of three that begins with `b`.
unfoldable pub second_of_three : ℕ → ℕ → Bool
second_of_three b c =
    if b == 0xE0
    then between 0xA0 0xBF c
    else if b == 0xED
    then between 0x80 0x9F c
    else is_cont_byte c

-- The second byte of a sequence of four that begins with `b`.
unfoldable pub second_of_four : ℕ → ℕ → Bool
second_of_four b c =
    if b == 0xF0
    then between 0x90 0xBF c
    else if b == 0xF4
    then between 0x80 0x8F c
    else is_cont_byte c

-- What the next byte has to be: the start of a character, a second byte after a given first one
-- of three or of four, or one of a number of continuation bytes.
pub data Utf8State : Type 0 where
  start one_more two_more : Utf8State
  after_three after_four : ℕ → Utf8State
  broken : Utf8State

unfoldable pub utf8_start : ℕ → Utf8State
utf8_start b =
    if ltb b 0x80
    then Utf8State.start
    else if between 0xC2 0xDF b
    then Utf8State.one_more
    else if between 0xE0 0xEF b
    then Utf8State.after_three b
    else if between 0xF0 0xF4 b
    then Utf8State.after_four b
    else Utf8State.broken

unfoldable pub utf8_next : Utf8State → ℕ → Utf8State
unfolding utf8_start second_of_three second_of_four
utf8_next Utf8State.start b = utf8_start b
utf8_next Utf8State.one_more b = if is_cont_byte b then Utf8State.start else Utf8State.broken
utf8_next Utf8State.two_more b = if is_cont_byte b then Utf8State.one_more else Utf8State.broken
utf8_next (Utf8State.after_three a) b =
    if second_of_three a b then Utf8State.one_more else Utf8State.broken
utf8_next (Utf8State.after_four a) b =
    if second_of_four a b then Utf8State.two_more else Utf8State.broken
utf8_next Utf8State.broken b = Utf8State.broken

unfoldable pub utf8_run : Utf8State → List ℕ → Utf8State
utf8_run s [] = s
utf8_run s (b ∷ bs) = utf8_run (utf8_next s b) bs

abbrev pub utf8_done : Utf8State → Bool
utf8_done Utf8State.start = true
utf8_done _ = false

unfoldable pub is_utf8 : List ℕ → Bool
is_utf8 bs = utf8_done (utf8_run Utf8State.start bs)
