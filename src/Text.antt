-- ===== src/Text.antt =====
-- Go strings as lists of bytes, and what the program uses of the packages `strings`,
-- `unicode/utf8` and `strconv`: equality, byte order, `utf8.ValidString`, the test
-- `strings.TrimSpace(s) != ""`, `strings.Fields`, `strings.Join` and decimal numbers.
pub mod Decimals
pub mod Laws
use Prim.Native.Char.{code}
use Prim.Native.String.{String}
use clanker_foundry.Prelude.{
  ℕ, zero, suc, ◌+◌, ◌/◌, ◌%◌, Bool, true, false, not, ◌&&◌, ◌||◌, Option, none, some, List, [],
  ◌∷◌, ◌++◌, ltb, leb, ◌==◌, if◌then◌else◌, any_of,
}

abbrev pub Str : Type 0
Str = List ℕ

-- The bytes of an ASCII literal.
abbrev pub str : String → Str
str String.[] = []
str (String.◌∷◌ c s) = code c ∷ str s

unfoldable pub str_eq : Str → Str → Bool
str_eq [] [] = true
str_eq (a ∷ s) (b ∷ t) = a == b && str_eq s t
str_eq _ _ = false

-- `s < t`.
unfoldable pub str_ltb : Str → Str → Bool
str_ltb [] [] = false
str_ltb [] (b ∷ t) = true
str_ltb (a ∷ s) [] = false
str_ltb (a ∷ s) (b ∷ t) = ltb a b || a == b && str_ltb s t

-- A `map[string]bool` that is only added to.
unfoldable pub contains : List Str → Str → Bool
unfolding any_of
contains set s = any_of (str_eq s) set

between : ℕ → ℕ → ℕ → Bool
between lo hi a = leb lo a && leb a hi

-- How many bytes follow a leading byte, and the range of the next one.
utf8_lead : ℕ → Option (ℕ × ℕ × ℕ)
unfolding between
utf8_lead a =
    if ltb a 0x80
    then some (0, 0x80, 0xBF)
    else if between 0xC2 0xDF a
    then some (1, 0x80, 0xBF)
    else if a == 0xE0
    then some (2, 0xA0, 0xBF)
    else if a == 0xED
    then some (2, 0x80, 0x9F)
    else if between 0xE1 0xEF a
    then some (2, 0x80, 0xBF)
    else if a == 0xF0
    then some (3, 0x90, 0xBF)
    else if between 0xF1 0xF3 a
    then some (3, 0x80, 0xBF)
    else if a == 0xF4
    then some (3, 0x80, 0x8F)
    else none

-- `left` more bytes of a rune are due, the next of them from `lo` to `hi`.
utf8_from : ℕ → ℕ → ℕ → Str → Bool
utf8_from left lo hi [] = left == 0
utf8_from zero lo hi (a ∷ s) = elim (utf8_lead a) [
  | none ↦ false
  | some (n, l, h) ↦ utf8_from n l h s
]
utf8_from (suc n) lo hi (a ∷ s) = between lo hi a && utf8_from n 0x80 0xBF s

-- `utf8.ValidString`.
unfoldable pub valid_string : Str → Bool
unfolding utf8_from utf8_lead
valid_string s = utf8_from 0 0x80 0xBF s

-- What has been read of the encoding of a space.
pub data Spaces : Type 0 where
  start after_c2 after_e1 after_e1_9a after_e2 after_e2_80 after_e2_81 after_e3 after_e3_80 : Spaces

-- One byte of a text of `unicode.IsSpace` runes.
space_step : Spaces → ℕ → Option Spaces
unfolding between
space_step start a =
    if between 9 13 a || a == 32
    then some start
    else if a == 0xC2
    then some after_c2
    else if a == 0xE1
    then some after_e1
    else if a == 0xE2
    then some after_e2
    else if a == 0xE3
    then some after_e3
    else none
space_step after_c2 a = if a == 0x85 || a == 0xA0 then some start else none
space_step after_e1 a = if a == 0x9A then some after_e1_9a else none
space_step after_e1_9a a = if a == 0x80 then some start else none
space_step after_e2 a =
    if a == 0x80 then some after_e2_80 else if a == 0x81 then some after_e2_81 else none
space_step after_e2_80 a =
    if between 0x80 0x8A a || a == 0xA8 || a == 0xA9 || a == 0xAF then some start else none
space_step after_e2_81 a = if a == 0x9F then some start else none
space_step after_e3 a = if a == 0x80 then some after_e3_80 else none
space_step after_e3_80 a = if a == 0x80 then some start else none

all_spaces : Spaces → Str → Bool
all_spaces start [] = true
all_spaces _ [] = false
all_spaces st (a ∷ s) = elim (space_step st a) [ none ↦ false | some st' ↦ all_spaces st' s ]

-- `strings.TrimSpace(s) != ""`: some rune is no space.
unfoldable pub nonblank : Str → Bool
unfolding all_spaces space_step
nonblank s = not (all_spaces start s)

is_start : Spaces → Bool
is_start start = true
is_start _ = false

-- A word that has ended; there is none between two spaces.
end_word : Str → List Str → List Str
end_word [] ws = ws
end_word (a ∷ w) ws = (a ∷ w) ∷ ws

-- `held` are the bytes read of what may be a space.
fields_from : Spaces → Str → Str → Str → List Str
unfolding is_start end_word
fields_from st held word [] = end_word (word ++ held) []
fields_from st held word (a ∷ s) = elim (space_step st a) [
  | none ↦ fields_from start [] (word ++ held ++ a ∷ []) s
  | some st' ↦ elim (is_start st') [
    | true ↦ end_word word (fields_from start [] [] s)
    | false ↦ fields_from st' (held ++ a ∷ []) word s
  ]
]

-- `strings.Fields`, on a valid string.
unfoldable pub fields : Str → List Str
unfolding fields_from space_step
fields s = fields_from start [] [] s

-- `strings.Join(ws, " ")`.
unfoldable pub join_words : List Str → Str
join_words [] = []
join_words (w ∷ []) = w
join_words (w ∷ v ∷ ws) = w ++ b' ' ∷ join_words (v ∷ ws)

-- `strconv.Itoa`, on fuel: every division by ten lowers a number that is not 0.
unfoldable pub decimal_from : ℕ → ℕ → Str
decimal_from zero n = []
decimal_from (suc fuel) n =
    let before = decimal_from fuel (n / 10) in
    if ltb n 10 then (b'0' + n) ∷ [] else before ++ (b'0' + n % 10) ∷ []

unfoldable pub decimal : ℕ → Str
unfolding decimal_from
decimal n = decimal_from (suc n) n
