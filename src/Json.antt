-- ===== src/Json.antt =====
-- What the program uses of `encoding/json` with `SetEscapeHTML(false)`: strings, arrays of
-- strings and objects with a given order of fields, as the bytes that `Encode` writes.
pub mod Laws
use clanker_foundry.Prelude.{
  ℕ, ◌+◌, ◌-◌, ◌/◌, ◌%◌, Option, none, some, List, [], ◌∷◌, ◌++◌, ltb, ◌==◌, if◌then◌else◌, ◌&&◌,
  ◌||◌,
}
use clanker_foundry.Text.{Str, str}

hex_digit : ℕ → ℕ
hex_digit n = if ltb n 10 then b'0' + n else b'a' + (n - 10)

-- The byte as it stands in a JSON string.
escape_byte : ℕ → Str
unfolding hex_digit
escape_byte c =
    if c == b'"'
    then 92 ∷ c ∷ []
    else if c == 92
    then 92 ∷ c ∷ []
    else if c == 8
    then 92 ∷ b'b' ∷ []
    else if c == 12
    then 92 ∷ b'f' ∷ []
    else if c == 10
    then 92 ∷ b'n' ∷ []
    else if c == 13
    then 92 ∷ b'r' ∷ []
    else if c == 9
    then 92 ∷ b't' ∷ []
    else if ltb c 32
    then 92 ∷ b'u' ∷ b'0' ∷ b'0' ∷ hex_digit (c / 16) ∷ hex_digit (c % 16) ∷ []
    else c ∷ []

-- Line and paragraph separators, U+2028 and U+2029, are escaped too.
escape : Str → Str
unfolding escape_byte
escape (a ∷ b ∷ c ∷ s) =
    let separator = a == 0xE2 && b == 0x80 && (c == 0xA8 || c == 0xA9) in
    let after = escape s in
    let next = escape (b ∷ c ∷ s) in
    if separator
    then 92 ∷ str "u202" ++ (if c == 0xA8 then b'8' else b'9') ∷ after
    else escape_byte a ++ next
escape (a ∷ s) = escape_byte a ++ escape s
escape [] = []

unfoldable pub json_string : Str → Str
unfolding escape
json_string s = b'"' ∷ (escape s ++ b'"' ∷ [])

-- The parts with commas between them.
unfoldable pub join : List Str → Str
join [] = []
join (x ∷ []) = x
join (x ∷ y ∷ xs) = x ++ b',' ∷ join (y ∷ xs)

json_strings_of : List Str → List Str
unfolding json_string
json_strings_of [] = []
json_strings_of (s ∷ ss) = json_string s ∷ json_strings_of ss

unfoldable pub json_strings : List Str → Str
unfolding json_strings_of join
json_strings ss = b'[' ∷ (join (json_strings_of ss) ++ b']' ∷ [])

-- A `*string`.
unfoldable pub json_pointer : Option Str → Str
unfolding json_string
json_pointer none = str "null"
json_pointer (some s) = json_string s

json_fields : List (Str × Str) → List Str
unfolding json_string
json_fields [] = []
json_fields ((name, value) ∷ fields) = (json_string name ++ b':' ∷ value) ∷ json_fields fields

-- An object, from the names and the encoded values of its fields.
unfoldable pub json_object : List (Str × Str) → Str
unfolding json_fields join
json_object fields = b'{' ∷ (join (json_fields fields) ++ b'}' ∷ [])
