-- ===== src/Json/Laws.antt =====
-- Bounds on the length of what `encoding/json` writes.
use clanker_foundry.Prelude.{
  ℕ, ◌+◌, ◌*◌, ◌≤◌, List, [], ◌∷◌, ◌++◌, length, length-append, arith, Option, none, some,
  if◌then◌else◌, ◌==◌, ◌&&◌, ◌||◌, Bool, true, false,
}
use clanker_foundry.Text.{Str, str}
use clanker_foundry.Json.{
  escape_byte, escape, json_string, join, json_fields, json_object, json_pointer,
}

-- The text that a pointer points to, empty for nil.
abbrev pub items_of : Option Str → Str
items_of none = []
items_of (some s) = s

length-escape_byte : (c : ℕ) → length (escape_byte c) ≤ 6
unfolding escape_byte
length-escape_byte c = ground arith

if_most :
    (t : Bool) (xs ys : Str) (n : ℕ)
    → length xs ≤ n
    → length ys ≤ n
    → length (if t then xs else ys) ≤ n
if_most true xs ys n h k = h
if_most false xs ys n h k = k

length-escape : (s : Str) → length (escape s) ≤ 6 * length s
unfolding escape
length-escape [] = omega arith
length-escape (a ∷ []) = omega (arith, length-append (escape_byte a) [], length-escape_byte a)
length-escape (a ∷ b ∷ []) = omega (
  arith,
  length-append (escape_byte a) (escape (b ∷ [])),
  length-escape_byte a,
  length-escape (b ∷ []),
)
length-escape (a ∷ b ∷ c ∷ s) =
    let one = length-escape s in
    let more = length-escape (b ∷ c ∷ s) in
    let first = length-escape_byte a in
    let both = length-append (escape_byte a) (escape (b ∷ c ∷ s)) in
    if_most (a == 0xE2 && b == 0x80 && (c == 0xA8 || c == 0xA9))
      (92 ∷ str "u202" ++ (if c == 0xA8 then b'8' else b'9') ∷ escape s)
      (escape_byte a ++ escape (b ∷ c ∷ s)) (6 * length (a ∷ b ∷ c ∷ s)) (omega arith) (omega arith)

pub length-json_string : (s : Str) → length (json_string s) ≤ 6 * length s + 2
unfolding json_string
length-json_string s = omega (arith, length-escape s, length-append (escape s) (b'"' ∷ []))

pub length-json_pointer :
    (o : Option Str) (n : ℕ) → length (items_of o) ≤ n → length (json_pointer o) ≤ 6 * n + 4
unfolding json_pointer
length-json_pointer none n h = omega arith
length-json_pointer (some s) n h = omega (arith, length-json_string s, h)

-- The lengths of the parts, and a byte for each.
abbrev pub lengths : List Str → ℕ
lengths [] = 0
lengths (x ∷ xs) = length x + 1 + lengths xs

pub length-join : (xs : List Str) → length (join xs) ≤ lengths xs
unfolding join
length-join [] = omega arith
length-join (x ∷ []) = omega arith
length-join (x ∷ y ∷ xs) =
    omega (arith, length-append x (b',' ∷ join (y ∷ xs)), length-join (y ∷ xs))

-- A bound on the fields of an object, from the lengths of their names and values.
abbrev pub fields_bound : List (Str × Str) → ℕ
fields_bound [] = 0
fields_bound ((name, value) ∷ fields) = 6 * length name + length value + 4 + fields_bound fields

length-json_fields :
    (fields : List (Str × Str)) → lengths (json_fields fields) ≤ fields_bound fields
unfolding json_fields
length-json_fields [] = omega arith
length-json_fields ((name, value) ∷ fields) = omega (
  arith,
  length-json_string name,
  length-append (json_string name) (b':' ∷ value),
  length-json_fields fields,
)

pub length-json_object :
    (fields : List (Str × Str)) → length (json_object fields) ≤ fields_bound fields + 2
unfolding json_object
length-json_object fields = omega (
  arith,
  length-append (join (json_fields fields)) (b'}' ∷ []),
  length-join (json_fields fields),
  length-json_fields fields,
)
