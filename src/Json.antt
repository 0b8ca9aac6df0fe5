-- ===== src/Json.antt =====
-- encoding/json and PostgreSQL's jsonb, as far as the program uses them: JSON values, the text that
-- `json.Marshal` writes for a string, and the fields that `json.Unmarshal` reads.
use Prim.Native.Nat.{◌/◌, ◌%◌}
use Prim.Native.Char.{Char, code}
use Prim.Native.String.{String}
use skawld_maintenance.Prelude.{
  ℕ, ◌≡◌, refl, ◌<>◌, ◌||◌, Option, none, some, ltb, nat_eq, ◌==◌, if◌then◌else◌,
}

mutual
  pub data Json : Type 0 where
    null : Json
    str : String → Json
    num : ℕ → Json
    obj : Fields → Json

  pub data Fields : Type 0 where
    end : Fields
    field : String → Json → Fields → Fields

-- One hexadecimal digit, in lower case.
hex_digit : ℕ → String
hex_digit n =
    if nat_eq n 0
    then "0"
    else if nat_eq n 1
    then "1"
    else if nat_eq n 2
    then "2"
    else if nat_eq n 3
    then "3"
    else if nat_eq n 4
    then "4"
    else if nat_eq n 5
    then "5"
    else if nat_eq n 6
    then "6"
    else if nat_eq n 7
    then "7"
    else if nat_eq n 8
    then "8"
    else if nat_eq n 9
    then "9"
    else if nat_eq n 10
    then "a"
    else if nat_eq n 11
    then "b"
    else if nat_eq n 12
    then "c"
    else if nat_eq n 13
    then "d"
    else if nat_eq n 14
    then "e"
    else "f"

-- The escape `\u00xy` or `\u202x`.
unicode_escape : String → ℕ → String
unfolding hex_digit
unicode_escape page c = "\\u" <> page <> hex_digit (c / 16 % 16) <> hex_digit (c % 16)

-- json.Marshal escapes quotes, backslashes, control characters, the three characters of HTML and
-- the two line separators of JavaScript.
escape_char : Char → String
unfolding unicode_escape
escape_char c =
    let n = code c in
    if nat_eq n b'"'
    then "\\\""
    else if nat_eq n b'\\'
    then "\\\\"
    else if nat_eq n 8
    then "\\b"
    else if nat_eq n 12
    then "\\f"
    else if nat_eq n 10
    then "\\n"
    else if nat_eq n 13
    then "\\r"
    else if nat_eq n 9
    then "\\t"
    else if ltb n 32 || nat_eq n b'<' || nat_eq n b'>' || nat_eq n b'&'
    then unicode_escape "00" n
    else if nat_eq n 0x2028 || nat_eq n 0x2029
    then unicode_escape "20" n
    else String.◌∷◌ c String.[]

escape : String → String
escape String.[] = ""
escape (String.◌∷◌ c s) = escape_char c <> escape s

-- A string between quotes.
unfoldable pub quote : String → String
unfolding escape escape_char
quote s = "\"" <> escape s <> "\""

-- The value of a key; the last one counts.
unfoldable pub lookup : String → Fields → Option Json
lookup key end = none
lookup key (field k v rest) = elim (lookup key rest) [
  | none ↦ if k == key then some v else none
  | some w ↦ some w
]

-- Reading a Go `string`: a missing key and null leave it empty, and another type is an error.
abbrev pub as_string : Option Json → Option String
as_string none = some ""
as_string (some null) = some ""
as_string (some (str s)) = some s
as_string (some (num n)) = none
as_string (some (obj fs)) = none

abbrev pub as_number : Option Json → Option ℕ
as_number none = some 0
as_number (some null) = some 0
as_number (some (num n)) = some n
as_number (some (str s)) = none
as_number (some (obj fs)) = none

quotes : quote "a<\"\n" ≡ "\"a\\u003c\\\"\\n\""
unfolding quote
quotes = refl
