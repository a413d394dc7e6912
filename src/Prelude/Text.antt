-- ===== src/Prelude/Text.antt =====
-- `strings.TrimSpace`, `strings.Fields` and `unicode.IsSpace` of Go, and `DecodeString` of
-- encoding/hex, on texts as lists of code points.
pub mod Trim
pub mod Number
use Prim.Native.Nat.{ℕ, zero, suc, ◌+◌, ◌-◌, ◌*◌}
use Prim.Native.Char.{Char, code}
use Prim.Native.String.{String, count, char_at}
use mathlib.Core.Path.{◌≡◌, refl}
use mathlib.Core.Option.{Option, none, some}
use mathlib.Core.List.{List, [], ◌∷◌}
use mathlib.Core.Bool.{Bool, ◌&&◌, ◌||◌}
use text.Mathlib.Text.{◌==◌ as str_eq}
use mytonprovider_backend.Prelude.Tests.{◌==◌, leb, if◌then◌else◌}

unfoldable pub is_space : ℕ → Bool
is_space c =
    (leb 0x9 c && leb c 0xd)
    || c == 0x20
    || c == 0x85
    || c == 0xa0
    || c == 0x1680
    || (leb 0x2000 c && leb c 0x200a)
    || c == 0x2028
    || c == 0x2029
    || c == 0x202f
    || c == 0x205f
    || c == 0x3000

trim_left : String → String
trim_left String.[] = String.[]
trim_left (String.◌∷◌ c s) =
    let rest = trim_left s in if is_space (code c) then rest else String.◌∷◌ c s

-- A character before a trimmed rest.
keep : Char → String → String
keep c String.[] = if is_space (code c) then String.[] else String.◌∷◌ c String.[]
keep c (String.◌∷◌ d t) = String.◌∷◌ c (String.◌∷◌ d t)

trim_right : String → String
unfolding keep
trim_right String.[] = String.[]
trim_right (String.◌∷◌ c s) = keep c (trim_right s)

unfoldable pub trim_space : String → String
unfolding trim_left trim_right is_space
trim_space s = trim_right (trim_left s)

-- `a + b` on texts.
unfoldable pub append_text : String → String → String
append_text String.[] t = t
append_text (String.◌∷◌ c s) t = String.◌∷◌ c (append_text s t)

-- `strings.TrimSpace(s) == ""`
unfoldable pub is_blank : String → Bool
unfolding trim_space
is_blank s = str_eq (trim_space s) ""

-- The first word of a text, cut at the first blank, and what follows it.
first_word : String → String × String
first_word String.[] = (String.[], String.[])
first_word (String.◌∷◌ c s) =
    let (w, rest) = first_word s in
    if is_space (code c) then (String.[], s) else (String.◌∷◌ c w, rest)

-- `strings.Fields`: the words between blanks. A text has no more words than characters.
words : ℕ → String → List String
words zero s = []
words (suc fuel) s =
    let (w, rest) = first_word s in
    let others = words fuel rest in
    if str_eq s "" then [] else if str_eq w "" then others else w ∷ others

unfoldable pub fields : String → List String
unfolding words first_word is_space
fields s = words (count s) s

-- `strings.HasPrefix` and `strings.TrimPrefix` in one: what follows the prefix, if it is there.
unfoldable pub strip_prefix : String → String → Option String
strip_prefix String.[] s = some s
strip_prefix (String.◌∷◌ c p) String.[] = none
strip_prefix (String.◌∷◌ c p) (String.◌∷◌ d s) = if code c == code d then strip_prefix p s else none

fields_test : fields " stage=ping  a\tb " ≡ "stage=ping" ∷ "a" ∷ "b" ∷ []
unfolding fields
fields_test = refl

strip_prefix_test : strip_prefix "stage=" "stage=ping" ≡ some "ping"
unfolding strip_prefix
strip_prefix_test = refl

trim_space_test : trim_space " \tab c\n " ≡ "ab c"
unfolding trim_space
trim_space_test = refl

-- `encoding/hex`.`DecodeString`: two digits make a byte, and anything else is an error.
hex_digit : ℕ → Option ℕ
hex_digit c =
    if leb 0x30 c && leb c 0x39
    then some (c - 0x30)
    else if leb 0x61 c && leb c 0x66
    then some (c - 0x57)
    else if leb 0x41 c && leb c 0x46
    then some (c - 0x37)
    else none

add_byte : Option ℕ → Option ℕ → Option (List ℕ) → Option (List ℕ)
add_byte (some high) (some low) (some bytes) = some ((high * 16 + low) ∷ bytes)
add_byte _ _ _ = none

unfoldable pub hex_decode : String → Option (List ℕ)
unfolding hex_digit add_byte
hex_decode String.[] = some []
hex_decode (String.◌∷◌ c String.[]) = none
hex_decode (String.◌∷◌ c (String.◌∷◌ d s)) =
    add_byte (hex_digit (code c)) (hex_digit (code d)) (hex_decode s)

hex_decode_test : hex_decode "0aFf" ≡ some (10 ∷ 255 ∷ [])
unfolding hex_decode
hex_decode_test = refl

-- `strings.ToLower` for the letters of ASCII.
lower_char : Char → Char
lower_char c =
    if leb 0x41 (code c) && leb (code c) 0x5a
    then char_at "abcdefghijklmnopqrstuvwxyz" (code c - 0x41)
    else c

unfoldable pub to_lower : String → String
unfolding lower_char
to_lower String.[] = String.[]
to_lower (String.◌∷◌ c s) = String.◌∷◌ (lower_char c) (to_lower s)

-- `strings.Index`: what follows the first place where the word stands, if it stands there.
unfoldable pub after_first : String → String → Option String
unfolding strip_prefix
after_first word String.[] = strip_prefix word String.[]
after_first word (String.◌∷◌ c s) =
    let later = after_first word s in
    elim (strip_prefix word (String.◌∷◌ c s)) [ none ↦ later | some rest ↦ some rest ]

to_lower_test : to_lower "aB-Zé9" ≡ "ab-zé9"
unfolding to_lower
to_lower_test = refl

after_first_test : after_first "tsp-" "x tsp-ab tsp-c" ≡ some "ab tsp-c"
unfolding after_first
after_first_test = refl
