-- ===== src/Prelude/Text/Number.antt =====
-- `strconv.ParseInt` and `strconv.FormatUint` of Go, in base 10 and for 64 bits, and the conversion
-- between `int64` and `uint64`.
use Prim.Native.Nat.{ℕ, zero, suc, ◌+◌, ◌-◌, ◌*◌, ◌/◌, ◌%◌, ◌^◌, ◌<◌}
use Prim.Native.Char.{Char, code}
use Prim.Native.String.{String, char_at}
use mathlib.Core.Path.{◌≡◌, refl, ap, ◌∙◌}
use mathlib.Core.Logic.{inl, inr}
use mathlib.Core.Bool.{Bool, true, false, ◌&&◌}
use mathlib.Core.Option.{Option, none, some}
use native.Mathlib.Omega.{arith, pow_step}
use mytonprovider_backend.Prelude.Tests.{◌==◌, leb, ltb, if◌then◌else◌, Bool-cases}
use mytonprovider_backend.Prelude.Int.{ℤ, pos, negsuc}

abbrev is_digit : ℕ → Bool
is_digit c = leb 0x30 c && leb c 0x39

-- The loop of `ParseUint`: `none` is a syntax error; past `uint64` it stops with the largest value.
parse_digits : ℕ → String → Option ℕ
parse_digits n String.[] = some n
parse_digits n (String.◌∷◌ c s) =
    let next = n * 10 + (code c - 0x30) in
    let rest = parse_digits next s in
    if is_digit (code c) then (if ltb (2 ^ 64 - 1) next then some (2 ^ 64 - 1) else rest) else none

parse_uint : String → Option ℕ
parse_uint String.[] = none
parse_uint (String.◌∷◌ c s) = parse_digits 0 (String.◌∷◌ c s)

-- The range of `int64`; a syntax error gives 0, and a range error the nearest number.
to_int64 : Bool → Option ℕ → ℤ
to_int64 negative none = pos 0
to_int64 false (some n) = if leb (2 ^ 63) n then pos (2 ^ 63 - 1) else pos n
to_int64 true (some zero) = pos 0
to_int64 true (some (suc n)) = if ltb (2 ^ 63) (suc n) then negsuc (2 ^ 63 - 1) else negsuc n

-- The number that `strconv.ParseInt(s, 10, 64)` gives, beside an error or not.
unfoldable pub parse_int : String → ℤ
unfolding parse_digits parse_uint to_int64
parse_int String.[] = pos 0
parse_int (String.◌∷◌ c s) =
    if code c == 0x2b
    then to_int64 false (parse_uint s)
    else if code c == 0x2d
    then to_int64 true (parse_uint s)
    else to_int64 false (parse_digits 0 (String.◌∷◌ c s))

-- `uint64(n)` of an `int64`
unfoldable pub to_uint64 : ℤ → ℕ
to_uint64 (pos n) = n
to_uint64 (negsuc n) = 2 ^ 64 - 1 - n

digit : ℕ → Char
digit d = char_at "0123456789" d

-- The digits of a number before a text; a `uint64` has at most 20.
format_digits : ℕ → ℕ → String → String
unfolding digit
format_digits zero n s = s
format_digits (suc fuel) n s =
    let rest = format_digits fuel (n / 10) (String.◌∷◌ (digit (n % 10)) s) in
    if ltb n 10 then String.◌∷◌ (digit (n % 10)) s else rest

-- `strconv.FormatUint(n, 10)`
unfoldable pub format_uint : ℕ → String
unfolding format_digits
format_uint n = format_digits 20 n ""

format_test : format_uint 9046230 ≡ "9046230"
unfolding format_uint
format_test = refl

parse_test : parse_int "-17" ≡ negsuc 16
unfolding parse_int
parse_test = refl

too_large : parse_int "9223372036854775808" ≡ pos (2 ^ 63 - 1)
unfolding parse_int
too_large = refl

digit-code : (d : ℕ) → d < 10 → code (digit d) ≡ 0x30 + d
unfolding digit
digit-code zero h = refl
digit-code (suc zero) h = refl
digit-code (suc (suc zero)) h = refl
digit-code (suc (suc (suc zero))) h = refl
digit-code (suc (suc (suc (suc zero)))) h = refl
digit-code (suc (suc (suc (suc (suc zero))))) h = refl
digit-code (suc (suc (suc (suc (suc (suc zero)))))) h = refl
digit-code (suc (suc (suc (suc (suc (suc (suc zero))))))) h = refl
digit-code (suc (suc (suc (suc (suc (suc (suc (suc zero)))))))) h = refl
digit-code (suc (suc (suc (suc (suc (suc (suc (suc (suc zero))))))))) h = refl
digit-code (suc (suc (suc (suc (suc (suc (suc (suc (suc (suc d)))))))))) h =
    absurd (omega (arith, h))

digit-is_digit : (d : ℕ) → d < 10 → is_digit (code (digit d)) ≡ true
digit-is_digit d h = rw (digit-code d h) (ground (arith, h))

parse_digits-digit :
    (n d : ℕ) (s : String)
    → d < 10
    → n * 10 + d < 2 ^ 64
    → parse_digits n (String.◌∷◌ (digit d) s) ≡ parse_digits (n * 10 + d) s
unfolding parse_digits
parse_digits-digit n d s small fits =
    let same : 0x30 + d - 0x30 ≡ d = omega arith in
    rw (digit-is_digit d small, digit-code d small, same) (ground (arith, fits))

parse-format_digits :
    (fuel n : ℕ) (s : String)
    → n < 10 ^ fuel
    → n < 2 ^ 64
    → parse_digits 0 (format_digits fuel n s) ≡ parse_digits n s
unfolding format_digits
parse-format_digits zero n s short fits =
    let nothing : n ≡ 0 = omega (arith, short) in rw nothing refl
parse-format_digits (suc fuel) n s short fits =
    let small : n % 10 < 10 = omega arith in
    let split : n / 10 * 10 + n % 10 ≡ n = omega arith in
    elim (Bool-cases (ltb n 10)) [
      | inl last ↦
          let one : 0 * 10 + n % 10 ≡ n = ground (arith, last) in
          rw last (
            parse_digits-digit 0 (n % 10) s small (omega (arith, one, fits))
            ∙ ap (λ m. parse_digits m s) one)
      | inr more ↦ rw more (
          parse-format_digits fuel (n / 10) _ (omega (arith, short, pow_step 10 fuel))
            (omega (arith, fits))
          ∙ parse_digits-digit (n / 10) (n % 10) s small (omega (arith, split, fits))
          ∙ ap (λ m. parse_digits m s) split)
    ]

-- A text that begins with a digit.
abbrev Begins : String → Type 0
Begins String.[] = ⊥
Begins (String.◌∷◌ c s) = is_digit (code c) ≡ true

format_digits-Begins : (fuel n : ℕ) (s : String) → Begins s → Begins (format_digits fuel n s)
unfolding format_digits
format_digits-Begins zero n s b = b
format_digits-Begins (suc fuel) n s b = elim (Bool-cases (ltb n 10)) [
  | inl last ↦ rw last (digit-is_digit (n % 10) (omega arith))
  | inr more ↦
      rw more (format_digits-Begins fuel (n / 10) _ (digit-is_digit (n % 10) (omega arith)))
]

first_digits : (fuel n : ℕ) → Begins (format_digits (suc fuel) n "")
unfolding format_digits
first_digits fuel n = elim (Bool-cases (ltb n 10)) [
  | inl last ↦ rw last (digit-is_digit (n % 10) (omega arith))
  | inr more ↦
      rw more (format_digits-Begins fuel (n / 10) _ (digit-is_digit (n % 10) (omega arith)))
]

parse_int-Begins : (s : String) → Begins s → parse_int s ≡ to_int64 false (parse_digits 0 s)
unfolding parse_int
parse_int-Begins String.[] b = absurd b
parse_int-Begins (String.◌∷◌ c s) b = ground (arith, b)

in_range : (n : ℕ) → n < 2 ^ 63 → to_uint64 (to_int64 false (parse_digits n "")) ≡ n
unfolding parse_digits to_int64 to_uint64
in_range n small = ground (arith, small)

-- A number that `int64` has is read back as it was written.
pub parse-format : (n : ℕ) → n < 2 ^ 63 → to_uint64 (parse_int (format_uint n)) ≡ n
unfolding to_uint64 format_uint
parse-format n small =
    rw
      (
        parse_int-Begins (format_digits 20 n "") (first_digits 19 n),
        parse-format_digits 20 n "" (omega (arith, small)) (omega (arith, small)),
      )
      (in_range n small)
