-- ===== src/Message/Validate/Payload.antt =====
-- The scans of a payload's bytes in message/validate.go: whether jsonb can store its number literals and
-- its \u escapes. An index that jumps is a count of bytes to skip.
use irl_notifs.Base.{
  ℕ, zero, suc, ◌+◌, ◌-◌, ◌*◌, ltb, leb, ◌==◌, ℤ, pos, ◌+ℤ◌, ◌-ℤ◌, leb_ℤ, ltb_ℤ, Text, Bool, true,
  false, ◌&&◌, ◌||◌, not, Option, none, some, [], ◌∷◌, map, all, length, if◌then◌else◌,
}
use irl_notifs.Base.Sorting.{drop}

abbrev is_digit : ℕ → Bool
is_digit c = leb 48 c && leb c 57

-- How many bytes there are to the closing quote, it included, or to the end of the document.
string_end : Text → ℕ
string_end [] = 0
string_end (c ∷ []) = 1
string_end (c ∷ d ∷ cs) =
    let after_escape = string_end cs in
    let after_byte = string_end (d ∷ cs) in
    if c == 92 then suc (suc after_escape) else if c == 34 then 1 else suc after_byte

is_number_literal_byte : ℕ → Bool
is_number_literal_byte c = is_digit c || c == 45 || c == 43 || c == 46 || c == 101 || c == 69

-- The bytes from here on that can stand in a number.
literal_of : Text → Text
unfolding is_number_literal_byte
literal_of [] = []
literal_of (c ∷ cs) = let rest = literal_of cs in if is_number_literal_byte c then c ∷ rest else []

to_lower_byte : ℕ → ℕ
to_lower_byte c = if leb 65 c && leb c 90 then c + 32 else c

-- strings.Cut at a byte, and whether it was found.
abbrev cut_at : ℕ → Text → Text × Text × Bool
cut_at c [] = ([], [], false)
cut_at c (d ∷ ds) =
    let rest = cut_at c ds in if d == c then ([], ds, true) else (d ∷ rest.0, rest.1, rest.2)

-- strings.TrimLeft of the bytes that pass a test.
abbrev trim_left : (ℕ → Bool) → Text → Text
trim_left test [] = []
trim_left test (c ∷ cs) = let rest = trim_left test cs in if test c then rest else c ∷ cs

abbrev decimal : ℕ → Text → ℕ
decimal n [] = n
decimal n (c ∷ cs) = decimal (n * 10 + (c - 48)) cs

starts_with : ℕ → Text → Bool
starts_with c [] = false
starts_with c (d ∷ ds) = d == c

-- The exponent of a literal; `none` where it has too many digits or does not parse.
unfoldable pub exponent_of : Text → Option ℤ
unfolding starts_with
exponent_of text =
    let digits = trim_left (λ c. c == 48) (trim_left (λ c. c == 43 || c == 45) text) in
    if ltb 7 (length digits)
    then none
    else if not (all is_digit digits)
    then none
    else some
        (if starts_with 45 text then pos 0 -ℤ pos (decimal 0 digits) else pos (decimal 0 digits))

drop_minus : Text → Text
drop_minus [] = []
drop_minus (c ∷ cs) = if c == 45 then cs else c ∷ cs

-- The digits before the point and after it, once the exponent is applied.
unfoldable pub fits_numeric : Text → ℤ → Bool
unfolding drop_minus
fits_numeric mantissa exponent =
    let parts = cut_at 46 (drop_minus mantissa) in
    let integer_digits = pos (length (trim_left (λ c. c == 48) parts.0)) in
    leb_ℤ (if ltb_ℤ (pos 0) exponent then integer_digits +ℤ exponent else integer_digits)
      (pos 131072)
    && leb_ℤ (pos (length parts.1) -ℤ exponent) (pos 16383)

unfoldable pub number_literal_storable : Text → Bool
unfolding exponent_of fits_numeric to_lower_byte
number_literal_storable literal =
    let parts = cut_at 101 (map to_lower_byte literal) in
    if parts.2
    then elim (exponent_of parts.1) [ none ↦ false | some e ↦ fits_numeric parts.0 e ]
    else fits_numeric parts.0 (pos 0)

-- How many bytes after this one the loop jumps over; `none` is its `return false`.
number_step : ℕ → Text → Option ℕ
unfolding string_end literal_of number_literal_storable
number_step c cs =
    if c == 34
    then some (string_end cs)
    else if c == 45 || is_digit c
    then if number_literal_storable (literal_of (c ∷ cs))
      then some (length (literal_of (c ∷ cs)) - 1)
      else none
    else some 0

numbers_from : ℕ → Text → Bool
unfolding number_step
numbers_from skip [] = true
numbers_from zero (c ∷ cs) = elim (number_step c cs) [
  | none ↦ false
  | some skip ↦ numbers_from skip cs
]
numbers_from (suc skip) (c ∷ cs) = numbers_from skip cs

unfoldable pub number_literals_storable : Text → Bool
unfolding numbers_from
number_literals_storable document = numbers_from 0 document

hex_digit : ℕ → Option ℕ
hex_digit c =
    if is_digit c
    then some (c - 48)
    else if leb 97 c && leb c 102
    then some (c - 87)
    else if leb 65 c && leb c 70
    then some (c - 55)
    else none

-- The number that four hexadecimal digits stand for.
hex_unit : ℕ → ℕ → ℕ → ℕ → Option ℕ
unfolding hex_digit
hex_unit a b c d = elim (hex_digit a) [
  | none ↦ none
  | some i ↦ elim (hex_digit b) [
    | none ↦ none
    | some j ↦ elim (hex_digit c) [
      | none ↦ none
      | some k ↦ elim (hex_digit d) [
        | none ↦ none
        | some l ↦ some (((i * 16 + j) * 16 + k) * 16 + l)
      ]
    ]
  ]
]

unfoldable pub parse_unicode_escape : Text → Option ℕ
unfolding hex_unit
parse_unicode_escape (backslash ∷ u ∷ a ∷ b ∷ c ∷ d ∷ cs) =
    if backslash == 92 && u == 117 then hex_unit a b c d else none
parse_unicode_escape _ = none

is_low_surrogate : ℕ → Bool
is_low_surrogate unit = leb 56320 unit && leb unit 57343

-- An escape that is not the first byte of a pair `\\` of another one.
unit_step : ℕ → Text → Option ℕ
unfolding is_low_surrogate
unit_step unit rest =
    if unit == 0
    then none
    else if leb 55296 unit && leb unit 56319
    then elim (parse_unicode_escape rest) [
      | none ↦ none
      | some low ↦ if is_low_surrogate low then some 11 else none
    ]
    else if is_low_surrogate unit
    then none
    else some 5

another_escape : Text → Bool
another_escape [] = false
another_escape (c ∷ cs) = not (c == 117)

escape_step : ℕ → Text → Option ℕ
unfolding unit_step another_escape
escape_step c cs =
    if not (c == 92)
    then some 0
    else if another_escape cs
    then some 1
    else elim (parse_unicode_escape (c ∷ cs)) [
      | none ↦ none
      | some unit ↦ unit_step unit (drop 5 cs)
    ]

escapes_from : ℕ → Text → Bool
unfolding escape_step
escapes_from skip [] = true
escapes_from zero (c ∷ cs) = elim (escape_step c cs) [
  | none ↦ false
  | some skip ↦ escapes_from skip cs
]
escapes_from (suc skip) (c ∷ cs) = escapes_from skip cs

unfoldable pub unicode_escapes_storable : Text → Bool
unfolding escapes_from
unicode_escapes_storable document = escapes_from 0 document
