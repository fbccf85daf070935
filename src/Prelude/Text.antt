-- ===== src/Prelude/Text.antt =====
-- Texts as lists of bytes: what the code uses of `str::split`, `split_once`, `join`, `to_string`
-- of an integer and `parse` to one.
use Prim.Native.Nat.{ℕ, zero, suc, ◌+◌, ◌-◌, ◌*◌, ◌/◌, ◌%◌}
use mathlib.Core.Bool.{Bool, ◌&&◌}
use mathlib.Core.Option.{Option, none, some}
use mathlib.Core.List.{List, [], ◌∷◌, ◌++◌}
use tui_tetris.Prelude.Tests.{leb, ltb, ◌==◌, if◌then◌else◌}
use tui_tetris.Prelude.Words.{neg}

-- A byte in front of the first part.
abbrev pub prepend : ℕ → List (List ℕ) → List (List ℕ)
prepend c [] = (c ∷ []) ∷ []
prepend c (part ∷ parts) = (c ∷ part) ∷ parts

-- `split` at a byte: the parts between its occurrences, at least one.
unfoldable pub split : ℕ → List ℕ → List (List ℕ)
split sep [] = [] ∷ []
split sep (c ∷ s) = let parts = split sep s in if c == sep then [] ∷ parts else prepend c parts

-- `split_once` at a byte.
unfoldable pub split_once : ℕ → List ℕ → Option (List ℕ × List ℕ)
split_once sep [] = none
split_once sep (c ∷ s) =
    let rest = split_once sep s in
    if c == sep then some ([], s) else elim rest [ none ↦ none | some r ↦ some (c ∷ r.0, r.1) ]

-- `join` with a byte.
unfoldable pub join : ℕ → List (List ℕ) → List ℕ
join sep [] = []
join sep (part ∷ []) = part
join sep (part ∷ next ∷ parts) = part ++ sep ∷ join sep (next ∷ parts)

abbrev pub is_digit : ℕ → Bool
is_digit c = leb 48 c && leb c 57

-- The digits of a number of at most `fuel` + 1 digits; 19 is enough for a u64.
unfoldable pub decimal_digits : ℕ → ℕ → List ℕ
decimal_digits zero n = (48 + n % 10) ∷ []
decimal_digits (suc fuel) n =
    let rest = decimal_digits fuel (n / 10) in
    if ltb n 10 then (48 + n) ∷ [] else rest ++ (48 + n % 10) ∷ []

-- `to_string` of a u64 or a u32, and of an i8.
unfoldable pub to_decimal : ℕ → List ℕ
to_decimal n = decimal_digits 19 n

unfoldable pub i8_to_decimal : ℕ → List ℕ
i8_to_decimal x = if ltb x 128 then to_decimal x else 45 ∷ to_decimal (256 - x)

-- The digits of a text, on a value read so far, up to a greatest value.
unfoldable pub parse_digits : ℕ → ℕ → List ℕ → Option ℕ
parse_digits greatest acc [] = some acc
parse_digits greatest acc (c ∷ s) =
    let rest = parse_digits greatest (acc * 10 + (c - 48)) s in
    if is_digit c && leb (acc * 10 + (c - 48)) greatest then rest else none

-- At least one digit.
unfoldable pub parse_number : ℕ → List ℕ → Option ℕ
parse_number greatest [] = none
parse_number greatest (c ∷ s) = parse_digits greatest 0 (c ∷ s)

-- `parse` to an unsigned integer: a plus sign may come first.
unfoldable pub parse_unsigned : ℕ → List ℕ → Option ℕ
parse_unsigned greatest [] = none
parse_unsigned greatest (c ∷ s) =
    if c == 43 then parse_number greatest s else parse_number greatest (c ∷ s)

-- `parse` to an i8, as its bit pattern.
unfoldable pub parse_i8 : List ℕ → Option ℕ
parse_i8 [] = none
parse_i8 (c ∷ s) =
    if c == 45
    then elim (parse_number 128 s) [ none ↦ none | some n ↦ some (neg n) ]
    else parse_unsigned 127 (c ∷ s)
