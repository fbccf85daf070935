-- ===== src/Adapter/Version.antt =====
-- crates/tetris-adapter/src/adapter/server.rs: `is_compatible_protocol_version`, on the bytes of a
-- version.
use tui_tetris.Prelude.{
  ℕ, Bool, true, false, not, ◌&&◌, ◌||◌, Option, none, some, List, [], ◌∷◌, length, all,
}
use tui_tetris.Prelude.{
  ltb, leb, ◌==◌, if◌then◌else◌, split, split_once, is_digit, parse_unsigned, u64_mod, ◌-◌,
}

abbrev pub is_alphanumeric : ℕ → Bool
is_alphanumeric c = is_digit c || (leb 65 c && leb c 90) || (leb 97 c && leb c 122)

abbrev pub starts_with_zero : List ℕ → Bool
starts_with_zero [] = false
starts_with_zero (c ∷ s) = c == 48

abbrev pub is_empty : List ℕ → Bool
is_empty [] = true
is_empty (c ∷ s) = false

abbrev pub valid_identifier : Bool → List ℕ → Bool
valid_identifier reject identifier =
    not (is_empty identifier)
    && all (λ c. is_alphanumeric c || c == 45) identifier
    && (not reject
        || not (all is_digit identifier)
        || length identifier == 1
        || not (starts_with_zero identifier))

unfoldable pub valid_identifiers : List ℕ → Bool → Bool
valid_identifiers value reject =
    not (is_empty value) && all (valid_identifier reject) (split 46 value)

-- `parse_numeric` on one component.
unfoldable pub parse_numeric : List ℕ → Option ℕ
parse_numeric value =
    if is_empty value
      || not (all is_digit value)
      || (ltb 1 (length value) && starts_with_zero value)
    then none
    else parse_unsigned (u64_mod - 1) value

abbrev pub is_some : Option ℕ → Bool
is_some none = false
is_some (some n) = true

abbrev pub is_three : Option ℕ → Bool
is_three none = false
is_three (some n) = n == 3

-- Exactly three components, the first of them 3.
unfoldable pub valid_core : List (List ℕ) → Bool
valid_core (major ∷ minor ∷ patch ∷ []) =
    is_three (parse_numeric major) && is_some (parse_numeric minor) && is_some (parse_numeric patch)
valid_core _ = false

unfoldable pub valid_base : List ℕ → Bool
valid_base base = elim (split_once 45 base) [
  | none ↦ valid_core (split 46 base)
  | some parts ↦ valid_identifiers parts.1 true && valid_core (split 46 parts.0)
]

-- The parts of the version at the plus signs.
unfoldable pub valid_parts : List (List ℕ) → Bool
valid_parts [] = false
valid_parts (base ∷ []) = valid_base base
valid_parts (base ∷ build ∷ []) = valid_identifiers build false && valid_base base
valid_parts (base ∷ build ∷ _ ∷ _) = false

unfoldable pub is_compatible_protocol_version : List ℕ → Bool
is_compatible_protocol_version version = valid_parts (split 43 version)
