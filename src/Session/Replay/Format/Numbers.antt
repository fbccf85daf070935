-- ===== src/Session/Replay/Format/Numbers.antt =====
-- crates/tetris-session/src/engine/replay.rs: numbers are read as they are written.
use tui_tetris.Prelude.{
  ℕ, zero, suc, ◌+◌, ◌-◌, ◌*◌, ◌/◌, ◌%◌, ◌≤◌, ◌<◌, ◌≡◌, refl, ap, sym, ◌∙◌, true, false, ◌&&◌, some,
  List, [], ◌∷◌, ◌++◌, all, inl, inr, Bool-cases, arith, append_assoc, append-nil, u64_mod,
}
use tui_tetris.Prelude.{leb, ltb, ◌==◌, if_both, &&-left}
use mathlib.Core.Path.{subst}
use tui_tetris.Prelude.{
  is_digit, decimal_digits, to_decimal, i8_to_decimal, parse_digits, parse_number, parse_unsigned,
  parse_i8,
}
use tui_tetris.Session.Replay.Format.Parts.{AtLeast, AtLeast-append, AtLeast-mono}

-- 10 ^ n.
abbrev power : ℕ → ℕ
power zero = 1
power (suc n) = power n * 10

-- One digit more.
parse_digit :
    (greatest acc d : ℕ) (t : List ℕ)
    → d < 10
    → acc * 10 + d ≤ greatest
    → parse_digits greatest acc ((48 + d) ∷ t) ≡ parse_digits greatest (acc * 10 + d) t
unfolding parse_digits
parse_digit greatest acc d t lt le =
    let value : acc * 10 + (48 + d - 48) ≡ acc * 10 + d = omega arith in
    let ok : (is_digit (48 + d) && leb (acc * 10 + d) greatest) ≡ true = ground (arith, lt, le) in
    rw value (rw ok refl)

parse-decimal_digits :
    (greatest fuel n : ℕ) (t : List ℕ)
    → n < power (suc fuel)
    → n ≤ greatest
    → parse_digits greatest 0 (decimal_digits fuel n ++ t) ≡ parse_digits greatest n t
unfolding decimal_digits
parse-decimal_digits greatest zero n t lt le =
    let itself : n % 10 ≡ n = omega arith in
    rw itself (
      parse_digit greatest 0 n t lt (omega arith)
      ∙ ap (λ (m : ℕ). parse_digits greatest m t) (omega arith))
parse-decimal_digits greatest (suc fuel) n t lt le = elim (Bool-cases (ltb n 10)) [
  | inl small ↦ rw small (
      parse_digit greatest 0 n t (ground (arith, small)) (omega arith)
      ∙ ap (λ (m : ℕ). parse_digits greatest m t) (omega arith))
  | inr big ↦
      let tenth : n / 10 < power (suc fuel) = omega arith in
      let value : n / 10 * 10 + n % 10 ≡ n = omega arith in
      rw big (
        ap (parse_digits greatest 0)
          (append_assoc (decimal_digits fuel (n / 10)) ((48 + n % 10) ∷ []) t)
        ∙ (parse-decimal_digits greatest fuel (n / 10) ((48 + n % 10) ∷ t) tenth (omega arith)
            ∙ (parse_digit greatest (n / 10) (n % 10) t (omega arith) (omega arith)
                ∙ ap (λ (m : ℕ). parse_digits greatest m t) value)))
]

AtLeast-decimal_digits : (fuel n : ℕ) → AtLeast 48 (decimal_digits fuel n)
unfolding decimal_digits
AtLeast-decimal_digits zero n = ground arith
AtLeast-decimal_digits (suc fuel) n = elim (Bool-cases (ltb n 10)) [
  | inl small ↦ rw small (ground arith)
  | inr big ↦ rw big (
      AtLeast-append 48 (decimal_digits fuel (n / 10)) ((48 + n % 10) ∷ [])
        (AtLeast-decimal_digits fuel (n / 10)) (ground arith))
]

-- The first digit.
Opens : List ℕ → Type 0
Opens t = (c : ℕ) × ((s : List ℕ) × (t ≡ c ∷ s))

append-Opens : (s : List ℕ) (c : ℕ) → Opens (s ++ c ∷ [])
unfolding Opens
append-Opens [] c = (c, ([], refl))
append-Opens (d ∷ s) c = (d, (s ++ c ∷ [], refl))

decimal_digits-Opens : (fuel n : ℕ) → Opens (decimal_digits fuel n)
unfolding decimal_digits Opens
decimal_digits-Opens zero n = (48 + n % 10, ([], refl))
decimal_digits-Opens (suc fuel) n = elim (Bool-cases (ltb n 10)) [
  | inl small ↦ rw small (48 + n, ([], refl))
  | inr big ↦ rw big (append-Opens (decimal_digits fuel (n / 10)) (48 + n % 10))
]

pub AtLeast-to_decimal : (n : ℕ) → AtLeast 48 (to_decimal n)
unfolding to_decimal
AtLeast-to_decimal n = AtLeast-decimal_digits 19 n

pub to_decimal-Opens : (n : ℕ) → (c : ℕ) × ((s : List ℕ) × ((to_decimal n ≡ c ∷ s) × (48 ≤ c)))
unfolding to_decimal Opens
to_decimal-Opens n =
    let (c, (s, e)) = decimal_digits-Opens 19 n in
    let high : AtLeast 48 (c ∷ s) = subst (AtLeast 48) e (AtLeast-decimal_digits 19 n) in
    (c, (s, (e, ground (arith, &&-left (leb 48 c) (all (leb 48) s) high))))

parse_number-to_decimal :
    (greatest n : ℕ) → n < u64_mod → n ≤ greatest → parse_number greatest (to_decimal n) ≡ some n
unfolding parse_number to_decimal parse_digits
parse_number-to_decimal greatest n lt le =
    let (c, (s, (e, high))) = to_decimal-Opens n in
    let whole : parse_digits greatest 0 (to_decimal n) ≡ some n =
      ap (parse_digits greatest 0) (sym (append-nil (to_decimal n)))
      ∙ parse-decimal_digits greatest 19 n [] (omega arith) le in
    ap (parse_number greatest) e ∙ (ap (parse_digits greatest 0) (sym e) ∙ whole)

-- A u32 or u64 that is written is read back.
pub parse_unsigned-to_decimal :
    (greatest n : ℕ) → n < u64_mod → n ≤ greatest → parse_unsigned greatest (to_decimal n) ≡ some n
unfolding parse_unsigned
parse_unsigned-to_decimal greatest n lt le =
    let (c, (s, (e, high))) = to_decimal-Opens n in
    let no_sign : (c == 43) ≡ false = ground (arith, high) in
    ap (parse_unsigned greatest) e
    ∙ rw no_sign (ap (parse_number greatest) (sym e) ∙ parse_number-to_decimal greatest n lt le)

-- So is an i8.
pub parse_i8-to_decimal : (x : ℕ) → x < 256 → parse_i8 (i8_to_decimal x) ≡ some x
unfolding parse_i8 i8_to_decimal
parse_i8-to_decimal x lt = elim (Bool-cases (ltb x 128)) [
  | inl on ↦
      let (c, (s, (e, high))) = to_decimal-Opens x in
      let no_sign : (c == 45) ≡ false = ground (arith, high) in
      rw on (
        ap parse_i8 e
        ∙ rw no_sign (
            ap (parse_unsigned 127) (sym e)
            ∙ parse_unsigned-to_decimal 127 x (omega arith) (ground (arith, on))))
  | inr off ↦
      let read : parse_number 128 (to_decimal (256 - x)) ≡ some (256 - x) =
        parse_number-to_decimal 128 (256 - x) (omega arith) (ground (arith, off)) in
      rw off (rw read (ap some (ground (arith, off, lt))))
]

pub AtLeast-i8_to_decimal : (x : ℕ) → AtLeast 45 (i8_to_decimal x)
unfolding i8_to_decimal
AtLeast-i8_to_decimal x =
    if_both (AtLeast 45) (ltb x 128) (to_decimal x) (45 ∷ to_decimal (256 - x))
      (λ _. AtLeast-mono 45 48 (to_decimal x) (omega arith) (AtLeast-to_decimal x))
      (λ _. AtLeast-mono 45 48 (to_decimal (256 - x)) (omega arith) (AtLeast-to_decimal (256 - x)))
