-- ===== src/Term/Frame/Digits.antt =====
-- The decimal digits that `put_u32` writes.
use tui_tetris.Prelude.{
  ℕ, zero, suc, ◌+◌, ◌-◌, ◌*◌, ◌/◌, ◌%◌, ◌≤◌, ◌<◌, ◌≡◌, refl, ◌∙◌, ap, inl, inr, true, false,
}
use tui_tetris.Prelude.{is_digit, List, [], ◌∷◌, length, all, ◌==◌, arith, Bool-cases}
use tui_tetris.Term.Frame.{digits, put_digits}

-- The number that decimal digits stand for, after those read before.
unfoldable pub decimal : ℕ → List ℕ → ℕ
decimal n [] = n
decimal n (c ∷ s) = decimal (n * 10 + (c - 48)) s

-- 10 ^ n.
abbrev power : ℕ → ℕ
power zero = 1
power (suc n) = power n * 10

decimal-put_digits :
    (i v : ℕ) (acc : List ℕ) → v < power i → decimal 0 (put_digits i v acc) ≡ decimal v acc
unfolding put_digits decimal
decimal-put_digits zero v acc h = ap (λ (n : ℕ). decimal n acc) (omega arith)
decimal-put_digits (suc i) v acc h = elim (Bool-cases (v == 0)) [
  | inl e ↦ rw e (ap (λ (n : ℕ). decimal n acc) (ground (arith, e)))
  | inr e ↦ rw e (
      decimal-put_digits i (v / 10) ((48 + v % 10) ∷ acc) (omega arith)
      ∙ ap (λ (n : ℕ). decimal n acc) (omega arith))
]

all-put_digits :
    (i v : ℕ) (acc : List ℕ) → all is_digit acc ≡ true → all is_digit (put_digits i v acc) ≡ true
unfolding put_digits
all-put_digits zero v acc h = h
all-put_digits (suc i) v acc h = elim (Bool-cases (v == 0)) [
  | inl e ↦ rw e h
  | inr e ↦ rw e (all-put_digits i (v / 10) ((48 + v % 10) ∷ acc) (ground arith))
]

length-put_digits :
    (i v : ℕ) (acc : List ℕ)
    → (length acc ≤ length (put_digits i v acc)) × (length (put_digits i v acc) ≤ i + length acc)
unfolding put_digits
length-put_digits zero v acc = omega arith
length-put_digits (suc i) v acc = elim (Bool-cases (v == 0)) [
  | inl e ↦ rw e (omega arith)
  | inr e ↦ rw e (omega (arith, length-put_digits i (v / 10) ((48 + v % 10) ∷ acc)))
]

opened : (v : ℕ) → (v == 0) ≡ false → 1 ≤ length (put_digits 10 v [])
unfolding put_digits
opened v e = rw e (omega (arith, length-put_digits 9 (v / 10) ((48 + v % 10) ∷ [])))

-- `s` is a text of one to ten decimal digits that stands for `v`.
pub record Decimal (v : ℕ) (s : List ℕ) : Type 0 where
  pub value : decimal 0 s ≡ v
  pub only_digits : all is_digit s ≡ true
  pub some_digit : 1 ≤ length s
  pub at_most_ten : length s ≤ 10

-- For every u32 the digits fit in the ten places of the buffer, and read as a decimal number they
-- are that number.
pub digits-Decimal : (v : ℕ) → v < 4294967296 → Decimal v (digits v)
unfolding digits decimal
digits-Decimal v h = elim (Bool-cases (v == 0)) [
  | inl e ↦
      rw (e, digits)
        (record {
          value = ground (arith, e);
          only_digits = refl;
          some_digit = omega arith;
          at_most_ten = omega arith;
        })
  | inr e ↦
      rw (e, digits)
        (record {
          value = decimal-put_digits 10 v [] (omega arith);
          only_digits = all-put_digits 10 v [] refl;
          some_digit = opened v e;
          at_most_ten = (length-put_digits 10 v []).1;
        })
]
