-- ===== src/Prelude/Slices.antt =====
-- `take`, `drop` and `set` across a concatenation.
use Prim.Native.Nat.{ℕ, zero, suc, ◌-◌, ◌≤◌, ◌<◌}
use mathlib.Core.Path.{◌≡◌, refl, ap, ◌∙◌}
use mathlib.Core.List.{List, [], ◌∷◌, ◌++◌}
use native.Mathlib.Omega.{arith}
use tui_tetris.Prelude.Lists.{length, take, drop, set}

module _ {ℓ} {A : Type ℓ} where
  pub take-append :
      (m : ℕ) (xs ys : List A) → length xs ≤ m → take m (xs ++ ys) ≡ xs ++ take (m - length xs) ys
  take-append m [] ys h = ap (λ (k : ℕ). take k ys) (omega arith)
  take-append zero (x ∷ xs) ys h = absurd (omega arith)
  take-append (suc m) (x ∷ xs) ys h =
      ap (λ r. x ∷ r)
        (take-append m xs ys (omega arith) ∙ ap (λ (k : ℕ). xs ++ take k ys) (omega arith))

  pub take-append_le : (m : ℕ) (xs ys : List A) → m ≤ length xs → take m (xs ++ ys) ≡ take m xs
  take-append_le zero xs ys h = refl
  take-append_le (suc m) [] ys h = absurd (omega arith)
  take-append_le (suc m) (x ∷ xs) ys h = ap (λ r. x ∷ r) (take-append_le m xs ys (omega arith))

  pub take-append_nil : (m : ℕ) (xs : List A) → length xs ≤ m → take m (xs ++ []) ≡ xs
  take-append_nil zero [] h = refl
  take-append_nil (suc m) [] h = refl
  take-append_nil zero (x ∷ xs) h = absurd (omega arith)
  take-append_nil (suc m) (x ∷ xs) h = ap (λ r. x ∷ r) (take-append_nil m xs (omega arith))

  pub drop-append :
      (m : ℕ) (xs ys : List A) → length xs ≤ m → drop m (xs ++ ys) ≡ drop (m - length xs) ys
  drop-append m [] ys h = ap (λ (k : ℕ). drop k ys) (omega arith)
  drop-append zero (x ∷ xs) ys h = absurd (omega arith)
  drop-append (suc m) (x ∷ xs) ys h =
      drop-append m xs ys (omega arith) ∙ ap (λ (k : ℕ). drop k ys) (omega arith)

  pub drop-append_le :
      (m : ℕ) (xs ys : List A) → m ≤ length xs → drop m (xs ++ ys) ≡ drop m xs ++ ys
  drop-append_le zero xs ys h = refl
  drop-append_le (suc m) [] ys h = absurd (omega arith)
  drop-append_le (suc m) (x ∷ xs) ys h = drop-append_le m xs ys (omega arith)

  pub drop-drop_one : (m : ℕ) (xs : List A) → drop 1 (drop m xs) ≡ drop (suc m) xs
  drop-drop_one zero [] = refl
  drop-drop_one (suc m) [] = refl
  drop-drop_one zero (x ∷ xs) = refl
  drop-drop_one (suc m) (x ∷ xs) = drop-drop_one m xs

  pub take-append_self : (xs ys : List A) → take (length xs) (xs ++ ys) ≡ xs
  take-append_self [] ys = refl
  take-append_self (x ∷ xs) ys = ap (λ r. x ∷ r) (take-append_self xs ys)

  pub drop-append_self : (xs ys : List A) → drop (length xs) (xs ++ ys) ≡ ys
  drop-append_self [] ys = refl
  drop-append_self (x ∷ xs) ys = drop-append_self xs ys

  pub drop-set_lt : (n i : ℕ) (v : A) (xs : List A) → i < n → drop n (set xs i v) ≡ drop n xs
  drop-set_lt n i v [] h = refl
  drop-set_lt zero i v (x ∷ xs) h = elim h [ ]
  drop-set_lt (suc n) zero v (x ∷ xs) h = refl
  drop-set_lt (suc n) (suc i) v (x ∷ xs) h = drop-set_lt n i v xs (omega arith)

  pub drop-set_ge :
      (n i : ℕ) (v : A) (xs : List A) → n ≤ i → drop n (set xs i v) ≡ set (drop n xs) (i - n) v
  drop-set_ge zero i v xs h = ap (λ (k : ℕ). set xs k v) (omega arith)
  drop-set_ge (suc n) i v [] h = refl
  drop-set_ge (suc n) zero v (x ∷ xs) h = absurd (omega arith)
  drop-set_ge (suc n) (suc i) v (x ∷ xs) h =
      drop-set_ge n i v xs (omega arith) ∙ ap (λ (k : ℕ). set (drop n xs) k v) (omega arith)

  pub take-set_ge : (m i : ℕ) (v : A) (xs : List A) → m ≤ i → take m (set xs i v) ≡ take m xs
  take-set_ge zero i v xs h = refl
  take-set_ge (suc m) i v [] h = refl
  take-set_ge (suc m) zero v (x ∷ xs) h = absurd (omega arith)
  take-set_ge (suc m) (suc i) v (x ∷ xs) h = ap (λ r. x ∷ r) (take-set_ge m i v xs (omega arith))
