-- ===== src/Types/Parse.antt =====
-- `from_str` of kinds and actions: it accepts exactly the spellings of `as_str`, in any case.
use tui_tetris.Prelude.{ℕ, ◌≡◌, refl, ◌↔◌, Bool, true, Option, some, List, [], ◌∷◌, map}
use tui_tetris.Prelude.{sym, inl, inr, Bool-cases, arith}
use mathlib.Core.Path.{subst}
use tui_tetris.Types

pub bytes_eq→≡ : (xs ys : List ℕ) → Types.bytes_eq xs ys ≡ true → xs ≡ ys
bytes_eq→≡ [] [] h = refl
bytes_eq→≡ (x ∷ xs) (y ∷ ys) h = ground (arith, bytes_eq→≡ xs ys)
bytes_eq→≡ [] (y ∷ ys) h = cc
bytes_eq→≡ (x ∷ xs) [] h = cc

find-passes {ℓ} :
    {A : Type ℓ} (p : A → Bool) (xs : List A) (a : A) → Types.find p xs ≡ some a → p a ≡ true
find-passes p [] a h = cc
find-passes p (x ∷ xs) a h = elim (Bool-cases (p x)) [
  | inl e ↦ ground (arith, e)
  | inr e ↦ find-passes p xs a (rw e at h)
]

-- The search for a name over a lower-case text.
abbrev find_kind : List ℕ → Option Types.PieceKind
find_kind t =
    Types.find (λ k. Types.bytes_eq t (map Types.to_ascii_lowercase (Types.kind_as_str k)))
      Types.kinds

abbrev find_action : List ℕ → Option Types.GameAction
find_action t =
    Types.find (λ a. Types.bytes_eq t (map Types.to_ascii_lowercase (Types.action_as_str a)))
      Types.actions

find_kind_self :
    (k : Types.PieceKind) → find_kind (map Types.to_ascii_lowercase (Types.kind_as_str k)) ≡ some k
unfolding Types.kind_as_str
find_kind_self Types.i_piece = refl
find_kind_self Types.o_piece = refl
find_kind_self Types.t_piece = refl
find_kind_self Types.s_piece = refl
find_kind_self Types.z_piece = refl
find_kind_self Types.j_piece = refl
find_kind_self Types.l_piece = refl

find_action_self :
    (a : Types.GameAction)
    → find_action (map Types.to_ascii_lowercase (Types.action_as_str a)) ≡ some a
unfolding Types.action_as_str
find_action_self Types.move_left = refl
find_action_self Types.move_right = refl
find_action_self Types.soft_drop = refl
find_action_self Types.hard_drop = refl
find_action_self Types.rotate_cw = refl
find_action_self Types.rotate_ccw = refl
find_action_self Types.hold = refl
find_action_self Types.pause = refl
find_action_self Types.restart = refl

-- A text is read as a kind exactly when it is the name of that kind, but for ASCII case.
pub kind_from_str_iff :
    (s : List ℕ) (k : Types.PieceKind)
    → (Types.kind_from_str s ≡ some k) ↔ (Types.eq_ignore_ascii_case s (Types.kind_as_str k) ≡ true)
unfolding Types.kind_from_str
kind_from_str_iff s k = (
  find-passes (λ j. Types.eq_ignore_ascii_case s (Types.kind_as_str j)) Types.kinds k,
  λ h. subst (λ t. find_kind t ≡ some k) (sym (bytes_eq→≡ _ _ h)) (find_kind_self k),
)

-- A text is read as an action exactly when it is the protocol name of that action, but for ASCII
-- case.
action_from_str_iff :
    (s : List ℕ) (a : Types.GameAction)
    → (Types.action_from_str s ≡ some a)
      ↔ (Types.eq_ignore_ascii_case s (Types.action_as_str a) ≡ true)
unfolding Types.action_from_str
action_from_str_iff s a = (
  find-passes (λ b. Types.eq_ignore_ascii_case s (Types.action_as_str b)) Types.actions a,
  λ h. subst (λ t. find_action t ≡ some a) (sym (bytes_eq→≡ _ _ h)) (find_action_self a),
)
