-- ===== src/Pieces/Kicks.antt =====
-- Laws of the kick tables and of the search for a kick.
use tui_tetris.Prelude.{ℕ, ◌≡◌, refl, Bool, true, not, some, none, List, [], ◌∷◌, map}
use tui_tetris.Prelude.{◌++◌, all, neg, add_i8, inl, inr, Bool-cases, Option-cases, ◌↔◌, arith, ap}
use tui_tetris.Types.{PieceKind, i_piece, Rotation}
use tui_tetris.Pieces

abbrev pub negate : Pieces.Offset → Pieces.Offset
negate (x, y) = (neg x, neg y)

-- The kicks of a turn are those of the turn back with both signs changed, in the same order, for
-- every kind, rotation and direction.
kicks_symmetric :
    (k : PieceKind) (r : Rotation) (clockwise : Bool)
    → Pieces.get_kicks k (Pieces.turned r clockwise) (not clockwise)
      ≡ map negate (Pieces.get_kicks k r clockwise)
unfolding Pieces.get_kicks
kicks_symmetric i_piece r c = ground arith
kicks_symmetric k r c = ground arith

module _ (is_valid : ℕ → ℕ → Bool) (shape : Pieces.PieceShape) (x y : ℕ) where
  -- The shape fits when it is kicked by `d`.
  abbrev pub fits_at : Pieces.Offset → Bool
  fits_at d = Pieces.fits is_valid shape (add_i8 x d.0) (add_i8 y d.1)

  abbrev pub blocked_at : Pieces.Offset → Bool
  blocked_at d = not (fits_at d)

  -- `d` is the first of the kicks that fits.
  pub record IsFirstFit (kicks : List Pieces.Offset) (d : Pieces.Offset) : Type 0 where
    pub before : List Pieces.Offset
    pub after : List Pieces.Offset
    pub split : kicks ≡ before ++ d ∷ after
    pub blocked : all blocked_at before ≡ true
    pub free : fits_at d ≡ true

  first_kick-some :
      (kicks : List Pieces.Offset) (d : Pieces.Offset)
      → Pieces.first_kick is_valid shape x y kicks ≡ some d
      → IsFirstFit kicks d
  unfolding Pieces.first_kick
  first_kick-some [] d h = absurd (cc)
  first_kick-some (k ∷ kicks) d h = elim (Bool-cases (fits_at k)) [
    | inl yes_k ↦
        let e : k ≡ d = ground (arith, yes_k) in
        record {
          before = [];
          after = kicks;
          split = ap (λ z. z ∷ kicks) e;
          blocked = refl;
          free = rw (← e) yes_k;
        }
    | inr no_k ↦
        let r = first_kick-some kicks d (rw no_k at h) in
        record {
          before = k ∷ r.before;
          after = r.after;
          split = ap (λ z. k ∷ z) r.split;
          blocked = rw no_k r.blocked;
          free = r.free;
        }
  ]

  first_kick-none :
      (kicks : List Pieces.Offset)
      → Pieces.first_kick is_valid shape x y kicks ≡ none
      → all blocked_at kicks ≡ true
  unfolding Pieces.first_kick
  first_kick-none [] h = refl
  first_kick-none (k ∷ kicks) h = elim (Bool-cases (fits_at k)) [
    | inl yes_k ↦ ground (arith, yes_k)
    | inr no_k ↦ rw no_k (first_kick-none kicks (rw no_k at h))
  ]

  first_kick-blocked :
      (kicks : List Pieces.Offset)
      → all blocked_at kicks ≡ true
      → Pieces.first_kick is_valid shape x y kicks ≡ none
  unfolding Pieces.first_kick
  first_kick-blocked [] h = refl
  first_kick-blocked (k ∷ kicks) h = elim (Bool-cases (fits_at k)) [
    | inl yes_k ↦ ground (arith, yes_k)
    | inr no_k ↦ rw no_k (first_kick-blocked kicks (rw no_k at h))
  ]

module _ (kind : PieceKind) (rotation : Rotation) (x y : ℕ) (clockwise : Bool)
    (is_valid : ℕ → ℕ → Bool) where
  abbrev target_shape : Pieces.PieceShape
  target_shape = Pieces.get_shape kind (Pieces.turned rotation clockwise)

  abbrev row : List Pieces.Offset
  row = Pieces.get_kicks kind rotation clockwise

  -- A rotation that succeeds gives the turned shape and rotation, and its kick is the first of the
  -- row at which the turned shape fits.
  pub try_rotate-some :
      (s : Pieces.PieceShape) (r : Rotation) (d : Pieces.Offset)
      → Pieces.try_rotate kind rotation x y clockwise is_valid ≡ some (s, r, d)
      → (s ≡ target_shape)
        × (r ≡ Pieces.turned rotation clockwise)
        × IsFirstFit is_valid target_shape x y row d
  unfolding Pieces.try_rotate
  try_rotate-some s r d h = elim (Option-cases (Pieces.first_kick is_valid target_shape x y row)) [
    | inl e ↦ ground (arith, e)
    | inr (k, e) ↦ (
      ground (arith, e),
      ground (arith, e),
      first_kick-some is_valid target_shape x y row d (ground (arith, e)),
    )
  ]

  -- A rotation fails exactly when every kick of the row is blocked.
  pub try_rotate-none :
      (Pieces.try_rotate kind rotation x y clockwise is_valid ≡ none)
      ↔ (all (blocked_at is_valid target_shape x y) row ≡ true)
  unfolding Pieces.try_rotate
  try_rotate-none = (
    λ h. elim (Option-cases (Pieces.first_kick is_valid target_shape x y row)) [
      | inl e ↦ first_kick-none is_valid target_shape x y row e
      | inr (k, e) ↦ ground (arith, e)
    ],
    λ h. rw (first_kick-blocked is_valid target_shape x y row h, Pieces.try_rotate),
  )
