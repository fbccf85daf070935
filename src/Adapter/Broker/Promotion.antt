-- ===== src/Adapter/Broker/Promotion.antt =====
-- crates/tetris-adapter/src/adapter/server.rs: who controls the game after `remove_and_promote`.
use tui_tetris.Prelude.{
  ℕ, ◌≤◌, ◌≡◌, refl, Bool, true, false, Option, none, some, List, [], ◌∷◌, arith, inl, inr, ◌⊎◌,
  Bool-cases,
}
use tui_tetris.Prelude.{◌==◌, if◌then◌else◌, leb, if_both}
use mathlib.Core.Path.{subst}
use tui_tetris.Adapter.Broker.{
  ClientHandle, BrokerState, is_eligible, least_eligible, remove_and_promote, is_controller,
  find_client,
}

-- A client of the list that may be promoted, by its id.
pub data Eligible (live : ℕ → Bool) : List ClientHandle → ℕ → Type 0 where
  here :
      {c : ClientHandle} {clients : List ClientHandle}
      → is_eligible live c ≡ true
      → Eligible live (c ∷ clients) c.id
  there :
      {c : ClientHandle} {clients : List ClientHandle} {id : ℕ}
      → Eligible live clients id
      → Eligible live (c ∷ clients) id

-- What a choice of a client out of a list has to be: the least that may be promoted, if any.
abbrev pub IsLeast : (ℕ → Bool) → List ClientHandle → Option ℕ → Type 0
IsLeast live clients none = (id : ℕ) → ¬ Eligible live clients id
IsLeast live clients (some m) =
    Eligible live clients m × ((id : ℕ) → Eligible live clients id → m ≤ id)

module _ (live : ℕ → Bool) where
  Eligible-inv :
      (c : ClientHandle) (clients : List ClientHandle) (id : ℕ)
      → Eligible live (c ∷ clients) id
      → ((c.id ≡ id) × (is_eligible live c ≡ true)) ⊎ Eligible live clients id
  Eligible-inv c clients id (here e) = inl (refl, e)
  Eligible-inv c clients id (there e) = inr e

  -- One more client, at the front.
  IsLeast-cons :
      (c : ClientHandle) (clients : List ClientHandle) (o : Option ℕ)
      → IsLeast live clients o
      → IsLeast live (c ∷ clients) (
          if is_eligible live c
          then elim o [ none ↦ some c.id | some m ↦ some (if leb c.id m then c.id else m) ]
          else o)
  IsLeast-cons c clients none least =
      if_both (IsLeast live (c ∷ clients)) (is_eligible live c) (some c.id) none
        (λ on. (
          here on,
          λ id e. elim (Eligible-inv c clients id e) [
            | inl (same, _) ↦ omega arith
            | inr e' ↦ absurd (least id e')
          ],
        ))
        (λ off. λ id e. elim (Eligible-inv c clients id e) [
          | inl (_, on) ↦ absurd (ground (arith, on, off))
          | inr e' ↦ least id e'
        ])
  IsLeast-cons c clients (some m) (in_rest, least) =
      if_both (IsLeast live (c ∷ clients)) (is_eligible live c)
        (some (if leb c.id m then c.id else m)) (some m)
        (λ on. elim (Bool-cases (leb c.id m)) [
          | inl le ↦ rw le (
            here on,
            λ id e. elim (Eligible-inv c clients id e) [
              | inl (same, _) ↦ omega arith
              | inr e' ↦ let below : m ≤ id = least id e' in ground (arith, below, le)
            ],
          )
          | inr gt ↦ rw gt (
            there in_rest,
            λ id e. elim (Eligible-inv c clients id e) [
              | inl (same, _) ↦ ground (arith, same, gt)
              | inr e' ↦ least id e'
            ],
          )
        ])
        (λ off. (
          there in_rest,
          λ id e. elim (Eligible-inv c clients id e) [
            | inl (_, on) ↦ absurd (ground (arith, on, off))
            | inr e' ↦ least id e'
          ],
        ))

  least_eligible-IsLeast :
      (clients : List ClientHandle) → IsLeast live clients (least_eligible live clients)
  unfolding least_eligible
  least_eligible-IsLeast [] = λ id e. elim e [ ]
  least_eligible-IsLeast (c ∷ clients) =
      IsLeast-cons c clients (least_eligible live clients) (least_eligible-IsLeast clients)

  pub remove_and_promote-other :
      (b : BrokerState) (id : ℕ)
      → is_controller b id ≡ false
      → (remove_and_promote live b id).controller_id ≡ b.controller_id
  unfolding remove_and_promote
  remove_and_promote-other b id off = rw off refl

  -- A choice is a client of the list.
  pub Eligible-find :
      (clients : List ClientHandle) (id : ℕ)
      → Eligible live clients id
      → (c : ClientHandle) × (find_client clients id ≡ some c)
  Eligible-find (c ∷ clients) id e = elim (Bool-cases (c.id == id)) [
    | inl same ↦ (c, rw same refl)
    | inr other ↦ elim (Eligible-inv c clients id e) [
      | inl (same, _) ↦ absurd (ground (arith, same, other))
      | inr e' ↦ let (d, found) = Eligible-find clients id e' in (d, rw other found)
    ]
  ]
  Eligible-find [] id e = elim e [ ]

  pub promoted-find :
      (clients : List ClientHandle) (id : ℕ)
      → least_eligible live clients ≡ some id
      → (c : ClientHandle) × (find_client clients id ≡ some c)
  promoted-find clients id h =
      Eligible-find clients id (subst (IsLeast live clients) h (least_eligible-IsLeast clients)).0
