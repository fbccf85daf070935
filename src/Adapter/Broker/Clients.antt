-- ===== src/Adapter/Broker/Clients.antt =====
-- crates/tetris-adapter/src/adapter/server.rs: the list of the clients under the operations of the
-- broker.
use tui_tetris.Prelude.{
  ℕ, ◌≤◌, ◌≡◌, refl, ap, ◌∙◌, sym, true, false, Option, none, some, List, [], ◌∷◌, ◌++◌, count_if,
  arith, inl, inr, Bool-cases,
}
use tui_tetris.Prelude.{◌==◌, ==_iff}
use mathlib.Core.Path.{subst}
use tui_tetris.Adapter.Broker.{ClientHandle, find_client, update_client, new_client, remove_client}

-- How many clients have an id.
abbrev pub id_count : ℕ → List ClientHandle → ℕ
id_count id clients = count_if (λ c. c.id == id) clients

module _ (f : ClientHandle → ClientHandle) (keeps : (c : ClientHandle) → (f c).id ≡ c.id) where
  pub id_count-update_client :
      (id k : ℕ) (clients : List ClientHandle)
      → id_count k (update_client f id clients) ≡ id_count k clients
  unfolding update_client
  id_count-update_client id k [] = refl
  id_count-update_client id k (c ∷ clients) = elim (Bool-cases (c.id == id)) [
    | inl e ↦ rw e (rw (keeps c) refl)
    | inr e ↦ rw e (rw (id_count-update_client id k clients) refl)
  ]

  pub find-update_self :
      (id : ℕ) (clients : List ClientHandle) (c : ClientHandle)
      → find_client clients id ≡ some c
      → find_client (update_client f id clients) id ≡ some (f c)
  unfolding update_client
  find-update_self id [] c h = cc
  find-update_self id (d ∷ clients) c h = elim (Bool-cases (d.id == id)) [
    | inl e ↦
        let on_f : ((f d).id == id) ≡ true = ap (λ (n : ℕ). n == id) (keeps d) ∙ e in
        rw e (
          rw on_f (
            ap (λ (o : Option ClientHandle). elim o [ none ↦ none | some x ↦ some (f x) ])
              (rw e at h)))
    | inr e ↦ rw e (rw e (find-update_self id clients c (rw e at h)))
  ]

  pub find-update_ne :
      (id k : ℕ) (clients : List ClientHandle)
      → (id == k) ≡ false
      → find_client (update_client f id clients) k ≡ find_client clients k
  unfolding update_client
  find-update_ne id k [] h = refl
  find-update_ne id k (c ∷ clients) h = elim (Bool-cases (c.id == id)) [
    | inl e ↦
        let off : (c.id == k) ≡ false = ground (arith, e, h) in
        let off_f : ((f c).id == k) ≡ false = ap (λ (n : ℕ). n == k) (keeps c) ∙ off in
        rw e (rw off_f (rw off refl))
    | inr e ↦ rw e (rw (find-update_ne id k clients h) refl)
  ]

  pub find-update_some :
      (id k : ℕ) (clients : List ClientHandle) (c : ClientHandle)
      → find_client clients k ≡ some c
      → (d : ClientHandle) × (find_client (update_client f id clients) k ≡ some d)
  find-update_some id k clients c h = elim (Bool-cases (id == k)) [
    | inl same ↦
        let e : id ≡ k = (==_iff id k).0 same in
        (
          f c,
          subst (λ (i : ℕ). find_client (update_client f i clients) k ≡ some (f c)) (sym e)
              (find-update_self k clients c h),
        )
    | inr other ↦ (c, find-update_ne id k clients other ∙ h)
  ]

pub find-add_ne :
    (id k : ℕ) (clients : List ClientHandle)
    → (id == k) ≡ false
    → find_client (clients ++ new_client id ∷ []) k ≡ find_client clients k
find-add_ne id k [] h = rw h refl
find-add_ne id k (c ∷ clients) h = rw (find-add_ne id k clients h) refl

pub find-add_some :
    (id k : ℕ) (clients : List ClientHandle) (c : ClientHandle)
    → find_client clients k ≡ some c
    → find_client (clients ++ new_client id ∷ []) k ≡ some c
find-add_some id k [] c h = cc
find-add_some id k (d ∷ clients) c h = elim (Bool-cases (d.id == k)) [
  | inl e ↦ rw e (rw e at h)
  | inr e ↦ rw e (find-add_some id k clients c (rw e at h))
]

-- No client has an id that is not found.
pub find-none :
    (k : ℕ) (clients : List ClientHandle) → find_client clients k ≡ none → id_count k clients ≡ 0
find-none k [] h = refl
find-none k (c ∷ clients) h = elim (Bool-cases (c.id == k)) [
  | inl e ↦ absurd (ground (arith, e, h))
  | inr e ↦ rw e (omega (arith, find-none k clients (rw e at h)))
]

pub find-remove_ne :
    (id k : ℕ) (clients : List ClientHandle)
    → (id == k) ≡ false
    → find_client (remove_client id clients) k ≡ find_client clients k
unfolding remove_client
find-remove_ne id k [] h = refl
find-remove_ne id k (c ∷ clients) h = elim (Bool-cases (c.id == id)) [
  | inl e ↦ rw e (
      rw (find-remove_ne id k clients h)
        (let off : (c.id == k) ≡ false = ground (arith, e, h) in rw off refl))
  | inr e ↦ rw e (rw (find-remove_ne id k clients h) refl)
]

pub find-remove_self :
    (id : ℕ) (clients : List ClientHandle) → find_client (remove_client id clients) id ≡ none
unfolding remove_client
find-remove_self id [] = refl
find-remove_self id (c ∷ clients) = elim (Bool-cases (c.id == id)) [
  | inl e ↦ rw e (find-remove_self id clients)
  | inr e ↦ rw e (rw e (find-remove_self id clients))
]

pub id_count-remove_client :
    (id k : ℕ) (clients : List ClientHandle)
    → id_count k (remove_client id clients) ≤ id_count k clients
unfolding remove_client
id_count-remove_client id k [] = omega arith
id_count-remove_client id k (c ∷ clients) = elim (Bool-cases (c.id == id)) [
  | inl e ↦ rw e (omega (arith, id_count-remove_client id k clients))
  | inr e ↦ rw e (omega (arith, id_count-remove_client id k clients))
]

-- A client is found if its id is counted.
pub id_count-find :
    (k : ℕ) (clients : List ClientHandle)
    → 1 ≤ id_count k clients
    → (c : ClientHandle) × (find_client clients k ≡ some c)
id_count-find k [] h = absurd (omega arith)
id_count-find k (c ∷ clients) h = elim (Bool-cases (c.id == k)) [
  | inl e ↦ (c, rw e refl)
  | inr e ↦ let (d, found) = id_count-find k clients (ground (arith, e, h)) in (d, rw e found)
]

pub id_count-remove_self :
    (k : ℕ) (clients : List ClientHandle) → id_count k (remove_client k clients) ≡ 0
id_count-remove_self k clients = find-none k (remove_client k clients) (find-remove_self k clients)

pub id_count-remove_ne :
    (id k : ℕ) (clients : List ClientHandle)
    → (id == k) ≡ false
    → id_count k (remove_client id clients) ≡ id_count k clients
unfolding remove_client
id_count-remove_ne id k [] h = refl
id_count-remove_ne id k (c ∷ clients) h = elim (Bool-cases (c.id == id)) [
  | inl e ↦
      let off : (c.id == k) ≡ false = ground (arith, e, h) in
      rw e (rw off (omega (arith, id_count-remove_ne id k clients h)))
  | inr e ↦ rw e (rw (id_count-remove_ne id k clients h) refl)
]

pub find-count_none :
    (k : ℕ) (clients : List ClientHandle) → id_count k clients ≡ 0 → find_client clients k ≡ none
find-count_none k [] h = refl
find-count_none k (c ∷ clients) h = elim (Bool-cases (c.id == k)) [
  | inl e ↦ absurd (ground (arith, e, h))
  | inr e ↦ rw e (find-count_none k clients (ground (arith, e, h)))
]
