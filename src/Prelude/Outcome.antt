-- ===== src/Prelude/Outcome.antt =====
-- The result of code that can panic or run for ever: `fault` is a panic (a push past the capacity
-- of an `ArrayVec`) or a loop of the model that used up its fuel.
use mathlib.Core.Bool.{Bool, true, false}
use mathlib.Core.Path.{◌≡◌, ap, sym, ◌∙◌, subst}

pub data Run {ℓ} (A : Type ℓ) : Type ℓ where
  ret : A → Run A
  fault : Run A

infixl 5 ◌>>=◌
abbrev pub ◌>>=◌ {ℓ κ} : {A : Type ℓ} {B : Type κ} → Run A → (A → Run B) → Run B
ret a >>= f = f a
fault >>= f = fault

-- The run ends normally, in a result that satisfies `P`.
abbrev pub Returns {ℓ κ} : {A : Type ℓ} → Run A → (A → Type κ) → Type (ℓ ⊔ κ)
Returns {A} r P = (a : A) × (r ≡ ret a) × P a

result_or {ℓ} : {A : Type ℓ} → A → Run A → A
result_or d (ret a) = a
result_or d fault = d

-- What is returned satisfies what every return satisfies.
pub Returns-result {ℓ κ} :
    {A : Type ℓ} (m : Run A) (P : A → Type κ) (a : A) → Returns m P → m ≡ ret a → P a
unfolding result_or
Returns-result m P a (a', e, p) h = subst P (ap (result_or a) (sym e ∙ h)) p

-- A chain ends normally if each of its parts does.
pub Returns->>= {ℓ κ μ ν} :
    {A : Type ℓ} {B : Type κ} (m : Run A) (f : A → Run B) (P : A → Type μ) (Q : B → Type ν)
    → Returns m P
    → ((a : A) → P a → Returns (f a) Q)
    → Returns (m >>= f) Q
Returns->>= m f P Q (a, e, p) next = let (b, e', q) = next a p in (b, ap (λ z. z >>= f) e ∙ e', q)

-- The same for a part that reports whether the code goes on with `go_on` or with `give_up`.
pub Returns-branch {ℓ κ μ ν} :
    {A : Type ℓ} {B : Type κ} (m : Run (A × Bool)) (go_on give_up : A → Run B)
    (P : A × Bool → Type μ) (Q : B → Type ν)
    → Returns m P
    → ((a : A) → P (a, true) → Returns (go_on a) Q)
    → ((a : A) → P (a, false) → Returns (give_up a) Q)
    → Returns (m >>= λ (r : A × Bool). elim r.1 [ true ↦ go_on r.0 | false ↦ give_up r.0 ]) Q
Returns-branch {A = A} m go_on give_up P Q ((a, true), e, p) on off =
    let (b, e', q) = on a p in
    (
      b,
      ap (λ z. z >>= λ (r : A × Bool). elim r.1 [ true ↦ go_on r.0 | false ↦ give_up r.0 ]) e ∙ e',
      q,
    )
Returns-branch {A = A} m go_on give_up P Q ((a, false), e, p) on off =
    let (b, e', q) = off a p in
    (
      b,
      ap (λ z. z >>= λ (r : A × Bool). elim r.1 [ true ↦ go_on r.0 | false ↦ give_up r.0 ]) e ∙ e',
      q,
    )

-- What holds of the result, if there is one.
abbrev pub Allows {ℓ κ} : {A : Type ℓ} → Run A → (A → Type κ) → Type κ
Allows (ret a) P = P a
Allows fault P = Unit

pub Allows->>= {ℓ κ μ ν} :
    {A : Type ℓ} {B : Type κ} (m : Run A) (f : A → Run B) (P : A → Type μ) (Q : B → Type ν)
    → Allows m P
    → ((a : A) → P a → Allows (f a) Q)
    → Allows (m >>= f) Q
Allows->>= (ret a) f P Q p next = next a p
Allows->>= fault f P Q p next = tt

pub Allows-map {ℓ κ μ} :
    {A : Type ℓ} (m : Run A) (P : A → Type κ) (Q : A → Type μ)
    → ((a : A) → P a → Q a)
    → Allows m P
    → Allows m Q
Allows-map (ret a) P Q next p = next a p
Allows-map fault P Q next p = tt

-- A run that goes on in one of two ways by the flag of its result.
pub Allows-branch {ℓ κ μ ν} :
    {A : Type ℓ} {B : Type κ} (m : Run (A × Bool)) (f g : A → Run B) (P : A → Type μ)
    (Q : B → Type ν)
    → Allows m (λ r. P r.0)
    → ((a : A) → P a → Allows (f a) Q)
    → ((a : A) → P a → Allows (g a) Q)
    → Allows (m >>= λ r. elim r.1 [ true ↦ f r.0 | false ↦ g r.0 ]) Q
Allows-branch (ret (a, true)) f g P Q p on off = on a p
Allows-branch (ret (a, false)) f g P Q p on off = off a p
Allows-branch fault f g P Q p on off = tt

pub Returns-Allows {ℓ κ μ} :
    {A : Type ℓ} (m : Run A) (P : A → Type κ) (Q : A → Type μ)
    → Returns m P
    → Allows m Q
    → Returns m Q
Returns-Allows m P Q (a, e, p) q = (a, e, subst (λ z. Allows z Q) e q)
