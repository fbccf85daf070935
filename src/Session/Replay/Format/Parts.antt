-- ===== src/Session/Replay/Format/Parts.antt =====
-- crates/tetris-session/src/engine/replay.rs: lines and fields come apart as they were put together.
use tui_tetris.Prelude.{
  ℕ, ◌≡◌, refl, ap, ◌∙◌, true, false, not, List, [], ◌∷◌, ◌++◌, all, inl, inr, Bool-cases, arith,
  &&-left, &&-right, ◌<◌, ◌≤◌,
}
use tui_tetris.Prelude.{leb, ◌==◌, ==_iff, split, prepend, join}
use tui_tetris.Session.Replay.Format.{terminated, strip_cr, lines_of, lines}

-- All bytes are at least `k`.
abbrev pub AtLeast : ℕ → List ℕ → Type 0
AtLeast k s = all (leb k) s ≡ true

pub AtLeast-mono : (k j : ℕ) (s : List ℕ) → k ≤ j → AtLeast j s → AtLeast k s
AtLeast-mono k j [] le h = refl
AtLeast-mono k j (c ∷ s) le h =
    let rest : AtLeast k s = AtLeast-mono k j s le (&&-right (leb j c) (all (leb j) s) h) in
    ground (arith, &&-left (leb j c) (all (leb j) s) h, rest)

pub AtLeast-append : (k : ℕ) (s t : List ℕ) → AtLeast k s → AtLeast k t → AtLeast k (s ++ t)
AtLeast-append k [] t h h' = h'
AtLeast-append k (c ∷ s) t h h' =
    let rest : AtLeast k (s ++ t) =
      AtLeast-append k s t (&&-right (leb k c) (all (leb k) s) h) h' in
    ground (arith, &&-left (leb k c) (all (leb k) s) h, rest)

-- The byte `b` does not occur.
abbrev pub Without : ℕ → List ℕ → Type 0
Without b s = all (λ c. not (c == b)) s ≡ true

pub AtLeast-Without : (k b : ℕ) (s : List ℕ) → b < k → AtLeast k s → Without b s
AtLeast-Without k b [] lt h = refl
AtLeast-Without k b (c ∷ s) lt h =
    let rest : Without b s = AtLeast-Without k b s lt (&&-right (leb k c) (all (leb k) s) h) in
    ground (arith, lt, &&-left (leb k c) (all (leb k) s) h, rest)

Without-append : (b : ℕ) (s t : List ℕ) → Without b s → Without b t → Without b (s ++ t)
Without-append b [] t h h' = h'
Without-append b (c ∷ s) t h h' =
    let rest : Without b (s ++ t) =
      Without-append b s t (&&-right (not (c == b)) (all (λ d. not (d == b)) s) h) h' in
    ground (arith, &&-left (not (c == b)) (all (λ d. not (d == b)) s) h, rest)

pub split-one : (sep : ℕ) (s : List ℕ) → Without sep s → split sep s ≡ s ∷ []
unfolding split
split-one sep [] h = refl
split-one sep (c ∷ s) h =
    let here : not (c == sep) ≡ true = &&-left (not (c == sep)) (all (λ d. not (d == sep)) s) h in
    let off : (c == sep) ≡ false = ground (arith, here) in
    rw off (rw (split-one sep s (&&-right (not (c == sep)) (all (λ d. not (d == sep)) s) h)) refl)

pub split-append :
    (sep : ℕ) (s t : List ℕ) → Without sep s → split sep (s ++ sep ∷ t) ≡ s ∷ split sep t
unfolding split
split-append sep [] t h = let on : (sep == sep) ≡ true = (==_iff sep sep).1 refl in rw on refl
split-append sep (c ∷ s) t h =
    let here : not (c == sep) ≡ true = &&-left (not (c == sep)) (all (λ d. not (d == sep)) s) h in
    let off : (c == sep) ≡ false = ground (arith, here) in
    rw off
      (rw (split-append sep s t (&&-right (not (c == sep)) (all (λ d. not (d == sep)) s) h)) refl)

-- All parts have bytes of at least `k`.
abbrev pub AllAtLeast : ℕ → List (List ℕ) → Type 0
AllAtLeast k [] = Unit
AllAtLeast k (s ∷ parts) = AtLeast k s × AllAtLeast k parts

pub split-join :
    (sep k : ℕ) (s : List ℕ) (parts : List (List ℕ))
    → sep < k
    → AllAtLeast k (s ∷ parts)
    → split sep (join sep (s ∷ parts)) ≡ s ∷ parts
unfolding join
split-join sep k s [] lt (h, hs) = split-one sep s (AtLeast-Without k sep s lt h)
split-join sep k s (next ∷ parts) lt (h, hs) =
    split-append sep s (join sep (next ∷ parts)) (AtLeast-Without k sep s lt h)
    ∙ ap (λ (r : List (List ℕ)). s ∷ r) (split-join sep k next parts lt hs)

pub AtLeast-join :
    (sep k : ℕ) (parts : List (List ℕ)) → k ≤ sep → AllAtLeast k parts → AtLeast k (join sep parts)
unfolding join
AtLeast-join sep k [] le h = refl
AtLeast-join sep k (s ∷ []) le (h, hs) = h
AtLeast-join sep k (s ∷ next ∷ parts) le (h, hs) =
    let rest : AtLeast k (join sep (next ∷ parts)) = AtLeast-join sep k (next ∷ parts) le hs in
    AtLeast-append k s (sep ∷ join sep (next ∷ parts)) h (ground (arith, le, rest))

pub Without-join :
    (b sep k : ℕ) (parts : List (List ℕ))
    → b < k
    → (sep == b) ≡ false
    → AllAtLeast k parts
    → Without b (join sep parts)
unfolding join
Without-join b sep k [] lt other h = refl
Without-join b sep k (s ∷ []) lt other (h, hs) = AtLeast-Without k b s lt h
Without-join b sep k (s ∷ next ∷ parts) lt other (h, hs) =
    let rest : Without b (join sep (next ∷ parts)) =
      Without-join b sep k (next ∷ parts) lt other hs in
    Without-append b s (sep ∷ join sep (next ∷ parts)) (AtLeast-Without k b s lt h) (rw other rest)

-- A text that is a line by itself.
abbrev pub IsLine : List ℕ → Type 0
IsLine s = Without 10 s × Without 13 s

strip_cr-line : (s : List ℕ) → Without 13 s → strip_cr s ≡ s
unfolding strip_cr
strip_cr-line [] h = refl
strip_cr-line (c ∷ []) h = ground (arith, h)
strip_cr-line (c ∷ d ∷ s) h =
    ap (λ (t : List ℕ). c ∷ t)
      (strip_cr-line (d ∷ s) (&&-right (not (c == 13)) (all (λ e. not (e == 13)) (d ∷ s)) h))

abbrev pub AreLines : List (List ℕ) → Type 0
AreLines [] = Unit
AreLines (s ∷ rest) = IsLine s × AreLines rest

prepend-cons :
    (c : ℕ) (parts : List (List ℕ))
    → (s : List ℕ) × ((rest : List (List ℕ)) × (prepend c parts ≡ s ∷ rest))
prepend-cons c [] = (c ∷ [], ([], refl))
prepend-cons c (part ∷ parts) = (c ∷ part, (parts, refl))

split-cons :
    (sep : ℕ) (s : List ℕ)
    → (first : List ℕ) × ((rest : List (List ℕ)) × (split sep s ≡ first ∷ rest))
unfolding split
split-cons sep [] = ([], ([], refl))
split-cons sep (c ∷ s) = elim (Bool-cases (c == sep)) [
  | inl on ↦ ([], (split sep s, rw on refl))
  | inr off ↦ let (first, (rest, e)) = prepend-cons c (split sep s) in (first, (rest, rw off e))
]

lines_of-cons :
    (part text : List ℕ)
    → lines_of (part ∷ split 10 text) ≡ strip_cr part ∷ lines_of (split 10 text)
unfolding lines_of
lines_of-cons part text = let (first, (rest, e)) = split-cons 10 text in rw e refl

-- Lines that are written out are read back.
pub lines-terminated : (ls : List (List ℕ)) → AreLines ls → lines (terminated ls) ≡ ls
unfolding terminated split lines_of
lines-terminated [] h = refl
lines-terminated (s ∷ rest) ((no_lf, no_cr), more) =
    ap lines_of (split-append 10 s (terminated rest) no_lf)
    ∙ (lines_of-cons s (terminated rest)
        ∙ (ap (λ (t : List ℕ). t ∷ lines (terminated rest)) (strip_cr-line s no_cr)
            ∙ ap (λ (ls : List (List ℕ)). s ∷ ls) (lines-terminated rest more)))
