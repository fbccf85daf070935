-- ===== src/Adapter/Lines/Chunks.antt =====
-- crates/tetris-adapter/src/adapter/server.rs: the line that is read does not depend on the chunks.
use tui_tetris.Prelude.{
  ℕ, suc, ◌+◌, ◌≡◌, refl, ap, sym, ◌∙◌, ◌≤◌, ◌<◌, true, false, Option, none, some, List, [], ◌∷◌,
  ◌++◌, length, take, drop, inl, inr, Bool-cases, Option-cases, arith, append_assoc, append-nil,
  length-append, take-append_le, drop-append_le,
}
use tui_tetris.Prelude.{ltb, ◌==◌, if◌then◌else◌}
use tui_tetris.Adapter.Lines.{
  BoundedLineRead, eof, line, too_long, position, at_end, put_back, read_chunk, read_from,
  read_bounded_line, max_inbound_line_bytes,
}

-- The chunks as one text, up to an empty one.
abbrev pub flat : List (List ℕ) → List ℕ
flat [] = []
flat ([] ∷ chunks) = []
flat ((c ∷ s) ∷ chunks) = (c ∷ s) ++ flat chunks

-- A result with what is left as one text.
pub data LineOf : Type 0 where
  no_line : LineOf
  line_of : (bytes left : List ℕ) → LineOf
  over : LineOf

abbrev pub as_line : BoundedLineRead → LineOf
as_line eof = no_line
as_line (line bytes left) = line_of bytes (flat left)
as_line too_long = over

abbrev pub last_line : List ℕ → LineOf
last_line [] = no_line
last_line (c ∷ s) = line_of (c ∷ s) []

-- The first line of a text: up to its first newline, or the whole text if it has none; its bytes
-- before the newline are at most 65,536.
abbrev pub line_at : List ℕ → Option ℕ → LineOf
line_at s none = if ltb max_inbound_line_bytes (length s) then over else last_line s
line_at s (some i) =
    if ltb max_inbound_line_bytes i then over else line_of (take (suc i) s) (drop (suc i) s)

abbrev pub first_line : List ℕ → LineOf
first_line s = line_at s (position s)

-- A position past a text without a newline.
abbrev pub moved_by_length : ℕ → Option ℕ → Option ℕ
moved_by_length n none = none
moved_by_length n (some i) = some (n + i)

abbrev or_zero : ℕ → Option ℕ → ℕ
or_zero d none = d
or_zero d (some i) = i

abbrev later : Option ℕ → Option ℕ
later o = elim o [ none ↦ none | some i ↦ some (suc i) ]

moved_by_length-suc :
    (n : ℕ) (o : Option ℕ) → later (moved_by_length n o) ≡ moved_by_length (suc n) o
moved_by_length-suc n none = refl
moved_by_length-suc n (some i) = ap some (omega arith)

position-append_none :
    (s t : List ℕ) → position s ≡ none → position (s ++ t) ≡ moved_by_length (length s) (position t)
unfolding position
position-append_none [] t h = elim (Option-cases (position t)) [
  | inl e ↦ rw e refl
  | inr (i, e) ↦ rw e (ap some (omega arith))
]
position-append_none (c ∷ s) t h = elim (Bool-cases (c == 10)) [
  | inl on ↦ absurd (ground (arith, rw on at h))
  | inr off ↦ elim (Option-cases (position s)) [
    | inr (i, e) ↦ absurd (ground (arith, rw e at (rw off at h)))
    | inl e ↦ rw off (rw (position-append_none s t e) (moved_by_length-suc (length s) (position t)))
  ]
]

position-append_some :
    (s t : List ℕ) (i : ℕ) → position s ≡ some i → (position (s ++ t) ≡ some i) × (suc i ≤ length s)
unfolding position
position-append_some [] t i h = absurd (ground (arith, h))
position-append_some (c ∷ s) t i h = elim (Bool-cases (c == 10)) [
  | inl on ↦ rw on (rw on at h, ground (arith, rw on at h))
  | inr off ↦ elim (Option-cases (position s)) [
    | inl e ↦ absurd (ground (arith, rw e at (rw off at h)))
    | inr (j, e) ↦
        let (on_both, le) = position-append_some s t j e in
        let same : suc j ≡ i = ap (or_zero 0) (rw e at (rw off at h)) in
        rw off (rw on_both (ap some same, omega (arith, same, le)))
  ]
]

flat-put_back : (d : List ℕ) (chunks : List (List ℕ)) → flat (put_back d chunks) ≡ d ++ flat chunks
flat-put_back [] chunks = refl
flat-put_back (c ∷ s) chunks = refl

as_line-at_end : (so_far : List ℕ) → as_line (at_end so_far) ≡ last_line so_far
as_line-at_end [] = refl
as_line-at_end (c ∷ s) = refl

-- A text without a newline that fits.
end-first_line :
    (so_far : List ℕ)
    → position so_far ≡ none
    → length so_far ≤ 65536
    → as_line (at_end so_far) ≡ first_line (so_far ++ [])
end-first_line so_far none_in fits =
    let off : ltb max_inbound_line_bytes (length so_far) ≡ false = ground (arith, fits) in
    rw (append-nil so_far) (rw none_in (rw off (as_line-at_end so_far)))

-- A position past the bound is over it, wherever the newline comes.
line_at-over :
    (s : List ℕ) (n : ℕ) (o : Option ℕ)
    → 65536 < n
    → n ≤ length s
    → line_at s (moved_by_length n o) ≡ over
line_at-over s n none far le =
    let on : ltb max_inbound_line_bytes (length s) ≡ true = ground (arith, far, le) in rw on refl
line_at-over s n (some i) far le =
    let on : ltb max_inbound_line_bytes (n + i) ≡ true = ground (arith, far, le) in rw on refl

-- A cut in the middle of three texts.
cut-append :
    (xs ys zs : List ℕ) (n : ℕ)
    → n ≤ length ys
    → (take (length xs + n) (xs ++ (ys ++ zs)) ≡ xs ++ take n ys)
      × (drop (length xs + n) (xs ++ (ys ++ zs)) ≡ drop n ys ++ zs)
cut-append [] ys zs n le =
    let e : 0 + n ≡ n = omega arith in rw e (take-append_le n ys zs le, drop-append_le n ys zs le)
cut-append (x ∷ xs) ys zs n le =
    let (taken, dropped) = cut-append xs ys zs n le in
    let e : suc (length xs) + n ≡ suc (length xs + n) = omega arith in
    rw e (ap (λ (l : List ℕ). x ∷ l) taken, dropped)

-- A newline in the next chunk.
found-first_line :
    (so_far available : List ℕ) (chunks : List (List ℕ)) (i : ℕ)
    → position so_far ≡ none
    → position available ≡ some i
    → as_line (
        if ltb max_inbound_line_bytes (length so_far + i)
        then too_long
        else line (so_far ++ take (suc i) available) (put_back (drop (suc i) available) chunks))
      ≡ first_line (so_far ++ (available ++ flat chunks))
found-first_line so_far available chunks i none_in here =
    let (there, le) = position-append_some available (flat chunks) i here in
    let all : position (so_far ++ (available ++ flat chunks)) ≡ some (length so_far + i) =
      position-append_none so_far (available ++ flat chunks) none_in
      ∙ ap (moved_by_length (length so_far)) there in
    rw all (elim (Bool-cases (ltb max_inbound_line_bytes (length so_far + i))) [
      | inl on ↦ rw on refl
      | inr off ↦
          let (taken, dropped) = cut-append so_far available (flat chunks) (suc i) le in
          let reach : length so_far + suc i ≡ suc (length so_far + i) = omega arith in
          rw off (
            rw (← reach) (
              rw taken (
                rw dropped (
                  ap (λ (l : List ℕ). line_of (so_far ++ take (suc i) available) l)
                    (flat-put_back (drop (suc i) available) chunks)))))
    ])

read_chunk-first_line :
    (so_far available : List ℕ) (chunks : List (List ℕ)) (rest : BoundedLineRead) (o : Option ℕ)
    → position so_far ≡ none
    → position available ≡ o
    → (position (so_far ++ available) ≡ none
        → length (so_far ++ available) ≤ 65536
        → as_line rest ≡ first_line ((so_far ++ available) ++ flat chunks))
    → as_line (read_chunk so_far available chunks rest o)
      ≡ first_line (so_far ++ (available ++ flat chunks))
read_chunk-first_line so_far available chunks rest (some i) none_in here next =
    found-first_line so_far available chunks i none_in here
read_chunk-first_line so_far available chunks rest none none_in absent next =
    let both : position (so_far ++ available) ≡ none =
      position-append_none so_far available none_in ∙ ap (moved_by_length (length so_far)) absent in
    let joined : (so_far ++ available) ++ flat chunks ≡ so_far ++ (available ++ flat chunks) =
      append_assoc so_far available (flat chunks) in
    let size : length (so_far ++ available) ≡ length so_far + length available =
      length-append so_far available in
    let whole : length ((so_far ++ available) ++ flat chunks)
        ≡ length (so_far ++ available) + length (flat chunks) =
      length-append (so_far ++ available) (flat chunks) in
    elim (Bool-cases (ltb max_inbound_line_bytes (length so_far + length available))) [
      | inl on ↦ rw on (
          sym (
            ap first_line (sym joined)
            ∙ (ap (line_at ((so_far ++ available) ++ flat chunks))
                  (position-append_none (so_far ++ available) (flat chunks) both)
                ∙ line_at-over ((so_far ++ available) ++ flat chunks) (length (so_far ++ available))
                    (position (flat chunks)) (ground (arith, on, size)) (omega (arith, whole)))))
      | inr off ↦ rw off (next both (ground (arith, off, size)) ∙ ap first_line joined)
    ]

read_from-first_line :
    (so_far : List ℕ) (chunks : List (List ℕ))
    → position so_far ≡ none
    → length so_far ≤ 65536
    → as_line (read_from so_far chunks) ≡ first_line (so_far ++ flat chunks)
unfolding read_from
read_from-first_line so_far [] none_in fits = end-first_line so_far none_in fits
read_from-first_line so_far ([] ∷ chunks) none_in fits = end-first_line so_far none_in fits
read_from-first_line so_far ((c ∷ s) ∷ chunks) none_in fits =
    read_chunk-first_line so_far (c ∷ s) chunks (read_from (so_far ++ c ∷ s) chunks)
      (position (c ∷ s)) none_in refl (read_from-first_line (so_far ++ c ∷ s) chunks)

-- Reading a line gives the first line of the input, up to the end of the input, whatever the chunks
-- it comes in: its bytes, newline included, and what is left; nothing at the end of the input; and
-- the report of a line that is too long exactly if more than 65,536 bytes come before its newline.
pub read_bounded_line-first_line :
    (chunks : List (List ℕ)) → as_line (read_bounded_line chunks) ≡ first_line (flat chunks)
unfolding position
read_bounded_line-first_line chunks = read_from-first_line [] chunks refl (omega arith)
