-- ===== src/Adapter/Schedule/Pending.antt =====
-- crates/tetris-adapter/src/adapter/observation_schedule.rs: the events that wait.
use tui_tetris.Prelude.{
  ℕ, suc, ◌-◌, ◌≡◌, refl, ap, ◌∙◌, inl, inr, List, [], ◌∷◌, ◌++◌, length, drop,
}
use tui_tetris.Prelude.{
  length-append, length-drop, drop-append_le, drop-drop_one, append_assoc, append-nil, Bool-cases,
  arith, ◌==◌,
}
use mathlib.Core.Path.{sym}
use tui_tetris.Types.{CoreLastEvent}
use tui_tetris.Adapter.Schedule.{
  ObservationSchedule, TransitionEvent, from_event, capture_event, immediate,
}

abbrev pub captures : ObservationSchedule → List CoreLastEvent → ObservationSchedule
captures o [] = o
captures o (e ∷ es) = captures (capture_event o e) es

-- The last four of a list.
abbrev pub newest : List TransitionEvent → List TransitionEvent
newest xs = drop (length xs - 4) xs

abbrev pub from_events : List CoreLastEvent → List TransitionEvent
from_events [] = []
from_events (e ∷ es) = from_event e ∷ from_events es

capture-newest :
    (o : ObservationSchedule) (e : CoreLastEvent) (xs : List TransitionEvent)
    → o.pending_events ≡ newest xs
    → (capture_event o e).pending_events ≡ newest (xs ++ from_event e ∷ [])
unfolding capture_event
capture-newest o e xs h =
    let x = from_event e in
    let size = ap (λ z. length z) h ∙ length-drop (length xs - 4) xs in
    let long = length-append xs (x ∷ []) in
    elim (Bool-cases (length o.pending_events == 4)) [
      | inl full ↦
          let k : suc (length xs - 4) ≡ length (xs ++ x ∷ []) - 4 =
            ground (arith, full, size, long) in
          rw full (
            ap (λ z. drop 1 z ++ x ∷ []) h
            ∙ ap (λ z. z ++ x ∷ []) (drop-drop_one (length xs - 4) xs)
            ∙ sym (drop-append_le (suc (length xs - 4)) xs (x ∷ []) (ground (arith, full, size)))
            ∙ ap (λ (n : ℕ). drop n (xs ++ x ∷ [])) k)
      | inr room ↦
          let k : length xs - 4 ≡ length (xs ++ x ∷ []) - 4 = ground (arith, room, size, long) in
          rw room (
            ap (λ z. z ++ x ∷ []) h
            ∙ sym (drop-append_le (length xs - 4) xs (x ∷ []) (omega arith))
            ∙ ap (λ (n : ℕ). drop n (xs ++ x ∷ [])) k)
    ]

captures-newest :
    (es : List CoreLastEvent) (o : ObservationSchedule) (xs : List TransitionEvent)
    → o.pending_events ≡ newest xs
    → (captures o es).pending_events ≡ newest (xs ++ from_events es)
captures-newest [] o xs h = h ∙ ap (λ z. newest z) (sym (append-nil xs))
captures-newest (e ∷ es) o xs h =
    captures-newest es (capture_event o e) (xs ++ from_event e ∷ []) (capture-newest o e xs h)
    ∙ ap (λ z. newest z) (append_assoc xs (from_event e ∷ []) (from_events es))

-- After an observation and then any captured events, the next observation carries the four newest
-- of them, in order, or all if there are fewer.
immediate-newest :
    (o : ObservationSchedule) (es : List CoreLastEvent)
    → (immediate (captures (immediate o).0 es)).1.1 ≡ newest (from_events es)
unfolding immediate
immediate-newest o es = captures-newest es (immediate o).0 [] refl
