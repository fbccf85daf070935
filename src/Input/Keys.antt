-- ===== src/Input/Keys.antt =====
-- crates/tetris-terminal/src/input: the key map and the repeat handler know the same keys.
use tui_tetris.Prelude.{ℕ, ◌≡◌, refl, Bool, Option, none, some}
use tui_tetris.Prelude.{arith}
use tui_tetris.Types.{
  GameAction, move_left, move_right, soft_drop, hard_drop, rotate_cw, rotate_ccw, hold, pause,
  restart,
}
use tui_tetris.Input.{
  KeyCode, KeyEvent, left, right, up, down, other, char, char_action, handle_key_event,
}
use tui_tetris.Input.Handler.{Held, left_key, right_key, down_key, held_key}

-- The actions that repeat while their key is held.
abbrev pub repeats : Option GameAction → Option Held
repeats none = none
repeats (some a) = elim a [
  | move_left ↦ some left_key
  | move_right ↦ some right_key
  | soft_drop ↦ some down_key
  | hard_drop ↦ none
  | rotate_cw ↦ none
  | rotate_ccw ↦ none
  | hold ↦ none
  | pause ↦ none
  | restart ↦ none
]

char-repeats : (c : ℕ) → held_key (char c) ≡ repeats (char_action c)
unfolding held_key char_action
char-repeats c = ground arith

key-repeats :
    (code : KeyCode) (control : Bool)
    → held_key code ≡ repeats (handle_key_event (record { code = code; control = control }))
unfolding held_key handle_key_event
key-repeats left control = refl
key-repeats right control = refl
key-repeats up control = refl
key-repeats down control = refl
key-repeats other control = refl
key-repeats (char c) control = char-repeats c

-- The keys that the handler follows are those that the key map gives a move or a soft drop.
held_key-handle_key_event : (key : KeyEvent) → held_key key.code ≡ repeats (handle_key_event key)
held_key-handle_key_event key = key-repeats key.code key.control
