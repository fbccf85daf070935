-- ===== src/Adapter/Server/Control.antt =====
-- crates/tetris-adapter/src/adapter/server.rs: who controls the game, over the events of all tasks.
use tui_tetris.Prelude.{
  ℕ, ◌≡◌, refl, sym, ◌∙◌, ◌≢◌, Bool, true, false, ◌&&◌, Option, none, some, List, [], ◌∷◌, inl, inr,
  Bool-cases, arith, any, ap,
}
use tui_tetris.Prelude.{◌==◌, ==_iff, if_both}
use tui_tetris.Adapter.Protocol.{ParsedMessage}
use tui_tetris.Adapter.Broker.{
  ClientHandle, BrokerState, add_client, find_client, remove_and_promote, check_found, seq_follows,
  set_last_seq, greeted, update_client, clear_stale_controller_id, is_live_client, with_clients,
  is_id, is_controller,
}
use tui_tetris.Adapter.Broker.Clients.{find-update_some, find-add_some, find-remove_ne}
use tui_tetris.Adapter.Broker.Promotion.{remove_and_promote-other}
use tui_tetris.Adapter.Server.{Channels, handle_message}
use tui_tetris.Adapter.Server.Preserves.{handle_message-keeps}
use tui_tetris.Adapter.Server.Steps.{
  ServerEvent, connects, receives, leaves, Step, on_connect, on_receive, on_leave, Steps, done,
  next, Connected,
}

-- An event of another client than `k`, at which `k` is live.
abbrev pub IsOfOther : ℕ → ServerEvent → Type 0
IsOfOther k (connects id) = Unit
IsOfOther k (receives env id msg) = (id ≢ k) × (env.live k ≡ true)
IsOfOther k (leaves live id) = id ≢ k

abbrev pub AreOfOthers : ℕ → List ServerEvent → Type 0
AreOfOthers k [] = Unit
AreOfOthers k (e ∷ events) = IsOfOther k e × AreOfOthers k events

-- The client `k` is connected and controls the game.
abbrev pub Controls : ℕ → BrokerState → Type 0
Controls k b = (b.controller_id ≡ some k) × Connected b k

pub any-live :
    (live : ℕ → Bool) (k : ℕ) (clients : List ClientHandle) (c : ClientHandle)
    → live k ≡ true
    → find_client clients k ≡ some c
    → any (λ d. d.id == k && live d.id) clients ≡ true
any-live live k [] c on h = absurd (ground (arith, h))
any-live live k (d ∷ clients) c on h = elim (Bool-cases (d.id == k)) [
  | inl same ↦
      let here : live d.id ≡ true = ap live ((==_iff d.id k).0 same) ∙ on in rw same (rw here refl)
  | inr other ↦ rw other (any-live live k clients c on (rw other at h))
]

module _ (k : ℕ) where
  check-Controls :
      (id : ℕ) (b : BrokerState) (seq : ℕ) (o : Option ClientHandle)
      → Controls k b
      → Controls k (check_found b id seq o).0
  check-Controls id b seq none p = p
  check-Controls id b seq (some c) p =
      if_both (λ (r : BrokerState × Bool). Controls k r.0) (seq_follows c.last_seq seq)
        (with_clients b (update_client (set_last_seq seq) id b.clients), true) (b, false)
        (λ _. (p.0, find-update_some (set_last_seq seq) (λ d. refl) id k b.clients p.1.0 p.1.1))
        (λ _. p)

  pub clear-live :
      (o : Option ℕ) (is_live : ℕ → Bool)
      → o ≡ some k
      → is_live k ≡ true
      → clear_stale_controller_id o is_live ≡ some k
  clear-live none is_live e on = e
  clear-live (some c) is_live e on =
      let same : c ≡ k = ground (arith, e) in
      let here : is_live c ≡ true = ap is_live same ∙ on in rw here e

  receive-Controls :
      (env : Channels) (id : ℕ) (msg : ParsedMessage) (b : BrokerState)
      → id ≢ k
      → env.live k ≡ true
      → Controls k b
      → Controls k (handle_message env id msg b).broker
  receive-Controls env id msg b other on p =
      handle_message-keeps (Controls k) env id
        (λ b' seq p'. check-Controls id b' seq (find_client b'.clients id) p')
        (λ b' seq requested _ _ p'. (
          p'.0,
          find-update_some (greeted seq requested) (λ d. refl) id k b'.clients p'.1.0 p'.1.1,
        ))
        (λ b' p'. (
          clear-live b'.controller_id (is_live_client env.live b') p'.0
              (any-live env.live k b'.clients p'.1.0 on p'.1.1),
          p'.1,
        ))
        (λ b' e p'. absurd (ground (arith, e, p'.0)))
        (λ b' e p'. absurd (
          let held : is_id (some k) id ≡ true = ap (λ (o : Option ℕ). is_id o id) (sym p'.0) ∙ e in
          other (sym ((==_iff k id).0 held))))
        msg b p

  step-Controls :
      (e : ServerEvent) (b b' : BrokerState)
      → Step e b b'
      → IsOfOther k e
      → Controls k b
      → Controls k b'
  unfolding add_client remove_and_promote
  step-Controls (connects _) b _ (on_connect _ id free) _ p =
      (p.0, (p.1.0, find-add_some id k b.clients p.1.0 p.1.1))
  step-Controls (receives _ _ _) b _ (on_receive _ env id msg c found) (other, on) p =
      receive-Controls env id msg b other on p
  step-Controls (leaves _ _) b _ (on_leave _ live id) other p =
      let apart : (id == k) ≡ false = ground (arith, other) in
      let off : is_controller b id ≡ false =
        ap (λ (o : Option ℕ). is_id o id) p.0 ∙ ground (arith, other) in
      (
        remove_and_promote-other live b id off ∙ p.0,
        (p.1.0, find-remove_ne id k b.clients apart ∙ p.1.1),
      )

  -- A connected client that controls the game keeps control through any events of the other
  -- clients, whatever they send, as long as it is live when their messages are handled.
  pub Steps-Controls :
      (events : List ServerEvent) (b b' : BrokerState)
      → Steps events b b'
      → AreOfOthers k events
      → Controls k b
      → Controls k b'
  Steps-Controls _ b _ (done _) _ p = p
  Steps-Controls _ b b' (next {e} {events} {b' = b1} s rest) (other, others) p =
      Steps-Controls events b1 b' rest others (step-Controls e b b1 s other p)
