-- ===== src/Adapter/Server/Blocks/Kept.antt =====
-- crates/tetris-adapter/src/adapter/server.rs: a block of a task keeps the broker in order.
use tui_tetris.Prelude.{ℕ, ◌≤◌, ◌≡◌, refl, Bool, true, false, Option, some, none, arith, ◌∙◌}
use tui_tetris.Prelude.{if_both}
use tui_tetris.Adapter.Broker.{
  ClientHandle, BrokerState, find_client, check_found, seq_follows, update_client, with_clients,
  greeted, set_last_seq, clear_stale_controller,
}
use tui_tetris.Adapter.Broker.Clients.{id_count, id_count-update_client, id_count-find}
use tui_tetris.Adapter.Server.{Channels}
use tui_tetris.Adapter.Server.Preserves.{assign-keeps, claim-keeps, release-keeps}
use tui_tetris.Adapter.Server.Steps.{
  IsBroker, Connected, update-IsBroker, clear-IsBroker, take-IsBroker, give-IsBroker,
}
use tui_tetris.Adapter.Server.Blocks.{
  LockBlock, check_seq, mark, assign, take_control, give_control, run_block,
}

-- The broker is in order and has the clients of `b0`.
abbrev pub Kept : BrokerState → BrokerState → Type 0
Kept b0 b = IsBroker b × ((k : ℕ) → id_count k b.clients ≡ id_count k b0.clients)

module _ (id : ℕ) (b0 : BrokerState) (h : 1 ≤ id_count id b0.clients) where
  Kept-Connected : (b : BrokerState) → Kept b0 b → Connected b id
  Kept-Connected b p = id_count-find id b.clients (omega (arith, p.1 id, h))

  update-Kept :
      (f : ClientHandle → ClientHandle)
      → ((c : ClientHandle) → (f c).id ≡ c.id)
      → (b : BrokerState) → Kept b0 b
      → Kept b0 (with_clients b (update_client f id b.clients))
  update-Kept f keeps b p =
      (update-IsBroker f keeps b id p.0, λ k. id_count-update_client f keeps id k b.clients ∙ p.1 k)

  check-Kept :
      (b : BrokerState) (seq : ℕ) (o : Option ClientHandle)
      → Kept b0 b
      → Kept b0 (check_found b id seq o).0
  check-Kept b seq none p = p
  check-Kept b seq (some c) p =
      if_both (λ (r : BrokerState × Bool). Kept b0 r.0) (seq_follows c.last_seq seq)
        (with_clients b (update_client (set_last_seq seq) id b.clients), true) (b, false)
        (λ _. update-Kept (set_last_seq seq) (λ d. refl) b p) (λ _. p)

  clear-Kept :
      (live : ℕ → Bool) (b : BrokerState) → Kept b0 b → Kept b0 (clear_stale_controller live b)
  clear-Kept live b p = (clear-IsBroker b live p.0, p.1)

  take-Kept : (b : BrokerState) → Kept b0 b → Kept b0 (record b { controller_id = some id })
  take-Kept b p = (take-IsBroker b id (Kept-Connected b p) p.0, p.1)

  give-Kept : (b : BrokerState) → Kept b0 b → Kept b0 (record b { controller_id = none })
  give-Kept b p = (give-IsBroker b p.0, p.1)

  -- A block of a connected client keeps the order of the broker and its clients.
  pub run_block-Kept :
      (env : Channels) (block : LockBlock) → IsBroker b0 → Kept b0 (run_block env id block b0)
  unfolding run_block
  run_block-Kept env (check_seq seq) p =
      check-Kept b0 seq (find_client b0.clients id) (p, λ k. refl)
  run_block-Kept env (mark seq requested) p =
      update-Kept (greeted seq requested) (λ d. refl) b0 (p, λ k. refl)
  run_block-Kept env (assign role) p =
      let cleared : BrokerState = clear_stale_controller env.live b0 in
      assign-keeps (Kept b0) env id (λ b seq. check-Kept b seq (find_client b.clients id))
        (λ b seq requested _ _. update-Kept (greeted seq requested) (λ d. refl) b)
        (clear-Kept env.live) (λ b _. take-Kept b) (λ b _. give-Kept b) cleared.controller_id
        cleared role refl (clear-Kept env.live b0 (p, λ k. refl))
  run_block-Kept env (take_control seq) p =
      let cleared : BrokerState = clear_stale_controller env.live b0 in
      claim-keeps (Kept b0) env id (λ b seq. check-Kept b seq (find_client b.clients id))
        (λ b seq requested _ _. update-Kept (greeted seq requested) (λ d. refl) b)
        (clear-Kept env.live) (λ b _. take-Kept b) (λ b _. give-Kept b) cleared.controller_id seq
        cleared refl (clear-Kept env.live b0 (p, λ k. refl))
  run_block-Kept env (give_control seq) p =
      release-keeps (Kept b0) env id (λ b seq. check-Kept b seq (find_client b.clients id))
        (λ b seq requested _ _. update-Kept (greeted seq requested) (λ d. refl) b)
        (clear-Kept env.live) (λ b _. take-Kept b) (λ b _. give-Kept b) seq b0 (p, λ k. refl)
