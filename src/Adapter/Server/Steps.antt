-- ===== src/Adapter/Server/Steps.antt =====
-- crates/tetris-adapter/src/adapter/server.rs: the broker under the tasks of all clients, in any
-- order of whole messages. A client connects with an id that is not in use, as the counter of the
-- accept loop gives it (Adapter.Server.Blocks); the task of a client handles its messages while it is
-- connected and removes it at its end.
use tui_tetris.Prelude.{
  ℕ, ◌≤◌, ◌≡◌, refl, ◌∙◌, Bool, true, false, Option, none, some, List, [], ◌∷◌, inl, inr,
  Bool-cases, arith, ap,
}
use tui_tetris.Prelude.{◌==◌, ==_iff, if_both, count_if-append}
use mathlib.Core.Path.{subst}
use tui_tetris.Adapter.Protocol.{ParsedMessage}
use tui_tetris.Adapter.Broker.{
  ClientHandle, BrokerState, empty_broker, add_client, new_client, find_client, remove_and_promote,
  check_found, seq_follows, set_last_seq, update_client, clear_stale_controller,
  clear_stale_controller_id, is_live_client, remove_client, is_controller, with_clients, is_id,
}
use tui_tetris.Adapter.Broker.Clients.{
  id_count, id_count-update_client, id_count-remove_client, find-update_some, find-add_some,
  find-none, find-remove_ne,
}
use tui_tetris.Adapter.Broker.Promotion.{promoted-find}
use tui_tetris.Adapter.Server.{Channels, handle_message}

pub data ServerEvent : Type 0 where
  connects : (id : ℕ) → ServerEvent
  receives : (env : Channels) (id : ℕ) (msg : ParsedMessage) → ServerEvent
  leaves : (live : ℕ → Bool) (id : ℕ) → ServerEvent

pub data Step : ServerEvent → BrokerState → BrokerState → Type 0 where
  on_connect :
      (b : BrokerState) (id : ℕ)
      → find_client b.clients id ≡ none
      → Step (connects id) b (add_client b id)
  on_receive :
      (b : BrokerState) (env : Channels) (id : ℕ) (msg : ParsedMessage) (c : ClientHandle)
      → find_client b.clients id ≡ some c
      → Step (receives env id msg) b (handle_message env id msg b).broker
  on_leave :
      (b : BrokerState) (live : ℕ → Bool) (id : ℕ)
      → Step (leaves live id) b (remove_and_promote live b id)

-- The events of a run, in order.
pub data Steps : List ServerEvent → BrokerState → BrokerState → Type 0 where
  done : (b : BrokerState) → Steps [] b b
  next :
      {e : ServerEvent} {events : List ServerEvent} {b b' b'' : BrokerState}
      → Step e b b'
      → Steps events b' b''
      → Steps (e ∷ events) b b''

-- A client is found by an id.
abbrev pub Connected : BrokerState → ℕ → Type 0
Connected b id = (c : ClientHandle) × (find_client b.clients id ≡ some c)

-- No id is in use twice, and the controller, if any, is connected.
pub record IsBroker (b : BrokerState) : Type 0 where
  pub distinct : (id : ℕ) → id_count id b.clients ≤ 1
  pub connected : (id : ℕ) → b.controller_id ≡ some id → Connected b id

module _ (f : ClientHandle → ClientHandle) (keeps : (c : ClientHandle) → (f c).id ≡ c.id) where
  -- A change of a client that keeps its id.
  pub update-IsBroker :
      (b : BrokerState) (id : ℕ)
      → IsBroker b
      → IsBroker (with_clients b (update_client f id b.clients))
  update-IsBroker b id p = record {
    distinct = λ k. omega (arith, id_count-update_client f keeps id k b.clients, p.distinct k);
    connected =
        λ k e. let (c, found) = p.connected k e in find-update_some f keeps id k b.clients c found;
  }

id_or : ℕ → Option ℕ → ℕ
id_or d none = d
id_or d (some id) = id

-- Who is not the controller is not the client that is.
pub other-controller :
    (o : Option ℕ) (id k : ℕ) → o ≡ some k → is_id o id ≡ false → (id == k) ≡ false
other-controller none id k e h = absurd (ground (arith, e))
other-controller (some c) id k e h = ground (arith, e, h)

-- The broker is in order, and the client of a task is connected.
abbrev IsBrokerWith : ℕ → BrokerState → Type 0
IsBrokerWith id b = IsBroker b × Connected b id

pub check-IsBrokerWith :
    (id : ℕ) (b : BrokerState) (seq : ℕ) (o : Option ClientHandle)
    → IsBrokerWith id b
    → IsBrokerWith id (check_found b id seq o).0
check-IsBrokerWith id b seq none p = p
check-IsBrokerWith id b seq (some c) p =
    if_both (λ (r : BrokerState × Bool). IsBrokerWith id r.0) (seq_follows c.last_seq seq)
      (with_clients b (update_client (set_last_seq seq) id b.clients), true) (b, false)
      (λ _. (
        update-IsBroker (set_last_seq seq) (λ d. refl) b id p.0,
        find-update_some (set_last_seq seq) (λ d. refl) id id b.clients p.1.0 p.1.1,
      ))
      (λ _. p)

pub clear-some :
    (o : Option ℕ) (is_live : ℕ → Bool) (id : ℕ)
    → clear_stale_controller_id o is_live ≡ some id
    → o ≡ some id
clear-some none is_live id h = h
clear-some (some c) is_live id h = elim (Bool-cases (is_live c)) [
  | inl on ↦ rw on at h
  | inr off ↦ absurd (ground (arith, off, h))
]

pub clear-IsBroker :
    (b : BrokerState) (live : ℕ → Bool) → IsBroker b → IsBroker (clear_stale_controller live b)
clear-IsBroker b live p = record {
  distinct = p.distinct;
  connected = λ k e. p.connected k (clear-some b.controller_id (is_live_client live b) k e);
}

pub take-IsBroker :
    (b : BrokerState) (id : ℕ)
    → Connected b id
    → IsBroker b
    → IsBroker (record b { controller_id = some id })
unfolding id_or
take-IsBroker b id c p = record {
  distinct = p.distinct;
  connected = λ k e. subst (Connected b) (ap (id_or 0) e) c;
}

pub give-IsBroker : (b : BrokerState) → IsBroker b → IsBroker (record b { controller_id = none })
give-IsBroker b p = record { distinct = p.distinct; connected = λ k e. absurd (ground (arith, e)) }

pub empty-IsBroker : IsBroker empty_broker
empty-IsBroker = record {
  distinct = λ id. omega arith;
  connected = λ id e. absurd (ground (arith, e));
}

pub connect-IsBroker :
    (b : BrokerState) (id : ℕ)
    → find_client b.clients id ≡ none
    → IsBroker b
    → IsBroker (add_client b id)
unfolding add_client
connect-IsBroker b id free p = record {
  distinct = λ k.
      let counted =
        count_if-append (λ (c : ClientHandle). c.id == k) b.clients (new_client id ∷ []) in
      elim (Bool-cases (id == k)) [
        | inl same ↦
            let absent : id_count k b.clients ≡ 0 =
              find-none k b.clients
                (subst (λ (i : ℕ). find_client b.clients i ≡ none) ((==_iff id k).0 same) free) in
            ground (arith, counted, absent, same)
        | inr other ↦ ground (arith, counted, other, p.distinct k)
      ];
  connected = λ k e. let (c, found) = p.connected k e in (c, find-add_some id k b.clients c found);
}

pub leave-IsBroker :
    (b : BrokerState) (live : ℕ → Bool) (id : ℕ)
    → IsBroker b
    → IsBroker (remove_and_promote live b id)
unfolding remove_and_promote
leave-IsBroker b live id p = record {
  distinct = λ k. omega (arith, id_count-remove_client id k b.clients, p.distinct k);
  connected = λ k. elim (Bool-cases (is_controller b id)) [
    | inl on ↦ rw on (λ e. promoted-find live (remove_client id b.clients) k e)
    | inr off ↦ rw off (λ e.
        let (c, found) = p.connected k e in
        (c, find-remove_ne id k b.clients (other-controller b.controller_id id k e off) ∙ found))
  ];
}
