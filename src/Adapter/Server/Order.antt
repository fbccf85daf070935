-- ===== src/Adapter/Server/Order.antt =====
-- crates/tetris-adapter/src/adapter/server.rs: the order of the sequence numbers of a client.
use tui_tetris.Prelude.{
  ℕ, ◌≤◌, ◌<◌, ◌≡◌, refl, sym, ap, ◌∙◌, ◌≢◌, Bool, true, false, Option, none, some, List, [], ◌∷◌,
  inl, inr, Bool-cases, arith,
}
use tui_tetris.Prelude.{◌==◌, ==_iff, if_both}
use mathlib.Core.Path.{subst}
use tui_tetris.Adapter.Protocol.{ParsedMessage, CommandMessage, command, RequestedCapabilities}
use tui_tetris.Adapter.Broker.{
  ClientHandle, BrokerState, add_client, find_client, remove_and_promote, check_found, seq_follows,
  set_last_seq, greeted, update_client, with_clients, handshaken_of, clear_stale_controller,
}
use tui_tetris.Adapter.Broker.Clients.{
  find-update_self, find-update_ne, find-add_some, find-remove_ne,
}
use tui_tetris.Adapter.Server.{Channels, Handled, InboundCommand, handle_message}
use tui_tetris.Adapter.Server.Preserves.{IsChecked, handle_message-keeps}
use tui_tetris.Adapter.Server.Answers.{MayPass, command-MayPass, MayPass-passes}
use tui_tetris.Adapter.Server.Steps.{
  ServerEvent, connects, receives, leaves, on_connect, on_receive, on_leave, Steps, done, next,
}

-- The client `k` is connected and has said hello, and its last number is at least `s`.
pub record IsPast (k s : ℕ) (b : BrokerState) : Type 0 where
  pub client : ClientHandle
  pub found : find_client b.clients k ≡ some client
  pub greeted : client.handshaken ≡ true
  pub last : ℕ
  pub is_last : client.last_seq ≡ some last
  pub reached : s ≤ last

-- The client `k` does not leave.
abbrev pub Stay : ℕ → List ServerEvent → Type 0
Stay k [] = Unit
Stay k (connects id ∷ events) = Stay k events
Stay k (receives env id msg ∷ events) = Stay k events
Stay k (leaves live id ∷ events) = (id ≢ k) × Stay k events

abbrev client_or : ClientHandle → Option ClientHandle → ClientHandle
client_or d none = d
client_or d (some c) = c

abbrev seq_or : ℕ → Option ℕ → ℕ
seq_or d none = d
seq_or d (some seq) = seq

module _ (k s : ℕ) where
  -- A change of another client.
  other-IsPast :
      (f : ClientHandle → ClientHandle) (keeps : (c : ClientHandle) → (f c).id ≡ c.id) (id : ℕ)
      (b : BrokerState)
      → (id == k) ≡ false
      → IsPast k s b
      → IsPast k s (with_clients b (update_client f id b.clients))
  other-IsPast f keeps id b apart p = record {
    client = p.client;
    found = find-update_ne f keeps id k b.clients apart ∙ p.found;
    greeted = p.greeted;
    last = p.last;
    is_last = p.is_last;
    reached = p.reached;
  }

  -- A change of the client itself, which says hello or has done so, to a number that is not lower.
  self-IsPast :
      (f : ClientHandle → ClientHandle) (keeps : (c : ClientHandle) → (f c).id ≡ c.id) (id n : ℕ)
      (b : BrokerState) (c : ClientHandle)
      → (id == k) ≡ true
      → find_client b.clients k ≡ some c
      → (f c).handshaken ≡ true
      → (f c).last_seq ≡ some n
      → s ≤ n
      → IsPast k s (with_clients b (update_client f id b.clients))
  self-IsPast f keeps id n b c same found on last le =
      subst (λ (i : ℕ). IsPast k s (with_clients b (update_client f i b.clients)))
        (sym ((==_iff id k).0 same))
        (record {
          client = f c;
          found = find-update_self f keeps k b.clients c found;
          greeted = on;
          last = n;
          is_last = last;
          reached = le;
        })

  -- The client that is found under the id is that of the property.
  same-client :
      (id : ℕ) (b : BrokerState) (c : ClientHandle) (p : IsPast k s b)
      → (id == k) ≡ true
      → find_client b.clients id ≡ some c
      → c ≡ p.client
  same-client id b c p same e =
      ap (client_or c) (sym e ∙ (ap (find_client b.clients) ((==_iff id k).0 same) ∙ p.found))

  check-IsPast :
      (id : ℕ) (b : BrokerState) (seq : ℕ) (o : Option ClientHandle)
      → find_client b.clients id ≡ o
      → IsPast k s b
      → IsPast k s (check_found b id seq o).0
  check-IsPast id b seq none e p = p
  check-IsPast id b seq (some c) e p =
      if_both (λ (r : BrokerState × Bool). IsPast k s r.0) (seq_follows c.last_seq seq)
        (with_clients b (update_client (set_last_seq seq) id b.clients), true) (b, false)
        (λ follows. elim (Bool-cases (id == k)) [
          | inr apart ↦ other-IsPast (set_last_seq seq) (λ d. refl) id b apart p
          | inl same ↦
              let at : c ≡ p.client = same-client id b c p same e in
              let last : c.last_seq ≡ some p.last =
                ap (λ (d : ClientHandle). d.last_seq) at ∙ p.is_last in
              let above : seq_follows (some p.last) seq ≡ true =
                ap (λ (o : Option ℕ). seq_follows o seq) (sym last) ∙ follows in
              let reached : s ≤ p.last = p.reached in
              self-IsPast (set_last_seq seq) (λ d. refl) id seq b p.client same p.found p.greeted
                refl (ground (arith, above, reached))
        ])
        (λ _. p)

  mark-IsPast :
      (id : ℕ) (b : BrokerState) (seq : ℕ) (requested : RequestedCapabilities)
      → IsChecked b id seq
      → IsPast k s b
      → IsPast k s (with_clients b (update_client (greeted seq requested) id b.clients))
  mark-IsPast id b seq requested is_checked p = elim (Bool-cases (id == k)) [
    | inr apart ↦ other-IsPast (greeted seq requested) (λ d. refl) id b apart p
    | inl same ↦ elim is_checked [
      | inl new ↦ absurd (
          let at : find_client b.clients id ≡ some p.client =
            ap (find_client b.clients) ((==_iff id k).0 same) ∙ p.found in
          let on : handshaken_of (find_client b.clients id) ≡ true =
            ap handshaken_of at ∙ p.greeted in
          ground (arith, new, on))
      | inr (c, found, is_last) ↦
          let at : c ≡ p.client = same-client id b c p same found in
          let equal : p.last ≡ seq =
            ap (seq_or 0)
              (sym p.is_last ∙ (ap (λ (d : ClientHandle). d.last_seq) (sym at) ∙ is_last)) in
          self-IsPast (greeted seq requested) (λ d. refl) id seq b p.client same p.found refl refl
            (subst (λ (n : ℕ). s ≤ n) equal p.reached)
    ]
  ]

  -- The property is about the clients alone.
  moved :
      {b : BrokerState} (controller : Option ℕ)
      → IsPast k s b
      → IsPast k s (record b { controller_id = controller })
  moved controller p = record {
    client = p.client;
    found = p.found;
    greeted = p.greeted;
    last = p.last;
    is_last = p.is_last;
    reached = p.reached;
  }

  receive-IsPast :
      (env : Channels) (id : ℕ) (msg : ParsedMessage) (b : BrokerState)
      → IsPast k s b
      → IsPast k s (handle_message env id msg b).broker
  receive-IsPast env id msg b p =
      handle_message-keeps (IsPast k s) env id
        (λ b' seq p'. check-IsPast id b' seq (find_client b'.clients id) refl p')
        (λ b' seq requested _ is_checked p'. mark-IsPast id b' seq requested is_checked p')
        (λ b' p'. moved (clear_stale_controller env.live b').controller_id p')
        (λ b' _ p'. moved (some id) p') (λ b' _ p'. moved none p') msg b p

  steps-IsPast :
      (events : List ServerEvent) (b b' : BrokerState)
      → Steps events b b'
      → Stay k events
      → IsPast k s b
      → IsPast k s b'
  unfolding add_client remove_and_promote
  steps-IsPast _ b _ (done _) _ p = p
  steps-IsPast _ b b' (next {events = events} (on_connect _ id free) rest) stay p =
      steps-IsPast events (add_client b id) b' rest stay (record {
        client = p.client;
        found = find-add_some id k b.clients p.client p.found;
        greeted = p.greeted;
        last = p.last;
        is_last = p.is_last;
        reached = p.reached;
      })
  steps-IsPast _ b b' (next {events = events} (on_receive _ env id msg c found) rest) stay p =
      steps-IsPast events (handle_message env id msg b).broker b' rest stay
        (receive-IsPast env id msg b p)
  steps-IsPast _ b b' (next {events = events} (on_leave _ live id) rest) (other, stay) p =
      steps-IsPast events (remove_and_promote live b id) b' rest stay (record {
        client = p.client;
        found = find-remove_ne id k b.clients (ground (arith, other)) ∙ p.found;
        greeted = p.greeted;
        last = p.last;
        is_last = p.is_last;
        reached = p.reached;
      })

-- A command that goes on leaves its sender with its number as the last.
passed-IsPast :
    (env : Channels) (id : ℕ) (msg : CommandMessage) (b : BrokerState) (x : InboundCommand)
    → MayPass env id msg b x
    → IsPast id msg.seq (handle_message env id (command msg) b).broker
unfolding handle_message
passed-IsPast env id msg b x p =
    subst (λ (h : Handled). IsPast id msg.seq h.broker) (sym (MayPass-passes env id msg x b p))
      (self-IsPast id msg.seq (set_last_seq msg.seq) (λ d. refl) id msg.seq b p.sender
        ((==_iff id id).1 refl) p.found p.greeted refl (omega arith))

-- Two commands of a client that go on to the game loop, with any events of the server between them
-- at which the client does not leave, go on under numbers that increase strictly.
pub forwarded-increases :
    (env env' : Channels) (id : ℕ) (msg msg' : CommandMessage) (events : List ServerEvent)
    (b b' : BrokerState) (x x' : InboundCommand)
    → (handle_message env id (command msg) b).forwarded ≡ x ∷ []
    → Steps events (handle_message env id (command msg) b).broker b'
    → Stay id events
    → (handle_message env' id (command msg') b').forwarded ≡ x' ∷ []
    → x.seq < x'.seq
unfolding handle_message
forwarded-increases env env' id msg msg' events b b' x x' first steps stay second =
    let p : MayPass env id msg b x = command-MayPass env id msg x b first in
    let p' : MayPass env' id msg' b' x' = command-MayPass env' id msg' x' b' second in
    let past : IsPast id msg.seq b' =
      steps-IsPast id msg.seq events (handle_message env id (command msg) b).broker b' steps stay
        (passed-IsPast env id msg b x p) in
    let same : p'.sender ≡ past.client = ap (client_or p'.sender) (sym p'.found ∙ past.found) in
    let last : p'.sender.last_seq ≡ some past.last =
      ap (λ (c : ClientHandle). c.last_seq) same ∙ past.is_last in
    let above : seq_follows (some past.last) msg'.seq ≡ true =
      ap (λ (o : Option ℕ). seq_follows o msg'.seq) (sym last) ∙ p'.follows in
    let one : msg.seq ≡ x.seq = ap (λ (i : InboundCommand). i.seq) p.is_entry in
    let two : msg'.seq ≡ x'.seq = ap (λ (i : InboundCommand). i.seq) p'.is_entry in
    let reached : msg.seq ≤ past.last = past.reached in ground (arith, above, one, two, reached)
