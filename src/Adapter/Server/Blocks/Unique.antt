-- ===== src/Adapter/Server/Blocks/Unique.antt =====
-- crates/tetris-adapter/src/adapter/server.rs: the ids of the tasks, the counter of the accept loop
-- and the clients of the broker, over the blocks.
use tui_tetris.Prelude.{
  ℕ, ◌+◌, ◌%◌, ◌≤◌, ◌<◌, ◌≡◌, refl, Bool, true, false, List, [], ◌∷◌, inl, inr, Bool-cases, arith,
  ap, ◌∙◌, sym,
}
use tui_tetris.Prelude.{◌==◌, ==_iff, u64_mod, count_if-append}
use tui_tetris.Adapter.Broker.{
  ClientHandle, new_client, add_client, remove_client, remove_and_promote,
}
use tui_tetris.Adapter.Broker.Clients.{
  id_count, find-count_none, id_count-remove_self, id_count-remove_ne,
}
use tui_tetris.Adapter.Server.{Channels}
use tui_tetris.Adapter.Server.Steps.{IsBroker, connect-IsBroker, leave-IsBroker, empty-IsBroker}
use tui_tetris.Adapter.Server.Blocks.{
  ServerTasks, no_tasks, accept, without, push_client, end_task, LockBlock, run_block, tasks_of,
  Blocks, begins, accepts, pushes, runs, ends,
}
use tui_tetris.Adapter.Server.Blocks.Kept.{run_block-Kept}

tasks_of-without_self : (id : ℕ) (ids : List ℕ) → tasks_of id (without id ids) ≡ 0
tasks_of-without_self id [] = refl
tasks_of-without_self id (k ∷ ids) = elim (Bool-cases (k == id)) [
  | inl e ↦ rw e (tasks_of-without_self id ids)
  | inr e ↦ rw e (rw e (omega (arith, tasks_of-without_self id ids)))
]

tasks_of-without_ne :
    (id k : ℕ) (ids : List ℕ) → (id == k) ≡ false → tasks_of k (without id ids) ≡ tasks_of k ids
tasks_of-without_ne id k [] h = refl
tasks_of-without_ne id k (j ∷ ids) h = elim (Bool-cases (j == id)) [
  | inl e ↦
      let off : (j == k) ≡ false = ground (arith, e, h) in
      rw e (rw off (omega (arith, tasks_of-without_ne id k ids h)))
  | inr e ↦ rw e (rw (tasks_of-without_ne id k ids h) refl)
]

-- No two tasks have the same id, none has an id above the counter, the clients of the broker are those
-- of the tasks that run, and the controller, if any, is one of them.
pub record IsServer (t : ServerTasks) : Type 0 where
  pub unique : (k : ℕ) → tasks_of k t.starting + tasks_of k t.running ≤ 1
  pub fresh : (k : ℕ) → t.client_id_counter < k → tasks_of k t.starting + tasks_of k t.running ≡ 0
  pub listed : (k : ℕ) → id_count k t.broker.clients ≡ tasks_of k t.running
  pub broker : IsBroker t.broker

same_count : (f : ℕ → ℕ) (id k : ℕ) → (id == k) ≡ true → f k ≡ f id
same_count f id k e = ap f (sym ((==_iff id k).0 e))

accept-IsServer :
    (n : ℕ) (t : ServerTasks)
    → t.client_id_counter ≡ n
    → n + 1 < u64_mod
    → IsServer t
    → ((accept t).client_id_counter ≡ n + 1) × IsServer (accept t)
unfolding accept
accept-IsServer n t e h p =
    let id = (t.client_id_counter + 1) % u64_mod in
    let next : id ≡ n + 1 = omega arith in
    (
      next,
      record {
        unique = λ k. elim (Bool-cases (id == k)) [
          | inl same ↦ rw same (ground (arith, p.fresh k (ground (arith, same, next, e))))
          | inr other ↦ rw other (omega (arith, p.unique k))
        ];
        fresh = λ k above.
            let off : (id == k) ≡ false = ground arith in
            rw off (omega (arith, p.fresh k (omega (arith, next, e, above))));
        listed = p.listed;
        broker = p.broker;
      },
    )

push_client-IsServer :
    (t : ServerTasks) (id : ℕ)
    → 1 ≤ tasks_of id t.starting
    → IsServer t
    → IsServer (push_client id t)
unfolding push_client add_client
push_client-IsServer t id starts p = record {
  unique = λ k. elim (Bool-cases (id == k)) [
    | inl same ↦
        let e = (==_iff id k).0 same in
        rw same (
          omega (
            arith,
            p.unique id,
            tasks_of-without_self id t.starting,
            same_count (λ j. tasks_of j (without id t.starting)) id k same,
            same_count (λ j. tasks_of j t.running) id k same,
          ))
    | inr other ↦ rw other (omega (arith, p.unique k, tasks_of-without_ne id k t.starting other))
  ];
  fresh = λ k above. elim (Bool-cases (id == k)) [
    | inl same ↦
        absurd (
          omega (arith, p.fresh k above, starts, same_count (λ j. tasks_of j t.starting) id k same))
    | inr other ↦
        rw other (omega (arith, p.fresh k above, tasks_of-without_ne id k t.starting other))
  ];
  listed = λ k.
      count_if-append (λ (c : ClientHandle). c.id == k) t.broker.clients (new_client id ∷ [])
      ∙ elim (Bool-cases (id == k)) [
        | inl same ↦ rw same (omega (arith, p.listed k))
        | inr other ↦ rw other (omega (arith, p.listed k))
      ];
  broker =
      connect-IsBroker t.broker id
        (find-count_none id t.broker.clients (omega (arith, p.listed id, p.unique id, starts)))
        p.broker;
}

end_task-IsServer :
    (t : ServerTasks) (live : ℕ → Bool) (id : ℕ) → IsServer t → IsServer (end_task live id t)
unfolding end_task remove_and_promote
end_task-IsServer t live id p = record {
  unique = λ k. elim (Bool-cases (id == k)) [
    | inl same ↦ omega (
      arith,
      p.unique k,
      tasks_of-without_self id t.running,
      same_count (λ j. tasks_of j (without id t.running)) id k same,
    )
    | inr other ↦ omega (arith, p.unique k, tasks_of-without_ne id k t.running other)
  ];
  fresh = λ k above. elim (Bool-cases (id == k)) [
    | inl same ↦ omega (
      arith,
      p.fresh k above,
      tasks_of-without_self id t.running,
      same_count (λ j. tasks_of j (without id t.running)) id k same,
    )
    | inr other ↦ omega (arith, p.fresh k above, tasks_of-without_ne id k t.running other)
  ];
  listed = λ k. elim (Bool-cases (id == k)) [
    | inl same ↦ omega (
      arith,
      id_count-remove_self id t.broker.clients,
      tasks_of-without_self id t.running,
      same_count (λ j. id_count j (remove_client id t.broker.clients)) id k same,
      same_count (λ j. tasks_of j (without id t.running)) id k same,
    )
    | inr other ↦
        id_count-remove_ne id k t.broker.clients other
        ∙ p.listed k
        ∙ sym (tasks_of-without_ne id k t.running other)
  ];
  broker = leave-IsBroker t.broker live id p.broker;
}

begins-IsServer : IsServer no_tasks
begins-IsServer = record {
  unique = λ k. omega arith;
  fresh = λ k above. refl;
  listed = λ k. refl;
  broker = empty-IsBroker;
}

run-IsServer :
    (t : ServerTasks) (env : Channels) (id : ℕ) (block : LockBlock)
    → 1 ≤ tasks_of id t.running
    → IsServer t
    → IsServer (record t { broker = run_block env id block t.broker })
run-IsServer t env id block on p =
    let kept = run_block-Kept id t.broker (omega (arith, p.listed id, on)) env block p.broker in
    record {
      unique = p.unique;
      fresh = p.fresh;
      listed = λ k. kept.1 k ∙ p.listed k;
      broker = kept.0;
    }

-- From the start of the server on, with fewer than 2 ^ 64 connections accepted and the blocks of the
-- tasks run in any order: the counter has counted the connections; no two tasks have the same id, and
-- none has one above the counter; the ids of the clients in the broker are those of the tasks that
-- run, each once; and the controller, if there is one, is one of these clients.
pub Blocks-IsServer :
    (n : ℕ) (t : ServerTasks) → Blocks n t → n < u64_mod → (t.client_id_counter ≡ n) × IsServer t
unfolding push_client end_task
Blocks-IsServer _ _ begins h = (refl, begins-IsServer)
Blocks-IsServer _ _ (accepts n t run) h =
    let (e, p) = Blocks-IsServer n t run (omega arith) in accept-IsServer n t e h p
Blocks-IsServer _ _ (pushes n t id run starts) h =
    let (e, p) = Blocks-IsServer n t run h in (e, push_client-IsServer t id starts p)
Blocks-IsServer _ _ (runs n t env id block run on) h =
    let (e, p) = Blocks-IsServer n t run h in (e, run-IsServer t env id block on p)
Blocks-IsServer _ _ (ends n t live id run on) h =
    let (e, p) = Blocks-IsServer n t run h in (e, end_task-IsServer t live id p)
