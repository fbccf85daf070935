-- ===== src/Session/Replay/Mismatch.antt =====
-- crates/tetris-session/src/engine/replay.rs: the mismatch that a replay reports.
use tui_tetris.Prelude.{
  ℕ, zero, suc, ◌+◌, ◌-◌, ◌≡◌, refl, ap, ◌∙◌, inl, inr, Bool, true, false, List, [], ◌∷◌, ◌++◌,
  length, take,
}
use tui_tetris.Prelude.{
  Run, ret, fault, ◌>>=◌, Returns, Bool-cases, ◌==◌, ltb, lt→ltb, arith, length-append, take-append,
}
use mathlib.Core.Path.{sym, subst}
use tui_tetris.Session.Runtime.{Transition}
use tui_tetris.Session.Cache
use tui_tetris.Session.Cache.{CachedSession}
use tui_tetris.Session.Replay.{
  StepRecord, ReplayTape, ReplayMismatch, Verdict, verified, mismatched, hash_of, verify_steps,
  replay_and_verify,
}
use tui_tetris.Session.Replay.{inputs_of, minimal_failure_prefix}
use tui_tetris.Session.Replay.Verify.{
  Sound, AreInputs, transition-Returns, new-Returns, verify_steps-cons, record_tape-verifies,
}

-- The replay agrees with the records `before`, and then differs at `at`.
pub record FirstMismatch (index : ℕ) (c : CachedSession) (records : List StepRecord)
    (m : ReplayMismatch) : Type 0 where
  pub before : List StepRecord
  pub at : StepRecord
  pub after : List StepRecord
  pub split : records ≡ before ++ at ∷ after
  pub step : m.step ≡ index + length before
  pub expected : m.expected ≡ at.state_hash
  pub differs : (m.actual == m.expected) ≡ false
  pub session : CachedSession
  pub agrees : verify_steps index c before ≡ ret (verified session)
  pub result : CachedSession × Transition
  pub runs : Cache.transition session at.input ≡ ret result
  pub actual : m.actual ≡ hash_of result
  pub alone : verify_steps index c (before ++ at ∷ []) ≡ ret (mismatched m)

-- The mismatch of a run, if there is one.
mismatch_or : ReplayMismatch → Run Verdict → ReplayMismatch
mismatch_or d fault = d
mismatch_or d (ret (verified c)) = d
mismatch_or d (ret (mismatched m)) = m

abbrev is_verified : Run Verdict → Bool
is_verified fault = false
is_verified (ret (verified c)) = true
is_verified (ret (mismatched m)) = false

verify_steps-FirstMismatch :
    (index : ℕ) (c : CachedSession) (records : List StepRecord) (m : ReplayMismatch)
    → AreInputs (inputs_of records)
    → Sound c
    → verify_steps index c records ≡ ret (mismatched m)
    → FirstMismatch index c records m
unfolding verify_steps mismatch_or
verify_steps-FirstMismatch index c [] m ok w h = absurd (cc (ap is_verified h))
verify_steps-FirstMismatch index c (rec ∷ records) m (ok, oks) w h =
    let (r, e, w') = transition-Returns c rec.input ok w in
    elim (Bool-cases (hash_of r == rec.state_hash)) [
      | inl same ↦
          let step = λ (rs : List StepRecord). verify_steps-cons index c rec rs r true e same in
          let f =
            verify_steps-FirstMismatch (suc index) r.0 records m oks w' (sym (step records) ∙ h) in
          record {
            before = rec ∷ f.before;
            at = f.at;
            after = f.after;
            split = ap (λ rs. rec ∷ rs) f.split;
            step = omega (arith, f.step);
            expected = f.expected;
            differs = f.differs;
            session = f.session;
            agrees = step f.before ∙ f.agrees;
            result = f.result;
            runs = f.runs;
            actual = f.actual;
            alone = step (f.before ++ f.at ∷ []) ∙ f.alone;
          }
      | inr other ↦
          let found : ReplayMismatch = record {
            step = index;
            expected = rec.state_hash;
            actual = hash_of r;
          } in
          let here = λ (rs : List StepRecord). verify_steps-cons index c rec rs r false e other in
          let e' : found ≡ m = ap (mismatch_or found) (sym (here records) ∙ h) in
          subst (λ k. FirstMismatch index c (rec ∷ records) k) e'
            (record {
              before = [];
              at = rec;
              after = records;
              split = refl;
              step = omega arith;
              expected = refl;
              differs = other;
              session = c;
              agrees = refl;
              result = r;
              runs = e;
              actual = refl;
              alone = here [];
            })
    ]

-- If the replay of a tape reports a mismatch, the tape agrees with the session before it, and the
-- mismatch is at the first record whose hash is not that of its transition: it names the record's
-- index, the recorded hash and the actual one.
pub replay-FirstMismatch :
    (tape : ReplayTape) (m : ReplayMismatch)
    → AreInputs (inputs_of tape.records)
    → replay_and_verify tape ≡ ret (mismatched m)
    → (c : CachedSession) × ((Cache.new tape.seed ≡ ret c) × FirstMismatch 0 c tape.records m)
unfolding replay_and_verify
replay-FirstMismatch tape m ok h =
    let (c, e, w) = new-Returns tape.seed in
    (
      c,
      (
        e,
        verify_steps-FirstMismatch 0 c tape.records m ok w
            (ap (λ z. z >>= λ (k : CachedSession). verify_steps 0 k tape.records) (sym e) ∙ h),
      ),
    )

take-AreInputs :
    (n : ℕ) (records : List StepRecord)
    → AreInputs (inputs_of records)
    → AreInputs (inputs_of (take n records))
take-AreInputs zero records ok = tt
take-AreInputs (suc n) [] ok = tt
take-AreInputs (suc n) (rec ∷ records) (ok, oks) = (ok, take-AreInputs n records oks)

take-split :
    (n : ℕ) (before after : List StepRecord) (at : StepRecord)
    → n ≡ length before
    → take (suc n) (before ++ at ∷ after) ≡ before ++ at ∷ []
take-split n before after at e =
    let one : suc n - length before ≡ 1 = omega (arith, e) in
    take-append (suc n) before (at ∷ after) (omega (arith, e))
    ∙ ap (λ (k : ℕ). before ++ take k (at ∷ after)) one

-- The prefix of a tape up to a reported mismatch is made, and its replay reports the same mismatch,
-- at its last record.
pub minimal_failure_prefix-mismatched :
    (tape : ReplayTape) (m : ReplayMismatch)
    → AreInputs (inputs_of tape.records)
    → replay_and_verify tape ≡ ret (mismatched m)
    → Returns (minimal_failure_prefix tape m) (λ prefix.
      (replay_and_verify prefix ≡ ret (mismatched m)) × (length prefix.records ≡ suc m.step))
unfolding replay_and_verify minimal_failure_prefix
minimal_failure_prefix-mismatched tape m ok h =
    let (c, (e, f)) = replay-FirstMismatch tape m ok h in
    let size = ap (λ rs. length rs) f.split ∙ length-append f.before (f.at ∷ f.after) in
    let room : ltb m.step (length tape.records) ≡ true =
      lt→ltb m.step (length tape.records) (omega (arith, size, f.step)) in
    let cut : take (suc m.step) tape.records ≡ f.before ++ f.at ∷ [] =
      ap (λ rs. take (suc m.step) rs) f.split
      ∙ take-split m.step f.before f.after f.at (omega (arith, f.step)) in
    let (prefix, made, p) =
      record_tape-verifies tape.seed (inputs_of (take (suc m.step) tape.records))
        (take-AreInputs (suc m.step) tape.records ok) in
    (
      record {
        seed = prefix.seed;
        records = take (suc m.step) tape.records;
        final_snapshot = prefix.final_snapshot;
      },
      rw (room, made) refl,
      (
        ap
              (λ (n : ℕ). Cache.new n >>= λ (k : CachedSession).
                verify_steps 0 k (take (suc m.step) tape.records))
              p.0
            ∙ ap
                (λ z.
                  z >>= λ (k : CachedSession). verify_steps 0 k (take (suc m.step) tape.records))
                e
            ∙ ap (λ rs. verify_steps 0 c rs) cut
            ∙ f.alone,
        ap (λ rs. length rs) cut ∙ length-append f.before (f.at ∷ []) ∙ omega (arith, f.step),
      ),
    )
