-- ===== src/Verification/Stable.antt =====
-- The wait for a stable recovery of internal/verification/service.go: it ends, and what it returns is the
-- end of an unbroken run of good observations.
use triovexa.Prelude.{
  ℕ, zero, suc, ◌+◌, ◌≤◌, ◌<◌, Bool, true, false, ◌≡◌, refl, subst, List, [], ◌∷◌, ◌++◌, inl, inr,
  Bool-cases, arith, ltb,
}
use triovexa.Domain.{Time, Incident, Snapshot}
use triovexa.Triage.{Answer, answer, failure}
use triovexa.World.{World, Env, M, ok, ◌>>=◌, pure, ask, now}
use triovexa.World.Ensures.{Ensures, pure-Ensures, raise-Ensures, if-Ensures, now-then, ask-then}
use triovexa.Verification.Checks.{build_checks, recovery_checks_passed}
use triovexa.Verification.Observe.{
  Observed, Watch, count_on, observe_next, take_answer, wait_round, in_time, observe,
}

-- The last `n` observations pass the checks against the baseline.
pub data GoodRun (before : Snapshot) : ℕ → List Snapshot → Type 0 where
  no_run : {xs : List Snapshot} → GoodRun before 0 xs
  one_more :
      {n : ℕ} {xs : List Snapshot} (s : Snapshot)
      → GoodRun before n xs
      → recovery_checks_passed (build_checks before s) ≡ true
      → GoodRun before (suc n) (xs ++ s ∷ [])

-- The loop's counter counts such a run, and its checks are those of the last observation.
abbrev pub IsCounted : Snapshot → Observed → Type 0
IsCounted before o =
    GoodRun before o.consecutive o.observations × (o.checks ≡ build_checks before o.after)

pub count_on-GoodRun :
    (before next : Snapshot) (b : Bool) (n : ℕ) (xs : List Snapshot)
    → GoodRun before n xs
    → recovery_checks_passed (build_checks before next) ≡ b
    → GoodRun before (count_on (build_checks before next) n) (xs ++ next ∷ [])
unfolding count_on
count_on-GoodRun before next true n xs h p = rw p (one_more next h p)
count_on-GoodRun before next false n xs h p = rw p no_run

-- A step that returns.
pub record Returns {A : Type 0} (m : M A) (w : World) : Type 0 where
  pub value : A
  pub after : World
  pub returned : m w ≡ ok value after

module _ (env : Env) (watch : Watch) (incident : Incident) (before : Snapshot)
    (deadline : Time) where
  -- A round that returns early keeps the counter; so does one that goes on.
  module _ (again : Observed → M Observed)
      (counts : (o : Observed) (w : World)
        → IsCounted before o
        → Ensures (again o) w (λ p _. IsCounted before p)) where
    take_answer-IsCounted :
        (o : Observed) (w : World) (a : Answer Snapshot)
        → IsCounted before o
        → Ensures
            (take_answer env watch incident before deadline o again a)
            w
            (λ p _. IsCounted before p)
    unfolding take_answer
    take_answer-IsCounted o w (failure e) h = pure-Ensures _ h
    take_answer-IsCounted o w (answer next) h =
        unfold observe_next in
        counts _ w (count_on-GoodRun before next _ o.consecutive o.observations h.0 refl, refl)

    wait_round-IsCounted :
        (o : Observed) (w : World) (b : Bool)
        → IsCounted before o
        → Ensures
            (wait_round env watch incident before deadline o again b)
            w
            (λ p _. IsCounted before p)
    unfolding wait_round
    wait_round-IsCounted o w true h = pure-Ensures _ h
    wait_round-IsCounted o w false h =
        ask-then _ _ (take_answer-IsCounted o w (watch.fetch incident w.reads) h)

    in_time-IsCounted :
        (o : Observed) (w : World) (at : Time)
        → IsCounted before o
        → Ensures
            (in_time env watch incident before deadline o again at)
            w
            (λ p _. IsCounted before p)
    unfolding in_time
    in_time-IsCounted o w at h =
        if-Ensures (ltb at deadline) _ _
          (λ _. ask-then _ _ (wait_round-IsCounted o w (watch.cancelled w.reads) h))
          λ _. pure-Ensures o h

  -- Whatever the loop returns, its counter is the length of a run of good observations at the end of those
  -- it made, and its checks are those of the last one.
  pub observe-IsCounted :
      (fuel : ℕ) (o : Observed) (w : World)
      → IsCounted before o
      → Ensures (observe env watch incident before deadline fuel o) w (λ p _. IsCounted before p)
  unfolding observe
  observe-IsCounted zero o w h = raise-Ensures _
  observe-IsCounted (suc fuel) o w h =
      if-Ensures (ltb o.consecutive watch.required) _ _
        (λ _. now-then env _ (
          in_time-IsCounted (observe env watch incident before deadline fuel)
            (observe-IsCounted fuel) o _ (env.clock w.reads) h))
        λ _. pure-Ensures o h

  module _ (again : Observed → M Observed) (w : World)
      (returns : (o : Observed) → Returns (again o) w) where
    take_answer-Returns :
        (o : Observed) (a : Answer Snapshot)
        → Returns (take_answer env watch incident before deadline o again a) w
    unfolding take_answer pure
    take_answer-Returns o (failure e) = record { value = _; after = w; returned = refl }
    take_answer-Returns o (answer next) = returns _

    wait_round-Returns :
        (o : Observed) (b : Bool)
        → Returns (wait_round env watch incident before deadline o again b) w
    unfolding wait_round pure ◌>>=◌ ask
    wait_round-Returns o true = record { value = _; after = w; returned = refl }
    wait_round-Returns o false =
        let r = take_answer-Returns o (watch.fetch incident w.reads) in
        record { value = r.value; after = r.after; returned = r.returned }

    in_time-Returns :
        (o : Observed) (at : Time)
        → Returns (in_time env watch incident before deadline o again at) w
    unfolding in_time ◌>>=◌ ask pure
    in_time-Returns o at = elim (Bool-cases (ltb at deadline)) [
      | inl e ↦
          let r = wait_round-Returns o (watch.cancelled w.reads) in
          rw (e, in_time, ◌>>=◌, ask)
            (record { value = r.value; after = r.after; returned = r.returned })
      | inr e ↦ rw (e, in_time, pure) (record { value = o; after = w; returned = refl })
    ]

  late-Returns :
      (again : Observed → M Observed) (w : World) (o : Observed) (at : Time)
      → deadline ≤ at
      → Returns (in_time env watch incident before deadline o again at) w
  unfolding in_time pure
  late-Returns again w o at late =
      let e : ltb at deadline ≡ false = ground (arith, late) in
      rw (e, in_time, pure) (record { value = o; after = w; returned = refl })

  -- A round: the loop goes on from the next reading of the clock.
  round-Returns :
      (fuel : ℕ) (o : Observed) (w : World)
      → Returns
          (in_time env watch incident before deadline o
            (observe env watch incident before deadline fuel)
            (env.clock w.reads))
          (record w { reads = suc w.reads })
      → Returns (observe env watch incident before deadline (suc fuel) o) w
  unfolding observe ◌>>=◌ now pure
  round-Returns fuel o w r = elim (Bool-cases (ltb o.consecutive watch.required)) [
    | inl e ↦
        rw (e, observe, ◌>>=◌, now)
          (record { value = r.value; after = r.after; returned = r.returned })
    | inr e ↦ rw (e, observe, pure) (record { value = o; after = w; returned = refl })
  ]

  later : (a b : ℕ) → a ≡ b → deadline ≤ env.clock a → deadline ≤ env.clock b
  later a b e = subst (λ n. deadline ≤ env.clock n) e

  -- Where the clock reaches the deadline within the rounds that the fuel allows, the loop returns.
  pub observe-Returns :
      (fuel k : ℕ) (o : Observed) (w : World)
      → k < fuel
      → deadline ≤ env.clock (w.reads + k)
      → Returns (observe env watch incident before deadline fuel o) w
  observe-Returns zero k o w enough late = absurd (omega (arith, enough))
  observe-Returns (suc fuel) zero o w enough late =
      round-Returns fuel o w (late-Returns _ _ o (env.clock w.reads) (later _ _ (omega arith) late))
  observe-Returns (suc fuel) (suc k) o w enough late = round-Returns fuel o w (
      in_time-Returns (observe env watch incident before deadline fuel)
        (record w { reads = suc w.reads })
        (λ p. observe-Returns fuel k p _ (omega (arith, enough)) (later _ _ (omega arith) late)) o
        (env.clock w.reads))
