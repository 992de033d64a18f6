-- ===== src/Verification/Observe.antt =====
-- The wait for a stable recovery in evaluate of internal/verification/service.go. Each round reads the
-- clock; the loop has no other bound, so it takes fuel.
use triovexa.Prelude.{
  ℕ, zero, suc, String, Bool, true, false, List, [], ◌∷◌, ◌++◌, Option, none, some, ltb,
  if◌then◌else◌,
}
use triovexa.Domain.{Time, Incident, Snapshot}
use triovexa.Failure.{out_of_fuel}
use triovexa.Triage.{Answer, answer, failure}
use triovexa.World.{Env, M, ◌>>=◌, pure, raise, ask, now}
use triovexa.Verification.Checks.{Checks, build_checks, recovery_checks_passed}

-- The variables of the loop; the last one says why it was left early.
pub record Observed : Type 0 where
  pub after : Snapshot
  pub observations : List Snapshot
  pub checks : Checks
  pub consecutive : ℕ
  pub interrupted : Option String

-- The answer to a question to the fetcher, and the moment at which the caller gives up.
pub record Watch : Type 0 where
  pub fetch : Incident → ℕ → Answer Snapshot
  pub cancelled : ℕ → Bool
  pub required : ℕ

unfoldable pub count_on : Checks → ℕ → ℕ
count_on c n = if recovery_checks_passed c then suc n else 0

unfoldable pub observe_next : Snapshot → Observed → Snapshot → Observed
observe_next before o next = record {
  after = next;
  observations = o.observations ++ next ∷ [];
  checks = build_checks before next;
  consecutive = count_on (build_checks before next) o.consecutive;
  interrupted = none;
}

abbrev pub interrupt : Observed → String → Observed
interrupt o reason = record o { interrupted = some reason }

module _ (env : Env) (watch : Watch) (incident : Incident) (before : Snapshot)
    (deadline : Time) where
  -- What follows the fetch of a round.
  unfoldable pub take_answer : Observed → (Observed → M Observed) → Answer Snapshot → M Observed
  take_answer o again (failure e) =
      pure (interrupt o "verification inconclusive: recovery telemetry became unavailable")
  take_answer o again (answer next) = again (observe_next before o next)

  unfoldable pub wait_round : Observed → (Observed → M Observed) → Bool → M Observed
  wait_round o again true = pure (interrupt o "verification cancelled before recovery was stable")
  wait_round o again false = ask (watch.fetch incident) >>= take_answer o again

  unfoldable pub in_time : Observed → (Observed → M Observed) → Time → M Observed
  in_time o again at =
      if ltb at deadline then ask watch.cancelled >>= wait_round o again else pure o

  unfoldable pub observe : ℕ → Observed → M Observed
  observe zero o = raise out_of_fuel
  observe (suc fuel) o =
      if ltb o.consecutive watch.required then now env >>= in_time o (observe fuel) else pure o
