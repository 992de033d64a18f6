-- ===== src/Verification/Confirmed.antt =====
-- What a success of internal/verification/service.go's evaluate stands on, where the wait for a stable
-- recovery is part of it.
use triovexa.Prelude.{
  ℕ, suc, ◌+◌, ◌≤◌, ◌<◌, not, ◌≡◌, ◌≢◌, ◌⊎◌, refl, inl, inr, Bool-cases, Option-cases, arith, ltb,
  ap, [],
}
use triovexa.Domain.{
  Incident, Snapshot, success, VerificationStatus, failed_verification, inconclusive_verification,
}
use triovexa.World.{World, Env, ok, continue, ◌>>=◌, pure, now}
use triovexa.World.Ensures.{Ensures, if-Ensures, pure-Ensures, now-then}
use triovexa.Verification.Checks.{verdict}
use triovexa.Verification.Observe.{Observed}
use triovexa.Verification.Evaluate.{
  VerificationConfig, Evaluation, watch, first_observed, watch_recovery, judge, compare_snapshots,
}
use triovexa.Verification.Verdicts.{IsHealthy, IsDrained, TwoBetter, NoneWorse, verdict-IsHealthy}
use triovexa.Verification.Stable.{
  GoodRun, IsCounted, count_on-GoodRun, no_run, Returns, observe-IsCounted, observe-Returns,
}

-- The service is healthy in the last observation, which is better than the baseline, and where more than
-- one observation is required so many of them, in a row and at the end, pass the checks.
pub record IsEarned (c : VerificationConfig) (before : Snapshot) (e : Evaluation) : Type 0 where
  pub healthy : IsHealthy e.after
  pub better : IsDrained before e.after ⊎ (TwoBetter before e.after × NoneWorse before e.after)
  pub run : ℕ
  pub long_enough : (c.required_observations ≤ 1) ⊎ (c.required_observations ≤ run)
  pub good : GoodRun before run e.observations

success_or_not : (s : VerificationStatus) → (s ≢ success) ⊎ (s ≡ success)
success_or_not success = inr refl
success_or_not failed_verification = inl λ e. cc
success_or_not inconclusive_verification = inl λ e. cc

module _ (env : Env) (c : VerificationConfig) where
  first-IsCounted : (before after : Snapshot) → IsCounted before (first_observed env c before after)
  first-IsCounted before after = (count_on-GoodRun before after _ 0 [] no_run refl, refl)

  -- What the tests of judge leave of a success.
  judge-success :
      (before : Snapshot) (o : Observed)
      → (judge env c before o).status ≡ success
      → (verdict before o.checks ≡ success)
        × ((c.required_observations ≤ 1) ⊎ (c.required_observations ≤ o.consecutive))
        × ((judge env c before o).after ≡ o.after)
        × ((judge env c before o).observations ≡ o.observations)
  unfolding judge
  judge-success before o s = elim (Option-cases o.interrupted) [
    | inr (reason, p) ↦ absurd (ground (arith, p, s))
    | inl n ↦ elim (Bool-cases (ltb 1 c.required_observations)) [
      | inl many ↦ elim (Bool-cases (ltb o.consecutive c.required_observations)) [
        | inl few ↦ absurd (ground (arith, n, many, few, s))
        | inr enough ↦ (
          ground (arith, n, s),
          inr (ground (arith, enough)),
          ground (arith, n),
          ground (arith, n),
        )
      ]
      | inr one ↦
          (ground (arith, n, s), inl (ground (arith, one)), ground (arith, n), ground (arith, n))
    ]
  ]

  judge-IsEarned :
      (before : Snapshot) (o : Observed)
      → IsCounted before o
      → (judge env c before o).status ≡ success
      → IsEarned c before (judge env c before o)
  judge-IsEarned before o h s =
      let j = judge-success before o s in
      let v = (verdict-IsHealthy before o.after).0 (rw h.1 at j.0) in
      record {
        healthy = rw j.2 v.0;
        better = rw j.2 v.1;
        run = o.consecutive;
        long_enough = j.1;
        good = rw j.3 h.0;
      }

  watched :
      (incident : Incident) (before after : Snapshot) (w : World) (k : ℕ)
      → k < c.fuel
      → env.clock w.reads + c.observation_timeout ≤ env.clock (suc w.reads + k)
      → Returns (watch_recovery env c incident before after) w
  unfolding watch_recovery ◌>>=◌ now pure
  watched incident before after w k enough late =
      elim (Bool-cases (ltb 1 c.required_observations)) [
        | inl e ↦
            let r =
              observe-Returns env (watch env c) incident before
                (env.clock w.reads + c.observation_timeout) c.fuel k
                (first_observed env c before after) (record w { reads = suc w.reads }) enough
                late in
            rw (e, watch_recovery, ◌>>=◌, now)
              (record { value = r.value; after = r.after; returned = r.returned })
        | inr e ↦ rw (e, watch_recovery, pure) (record { value = _; after = w; returned = refl })
      ]

  watched-IsCounted :
      (incident : Incident) (before after : Snapshot) (w : World)
      → Ensures (watch_recovery env c incident before after) w (λ o _. IsCounted before o)
  unfolding watch_recovery
  watched-IsCounted incident before after w =
      if-Ensures (not (ltb 1 c.required_observations)) _ _
        (λ _. pure-Ensures _ (first-IsCounted before after))
        λ _. now-then env _ (
          observe-IsCounted env (watch env c) incident before _ c.fuel
            (first_observed env c before after) _ (first-IsCounted before after))

  pub record Compared (incident : Incident) (before after : Snapshot) (w : World) : Type 0 where
    pub evaluation : Evaluation
    pub ends : World
    pub returned : compare_snapshots env c incident before after w ≡ ok evaluation ends
    pub earned : (evaluation.status ≢ success) ⊎ IsEarned c before evaluation

  -- Where the clock reaches the end of the observation within the rounds that the fuel allows, the
  -- comparison of two snapshots returns, and if it returns a success, the service is healthy and better
  -- than its baseline in the last observation, and the run of good observations is as long as required.
  pub compare_snapshots-Compared :
      (incident : Incident) (before after : Snapshot) (w : World) (k : ℕ)
      → k < c.fuel
      → env.clock w.reads + c.observation_timeout ≤ env.clock (suc w.reads + k)
      → Compared incident before after w
  unfolding compare_snapshots ◌>>=◌ pure
  compare_snapshots-Compared incident before after w k enough late =
      let r = watched incident before after w k enough late in
      record {
        evaluation = judge env c before r.value;
        ends = r.after;
        returned = ap (λ o. continue o λ p. pure (judge env c before p)) r.returned;
        earned = elim (success_or_not (judge env c before r.value).status) [
          | inl other ↦ inl other
          | inr e ↦ inr (
              judge-IsEarned before r.value
                ((watched-IsCounted incident before after w).at r.value r.after r.returned) e)
        ];
      }
