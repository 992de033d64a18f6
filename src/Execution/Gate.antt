-- ===== src/Execution/Gate.antt =====
-- ExecuteAction of internal/execution/service.go calls the adapter behind its tests and its claim only.
use triovexa.Prelude.{
  String, Bool, true, not, ◌≡◌, ◌≢◌, ap, ◌∙◌, subst, List, some, Option-cases, inl, inr, suc, arith,
  last,
}
use triovexa.Domain.{Time, ExecutionRecord}
use triovexa.Failure.{no_longer_executable, lost_claim}
use triovexa.Storage.{MemoryStore}
use triovexa.Storage.Executions.{claim_execution}
use triovexa.World.{World, Env, Outcome, final}
use triovexa.World.Within.{Within, Within-raise}
use triovexa.World.Quiet.{Quiet}
use triovexa.World.Silent.{Silent, Silent-frame, silent_rules, Quiet-Silent, bind-WentOn}
use triovexa.World.Ensures.{
  Ensures, bind-Ensures, now-then, new_id-then, attempt-Ensures, look-Ensures, pure-Ensures,
  raise-Ensures, if-Ensures,
}
use triovexa.Execution.Authorize.{authorize-Quiet}
use triovexa.Execution.Admission.{Authorized, authorize-Authorized}
use triovexa.Execution.Run.{Config, Ticket, authorize, claim, claim_lost, execute_action}

module _ (env : Env) (c : Config) where
  -- ClaimExecution answered that the action is claimed.
  pub record ClaimWon (t : Ticket) (r : ExecutionRecord) (w : World) : Type 0 where
    pub stored_at : Time
    pub store_after : MemoryStore
    pub won :
        claim_execution stored_at t.incident.id t.action.id r w.store ≡ some (true, store_after)

  claim_lost-Silent :
      (rs : List ExecutionRecord) → Within Silent (claim_lost env c {A = Unit {0}} rs)
  unfolding claim_lost
  claim_lost-Silent rs = elim (Option-cases (last rs)) [
    | inl n ↦ rw (n, claim_lost) (Within-raise Silent-frame no_longer_executable)
    | inr (r, p) ↦ rw (p, claim_lost) (Within-raise Silent-frame (lost_claim r))
  ]

  claim-Silent : (t : Ticket) (initiated_by : String) → Within Silent (claim env c t initiated_by)
  unfolding claim
  claim-Silent t initiated_by = search (silent_rules, claim_lost-Silent) depth 32

  claim_lost-fails :
      (Q : Unit {0} → World → Type 0) (rs : List ExecutionRecord) (w : World)
      → Ensures (claim_lost env c rs) w Q
  unfolding claim_lost
  claim_lost-fails Q rs w = elim (Option-cases (last rs)) [
    | inl n ↦ rw (n, claim_lost) (raise-Ensures no_longer_executable)
    | inr (r, p) ↦ rw (p, claim_lost) (raise-Ensures (lost_claim r))
  ]

  claim-ClaimWon :
      (t : Ticket) (initiated_by : String) (w : World)
      → Ensures (claim env c t initiated_by) w (λ r _. ClaimWon t r w)
  unfolding claim
  claim-ClaimWon t initiated_by w = new_id-then env _ (
      now-then env _ (
        now-then env _ (
          now-then env _ (
            bind-Ensures _ _ (
              attempt-Ensures _ λ claimed s p. bind-Ensures _ _ (
                if-Ensures (not claimed) _ _
                  (λ lost. bind-Ensures _ _ (look-Ensures _ (claim_lost-fails _ _ _)))
                  λ won. pure-Ensures tt (
                    pure-Ensures _ (record {
                      stored_at = env.clock (suc (suc w.reads));
                      store_after = s;
                      won = p ∙ ap (λ (b : Bool). some (b, s)) (ground (arith, won));
                    }))))))))

  -- The ticket and the claim that a call of the adapter stands behind.
  pub record Cleared (action_id initiated_by : String) (w : World) : Type 0 where
    pub ticket : Ticket
    pub claimed_in : World
    pub authorized : Authorized env c action_id initiated_by w claimed_in ticket
    pub unchanged : Quiet w claimed_in
    pub claimed : ExecutionRecord
    pub claim_won : ClaimWon ticket claimed claimed_in

  -- If ExecuteAction called the adapter, then everything it tests held of the state it was called in:
  -- approval and evidence were in time, and no duplicate was recent, at readings of the clock that it
  -- made between its start and its claim. The claim, made when nothing but the audit trail, the clock
  -- and the ids had changed, had won.
  pub execute_action-Cleared :
      (action_id initiated_by : String) (w : World)
      → (final (execute_action env c action_id initiated_by w)).dispatched ≢ w.dispatched
      → Cleared action_id initiated_by w
  unfolding execute_action
  execute_action-Cleared action_id initiated_by w called =
      let a =
        bind-WentOn (authorize env c action_id initiated_by) _ w
          (Quiet-Silent _ (authorize-Quiet env c action_id initiated_by)) called in
      let b =
        bind-WentOn (claim env c a.answer initiated_by) _ a.after
          (claim-Silent a.answer initiated_by) a.called in
      record {
        ticket = a.answer;
        authorized =
            (authorize-Authorized env c action_id initiated_by w).at a.answer a.after a.returned;
        claimed_in = a.after;
        unchanged =
            subst (λ (o : Outcome Ticket). Quiet w (final o)) a.returned
              ((authorize-Quiet env c action_id initiated_by).at w);
        claimed = b.answer;
        claim_won = (claim-ClaimWon a.answer initiated_by a.after).at b.answer b.after b.returned;
      }
