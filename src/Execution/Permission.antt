-- ===== src/Execution/Permission.antt =====
-- What the tests of the history and of the permission in ExecuteAction of internal/execution/service.go
-- establish.
use triovexa.Prelude.{
  ℕ, suc, ◌≤◌, String, Bool, true, false, ◌&&◌, ◌≡◌, refl, sym, ap, ◌∙◌, [], Option, none, some,
  arith, ltb, leb, length,
}
use triovexa.Domain.{Details, CandidateAction, is_executable_status, is_approved, ExecutionRecord}
use triovexa.Failure.{Failure, kill_switch_enabled}
use triovexa.Storage.Executions.{list_execution_records_by_action}
use triovexa.Catalog.{ActionDefinition}
use triovexa.Policy.{is_medium}
use triovexa.World.{World, Env, ◌>>=◌, when, kill_switch_on}
use triovexa.World.Within.{Within}
use triovexa.World.Quiet.{Quiet, Quiet-frame, quiet_rules}
use triovexa.World.Readings.{ReadIn, read_once, widen}
use triovexa.World.Ensures.{
  Ensures, bind-Ensures, guard-Ensures, now-then, look-Ensures, pure-Ensures, raise-Ensures,
  if-Ensures, weaken-Ensures, both-Ensures, kill_switch_on-then,
}
use triovexa.Execution.Checks.{find_duplicate_execution}
use triovexa.Execution.Validity.{ApprovalValid, validate_approval-Valid, ApprovalValid-Quiet}
use triovexa.Execution.Authorize.{validate_approval-Quiet, refuse-Quiet, refuse_duplicate-Quiet}
use triovexa.Execution.Run.{
  Config, idempotency_key, refuse, refuse_duplicate, refuse_scope, cooldown_of, check_history,
  check_permission,
}

module _ (env : Env) (c : Config) where
  pub refuse-Ensures :
      {A : Type 0} (Q : A → World → Type 0) (action : CandidateAction) (step_name : String)
      (details : Details) (e : Failure) (w : World)
      → Ensures (refuse env c action step_name details e) w Q
  unfolding refuse
  refuse-Ensures Q action step_name details e w =
      bind-Ensures _ _ (record { at = λ a v h. raise-Ensures e })

  -- The history of the action lets it run.
  pub record HistoryClear (action : CandidateAction) (d : ActionDefinition) (w : World)
      (start end : ℕ) : Type 0 where
    pub not_duplicate : ReadIn env start end (λ at.
        find_duplicate_execution
          (list_execution_records_by_action action.id w.store)
          (idempotency_key action)
          (cooldown_of env c d)
          at
        ≡ none)
    pub below_limit :
        (ltb 0 d.max_execution_attempts
          && leb d.max_execution_attempts
              (length (list_execution_records_by_action action.id w.store)))
        ≡ false

  refuse_duplicate-none :
      (action : CandidateAction) (o : Option ExecutionRecord) (w : World)
      → Ensures (refuse_duplicate env c action o) w (λ _ _. o ≡ none)
  unfolding refuse_duplicate
  refuse_duplicate-none action none w = pure-Ensures tt refl
  refuse_duplicate-none action (some r) w = refuse-Ensures _ action _ _ _ w

  pub refuse_scope-none :
      (action : CandidateAction) (o : Option Failure) (w : World)
      → Ensures (refuse_scope env c action o) w (λ _ _. o ≡ none)
  unfolding refuse_scope
  refuse_scope-none action none w = pure-Ensures tt refl
  refuse_scope-none action (some r) w = refuse-Ensures _ action _ _ _ w

  pub check_history-Clear :
      (action : CandidateAction) (d : ActionDefinition) (w : World)
      → Ensures (check_history env c action d) w (λ _ v. HistoryClear action d w w.reads v.reads)
  unfolding check_history
  check_history-Clear action d w = bind-Ensures _ _ (
      look-Ensures _ (
        now-then env _ (
          bind-Ensures _ _ (
            both-Ensures _ _ _ (refuse_duplicate-none action _ _)
              (refuse_duplicate-Quiet env c action _)
              λ _ v fresh q.
                if-Ensures _ _ _ (λ _. refuse-Ensures _ action _ _ _ _)
                  λ below. pure-Ensures tt (record {
                    not_duplicate =
                        widen w.reads (suc w.reads) w.reads v.reads (ground arith) q.later (
                          read_once env
                            (λ at.
                              find_duplicate_execution
                                (list_execution_records_by_action action.id w.store)
                                (idempotency_key action) (cooldown_of env c d) at
                              ≡ none)
                            w.reads fresh);
                    below_limit = below;
                  })))))

  -- The action is of a status that may run, with a valid approval where it needs one or says it
  -- has one, and the kill switch is off.
  pub record Permitted (action : CandidateAction) (d : ActionDefinition) (w : World) (start end : ℕ)
      : Type 0 where
    pub may_run : is_executable_status action.status ≡ true
    pub medium_approved : is_medium d.risk_level ≡ true → is_approved action.status ≡ true
    pub approval : is_approved action.status ≡ true → ApprovalValid env action w start end
    pub not_killed : (c.has_kill_switch && w.kill_switch) ≡ false

  switch_off :
      (action : CandidateAction) (w : World)
      → Ensures
          (kill_switch_on >>= λ killed.
            when
              (c.has_kill_switch && killed)
              (refuse env c action "execution_blocked_by_kill_switch" [] kill_switch_enabled))
          w
          (λ _ _. (c.has_kill_switch && w.kill_switch) ≡ false)
  switch_off action w =
      kill_switch_on-then _
        (if-Ensures _ _ _ (λ _. refuse-Ensures _ action _ _ _ w) λ off. pure-Ensures tt off)

  switch_off-Quiet :
      (action : CandidateAction)
      → Within Quiet (
          kill_switch_on >>= λ killed.
          when
            (c.has_kill_switch && killed)
            (refuse env c action "execution_blocked_by_kill_switch" [] kill_switch_enabled))
  switch_off-Quiet action = search (quiet_rules, refuse-Quiet env c) depth 12

  pub check_permission-Permitted :
      (action : CandidateAction) (d : ActionDefinition) (w : World)
      → Ensures (check_permission env c action d) w (λ _ v. Permitted action d w w.reads v.reads)
  unfolding check_permission
  check_permission-Permitted action d w = bind-Ensures _ _ (
      guard-Ensures _ _ λ may_run. bind-Ensures _ _ (
        guard-Ensures _ _ λ medium. bind-Ensures _ _ (
          if-Ensures _ _ _
            (λ yes.
              both-Ensures _ _ _ (validate_approval-Valid env action w)
                (validate_approval-Quiet env action)
                λ _ v valid q.
                  both-Ensures _ _ _ (switch_off action v) (switch_off-Quiet action) λ _ u off q'.
                    record {
                      may_run = may_run;
                      medium_approved = λ _. yes;
                      approval = λ _.
                          ApprovalValid-Quiet env action w w w.reads v.reads w.reads u.reads
                            (ground arith) q'.later (Quiet-frame.stay w) valid;
                      not_killed =
                          ap (λ (b : Bool). c.has_kill_switch && b) (sym q.kill_switch) ∙ off;
                    })
            λ no. pure-Ensures tt (
              weaken-Ensures _ _ (switch_off action w) λ _ _ off. record {
                may_run = may_run;
                medium_approved = λ m. ground (arith, m, medium, no);
                approval = λ yes. absurd (cc (yes, no));
                not_killed = off;
              }))))

  pub HistoryClear-widen :
      (action : CandidateAction) (d : ActionDefinition) (w : World) (start end from to : ℕ)
      → from ≤ start
      → end ≤ to
      → HistoryClear action d w start end
      → HistoryClear action d w from to
  HistoryClear-widen action d w start end from to s e h = record {
    not_duplicate = widen start end from to s e h.not_duplicate;
    below_limit = h.below_limit;
  }

  pub Permitted-Quiet :
      (action : CandidateAction) (d : ActionDefinition) (v w : World) (start end from to : ℕ)
      → from ≤ start
      → end ≤ to
      → Quiet v w
      → Permitted action d w start end
      → Permitted action d v from to
  Permitted-Quiet action d v w start end from to s e q p = record {
    may_run = p.may_run;
    medium_approved = p.medium_approved;
    approval = λ yes. ApprovalValid-Quiet env action v w start end from to s e q (p.approval yes);
    not_killed = ap (λ (b : Bool). c.has_kill_switch && b) (sym q.kill_switch) ∙ p.not_killed;
  }
