-- ===== src/Execution/Admission.antt =====
-- What ExecuteAction of internal/execution/service.go has tested when it claims an action.
use triovexa.Prelude.{String, true, false, ◌≡◌, sym, ap, ◌∙◌, none, some, arith, str_eq, get}
use triovexa.Storage.Incidents.{get_incident}
use triovexa.Storage.Actions.{get_candidate_action}
use triovexa.Catalog.{get_definition}
use triovexa.Policy.{is_high}
use triovexa.World.{World, Env}
use triovexa.World.Quiet.{Quiet, Quiet-frame}
use triovexa.World.Ensures.{
  Ensures, bind-Ensures, guard-Ensures, fetch-Ensures, or_fail-Ensures, pure-Ensures,
  handle-Ensures, both-Ensures,
}
use triovexa.Execution.Checks.{validate_execution_scope}
use triovexa.Execution.Validity.{EvidenceValid, validate_evidence-Valid, EvidenceValid-Quiet}
use triovexa.Execution.Authorize.{
  validate_evidence-Quiet, refuse_scope-Quiet, check_history-Quiet, check_permission-Quiet,
}
use triovexa.Execution.Run.{Config, Ticket, authorize}
use triovexa.Execution.Permission.{
  HistoryClear, Permitted, HistoryClear-widen, Permitted-Quiet, check_history-Clear,
  check_permission-Permitted, refuse_scope-none, refuse-Ensures,
}

module _ (env : Env) (c : Config) where
  -- What ExecuteAction has tested when it claims, in the state `v`: all of it holds of the state it was
  -- called in, and what depends on the time, at a reading of the clock between the two.
  pub record Authorized (action_id initiated_by : String) (w v : World) (t : Ticket) : Type 0 where
    pub adapter_set : c.has_adapter ≡ true
    pub named : str_eq initiated_by "" ≡ false
    pub found : get_candidate_action action_id w.store ≡ some t.action
    pub listed : get_definition c.catalog t.action.action_type ≡ some t.definition
    pub executable : t.definition.executable ≡ true
    pub not_high : is_high t.definition.risk_level ≡ false
    pub history : HistoryClear env c t.action t.definition w w.reads v.reads
    pub permission : Permitted env c t.action t.definition w w.reads v.reads
    pub incident_found : get_incident t.action.incident_id w.store ≡ some t.incident
    pub in_scope : validate_execution_scope t.action t.incident t.definition ≡ none
    pub evidence : EvidenceValid env c.evidence_max_age t.action w w.reads v.reads

  get_incident-Quiet :
      (id : String) (v w : World) → Quiet v w → get_incident id v.store ≡ get_incident id w.store
  unfolding get_incident
  get_incident-Quiet id v w q = ap (get id) (sym q.incidents)

  pub authorize-Authorized :
      (action_id initiated_by : String) (w : World)
      → Ensures
          (authorize env c action_id initiated_by)
          w
          (λ t v. Authorized action_id initiated_by w v t)
  unfolding authorize
  authorize-Authorized action_id initiated_by w = bind-Ensures _ _ (
      guard-Ensures _ _ λ adapter_set. bind-Ensures _ _ (
        guard-Ensures _ _ λ named. bind-Ensures _ _ (
          fetch-Ensures _ _ λ action found. bind-Ensures _ _ (
            or_fail-Ensures _ _ λ d listed. bind-Ensures _ _ (
              guard-Ensures _ _ λ executable. bind-Ensures _ _ (
                guard-Ensures _ _ λ not_high. bind-Ensures _ _ (
                  both-Ensures _ _ _ (check_history-Clear env c action d w)
                    (check_history-Quiet env c action d)
                    λ _ u history q. bind-Ensures _ _ (
                      both-Ensures _ _ _ (check_permission-Permitted env c action d u)
                        (check_permission-Quiet env c action d)
                        λ _ v permission q'.
                          let q2 : Quiet w v = Quiet-frame.chain w u v q q' in
                          bind-Ensures _ _ (
                            fetch-Ensures _ _ λ incident incident_found. bind-Ensures _ _ (
                              both-Ensures _ _ _
                                (refuse_scope-none env c action
                                  (validate_execution_scope action incident d) v)
                                (refuse_scope-Quiet env c action _)
                                λ _ x in_scope q3. bind-Ensures _ _ (
                                  handle-Ensures _ _
                                    (both-Ensures _ _ _
                                      (validate_evidence-Valid env c.evidence_max_age action x)
                                      (validate_evidence-Quiet env c.evidence_max_age action)
                                      λ _ z evidence q4.
                                        let q5 : Quiet v z = Quiet-frame.chain v x z q3 q4 in
                                        pure-Ensures _ (record {
                                          adapter_set = adapter_set;
                                          named = ground (arith, named);
                                          found = found;
                                          listed = listed;
                                          executable = executable;
                                          not_high = ground (arith, not_high);
                                          history =
                                              HistoryClear-widen env c action d w w.reads u.reads
                                                w.reads z.reads (ground arith)
                                                (ground (arith, q'.later, q5.later)) history;
                                          permission =
                                              Permitted-Quiet env c action d w u u.reads v.reads
                                                w.reads z.reads q.later q5.later q permission;
                                          incident_found =
                                              get_incident-Quiet action.incident_id w v q2
                                              ∙ incident_found;
                                          in_scope = in_scope;
                                          evidence =
                                              EvidenceValid-Quiet env c.evidence_max_age action w x
                                                x.reads z.reads w.reads z.reads
                                                (ground (arith, q2.later, q3.later)) (ground arith)
                                                (Quiet-frame.chain w v x q2 q3) evidence;
                                        }))
                                    λ e y. refuse-Ensures env c _ action _ _ _ y)))))))))))
