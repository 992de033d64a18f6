-- ===== src/Remediation/Proposals.antt =====
-- What internal/remediation/service.go proposes, by what the evidence says.
use Prim.Native.String.{◌++◌}
use triovexa.Prelude.{
  ℕ, String, Bool, not, ◌&&◌, List, [], ◌∷◌, ◌++◌ as append, str_eq, if◌then◌else◌,
}
use triovexa.Numbers.{ℤ, pos, ltb_int}
use triovexa.Domain.{Incident, TriageResult, EvidenceItem, Details, text}
use triovexa.Remediation.Evidence.{
  Source, detect_mode, find_evidence_by_type, extract_int_metric, extract_deploy_version,
}

-- An action before it is made.
pub record Proposal : Type 0 where
  pub action_type : String
  pub target : String
  pub parameters : Details
  pub refs : List String
  pub rationale : String

-- The proposals of the three modes.
abbrev pub is_real : Incident → Bool
is_real incident = str_eq incident.service_name "queue-worker"

abbrev pub restarting : Incident → TriageResult → List String → Proposal
restarting incident triage refs =
    if is_real incident
    then record {
      action_type = "restart_worker";
      target = "queue-worker";
      parameters = ("worker_id", text "queue-worker") ∷ [];
      refs = refs;
      rationale =
          "The Redis Streams backlog and unhealthy consumer make an allowlisted worker restart the safest candidate action. Triage summary: "
          ++ triage.summary;
    }
    else record {
      action_type = "restart_demo_worker";
      target = "demo-worker";
      parameters = ("worker_id", text "worker-primary") ∷ [];
      refs = refs;
      rationale =
          "A large backlog and unhealthy worker make a demo worker restart the safest candidate action. Triage summary: "
          ++ triage.summary;
    }

abbrev pub retry_job : List String → Proposal
retry_job refs = record {
  action_type = "retry_demo_background_job";
  target = "demo-job-runner";
  parameters = ("job_id", text "backlog-drain-batch") ∷ [];
  refs = refs;
  rationale =
      "The accumulated backlog warrants a bounded batch-job retry to help drain the queue after the worker becomes healthy.";
}

abbrev pub pausing : String → String → List String → Proposal
pausing action_type target refs = record {
  action_type = action_type;
  target = target;
  parameters = [];
  refs = refs;
  rationale =
      "The extreme backlog makes pausing the queue consumer a medium-risk containment option while the operator investigates downstream pressure.";
}

abbrev pub pause : Incident → List String → Proposal
pause incident refs =
    if is_real incident
    then pausing "pause_consumer" "queue-worker" refs
    else pausing "pause_demo_queue_consumer" "demo-queue-consumer" refs

abbrev pub at_least : ℤ → ℕ → Bool
at_least n bound = not (ltb_int n (pos bound))

-- The proposals that depend on the backlog.
abbrev pub retries : Incident → ℤ → List String → List Proposal
retries incident backlog refs =
    if at_least backlog 80 && not (is_real incident) then retry_job refs ∷ [] else []

abbrev pub pauses : Incident → ℤ → List String → List Proposal
pauses incident backlog refs = if at_least backlog 120 then pause incident refs ∷ [] else []

unfoldable pub stall_proposals : Incident → TriageResult → ℤ → List String → List Proposal
stall_proposals incident triage backlog refs =
    restarting incident triage refs
    ∷ append (retries incident backlog refs) (pauses incident backlog refs)

abbrev refresh : String → List String → String → Proposal
refresh cache_key refs rationale = record {
  action_type = "refresh_demo_cache";
  target = "demo-cache";
  parameters = ("cache_key", text cache_key) ∷ [];
  refs = refs;
  rationale = rationale;
}

module _ (s : Source) where
  unfoldable pub proposals : Incident → TriageResult → List EvidenceItem → List Proposal
  unfolding detect_mode find_evidence_by_type extract_int_metric extract_deploy_version
      stall_proposals
  proposals incident triage evidence =
      let metric = find_evidence_by_type evidence "metric" in
      let log = find_evidence_by_type evidence "log" in
      if str_eq (detect_mode evidence) "worker_stall"
      then stall_proposals incident triage (extract_int_metric s evidence "queue_backlog")
          (metric ∷ log ∷ [])
      else if str_eq (detect_mode evidence) "timeout_after_deploy"
      then refresh "checkout-session" (metric ∷ find_evidence_by_type evidence "deploy" ∷ []) (
          "Timeouts after deployment "
          ++ extract_deploy_version s evidence
          ++ " indicate that a non-critical cache may be stale, making a refresh a reasonable first low-risk action.")
        ∷ []
      else if str_eq (detect_mode evidence) "error_rate_spike"
          && at_least (extract_int_metric s evidence "latency_ms") 500
      then refresh "hot-path" (metric ∷ log ∷ [])
          "The error and latency spike on the primary path is consistent with a stale non-critical cache, so a refresh is a safe first step to reduce pressure."
        ∷ []
      else []
