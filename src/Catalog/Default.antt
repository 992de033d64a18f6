-- ===== src/Catalog/Default.antt =====
-- DefaultCatalog of internal/execution/catalog.go, entry for entry.
use triovexa.Prelude.{◌*◌, true, false, [], ◌∷◌}
use triovexa.Domain.{low, medium, high, minute}
use triovexa.Catalog.{Catalog}

unfoldable pub default_catalog : Catalog
default_catalog =
    (
      "restart_worker",
      record {
        key = "restart_worker";
        description =
            "Restart the allowlisted Redis Streams worker through the workload supervisor.";
        risk_level = low;
        needs_approval = true;
        executable = true;
        supports_rollback = false;
        rollback_action_key = "";
        allowed_environments = "local" ∷ "staging" ∷ [];
        allowed_targets = "queue-worker" ∷ [];
        max_execution_attempts = 2;
        execution_cooldown = minute;
        parameters =
            record {
              name = "worker_id";
              type = "string";
              required = true;
              description = "Allowlisted workload worker identifier.";
            }
            ∷ [];
      },
    )
    ∷ (
      "pause_consumer",
      record {
        key = "pause_consumer";
        description =
            "Pause the allowlisted Redis Streams consumer as a bounded containment action.";
        risk_level = medium;
        needs_approval = true;
        executable = true;
        supports_rollback = true;
        rollback_action_key = "resume_consumer";
        allowed_environments = "local" ∷ "staging" ∷ [];
        allowed_targets = "queue-worker" ∷ [];
        max_execution_attempts = 1;
        execution_cooldown = 5 * minute;
        parameters = [];
      },
    )
    ∷ (
      "resume_consumer",
      record {
        key = "resume_consumer";
        description = "Resume the allowlisted Redis Streams consumer after bounded containment.";
        risk_level = low;
        needs_approval = false;
        executable = true;
        supports_rollback = false;
        rollback_action_key = "";
        allowed_environments = "local" ∷ "staging" ∷ [];
        allowed_targets = "queue-worker" ∷ [];
        max_execution_attempts = 2;
        execution_cooldown = minute;
        parameters = [];
      },
    )
    ∷ (
      "restart_demo_worker",
      record {
        key = "restart_demo_worker";
        description = "Restart one non-critical demo worker to restore background processing.";
        risk_level = low;
        needs_approval = true;
        executable = true;
        supports_rollback = false;
        rollback_action_key = "";
        allowed_environments = "local" ∷ "staging" ∷ [];
        allowed_targets = "demo-worker" ∷ [];
        max_execution_attempts = 2;
        execution_cooldown = minute;
        parameters =
            record {
              name = "worker_id";
              type = "string";
              required = true;
              description = "Identifier of the demo worker that may be restarted.";
            }
            ∷ [];
      },
    )
    ∷ (
      "retry_demo_background_job",
      record {
        key = "retry_demo_background_job";
        description = "Retry a failed demo background job without modifying critical data.";
        risk_level = low;
        needs_approval = true;
        executable = true;
        supports_rollback = false;
        rollback_action_key = "";
        allowed_environments = "local" ∷ "staging" ∷ [];
        allowed_targets = "demo-job-runner" ∷ [];
        max_execution_attempts = 2;
        execution_cooldown = minute;
        parameters =
            record {
              name = "job_id";
              type = "string";
              required = true;
              description = "Identifier of the job to retry.";
            }
            ∷ [];
      },
    )
    ∷ (
      "refresh_demo_cache",
      record {
        key = "refresh_demo_cache";
        description = "Refresh a non-critical cache in the demo service.";
        risk_level = low;
        needs_approval = true;
        executable = true;
        supports_rollback = false;
        rollback_action_key = "";
        allowed_environments = "local" ∷ "staging" ∷ [];
        allowed_targets = "demo-cache" ∷ [];
        max_execution_attempts = 2;
        execution_cooldown = minute;
        parameters =
            record {
              name = "cache_key";
              type = "string";
              required = false;
              description = "Optional cache key to refresh.";
            }
            ∷ [];
      },
    )
    ∷ (
      "restart_demo_service",
      record {
        key = "restart_demo_service";
        description = "Restart the entire demo service. Reserved for a later medium-risk phase.";
        risk_level = medium;
        needs_approval = true;
        executable = false;
        supports_rollback = false;
        rollback_action_key = "";
        allowed_environments = "staging" ∷ [];
        allowed_targets = "demo-api" ∷ [];
        max_execution_attempts = 1;
        execution_cooldown = 5 * minute;
        parameters = [];
      },
    )
    ∷ (
      "scale_demo_replicas",
      record {
        key = "scale_demo_replicas";
        description = "Scale the demo service replica count within bounded limits.";
        risk_level = medium;
        needs_approval = true;
        executable = false;
        supports_rollback = false;
        rollback_action_key = "";
        allowed_environments = "staging" ∷ [];
        allowed_targets = "demo-api" ∷ [];
        max_execution_attempts = 1;
        execution_cooldown = 10 * minute;
        parameters =
            record {
              name = "replicas";
              type = "int";
              required = true;
              description = "Target replica count within the safe limit.";
            }
            ∷ [];
      },
    )
    ∷ (
      "pause_demo_queue_consumer",
      record {
        key = "pause_demo_queue_consumer";
        description = "Pause the demo queue consumer to contain the blast radius.";
        risk_level = medium;
        needs_approval = true;
        executable = true;
        supports_rollback = true;
        rollback_action_key = "resume_demo_queue_consumer";
        allowed_environments = "local" ∷ "staging" ∷ [];
        allowed_targets = "demo-queue-consumer" ∷ [];
        max_execution_attempts = 1;
        execution_cooldown = 5 * minute;
        parameters = [];
      },
    )
    ∷ (
      "resume_demo_queue_consumer",
      record {
        key = "resume_demo_queue_consumer";
        description =
            "Resume the demo queue consumer as the safe compensation for a consumer pause.";
        risk_level = low;
        needs_approval = false;
        executable = true;
        supports_rollback = false;
        rollback_action_key = "";
        allowed_environments = "local" ∷ "staging" ∷ [];
        allowed_targets = "demo-queue-consumer" ∷ [];
        max_execution_attempts = 2;
        execution_cooldown = minute;
        parameters = [];
      },
    )
    ∷ (
      "rollback_production_deployment",
      record {
        key = "rollback_production_deployment";
        description = "Roll back a production deployment. Blocked during the initial phase.";
        risk_level = high;
        needs_approval = true;
        executable = false;
        supports_rollback = true;
        rollback_action_key = "";
        allowed_environments = "production" ∷ [];
        allowed_targets = "demo-api" ∷ [];
        max_execution_attempts = 0;
        execution_cooldown = 0;
        parameters = [];
      },
    )
    ∷ (
      "reroute_traffic",
      record {
        key = "reroute_traffic";
        description =
            "Reroute traffic between service targets. Included as a high-risk reference action.";
        risk_level = high;
        needs_approval = true;
        executable = false;
        supports_rollback = false;
        rollback_action_key = "";
        allowed_environments = "production" ∷ [];
        allowed_targets = "edge-router" ∷ [];
        max_execution_attempts = 0;
        execution_cooldown = 0;
        parameters = [];
      },
    )
    ∷ (
      "disable_primary_feature_flag",
      record {
        key = "disable_primary_feature_flag";
        description = "Disable the primary feature flag. Blocked during the initial phase.";
        risk_level = high;
        needs_approval = true;
        executable = false;
        supports_rollback = false;
        rollback_action_key = "";
        allowed_environments = "production" ∷ [];
        allowed_targets = "primary-checkout-flag" ∷ [];
        max_execution_attempts = 0;
        execution_cooldown = 0;
        parameters = [];
      },
    )
    ∷ []
