-- ===== src/Topology.antt =====
-- internal/topology/registry.go: what is known about the targets.
use triovexa.Prelude.{String, List, [], ◌∷◌, Option, Map, get}

pub record ResourceMetadata : Type 0 where
  pub target : String
  pub service : String
  pub owner : String
  pub tier : String
  pub dependencies : List String
  pub protected_downstreams : List String

abbrev pub Registry : Type 0
Registry = Map ResourceMetadata

unfoldable pub get_metadata : Registry → String → Option ResourceMetadata
get_metadata r target = get target r

unfoldable pub default_registry : Registry
default_registry =
    (
      "demo-worker",
      record {
        target = "demo-worker";
        service = "checkout-worker";
        owner = "platform-demo";
        tier = "internal";
        dependencies = "demo-job-runner" ∷ "redis-cache" ∷ [];
        protected_downstreams = [];
      },
    )
    ∷ (
      "demo-job-runner",
      record {
        target = "demo-job-runner";
        service = "checkout-worker";
        owner = "platform-demo";
        tier = "internal";
        dependencies = "postgres-demo" ∷ "redis-cache" ∷ [];
        protected_downstreams = [];
      },
    )
    ∷ (
      "demo-cache",
      record {
        target = "demo-cache";
        service = "checkout-api";
        owner = "platform-demo";
        tier = "shared";
        dependencies = "redis-cache" ∷ [];
        protected_downstreams = "checkout-api" ∷ [];
      },
    )
    ∷ (
      "demo-api",
      record {
        target = "demo-api";
        service = "checkout-api";
        owner = "platform-demo";
        tier = "customer-facing";
        dependencies = "payment-gateway" ∷ "inventory-api" ∷ "redis-cache" ∷ [];
        protected_downstreams = "checkout-frontend" ∷ "payment-orchestrator" ∷ [];
      },
    )
    ∷ (
      "demo-queue-consumer",
      record {
        target = "demo-queue-consumer";
        service = "checkout-consumer";
        owner = "platform-demo";
        tier = "shared";
        dependencies = "payment-gateway" ∷ "fraud-check-api" ∷ "postgres-demo" ∷ [];
        protected_downstreams = "order-settlement" ∷ "notification-pipeline" ∷ [];
      },
    )
    ∷ []
