-- ===== src/Domain/Snapshots.antt =====
-- Snapshot of internal/demo/server.go, by which internal/verification compares a service before and
-- after an execution.
use triovexa.Prelude.{String, Bool, false}
use triovexa.Numbers.{ℤ, pos, Float64}
use triovexa.Domain.Times.{Time}

pub record Snapshot : Type 0 where
  pub mode : String
  pub error_rate : Float64
  pub latency_ms : ℤ
  pub queue_backlog : ℤ
  pub replica_count : ℤ
  pub consumer_paused : Bool
  pub worker_healthy : Bool
  pub last_deploy : String
  pub last_updated : Time

abbrev pub no_snapshot : Snapshot
no_snapshot = record {
  mode = "";
  error_rate = 0;
  latency_ms = pos 0;
  queue_backlog = pos 0;
  replica_count = pos 0;
  consumer_paused = false;
  worker_healthy = false;
  last_deploy = "";
  last_updated = 0;
}
