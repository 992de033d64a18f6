-- ===== src/Verification/Composed.antt =====
-- The execution service and the verification service together, as cmd/api wires them: the verifier that
-- an execution calls is the verification service, which calls the rollback service.
use triovexa.Prelude.{String, Option, some}
use triovexa.World.{Env}
use triovexa.World.Within.{Within}
use triovexa.Transition.Moves.{Moves}
use triovexa.Execution.Run.{Config, execute_action}
use triovexa.Execution.Recovery.{Reconciler, recover_started_executions}
use triovexa.Execution.Steps.{recover-Moves}
use triovexa.Execution.Exclusion.{StaysSafe, execute_action-StaysSafe}
use triovexa.Execution.Recovery.Exclusion.{recover-StaysSafe}
use triovexa.Verification.Evaluate.{VerificationConfig}
use triovexa.Verification.Conclude.{verify_execution}
use triovexa.Verification.Steps.{
  verify_execution-Within, Moves-IsVerifyFrame, StaysSafe-IsVerifyFrame,
}

module _ (env : Env) (c : Config) (v : VerificationConfig) where
  -- The execution service that has this verifier.
  abbrev pub with_verification : Config
  with_verification = record c { verifier = some (verify_execution env v) }

  -- An execution that is verified, and rolled back where the verification fails, keeps the ids of each
  -- incident's actions distinct and each target to one started execution, whether or not it fails.
  pub verified_execution-StaysSafe :
      (action_id initiated_by : String)
      → Within StaysSafe (execute_action env with_verification action_id initiated_by)
  verified_execution-StaysSafe action_id initiated_by =
      execute_action-StaysSafe env with_verification
        (verify_execution-Within env v (StaysSafe-IsVerifyFrame env)) action_id initiated_by

  -- A recovery that verifies what it settles keeps the ids of each incident's actions distinct and each
  -- target to one started execution, whether or not it fails.
  pub verified_recovery-StaysSafe :
      (reconciler : Option Reconciler)
      → Within StaysSafe (recover_started_executions env with_verification reconciler)
  verified_recovery-StaysSafe reconciler =
      recover-StaysSafe env with_verification
        (verify_execution-Within env v (StaysSafe-IsVerifyFrame env)) reconciler

  -- It leaves each incident in a state that the transition table reaches from the one before.
  verified_recovery-Moves :
      (reconciler : Option Reconciler)
      → Within Moves (recover_started_executions env with_verification reconciler)
  verified_recovery-Moves reconciler =
      recover-Moves env with_verification (verify_execution-Within env v (Moves-IsVerifyFrame env))
        reconciler
