-- ===== src/Execution/Retry.antt =====
-- executeWithRetry of internal/execution/service.go. The timeout of a call is the adapter's matter.
use triovexa.Prelude.{ℕ, zero, suc, Option, none, some}
use triovexa.Failure.{AdapterError, deadline_exceeded, retryable, permanent}
use triovexa.Domain.{ExecutionStatus, timed_out, failed_execution}
use triovexa.World.{Env, M, Dispatch, AdapterResult, ◌>>=◌, pure, dispatch}

abbrev pub Reply : Type 0
Reply = AdapterResult × Option AdapterError

-- After an attempt that is not the last one: only a retryable error goes on to the next.
abbrev pub next_attempt : Reply → M Reply → M Reply
next_attempt (result, none) again = pure (result, none)
next_attempt (result, some deadline_exceeded) again = pure (result, some deadline_exceeded)
next_attempt (result, some (permanent e)) again = pure (result, some (permanent e))
next_attempt (result, some (retryable e)) again = again

-- The first argument counts the retries that are left; the last attempt's reply is returned as it is.
unfoldable pub execute_with_retry : Env → Dispatch → ℕ → M Reply
execute_with_retry env call zero = dispatch env call
execute_with_retry env call (suc retries) = do
  reply ← dispatch env call
  next_attempt reply (execute_with_retry env call retries)

abbrev pub map_execution_error_to_status : AdapterError → ExecutionStatus
map_execution_error_to_status deadline_exceeded = timed_out
map_execution_error_to_status (retryable e) = failed_execution
map_execution_error_to_status (permanent e) = failed_execution
