-- ===== src/Tests/Claims.antt =====
-- Claims of the approved action.
use triovexa.Prelude.{Bool, true, [], ◌∷◌, ◌≡◌, ◌≢◌, refl, Option, none, some, get, arith, put}
use triovexa.Domain.{approved, closed, approved_status, executing_action}
use triovexa.Storage.{MemoryStore, new_memory_store}
use triovexa.Storage.Incidents.{with_state}
use triovexa.Storage.Actions.{update_candidate_action_status, update_status_in}
use triovexa.Storage.Executions.{claim_execution, target_busy}
use triovexa.Storage.Executions.Claim.{claim-executing, claim_once}
use triovexa.Storage.Executions.Exclusive.{IsExclusive, started_on}
use triovexa.Tests.Scenario.{store_in, consent, started_by, incident_in, restart}

abbrev ready : MemoryStore
ready = store_in approved approved_status (consent ∷ [])

-- The store that a claim or a write leaves.
abbrev left_by : Option (Bool × MemoryStore) → MemoryStore
left_by none = ready
left_by (some (b, s)) = s

abbrev written : Option MemoryStore → MemoryStore
written none = ready
written (some s) = s

abbrev claimed : MemoryStore
claimed = left_by (claim_execution 70 "i" "a" (started_by "x") ready)

abbrev reset : MemoryStore
reset = written (update_candidate_action_status "a" approved_status claimed)

claim_wins : claim_execution 70 "i" "a" (started_by "x") ready ≡ some (true, claimed)
unfolding claim_execution get put target_busy new_memory_store
claim_wins = refl

set_back : update_candidate_action_status "a" approved_status claimed ≡ some reset
unfolding claim_execution get put target_busy new_memory_store update_candidate_action_status
    update_status_in
set_back = refl

ready-IsExclusive : IsExclusive ready
unfolding started_on new_memory_store
ready-IsExclusive target = omega arith

-- The incident is closed, its action still approved.
abbrev long_closed : MemoryStore
long_closed = store_in closed approved_status (consent ∷ [])

claim-executing_example :
    (s : MemoryStore) × (claim_execution 70 "i" "a" (started_by "x") long_closed ≡ some (true, s))
    × (get "i" s.incidents ≡ some (with_state 70 executing_action (incident_in closed)))
unfolding get target_busy new_memory_store
claim-executing_example =
    claim-executing 70 "i" "a" (started_by "x") long_closed (incident_in closed)
      (restart approved_status) refl refl refl refl refl

claim_once_example : claim_execution 80 "i" "a" (started_by "y") reset ≢ some (true, reset)
claim_once_example =
    claim_once 70 80 "i" "a" (started_by "x") (started_by "y") approved_status ready claimed reset
      reset refl claim_wins set_back
