-- ===== src/World.antt =====
-- The state that the services of one process share, and the monad in which they run. What was
-- written before an error stays written, so the state comes back beside the error too.
pub mod Within
pub mod Ensures
pub mod Quiet
pub mod Silent
pub mod Readings
use triovexa.Prelude.{
  ℕ, suc, ◌+◌, String, Bool, true, false, List, [], ◌∷◌, ◌++◌, Option, none, some, length,
  if◌then◌else◌,
}
use triovexa.Domain.{Time, CandidateAction, Details, AuditEvent}
use triovexa.Storage.{MemoryStore}
use triovexa.Storage.Incidents.{add_audit_event}
use triovexa.Failure.{Failure, AdapterError, not_found}

-- AdapterRequest of internal/execution/service.go.
pub record AdapterRequest : Type 0 where
  pub idempotency_key : String
  pub timeout : Time
  pub initiated_by : String

-- AdapterResult of internal/execution/service.go.
pub record AdapterResult : Type 0 where
  pub executor_type : String
  pub payload : Details

-- One call of the adapter.
pub record Dispatch : Type 0 where
  pub action : CandidateAction
  pub request : AdapterRequest

pub record World : Type 0 where
  pub store : MemoryStore
  -- KillSwitch of internal/approval/service.go
  pub kill_switch : Bool
  pub kill_switch_at : Time
  -- How often the clock was read, and how many ids were made.
  pub reads : ℕ
  pub ids : ℕ
  -- The calls of the adapter, the last one first.
  pub dispatched : List Dispatch

-- What the process takes from outside: the n-th reading of the clock, the n-th new id, the hex form
-- of SHA-256, the decoder of metadata, and the outcome of the n-th call of the adapter.
pub record Env : Type 0 where
  pub clock : ℕ → Time
  pub uuid : ℕ → String
  pub sha256_hex : String → String
  pub unmarshal : String → Option Details
  pub adapter : ℕ → Dispatch → AdapterResult × Option AdapterError

pub data Outcome {ℓ} (A : Type ℓ) : Type ℓ where
  ok : A → World → Outcome A
  err : Failure → World → Outcome A

abbrev pub M {ℓ} : Type ℓ → Type ℓ
M A = World → Outcome A

abbrev pub final {ℓ} : {A : Type ℓ} → Outcome A → World
final (ok a w) = w
final (err e w) = w

infixl 5 ◌>>=◌ ◌>>◌
abbrev pub continue {ℓ κ} : {A : Type ℓ} {B : Type κ} → Outcome A → (A → M B) → Outcome B
continue (ok a w) f = f a w
continue (err e w) f = err e w

unfoldable pub ◌>>=◌ {ℓ κ} : {A : Type ℓ} {B : Type κ} → M A → (A → M B) → M B
◌>>=◌ m f w = continue (m w) f

abbrev pub ◌>>◌ {ℓ} : {B : Type ℓ} → M (Unit {0}) → M B → M B
m >> k = m >>= λ _. k

module _ {ℓ} {A : Type ℓ} where
  unfoldable pub pure : A → M A
  pure a w = ok a w

  unfoldable pub raise : Failure → M A
  raise e w = err e w

  -- A read of the store; `none` is the error.
  unfoldable pub fetch : (MemoryStore → Option A) → Failure → M A
  fetch read e w = elim (read w.store) [ none ↦ err e w | some a ↦ ok a w ]

  -- A read of the store that cannot fail.
  unfoldable pub look : (MemoryStore → A) → M A
  look read w = ok (read w.store) w

  unfoldable pub or_fail : Option A → Failure → M A
  or_fail none e w = err e w
  or_fail (some a) e w = ok a w

  -- A write that answers: the answer and the new store, or ErrNotFound.
  unfoldable pub attempt : (MemoryStore → Option (A × MemoryStore)) → M A
  attempt step w = elim (step w.store) [
    | none ↦ err not_found w
    | some (a, s) ↦ ok a (record w { store = s })
  ]

-- What a caller does with an error before it returns one.
abbrev pub handled {ℓ} : {A : Type ℓ} → Outcome A → (Failure → M A) → Outcome A
handled (ok a w) h = ok a w
handled (err e w) h = h e w

unfoldable pub handle {ℓ} : {A : Type ℓ} → M A → (Failure → M A) → M A
handle m h w = handled (m w) h

-- A step whose error the caller goes on from.
abbrev pub catching {ℓ} : {A : Type ℓ} → Outcome A → Outcome (Option A)
catching (ok a w) = ok (some a) w
catching (err e w) = ok none w

unfoldable pub caught {ℓ} : {A : Type ℓ} → M A → M (Option A)
caught m w = catching (m w)

-- A step whose error is dropped: the rest then goes on from what was written.
unfoldable pub swallowed {ℓ} : {A : Type ℓ} → Outcome A → M (Unit {0}) → Outcome (Unit {0})
swallowed (ok a w) after_error = ok tt w
swallowed (err e w) after_error = after_error w

unfoldable pub swallow : {A : Type 0} → M A → M (Unit {0}) → M (Unit {0})
unfolding swallowed
swallow m after_error w = swallowed (m w) after_error

-- `if condition { step }`.
abbrev pub when : Bool → M (Unit {0}) → M (Unit {0})
when b m = if b then m else pure tt

-- `if !b { return e }`.
unfoldable pub guard : Bool → Failure → M (Unit {0})
guard true e w = ok tt w
guard false e w = err e w

-- A write that cannot fail.
unfoldable pub modify : (MemoryStore → MemoryStore) → M (Unit {0})
modify step w = ok tt (record w { store = step w.store })

-- A write that fails with ErrNotFound.
unfoldable pub update : (MemoryStore → Option MemoryStore) → M (Unit {0})
update step w = elim (step w.store) [
  | none ↦ err not_found w
  | some s ↦ ok tt (record w { store = s })
]

-- A write that fails with an error of its own.
unfoldable pub store_or_fail : (MemoryStore → Option MemoryStore) → Failure → M (Unit {0})
store_or_fail step e w = elim (step w.store) [
  | none ↦ err e w
  | some s ↦ ok tt (record w { store = s })
]

-- A random value, which is never made again, as ids are.
unfoldable pub draw {ℓ} : {A : Type ℓ} → (ℕ → A) → M A
draw value w = ok (value w.ids) (record w { ids = suc w.ids })

-- KillSwitch.Enabled.
unfoldable pub kill_switch_on : M Bool
kill_switch_on w = ok w.kill_switch w

-- A question to a service outside: its answer may differ at each reading of the clock.
unfoldable pub ask {ℓ} : {A : Type ℓ} → (ℕ → A) → M A
ask answer w = ok (answer w.reads) w

module _ (env : Env) where
  unfoldable pub now : M Time
  now w = ok (env.clock w.reads) (record w { reads = suc w.reads })

  unfoldable pub new_id : M String
  new_id w = ok (env.uuid w.ids) (record w { ids = suc w.ids })

  -- The `audit` methods of the services: json.Marshal does not fail on these maps.
  unfoldable pub audit : String → String → String → Details → Time → Time → M (Unit {0})
  audit incident_id step_name status details started_at finished_at = do
    id ← new_id
    modify (
        add_audit_event (record {
          id = id;
          incident_id = incident_id;
          step_name = step_name;
          status = status;
          details = details;
          started_at = started_at;
          finished_at = finished_at;
        }))

  -- `at := s.now(); s.audit(..., at, at)`.
  unfoldable pub audit_now : String → String → String → Details → M (Unit {0})
  audit_now incident_id step_name status details = do
    at ← now
    audit incident_id step_name status details at at

  -- One call of the adapter, which is logged.
  unfoldable pub dispatch : Dispatch → M (AdapterResult × Option AdapterError)
  dispatch call w =
      ok (env.adapter (length w.dispatched) call) (record w { dispatched = call ∷ w.dispatched })
