-- ===== src/World/Quiet.antt =====
-- Steps that leave nothing but entries in the audit trail, readings of the clock and new ids.
use triovexa.Prelude.{◌≡◌, ◌≤◌, String, arith}
use triovexa.Domain.{Time, AuditEvent, Details}
use triovexa.Storage.Incidents.{add_audit_event}
use triovexa.World.{World, Env, modify, audit, audit_now}
use triovexa.World.Within.{Within, IsFrame, within_rules, Within-modify}

-- Everything but the audit trail and the two counters is the same, and the clock is not read less often.
pub record Quiet (v w : World) : Type 0 where
  pub incidents : w.store.incidents ≡ v.store.incidents
  pub evidence : w.store.evidence ≡ v.store.evidence
  pub documents : w.store.documents ≡ v.store.documents
  pub actions : w.store.actions ≡ v.store.actions
  pub policies : w.store.policies ≡ v.store.policies
  pub approvals : w.store.approvals ≡ v.store.approvals
  pub executions : w.store.executions ≡ v.store.executions
  pub verify : w.store.verify ≡ v.store.verify
  pub rollbacks : w.store.rollbacks ≡ v.store.rollbacks
  pub triage_by_id : w.store.triage_by_id ≡ v.store.triage_by_id
  pub users : w.store.users ≡ v.store.users
  pub sessions : w.store.sessions ≡ v.store.sessions
  pub settings : w.store.settings ≡ v.store.settings
  pub kill_switch : w.kill_switch ≡ v.kill_switch
  pub kill_switch_at : w.kill_switch_at ≡ v.kill_switch_at
  pub dispatched : w.dispatched ≡ v.dispatched
  pub later : v.reads ≤ w.reads

pub Quiet-frame : IsFrame Quiet
Quiet-frame = record {
  stay = λ w. ground arith;
  chain = λ u v w h k. ground arith;
  skip_reads = λ w n later. ground arith;
  skip_ids = λ w n. ground arith;
}

added : (e : AuditEvent) (w : World) → Quiet w (record w { store = add_audit_event e w.store })
unfolding add_audit_event
added e w = ground arith

audited : (e : AuditEvent) → Within Quiet (modify (add_audit_event e))
audited e = Within-modify Quiet-frame (add_audit_event e) (added e)

pub audit-Quiet :
    (env : Env) (incident_id step_name status : String) (details : Details) (from to : Time)
    → Within Quiet (audit env incident_id step_name status details from to)
unfolding audit
audit-Quiet env incident_id step_name status details from to =
    search (within_rules, Quiet-frame, audited) depth 10

pub audit_now-Quiet :
    (env : Env) (incident_id step_name status : String) (details : Details)
    → Within Quiet (audit_now env incident_id step_name status details)
unfolding audit_now
audit_now-Quiet env incident_id step_name status details =
    search (within_rules, Quiet-frame, audit-Quiet) depth 10

pub ruleset quiet_rules = (within_rules, Quiet-frame, audit-Quiet, audit_now-Quiet)
