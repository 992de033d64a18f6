-- ===== src/Transition/Still.antt =====
-- Steps of the services that leave the incidents alone.
use triovexa.Prelude.{String, ◌≡◌, refl, ◌∙◌, some, arith, Option-cases}
use triovexa.Domain.{Time, CandidateActionStatus, Details}
use triovexa.Storage.{MemoryStore}
use triovexa.Storage.Actions.{update_candidate_action_status, update_status_in}
use triovexa.World.{World, Env, M, update, audit, audit_now}
use triovexa.World.Within.{Within, IsFrame, within_rules, Within-update}
use triovexa.World.Quiet.{Quiet, audit-Quiet, audit_now-Quiet}

-- The incidents are the same.
unfoldable pub SameIncidents : World → World → Type 0
SameIncidents v w = w.store.incidents ≡ v.store.incidents

pub SameIncidents-frame : IsFrame SameIncidents
unfolding SameIncidents
SameIncidents-frame = record {
  stay = λ w. refl;
  chain = λ u v w h k. k ∙ h;
  skip_reads = λ w n later. refl;
  skip_ids = λ w n. refl;
}

pub status-incidents :
    (id : String) (status : CandidateActionStatus) (s t : MemoryStore)
    → update_candidate_action_status id status s ≡ some t
    → t.incidents ≡ s.incidents
unfolding update_candidate_action_status
status-incidents id status s t h =
    ground (arith, Option-cases (update_status_in id status s.actions))

pub Quiet-SameIncidents {ℓ} : {A : Type ℓ} (m : M A) → Within Quiet m → Within SameIncidents m
unfolding SameIncidents
Quiet-SameIncidents m q = record { at = λ w. (q.at w).incidents }

pub audit-SameIncidents :
    (env : Env) (incident_id step_name status : String) (details : Details) (from to : Time)
    → Within SameIncidents (audit env incident_id step_name status details from to)
audit-SameIncidents env i n s d from to = Quiet-SameIncidents _ (audit-Quiet env i n s d from to)

pub audit_now-SameIncidents :
    (env : Env) (incident_id step_name status : String) (details : Details)
    → Within SameIncidents (audit_now env incident_id step_name status details)
audit_now-SameIncidents env i n s d = Quiet-SameIncidents _ (audit_now-Quiet env i n s d)

pub update_status-SameIncidents :
    (id : String) (status : CandidateActionStatus)
    → Within SameIncidents (update (update_candidate_action_status id status))
unfolding SameIncidents
update_status-SameIncidents id status =
    Within-update SameIncidents-frame _ λ w s h. status-incidents id status w.store s h

pub ruleset still_rules = (
  within_rules, SameIncidents-frame, audit-SameIncidents, audit_now-SameIncidents,
  update_status-SameIncidents,
)
