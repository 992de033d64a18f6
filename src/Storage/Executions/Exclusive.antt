-- ===== src/Storage/Executions/Exclusive.antt =====
-- ClaimExecution of internal/storage/memory.go: at most one started execution for each target.
use triovexa.Prelude.{
  ℕ, suc, ◌+◌, ◌≤◌, Bool-cases, inl, inr, String, true, false, ◌&&◌, ◌≡◌, refl, ap, sym, ◌∙◌, List,
  [], ◌∷◌, ◌++◌, some, arith, str_eq, find, any, any-update_first, update_first, Map, get_list,
  get_list-put, total, total-put, total_congr, eq_iff, if◌then◌else◌,
}
use triovexa.Domain.{Time, CandidateAction, CandidateActionStatus, executing, ExecutionRecord}
use triovexa.Storage.Store.{MemoryStore}
use triovexa.Storage.Actions.{has_id, with_status}
use triovexa.Storage.Executions.{claim_execution, holds, target_busy}
use triovexa.Storage.Executions.Claim.{Claimed, claim-Claimed}

-- How many of the records are started on the target.
abbrev pub held_by : List CandidateAction → String → List ExecutionRecord → ℕ
held_by actions target [] = 0
held_by actions target (r ∷ rs) =
    if holds actions target r then suc (held_by actions target rs) else held_by actions target rs

-- How many started executions of the whole store work on the target.
unfoldable pub started_on : String → MemoryStore → ℕ
started_on target s =
    total (λ incident_id. held_by (get_list incident_id s.actions) target) s.executions

-- The invariant: no target has two started executions.
abbrev pub IsExclusive : MemoryStore → Type 0
IsExclusive s = (target : String) → started_on target s ≤ 1

module _ (actions : List CandidateAction) (target : String) where
  held_by-none :
      (rs : List ExecutionRecord)
      → any (holds actions target) rs ≡ false
      → held_by actions target rs ≡ 0
  held_by-none [] h = refl
  held_by-none (r ∷ rs) h = ground (arith, held_by-none rs)

  held_by-append :
      (rs : List ExecutionRecord) (r : ExecutionRecord)
      → held_by actions target (rs ++ r ∷ [])
        ≡ held_by actions target rs + held_by actions target (r ∷ [])
  held_by-append [] r = omega arith
  held_by-append (x ∷ rs) r = ground (arith, held_by-append rs r)

not_busy :
    (actions : Map (List CandidateAction)) (target : String) (m : Map (List ExecutionRecord))
    → target_busy actions target m ≡ false
    → total (λ incident_id. held_by (get_list incident_id actions) target) m ≡ 0
unfolding target_busy
not_busy actions target [] h = refl
not_busy actions target ((k, rs) ∷ m) h =
    ground (arith, held_by-none (get_list k actions) target rs, not_busy actions target m)

-- A change of a status is not read by the count.
pub held_by_status :
    (action_id target : String) (status : CandidateActionStatus) (actions : List CandidateAction)
    (rs : List ExecutionRecord)
    → held_by (update_first (has_id action_id) (with_status status) actions) target rs
      ≡ held_by actions target rs
held_by_status action_id target status actions [] = refl
held_by_status action_id target status actions (r ∷ rs) = ground (
  arith,
  held_by_status action_id target status actions rs,
  any-update_first
      (λ (c : CandidateAction).
        str_eq c.id r.candidate_action_id && str_eq c.target_resource target)
      (has_id action_id) (with_status status) actions (λ x. refl),
)

-- No two actions of the list have one id.
abbrev pub IsDistinct : List CandidateAction → Type 0
IsDistinct [] = Unit {0}
IsDistinct (a ∷ rest) = (any (has_id a.id) rest ≡ false) × IsDistinct rest

not_later :
    (id target : String) (rest : List CandidateAction)
    → any (has_id id) rest ≡ false
    → any (λ (c : CandidateAction). str_eq c.id id && str_eq c.target_resource target) rest ≡ false
not_later id target [] h = refl
not_later id target (a ∷ rest) h = ground (arith, not_later id target rest)

one_target :
    (id target : String) (rest : List CandidateAction) (a : CandidateAction)
    → IsDistinct rest
    → find (has_id id) rest ≡ some a
    → any (λ (c : CandidateAction). str_eq c.id id && str_eq c.target_resource target) rest ≡ true
    → a.target_resource ≡ target
one_target id target [] a d h m = cc
one_target id target (x ∷ xs) a d h m = ground (
  arith,
  eq_iff x.id id,
  eq_iff x.target_resource target,
  not_later id target xs,
  one_target id target xs a d.1,
)

module _ (now : Time) (incident_id action_id : String) (record_ : ExecutionRecord)
    (s : MemoryStore) where
  -- The action's share in the counts is as it was, in every bucket.
  same_count :
      (target : String) (s' : MemoryStore) (c : Claimed now incident_id action_id record_ s s')
      (j : String) (rs : List ExecutionRecord)
      → held_by (get_list j s'.actions) target rs ≡ held_by (get_list j s.actions) target rs
  same_count target s' c j rs = rw c.actions_after (
      ground (
        arith,
        eq_iff incident_id j,
        get_list-put incident_id j
            (update_first (has_id action_id) (with_status executing)
              (get_list incident_id s.actions))
            s.actions,
        held_by_status action_id target executing (get_list incident_id s.actions) rs,
      ))

  started_on-claim :
      (target : String) (s' : MemoryStore)
      → Claimed now incident_id action_id record_ s s'
      → started_on target s'
        ≡ started_on target s + held_by (get_list incident_id s.actions) target (record_ ∷ [])
  unfolding started_on
  started_on-claim target s' c = omega (
    arith,
    total_congr (λ j. held_by (get_list j s'.actions) target)
        (λ j. held_by (get_list j s.actions) target) s'.executions (same_count target s' c),
    ap (total (λ j. held_by (get_list j s.actions) target)) c.executions_after,
    total-put (λ j. held_by (get_list j s.actions) target) incident_id
        (get_list incident_id s.executions ++ record_ ∷ []) s.executions refl,
    held_by-append (get_list incident_id s.actions) target (get_list incident_id s.executions)
        record_,
  )

  -- A successful claim keeps the invariant, where the incident's actions have distinct ids and the
  -- record is the claimed action's.
  pub claim-IsExclusive :
      (s' : MemoryStore)
      → IsExclusive s
      → IsDistinct (get_list incident_id s.actions)
      → record_.candidate_action_id ≡ action_id
      → claim_execution now incident_id action_id record_ s ≡ some (true, s')
      → IsExclusive s'
  unfolding started_on
  claim-IsExclusive s' x d same h target =
      let c = claim-Claimed now incident_id action_id record_ s s' h in
      let actions = get_list incident_id s.actions in
      let counted = started_on-claim target s' c in
      elim (Bool-cases (
        any
          (λ (c : CandidateAction).
            str_eq c.id record_.candidate_action_id && str_eq c.target_resource target)
          actions)) [
            | inl e ↦
                let same_target : c.action.target_resource ≡ target =
                  one_target record_.candidate_action_id target actions c.action d
                    (ap (λ i. find (has_id i) actions) same ∙ c.found) e in
                let idle : started_on target s ≡ 0 =
                  ap (λ t. started_on t s) (sym same_target)
                  ∙ not_busy s.actions c.action.target_resource s.executions c.free in
                ground (arith, counted, idle)
            | inr e ↦ ground (arith, counted, x target)
          ]
