-- ===== src/Storage/Executions/Safe.antt =====
-- The operations of internal/storage/memory.go that an execution uses keep each target to one
-- started execution.
use triovexa.Prelude.{
  eq_iff, ◌≤◌, Bool-cases, Option-cases, inl, inr, String, Bool, true, false, ◌≡◌, refl, sym, ◌⊎◌,
  List, [], ◌∷◌, ◌++◌, some, arith, str_eq, any-update_first, update_first, Map, get, put, subst,
  get_list, get_list-put, total-put, total_congr,
}
use triovexa.Domain.{
  Time, CandidateAction, CandidateActionStatus, executing, ExecutionRecord, is_started,
}
use triovexa.Storage.Store.{MemoryStore}
use triovexa.Storage.Actions.{has_id, with_status, update_status_in, update_candidate_action_status}
use triovexa.Storage.Executions.{
  claim_execution, same_record, upsert_execution, save_execution_record, incident_of,
}
use triovexa.Storage.Executions.Claim.{claim-Claimed, claim-refused}
use triovexa.Storage.Executions.Exclusive.{
  held_by, held_by_status, started_on, IsExclusive, IsDistinct, claim-IsExclusive,
}

-- No two actions of one incident have one id, and no target has two started executions.
pub record IsSafe (s : MemoryStore) : Type 0 where
  pub distinct : (id : String) → IsDistinct (get_list id s.actions)
  pub exclusive : IsExclusive s

with_status-IsDistinct :
    (p : CandidateAction → Bool) (status : CandidateActionStatus) (xs : List CandidateAction)
    → IsDistinct xs
    → IsDistinct (update_first p (with_status status) xs)
with_status-IsDistinct p status [] h = tt
with_status-IsDistinct p status (x ∷ xs) h = ground (
  arith,
  with_status-IsDistinct p status xs h.1,
  any-update_first (has_id x.id) p (with_status status) xs (λ y. refl),
)

module _ (actions : List CandidateAction) (target : String) (r : ExecutionRecord)
    (idle : is_started r.status ≡ false) where
  held_by-overwrite :
      (rs : List ExecutionRecord)
      → held_by actions target (update_first (same_record r) (λ _. r) rs)
        ≤ held_by actions target rs
  held_by-overwrite [] = omega arith
  held_by-overwrite (x ∷ rs) = ground (arith, idle, held_by-overwrite rs)

  held_by-extend :
      (rs : List ExecutionRecord)
      → held_by actions target (rs ++ r ∷ []) ≤ held_by actions target rs
  held_by-extend [] = ground (arith, idle)
  held_by-extend (x ∷ rs) = ground (arith, held_by-extend rs)

  held_by-upsert :
      (rs : List ExecutionRecord)
      → held_by actions target (upsert_execution r rs) ≤ held_by actions target rs
  unfolding upsert_execution
  held_by-upsert rs = ground (arith, held_by-overwrite rs, held_by-extend rs)

-- A write of one incident's executions that adds to no count.
overwrite-IsSafe :
    (s t : MemoryStore) (id : String) (new : List ExecutionRecord)
    → t.actions ≡ s.actions
    → t.executions ≡ put id new s.executions
    → ((target : String)
        → held_by (get_list id s.actions) target new
          ≤ held_by (get_list id s.actions) target (get_list id s.executions))
    → IsSafe s
    → IsSafe t
unfolding started_on
overwrite-IsSafe s t id new same written fewer safe = record {
  distinct = λ j. rw same (safe.distinct j);
  exclusive = λ target.
      rw (same, written)
        (omega (
          arith,
          total-put (λ j. held_by (get_list j s.actions) target) id new s.executions refl,
          fewer target,
          safe.exclusive target,
        ));
}

-- A record that is not started, when it is saved, does not add to a count.
pub save-IsSafe :
    (r : ExecutionRecord) (s t : MemoryStore)
    → is_started r.status ≡ false
    → save_execution_record r s ≡ some t
    → IsSafe s
    → IsSafe t
unfolding save_execution_record
save-IsSafe r s t idle h safe = elim (Option-cases (incident_of r.candidate_action_id s.actions)) [
  | inl e ↦ absurd (ground arith)
  | inr (id, e) ↦
      overwrite-IsSafe s t id (upsert_execution r (get_list id s.executions)) (ground arith)
        (ground arith)
        (λ target. held_by-upsert (get_list id s.actions) target r idle (get_list id s.executions))
        safe
]

-- What a change of a status does to the actions of one incident.
get_list-update_status :
    (id : String) (status : CandidateActionStatus) (m m' : Map (List CandidateAction)) (j : String)
    → update_status_in id status m ≡ some m'
    → (get_list j m' ≡ get_list j m)
      ⊎ (get_list j m' ≡ update_first (has_id id) (with_status status) (get_list j m))
unfolding update_status_in get
get_list-update_status id status [] m' j h = cc
get_list-update_status id status ((k, xs) ∷ m) m' j h =
    elim (Option-cases (update_status_in id status m)) [
      | inl e ↦ ground (arith, e)
      | inr (rest, e) ↦ ground (arith, get_list-update_status id status m rest j e)
    ]

module _ (id : String) (status : CandidateActionStatus) (s t : MemoryStore)
    (h : update_candidate_action_status id status s ≡ some t) where
  status-get_list :
      (j : String)
      → (get_list j t.actions ≡ get_list j s.actions)
        ⊎ (get_list j t.actions
            ≡ update_first (has_id id) (with_status status) (get_list j s.actions))
  unfolding update_candidate_action_status
  status-get_list j = elim (Option-cases (update_status_in id status s.actions)) [
    | inl e ↦ absurd (ground arith)
    | inr (m, e) ↦
        let same : t.actions ≡ m = ground arith in
        rw same (get_list-update_status id status s.actions m j e)
  ]

  status-executions : t.executions ≡ s.executions
  unfolding update_candidate_action_status
  status-executions = ground (arith, Option-cases (update_status_in id status s.actions))

  status-held_by :
      (target j : String) (rs : List ExecutionRecord)
      → held_by (get_list j t.actions) target rs ≡ held_by (get_list j s.actions) target rs
  status-held_by target j rs = elim (status-get_list j) [
    | inl e ↦ rw e refl
    | inr e ↦ rw e (held_by_status id target status (get_list j s.actions) rs)
  ]

  pub status-IsSafe : IsSafe s → IsSafe t
  unfolding started_on
  status-IsSafe safe = record {
    distinct = λ j. elim (status-get_list j) [
      | inl e ↦ rw e (safe.distinct j)
      | inr e ↦
          rw e (with_status-IsDistinct (has_id id) status (get_list j s.actions) (safe.distinct j))
    ];
    exclusive = λ target. rw status-executions (
        omega (
          arith,
          total_congr (λ j. held_by (get_list j t.actions) target)
              (λ j. held_by (get_list j s.actions) target) s.executions (status-held_by target),
          safe.exclusive target,
        ));
  }

-- A claim, won or lost, of an action for its own record.
pub claim-IsSafe :
    (now : Time) (incident_id action_id : String) (r : ExecutionRecord) (b : Bool)
    (s t : MemoryStore)
    → r.candidate_action_id ≡ action_id
    → claim_execution now incident_id action_id r s ≡ some (b, t)
    → IsSafe s
    → IsSafe t
claim-IsSafe now incident_id action_id r false s t same h safe =
    subst IsSafe (sym (claim-refused now incident_id action_id r s t h)) safe
claim-IsSafe now incident_id action_id r true s t same h safe =
    let c = claim-Claimed now incident_id action_id r s t h in
    record {
      distinct = λ j.
          rw
            (
              c.actions_after,
              get_list-put incident_id j
                  (update_first (has_id action_id) (with_status executing)
                    (get_list incident_id s.actions))
                  s.actions,
            )
            (elim (Bool-cases (str_eq incident_id j)) [
              | inl e ↦ rw e (
                  with_status-IsDistinct (has_id action_id) executing
                    (get_list incident_id s.actions) (safe.distinct incident_id))
              | inr e ↦ rw e (safe.distinct j)
            ]);
      exclusive =
          claim-IsExclusive now incident_id action_id r s t safe.exclusive
            (safe.distinct incident_id) same h;
    }

-- A new status for one action of one incident.
pub decided-IsSafe :
    (s t : MemoryStore) (incident_id action_id : String) (status : CandidateActionStatus)
    → t.actions
      ≡ put incident_id
          (update_first (has_id action_id) (with_status status) (get_list incident_id s.actions))
          s.actions
    → t.executions ≡ s.executions
    → IsSafe s
    → IsSafe t
unfolding started_on
decided-IsSafe s t incident_id action_id status written same safe = record {
  distinct = λ j. elim (decided j) [
    | inl e ↦ rw e (safe.distinct j)
    | inr e ↦
        rw e (
          with_status-IsDistinct (has_id action_id) status (get_list j s.actions) (safe.distinct j))
  ];
  exclusive = λ target. rw same (
      omega (
        arith,
        total_congr (λ j. held_by (get_list j t.actions) target)
            (λ j. held_by (get_list j s.actions) target) s.executions (held target),
        safe.exclusive target,
      ));
}
  where
    decided :
        (j : String)
        → (get_list j t.actions ≡ get_list j s.actions)
          ⊎ (get_list j t.actions
              ≡ update_first (has_id action_id) (with_status status) (get_list j s.actions))
    decided j = rw written (
        ground (
          arith,
          eq_iff incident_id j,
          get_list-put incident_id j
              (update_first (has_id action_id) (with_status status)
                (get_list incident_id s.actions))
              s.actions,
        ))

    held :
        (target j : String) (rs : List ExecutionRecord)
        → held_by (get_list j t.actions) target rs ≡ held_by (get_list j s.actions) target rs
    held target j rs = elim (decided j) [
      | inl e ↦ rw e refl
      | inr e ↦ rw e (held_by_status action_id target status (get_list j s.actions) rs)
    ]
