-- ===== src/Transition/Moves.antt =====
-- The state of every incident is one that the transition table reaches from the one before.
use triovexa.Prelude.{
  String, Bool, true, false, ◌≡◌, sym, ap, ◌∙◌, inl, inr, Option, Option-cases, Bool-cases, none,
  some, arith, get, put, get-put, str_eq, eq_iff,
}
use triovexa.Domain.{Time, Incident, IncidentState, same_state, same_state_iff}
use triovexa.Storage.{MemoryStore}
use triovexa.Storage.Incidents.{compare_and_swap_incident_state, with_state}
use triovexa.StateMachine.{can_transition}
use triovexa.Failure.{invalid_transition}
use triovexa.World.{World, Env, attempt}
use triovexa.World.Within
use triovexa.World.Within.{Within, IsFrame, within_rules}
use triovexa.Transition.{transition_incident_state}

-- The state is reached by transitions of the table.
pub data CanReach (s : IncidentState) : IncidentState → Type 0 where
  here : CanReach s s
  next : {t u : IncidentState} → CanReach s t → can_transition t u ≡ true → CanReach s u

CanReach-trans : {s t u : IncidentState} → CanReach s t → CanReach t u → CanReach s u
CanReach-trans r here = r
CanReach-trans r (next q h) = next (CanReach-trans r q) h

-- What becomes of an entry of the incidents: it is never lost, and its state is one that the table reaches.
abbrev pub Moved : Option Incident → Option Incident → Type 0
Moved none after = Unit {0}
Moved (some i) none = ⊥
Moved (some i) (some j) = CanReach i.state j.state

abbrev pub StoreMoves : MemoryStore → MemoryStore → Type 0
StoreMoves s t = (id : String) → Moved (get id s.incidents) (get id t.incidents)

abbrev pub Moves : World → World → Type 0
Moves v w = StoreMoves v.store w.store

Moved-refl : (o : Option Incident) → Moved o o
Moved-refl none = tt
Moved-refl (some i) = here

Moved-trans : (a b c : Option Incident) → Moved a b → Moved b c → Moved a c
Moved-trans none b c h k = tt
Moved-trans (some i) none c h k = absurd h
Moved-trans (some i) (some j) none h k = k
Moved-trans (some i) (some j) (some l) h k = CanReach-trans h k

pub Moves-frame : IsFrame Moves
Moves-frame = record {
  stay = λ w id. Moved-refl (get id w.store.incidents);
  chain = λ u v w h k id. Moved-trans _ (get id v.store.incidents) _ (h id) (k id);
  skip_reads = λ w n later id. Moved-refl (get id w.store.incidents);
  skip_ids = λ w n id. Moved-refl (get id w.store.incidents);
}

-- A write that leaves the incidents alone.
pub same_incidents : (s t : MemoryStore) → t.incidents ≡ s.incidents → StoreMoves s t
same_incidents s t e id = rw e (Moved-refl (get id s.incidents))

-- A new state for one incident, next to the old one in the table.
pub put-StoreMoves :
    (at : Time) (id : String) (incident : Incident) (to : IncidentState) (s t : MemoryStore)
    → get id s.incidents ≡ some incident
    → CanReach incident.state to
    → t.incidents ≡ put id (with_state at to incident) s.incidents
    → StoreMoves s t
put-StoreMoves at id incident to s t e r w j = elim (Bool-cases (str_eq id j)) [
  | inl q ↦
      let same : get j s.incidents ≡ some incident =
        ap (λ i. get i s.incidents) (sym ((eq_iff id j).0 q)) ∙ e in
      rw (w, get-put id j (with_state at to incident) s.incidents, q, same) r
  | inr q ↦
      rw (w, get-put id j (with_state at to incident) s.incidents, q)
        (Moved-refl (get j s.incidents))
]

module _ (at : Time) (id : String) (from to : IncidentState) (s : MemoryStore) where
  swap-StoreMoves :
      (b : Bool) (t : MemoryStore)
      → can_transition from to ≡ true
      → compare_and_swap_incident_state at id from to s ≡ some (b, t)
      → StoreMoves s t
  unfolding compare_and_swap_incident_state
  swap-StoreMoves false t c h =
      same_incidents s t (ground (arith, Option-cases (get id s.incidents)))
  swap-StoreMoves true t c h = elim (Option-cases (get id s.incidents)) [
    | inl e ↦ absurd (ground arith)
    | inr (incident, e) ↦
        let was : same_state incident.state from ≡ true = ground arith in
        put-StoreMoves at id incident to s t e
          (next here (rw ((same_state_iff incident.state from).0 was) c)) (ground arith)
  ]

swap-Moves :
    (env : Env) (incident : Incident) (to : IncidentState)
    → can_transition incident.state to ≡ true
    → (at : Time)
    → Within Moves (attempt (compare_and_swap_incident_state at incident.id incident.state to))
swap-Moves env incident to c at =
    Within.Within-attempt Moves-frame _
      λ w b s h. swap-StoreMoves at incident.id incident.state to w.store b s c h

-- Whether it succeeds or fails, a transition leaves each incident in a state that the table reaches.
pub transition-Moves :
    (env : Env) (incident : Incident) (to : IncidentState)
    → Within Moves (transition_incident_state env incident to)
unfolding transition_incident_state
transition-Moves env incident to =
    Within.Within-if Moves-frame (same_state incident.state to) _ _
      (λ _. Within.Within-pure Moves-frame incident)
      λ _.
        Within.Within-guard-bind Moves-frame (can_transition incident.state to)
          (invalid_transition incident.state to) _
          λ c. search (within_rules, Moves-frame, swap-Moves env incident to c) depth 14
