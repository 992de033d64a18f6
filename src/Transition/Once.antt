-- ===== src/Transition/Once.antt =====
-- Steps that move each incident by at most one transition of the table, and create none.
use triovexa.Prelude.{
  String, Bool, true, false, ◌≡◌, refl, sym, ap, ◌∙◌, subst, inl, inr, Option, Option-cases,
  Bool-cases, none, some, arith, get, put, get-put, str_eq, eq_iff, if◌then◌else◌, Map,
}
use triovexa.Domain.{Time, Incident, IncidentState, same_state, same_state_iff}
use triovexa.Failure.{Failure}
use triovexa.Storage.{MemoryStore}
use triovexa.Storage.Incidents.{compare_and_swap_incident_state, with_state}
use triovexa.StateMachine.{can_transition}
use triovexa.Failure.{invalid_transition}
use triovexa.World.{
  World, Env, M, Outcome, ok, err, final, continue, ◌>>=◌, ◌>>◌, pure, raise, attempt, guard,
}
use triovexa.World.Within.{Within}
use triovexa.Transition.{transition_incident_state}
use triovexa.Transition.Still.{SameIncidents, still_rules}

-- The state is the same, or the next one by one transition of the table.
pub data StepsTo (s : IncidentState) : IncidentState → Type 0 where
  stays : StepsTo s s
  moves : {t : IncidentState} → can_transition s t ≡ true → StepsTo s t

-- What becomes of an entry of the incidents.
abbrev pub SteppedOnce : Option Incident → Option Incident → Type 0
SteppedOnce none none = Unit {0}
SteppedOnce (some i) (some j) = StepsTo i.state j.state
SteppedOnce _ _ = ⊥

abbrev pub MapsOnce : Map Incident → Map Incident → Type 0
MapsOnce m n = (id : String) → SteppedOnce (get id m) (get id n)

-- No incident is lost or created, and each moves by at most one transition of the table.
unfoldable pub MovesOnce : World → World → Type 0
MovesOnce v w = MapsOnce v.store.incidents w.store.incidents

SteppedOnce-refl : (o : Option Incident) → SteppedOnce o o
SteppedOnce-refl none = tt
SteppedOnce-refl (some i) = stays

pub same-MapsOnce : (m n : Map Incident) → n ≡ m → MapsOnce m n
same-MapsOnce m n e id = rw e (SteppedOnce-refl (get id m))

-- A new state for one incident, next to the old one in the table.
pub put-MapsOnce :
    (at : Time) (id : String) (incident : Incident) (to : IncidentState) (m n : Map Incident)
    → get id m ≡ some incident
    → StepsTo incident.state to
    → n ≡ put id (with_state at to incident) m
    → MapsOnce m n
put-MapsOnce at id incident to m n e r w j = elim (Bool-cases (str_eq id j)) [
  | inl q ↦
      let same : get j m ≡ some incident = ap (λ i. get i m) (sym ((eq_iff id j).0 q)) ∙ e in
      rw (w, get-put id j (with_state at to incident) m, q, same) r
  | inr q ↦ rw (w, get-put id j (with_state at to incident) m, q) (SteppedOnce-refl (get j m))
]

module _ {ℓ} {A : Type ℓ} where
  pub Still-Once : (m : M A) → Within SameIncidents m → Within MovesOnce m
  unfolding SameIncidents MovesOnce
  Still-Once m s = record {
    at = λ w. same-MapsOnce w.store.incidents (final (m w)).store.incidents (s.at w);
  }

  pub pure-Once : (a : A) → Within MovesOnce (pure a)
  pure-Once a = Still-Once (pure a) (search still_rules)

  pub raise-Once : (e : Failure) → Within MovesOnce (raise {A = A} e)
  raise-Once e = Still-Once (raise e) (search still_rules)

  pub attempt-Once :
      (step : MemoryStore → Option (A × MemoryStore))
      → ((w : World) (a : A) (s : MemoryStore)
          → step w.store ≡ some (a, s)
          → MapsOnce w.store.incidents s.incidents)
      → Within MovesOnce (attempt step)
  unfolding MovesOnce attempt
  attempt-Once step keep = record {
    at = λ w. elim (Option-cases (step w.store)) [
      | inl q ↦ rw (q, attempt) (λ id. SteppedOnce-refl (get id w.store.incidents))
      | inr ((a, s), q) ↦ rw (q, attempt) (keep w a s q)
    ];
  }

  pub if-Once :
      (b : Bool) (m n : M A)
      → (b ≡ true → Within MovesOnce m)
      → (b ≡ false → Within MovesOnce n)
      → Within MovesOnce (if b then m else n)
  if-Once true m n p q = p refl
  if-Once false m n p q = q refl

module _ {ℓ κ} {A : Type ℓ} {B : Type κ} where
  still_after :
      (w : World) (o : Outcome A) (k : A → M B)
      → (final o).store.incidents ≡ w.store.incidents
      → ((a : A) (v : World) → MovesOnce v (final (k a v)))
      → MovesOnce w (final (continue o k))
  unfolding MovesOnce
  still_after w (ok a v) k e h = subst (λ m. MapsOnce m (final (k a v)).store.incidents) e (h a v)
  still_after w (err f v) k e h = same-MapsOnce w.store.incidents v.store.incidents e

  -- A step that leaves the incidents alone, and then one that moves them once.
  pub still-then :
      (m : M A) (k : A → M B)
      → Within SameIncidents m
      → ((a : A) → Within MovesOnce (k a))
      → Within MovesOnce (m >>= k)
  unfolding SameIncidents ◌>>=◌
  still-then m k s h = record { at = λ w. still_after w (m w) k (s.at w) λ a v. (h a).at v }

  once_before :
      (w : World) (o : Outcome A) (k : A → M B)
      → MovesOnce w (final o)
      → ((a : A) (v : World) → (final (k a v)).store.incidents ≡ v.store.incidents)
      → MovesOnce w (final (continue o k))
  unfolding MovesOnce
  once_before w (ok a v) k h e = subst (MapsOnce w.store.incidents) (sym (e a v)) h
  once_before w (err f v) k h e = h

  -- A step that moves the incidents once, and then one that leaves them alone.
  pub then-still :
      (m : M A) (k : A → M B)
      → Within MovesOnce m
      → ((a : A) → Within SameIncidents (k a))
      → Within MovesOnce (m >>= k)
  unfolding SameIncidents ◌>>=◌
  then-still m k h s = record { at = λ w. once_before w (m w) k (h.at w) λ a v. (s a).at v }

-- What follows a test may use that the test passed.
pub guard-Once {ℓ} :
    {B : Type ℓ} (b : Bool) (e : Failure) (k : M B)
    → (b ≡ true → Within MovesOnce k)
    → Within MovesOnce (guard b e >> k)
unfolding ◌>>=◌ guard MovesOnce
guard-Once true e k h = record { at = λ w. (h refl).at w }
guard-Once false e k h = record { at = λ w id. SteppedOnce-refl (get id w.store.incidents) }

module _ (at : Time) (id : String) (from to : IncidentState) (s : MemoryStore) where
  swap-MapsOnce :
      (b : Bool) (t : MemoryStore)
      → can_transition from to ≡ true
      → compare_and_swap_incident_state at id from to s ≡ some (b, t)
      → MapsOnce s.incidents t.incidents
  unfolding compare_and_swap_incident_state
  swap-MapsOnce false t c h =
      same-MapsOnce s.incidents t.incidents (ground (arith, Option-cases (get id s.incidents)))
  swap-MapsOnce true t c h = elim (Option-cases (get id s.incidents)) [
    | inl e ↦ absurd (ground arith)
    | inr (incident, e) ↦
        let was : same_state incident.state from ≡ true = ground arith in
        put-MapsOnce at id incident to s.incidents t.incidents e
          (moves (rw ((same_state_iff incident.state from).0 was) c)) (ground arith)
  ]

module _ (env : Env) (incident : Incident) (to : IncidentState) where
  swap-Once :
      can_transition incident.state to ≡ true
      → (at : Time)
      → Within MovesOnce
          (attempt (compare_and_swap_incident_state at incident.id incident.state to))
  swap-Once c at =
      attempt-Once _ λ w b s h. swap-MapsOnce at incident.id incident.state to w.store b s c h

  -- Whether it succeeds or fails, a transition moves incidents by at most one transition of the table.
  pub transition-Once : Within MovesOnce (transition_incident_state env incident to)
  unfolding transition_incident_state
  transition-Once =
      if-Once (same_state incident.state to) _ _ (λ _. Still-Once _ (search still_rules))
        λ _.
          guard-Once (can_transition incident.state to) (invalid_transition incident.state to) _
            λ c.
              still-then _ _ (search still_rules)
                λ at. then-still _ _ (swap-Once c at) λ b. search still_rules depth 12
