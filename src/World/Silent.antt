-- ===== src/World/Silent.antt =====
-- Steps that do not call the adapter.
use triovexa.Prelude.{ap, ◌≡◌, ◌≢◌, refl, ◌∙◌, arith, Option}
use triovexa.Storage.{MemoryStore}
use triovexa.World.{World, M, Outcome, ok, err, final, continue, ◌>>=◌, attempt, update, modify}
use triovexa.World.Within.{
  Within, IsFrame, within_rules, Within-attempt, Within-update, Within-modify,
}
use triovexa.World.Quiet.{Quiet}

pub record Silent (v w : World) : Type 0 where
  pub calls : w.dispatched ≡ v.dispatched

pub Silent-frame : IsFrame Silent
Silent-frame = record {
  stay = λ w. ground arith;
  chain = λ u v w h k. ground arith;
  skip_reads = λ w n later. ground arith;
  skip_ids = λ w n. ground arith;
}

pub Quiet-Silent {ℓ} : {A : Type ℓ} (m : M A) → Within Quiet m → Within Silent m
Quiet-Silent m q = record { at = λ w. record { calls = (q.at w).dispatched } }

pub attempt-Silent :
    {A : Type 0} (step : MemoryStore → Option (A × MemoryStore)) → Within Silent (attempt step)
attempt-Silent step = Within-attempt Silent-frame step (λ w a s h. record { calls = refl })

pub update-Silent : (step : MemoryStore → Option MemoryStore) → Within Silent (update step)
update-Silent step = Within-update Silent-frame step (λ w s h. record { calls = refl })

pub modify-Silent : (step : MemoryStore → MemoryStore) → Within Silent (modify step)
modify-Silent step = Within-modify Silent-frame step (λ w. record { calls = refl })

pub ruleset silent_rules =
    (within_rules, Silent-frame, attempt-Silent, update-Silent, modify-Silent)

-- A block that called the adapter, and whose first step does not, went on to its rest.
pub record WentOn {A B : Type 0} (m : M A) (k : A → M B) (w : World) : Type 0 where
  pub answer : A
  pub after : World
  pub returned : m w ≡ ok answer after
  pub silent : after.dispatched ≡ w.dispatched
  pub ends : final ((m >>= k) w) ≡ final (k answer after)
  pub called : (final (k answer after)).dispatched ≢ after.dispatched

module _ {A B : Type 0} (m : M A) (k : A → M B) (w : World) where
  went_on :
      (o : Outcome A)
      → m w ≡ o
      → Silent w (final o)
      → (final (continue o k)).dispatched ≢ w.dispatched
      → WentOn m k w
  unfolding ◌>>=◌
  went_on (ok a u) h s c = record {
    answer = a;
    after = u;
    returned = h;
    silent = s.calls;
    ends = ap (λ (o : Outcome B). final o) (ap (λ (o : Outcome A). continue o k) h);
    called = λ e. c (e ∙ s.calls);
  }
  went_on (err e u) h s c = absurd (c s.calls)

  pub bind-WentOn : Within Silent m → (final ((m >>= k) w)).dispatched ≢ w.dispatched → WentOn m k w
  unfolding ◌>>=◌
  bind-WentOn s c = went_on (m w) refl (s.at w) c
