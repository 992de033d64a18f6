-- ===== src/World/Readings.antt =====
-- Readings of the clock that a step makes, for what a service has found to hold at one of them.
use triovexa.Prelude.{ℕ, suc, ◌≤◌, ◌<◌, arith, List, [], ◌∷◌, All}
use triovexa.Domain.{Time}
use triovexa.World.{Env}

-- One of the readings from the number `start` to before the number `end` satisfies `P`.
pub record ReadIn (env : Env) (start end : ℕ) (P : Time → Type 0) : Type 0 where
  pub reading : ℕ
  pub since : start ≤ reading
  pub before : reading < end
  pub holds : P (env.clock reading)

module _ {env : Env} {P : Time → Type 0} where
  pub widen :
      (start end from to : ℕ)
      → from ≤ start
      → end ≤ to
      → ReadIn env start end P
      → ReadIn env from to P
  widen start end from to s e r = record {
    reading = r.reading;
    since = ground (arith, r.since);
    before = ground (arith, r.before);
    holds = r.holds;
  }

-- What a step that read the clock once, as its next reading, has found.
pub read_once : (env : Env) (P : Time → Type 0) (n : ℕ) → P (env.clock n) → ReadIn env n (suc n) P
read_once env P n h = record { reading = n; since = ground arith; before = ground arith; holds = h }

pub All-widen {ℓ} :
    {A : Type ℓ} {P Q : A → Type 0} (xs : List A) → ((a : A) → P a → Q a) → All P xs → All Q xs
All-widen [] f h = tt
All-widen (x ∷ xs) f h = (f x h.0, All-widen xs f h.1)
