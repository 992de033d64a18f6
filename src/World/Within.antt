-- ===== src/World/Within.antt =====
-- Relations between the state before and after a step, one rule for each way to build a step.
use triovexa.Prelude.{
  ℕ, suc, ◌≤◌, arith, inl, inr, Option-cases, ◌≡◌, refl, Bool, true, false, Option, none, some,
  if◌then◌else◌,
}
use triovexa.Storage.{MemoryStore}
use triovexa.Failure.{Failure}
use triovexa.World.{
  World, Env, M, Outcome, ok, err, final, continue, ◌>>=◌, ◌>>◌, pure, raise, fetch, look, ask,
  draw, or_fail, attempt, guard, modify, update, now, new_id, kill_switch_on, handle, handled,
  swallow, swallowed, caught, catching,
}

-- Whether `m` returns or fails, the state after it stands in the relation to the state before.
pub record Within {ℓ} {A : Type ℓ} (R : World → World → Type 0) (m : M A) : Type ℓ where
  pub at : (w : World) → R w (final (m w))

-- A relation that holds of no change, composes, and does not read the ids' counter, nor the clock's but that it
-- only grows.
pub record IsFrame (R : World → World → Type 0) : Type 0 where
  pub stay : (w : World) → R w w
  pub chain : (u v w : World) → R u v → R v w → R u w
  pub skip_reads : (w : World) (n : ℕ) → w.reads ≤ n → R w (record w { reads = n })
  pub skip_ids : (w : World) (n : ℕ) → R w (record w { ids = n })

module _ {R : World → World → Type 0} (f : IsFrame R) where
  module _ {ℓ} {A : Type ℓ} where
    pub Within-pure : (a : A) → Within R (pure a)
    unfolding pure
    Within-pure a = record { at = λ w. f.stay w }

    pub Within-raise : (e : Failure) → Within R (raise {A = A} e)
    unfolding raise
    Within-raise e = record { at = λ w. f.stay w }

    at_fetch : (o : Option A) (e : Failure) (w : World) → R w (final (or_fail o e w))
    unfolding or_fail
    at_fetch none e w = f.stay w
    at_fetch (some a) e w = f.stay w

    pub Within-or_fail : (o : Option A) (e : Failure) → Within R (or_fail o e)
    Within-or_fail o e = record { at = at_fetch o e }

    pub Within-fetch : (read : MemoryStore → Option A) (e : Failure) → Within R (fetch read e)
    unfolding fetch
    Within-fetch read e = record {
      at = λ w. elim (Option-cases (read w.store)) [
        | inl q ↦ rw (q, fetch) (f.stay w)
        | inr (a, q) ↦ rw (q, fetch) (f.stay w)
      ];
    }

    pub Within-ask : (answer : ℕ → A) → Within R (ask answer)
    unfolding ask
    Within-ask answer = record { at = λ w. f.stay w }

    pub Within-draw : (value : ℕ → A) → Within R (draw value)
    unfolding draw
    Within-draw value = record { at = λ w. f.skip_ids w _ }

    pub Within-look : (read : MemoryStore → A) → Within R (look read)
    unfolding look
    Within-look read = record { at = λ w. f.stay w }

    pub Within-attempt :
        (step : MemoryStore → Option (A × MemoryStore))
        → ((w : World) (a : A) (s : MemoryStore)
            → step w.store ≡ some (a, s)
            → R w (record w { store = s }))
        → Within R (attempt step)
    unfolding attempt
    Within-attempt step keep = record {
      at = λ w. elim (Option-cases (step w.store)) [
        | inl q ↦ rw (q, attempt) (f.stay w)
        | inr ((a, s), q) ↦ rw (q, attempt) (keep w a s q)
      ];
    }

    at_handled :
        (w : World) (o : Outcome A) (h : Failure → M A)
        → R w (final o)
        → ((e : Failure) (v : World) → R v (final (h e v)))
        → R w (final (handled o h))
    at_handled w (ok a v) h r k = r
    at_handled w (err e v) h r k = f.chain w v _ r (k e v)

    pub Within-handle :
        (m : M A) (h : Failure → M A)
        → Within R m
        → ((e : Failure) → Within R (h e))
        → Within R (handle m h)
    unfolding handle
    Within-handle m h p q = record { at = λ w. at_handled w (m w) h (p.at w) (λ e v. (q e).at v) }

    at_swallowed :
        (w : World) (o : Outcome A) (h : M (Unit {0}))
        → R w (final o)
        → ((v : World) → R v (final (h v)))
        → R w (final (swallowed o h))
    unfolding swallowed
    at_swallowed w (ok a v) h r k = r
    at_swallowed w (err e v) h r k = f.chain w v _ r (k v)

    at_catching : (w : World) (o : Outcome A) → R w (final o) → R w (final (catching o))
    at_catching w (ok a v) r = r
    at_catching w (err e v) r = r

    pub Within-caught : (m : M A) → Within R m → Within R (caught m)
    unfolding caught
    Within-caught m p = record { at = λ w. at_catching w (m w) (p.at w) }

    pub Within-if :
        (b : Bool) (m n : M A)
        → (b ≡ true → Within R m)
        → (b ≡ false → Within R n)
        → Within R (if b then m else n)
    Within-if true m n km kn = km refl
    Within-if false m n km kn = kn refl

  pub Within-swallow :
      {A : Type 0} (m : M A) (h : M (Unit {0})) → Within R m → Within R h → Within R (swallow m h)
  unfolding swallow
  Within-swallow m h p q = record { at = λ w. at_swallowed w (m w) h (p.at w) q.at }

  pub Within-guard : (b : Bool) (e : Failure) → Within R (guard b e)
  unfolding guard
  Within-guard true e = record { at = λ w. f.stay w }
  Within-guard false e = record { at = λ w. f.stay w }

  pub Within-kill_switch_on : Within R kill_switch_on
  unfolding kill_switch_on
  Within-kill_switch_on = record { at = λ w. f.stay w }

  pub Within-modify :
      (step : MemoryStore → MemoryStore)
      → ((w : World) → R w (record w { store = step w.store }))
      → Within R (modify step)
  unfolding modify
  Within-modify step keep = record { at = keep }

  pub Within-update :
      (step : MemoryStore → Option MemoryStore)
      → ((w : World) (s : MemoryStore) → step w.store ≡ some s → R w (record w { store = s }))
      → Within R (update step)
  unfolding update
  Within-update step keep = record {
    at = λ w. elim (Option-cases (step w.store)) [
      | inl q ↦ rw (q, update) (f.stay w)
      | inr (s, q) ↦ rw (q, update) (keep w s q)
    ];
  }

  pub Within-now : (env : Env) → Within R (now env)
  unfolding now
  Within-now env = record { at = λ w. f.skip_reads w (suc w.reads) (ground arith) }

  pub Within-new_id : (env : Env) → Within R (new_id env)
  unfolding new_id
  Within-new_id env = record { at = λ w. f.skip_ids w _ }

  module _ {ℓ κ} {A : Type ℓ} {B : Type κ} where
    after_outcome :
        (w : World) (o : Outcome A) (k : A → M B)
        → R w (final o)
        → ((a : A) (w' : World) → R w' (final (k a w')))
        → R w (final (continue o k))
    after_outcome w (ok a w') k r h = f.chain w w' _ r (h a w')
    after_outcome w (err e w') k r h = r

    pub Within-bind :
        (m : M A) (k : A → M B) → Within R m → ((a : A) → Within R (k a)) → Within R (m >>= k)
    unfolding ◌>>=◌
    Within-bind m k hm hk = record {
      at = λ w. after_outcome w (m w) k (hm.at w) (λ a w'. (hk a).at w');
    }

  -- What follows a test may use that the test passed.
  pub Within-guard-bind {ℓ} :
      {B : Type ℓ} (b : Bool) (e : Failure) (k : M B)
      → (b ≡ true → Within R k)
      → Within R (guard b e >> k)
  unfolding ◌>>=◌ guard
  Within-guard-bind true e k h = record { at = λ w. (h refl).at w }
  Within-guard-bind false e k h = record { at = λ w. f.stay w }

pub ruleset within_rules = (
  Within-pure, Within-raise, Within-or_fail, Within-fetch, Within-look, Within-ask, Within-draw,
  Within-swallow, Within-caught, Within-if, Within-handle, Within-guard, Within-kill_switch_on,
  Within-now, Within-new_id, Within-bind,
)
