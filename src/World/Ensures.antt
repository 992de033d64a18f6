-- ===== src/World/Ensures.antt =====
-- What holds when a step returns, by one rule for each way in which a block goes on.
use triovexa.Prelude.{
  ℕ, suc, ◌≡◌, refl, Bool, true, false, Option, Option-cases, inl, inr, none, some, if◌then◌else◌,
  subst, sym, ◌∙◌, String,
}
use triovexa.Domain.{Time}
use triovexa.Storage.{MemoryStore}
use triovexa.Failure.{Failure}
use triovexa.World.{
  World, Env, M, Outcome, ok, err, final, continue, ◌>>=◌, pure, raise, or_fail, fetch, look, ask,
  attempt, guard, modify, update, now, new_id, kill_switch_on, handle, handled,
}
use triovexa.World.Within.{Within}

-- If `m`, begun in `w`, returns, then its value and the state after it satisfy `Q`.
pub record Ensures {A : Type 0} (m : M A) (w : World) (Q : A → World → Type 0) : Type 0 where
  pub at : (a : A) (w' : World) → m w ≡ ok a w' → Q a w'

module _ {A : Type 0} (Q : A → World → Type 0) where
  Held : Outcome A → Type 0
  Held (ok b v) = Q b v
  Held (err e v) = Unit {0}

  carry : (o : Outcome A) (a b : A) (u v : World) → o ≡ ok b v → o ≡ ok a u → Q a u → Q b v
  unfolding Held
  carry o a b u v h e q = subst Held (sym e ∙ h) q

module _ {A : Type 0} {Q : A → World → Type 0} where
  at_handled :
      (o : Outcome A) (h : Failure → M A) (b : A) (v : World)
      → (o ≡ ok b v → Q b v)
      → ((e : Failure) (u : World) → Ensures (h e) u Q)
      → handled o h ≡ ok b v
      → Q b v
  at_handled (ok a u) h b v q k r = q r
  at_handled (err e u) h b v q k r = (k e u).at b v r

module _ {A : Type 0} {Q : A → World → Type 0} {w : World} where
  pub pure-Ensures : (a : A) → Q a w → Ensures (pure a) w Q
  unfolding pure
  pure-Ensures a q = record { at = λ b v h. carry Q (pure a w) a b w v h refl q }

  pub raise-Ensures : (e : Failure) → Ensures (raise {A = A} e) w Q
  unfolding raise
  raise-Ensures e = record { at = λ b v h. cc }

  pub fetch-Ensures :
      (read : MemoryStore → Option A) (e : Failure)
      → ((a : A) → read w.store ≡ some a → Q a w)
      → Ensures (fetch read e) w Q
  unfolding fetch
  fetch-Ensures read e q = record {
    at = λ b v h. elim (Option-cases (read w.store)) [
      | inl n ↦ absurd (cc (rw (n, fetch) at h))
      | inr (a, p) ↦ carry Q (fetch read e w) a b w v h (rw (p, fetch)) (q a p)
    ];
  }

  pub or_fail-Ensures :
      (o : Option A) (e : Failure) → ((a : A) → o ≡ some a → Q a w) → Ensures (or_fail o e) w Q
  unfolding or_fail
  or_fail-Ensures none e q = record { at = λ b v h. cc }
  or_fail-Ensures (some a) e q = record {
    at = λ b v h. carry Q (or_fail (some a) e w) a b w v h refl (q a refl);
  }

  pub look-Ensures : (read : MemoryStore → A) → Q (read w.store) w → Ensures (look read) w Q
  unfolding look
  look-Ensures read q = record { at = λ b v h. carry Q (look read w) (read w.store) b w v h refl q }

  pub attempt-Ensures :
      (step : MemoryStore → Option (A × MemoryStore))
      → ((a : A) (s : MemoryStore) → step w.store ≡ some (a, s) → Q a (record w { store = s }))
      → Ensures (attempt step) w Q
  unfolding attempt
  attempt-Ensures step q = record {
    at = λ b v h. elim (Option-cases (step w.store)) [
      | inl n ↦ absurd (cc (rw (n, attempt) at h))
      | inr ((a, s), p) ↦
          carry Q (attempt step w) a b (record w { store = s }) v h (rw (p, attempt)) (q a s p)
    ];
  }

  -- A step of which only a relation between the states is known.
  pub Within-Ensures :
      (R : World → World → Type 0) (m : M A)
      → Within R m
      → ((a : A) (v : World) → R w v → Q a v)
      → Ensures m w Q
  Within-Ensures R m r q = record {
    at = λ a v h. q a v (subst (λ (o : Outcome A). R w (final o)) h (r.at w));
  }

  pub weaken-Ensures :
      (P : A → World → Type 0) (m : M A)
      → Ensures m w P
      → ((a : A) (v : World) → P a v → Q a v)
      → Ensures m w Q
  weaken-Ensures P m p q = record { at = λ a v h. q a v (p.at a v h) }

  -- What is known of a step, and how it relates the states.
  pub both-Ensures :
      (P : A → World → Type 0) (R : World → World → Type 0) (m : M A)
      → Ensures m w P
      → Within R m
      → ((a : A) (v : World) → P a v → R w v → Q a v)
      → Ensures m w Q
  both-Ensures P R m p r q = record {
    at = λ a v h. q a v (p.at a v h) (subst (λ (o : Outcome A). R w (final o)) h (r.at w));
  }

  pub handle-Ensures :
      (m : M A) (h : Failure → M A)
      → Ensures m w Q
      → ((e : Failure) (u : World) → Ensures (h e) u Q)
      → Ensures (handle m h) w Q
  unfolding handle
  handle-Ensures m h p q = record { at = λ b v r. at_handled (m w) h b v (p.at b v) q r }

  pub if-Ensures :
      (b : Bool) (m n : M A)
      → (b ≡ true → Ensures m w Q)
      → (b ≡ false → Ensures n w Q)
      → Ensures (if b then m else n) w Q
  if-Ensures true m n p q = p refl
  if-Ensures false m n p q = q refl

module _ {Q : Unit {0} → World → Type 0} {w : World} where
  pub guard-Ensures : (b : Bool) (e : Failure) → (b ≡ true → Q tt w) → Ensures (guard b e) w Q
  unfolding guard
  guard-Ensures true e q = record {
    at = λ a v h. carry Q (guard true e w) tt a w v h refl (q refl);
  }
  guard-Ensures false e q = record { at = λ a v h. cc }

  pub modify-Ensures :
      (step : MemoryStore → MemoryStore)
      → Q tt (record w { store = step w.store })
      → Ensures (modify step) w Q
  unfolding modify
  modify-Ensures step q = record {
    at = λ a v h. carry Q (modify step w) tt a (record w { store = step w.store }) v h refl q;
  }

  pub update-Ensures :
      (step : MemoryStore → Option MemoryStore)
      → ((s : MemoryStore) → step w.store ≡ some s → Q tt (record w { store = s }))
      → Ensures (update step) w Q
  unfolding update
  update-Ensures step q = record {
    at = λ a v h. elim (Option-cases (step w.store)) [
      | inl n ↦ absurd (cc (rw (n, update) at h))
      | inr (s, p) ↦
          carry Q (update step w) tt a (record w { store = s }) v h (rw (p, update)) (q s p)
    ];
  }

module _ {A B : Type 0} {Q : B → World → Type 0} where
  continued :
      (o : Outcome A) (k : A → M B) (b : B) (v : World)
      → ((a : A) (u : World) → o ≡ ok a u → Ensures (k a) u Q)
      → continue o k ≡ ok b v
      → Q b v
  continued (ok a u) k b v q h = (q a u refl).at b v h
  continued (err e u) k b v q h = cc

module _ {A B : Type 0} {Q : B → World → Type 0} {w : World} where
  -- A block returns if its first step does and then the rest.
  pub bind-Ensures :
      (m : M A) (k : A → M B) → Ensures m w (λ a u. Ensures (k a) u Q) → Ensures (m >>= k) w Q
  unfolding ◌>>=◌
  bind-Ensures m k p = record { at = λ b v h. continued (m w) k b v p.at h }

module _ (env : Env) {B : Type 0} {Q : B → World → Type 0} {w : World} where
  pub now-then :
      (k : Time → M B)
      → Ensures (k (env.clock w.reads)) (record w { reads = suc w.reads }) Q
      → Ensures (now env >>= k) w Q
  unfolding ◌>>=◌ now
  now-then k q = record { at = q.at }

  pub new_id-then :
      (k : String → M B)
      → Ensures (k (env.uuid w.ids)) (record w { ids = suc w.ids }) Q
      → Ensures (new_id env >>= k) w Q
  unfolding ◌>>=◌ new_id
  new_id-then k q = record { at = q.at }

module _ {A B : Type 0} {Q : B → World → Type 0} {w : World} where
  pub ask-then :
      (answer : ℕ → A) (k : A → M B)
      → Ensures (k (answer w.reads)) w Q
      → Ensures (ask answer >>= k) w Q
  unfolding ◌>>=◌ ask
  ask-then answer k q = record { at = q.at }

module _ {B : Type 0} {Q : B → World → Type 0} {w : World} where
  pub kill_switch_on-then :
      (k : Bool → M B) → Ensures (k w.kill_switch) w Q → Ensures (kill_switch_on >>= k) w Q
  unfolding ◌>>=◌ kill_switch_on
  kill_switch_on-then k q = record { at = q.at }
