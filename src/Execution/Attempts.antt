-- ===== src/Execution/Attempts.antt =====
-- How often executeWithRetry of internal/execution/service.go calls the adapter.
use triovexa.Prelude.{
  ℕ, zero, suc, ◌+◌, ◌≤◌, ◌<◌, Bool, true, false, ◌≡◌, refl, ap, ◌∙◌, sym, ◌⊎◌, inl, inr, none,
  some, List, ◌∷◌, length, arith,
}
use triovexa.Failure.{deadline_exceeded, retryable, permanent}
use triovexa.World.{World, Env, M, ok, Dispatch, ◌>>=◌, pure, dispatch}
use triovexa.Execution.Retry.{Reply, next_attempt, execute_with_retry}

abbrev pub is_retryable : Reply → Bool
is_retryable (result, some (retryable e)) = true
is_retryable _ = false

-- The same call, a number of times.
abbrev pub repeated : ℕ → Dispatch → List Dispatch → List Dispatch
repeated zero call log = log
repeated (suc n) call log = call ∷ repeated n call log

repeated-suc :
    (n : ℕ) (call : Dispatch) (log : List Dispatch)
    → repeated n call (call ∷ log) ≡ repeated (suc n) call log
repeated-suc zero call log = refl
repeated-suc (suc n) call log = ap (λ (l : List Dispatch). call ∷ l) (repeated-suc n call log)

-- A reply goes on to the next attempt, or is returned.
Reply-cases :
    (r : Reply)
    → ((is_retryable r ≡ true) × ((again : M Reply) → next_attempt r again ≡ again))
      ⊎ ((is_retryable r ≡ false) × ((again : M Reply) → next_attempt r again ≡ pure r))
Reply-cases (result, none) = inr (refl, λ again. refl)
Reply-cases (result, some deadline_exceeded) = inr (refl, λ again. refl)
Reply-cases (result, some (permanent e)) = inr (refl, λ again. refl)
Reply-cases (result, some (retryable e)) = inl (refl, λ again. refl)

module _ (env : Env) (call : Dispatch) where
  -- The reply to the k-th of the calls that start in `w`.
  abbrev pub reply_at : World → ℕ → Reply
  reply_at w k = env.adapter (length w.dispatched + k) call

  -- A run that starts in `w` with `n` retries makes `retried + 1` calls and returns the last reply.
  pub record Attempted (n : ℕ) (w : World) : Type 0 where
    pub retried : ℕ
    pub bounded : retried ≤ n
    pub earlier : (j : ℕ) → j < retried → is_retryable (reply_at w j) ≡ true
    pub stopped : (retried ≡ n) ⊎ (is_retryable (reply_at w retried) ≡ false)
    pub returned :
        execute_with_retry env call n w
        ≡ ok
            (reply_at w retried)
            (record w { dispatched = repeated (suc retried) call w.dispatched })

  first_reply : (w : World) → reply_at w 0 ≡ env.adapter (length w.dispatched) call
  first_reply w = ap (λ n. env.adapter n call) (omega arith)

  abbrev called : World → World
  called w = record w { dispatched = call ∷ w.dispatched }

  next_reply : (w : World) (k : ℕ) → reply_at w (suc k) ≡ reply_at (called w) k
  next_reply w k = ap (λ n. env.adapter n call) (omega arith)

  one_call : (n : ℕ) (w : World) → M Reply
  one_call n w =
      next_attempt (env.adapter (length w.dispatched) call) (execute_with_retry env call n)

  retry-zero :
      (w : World)
      → execute_with_retry env call zero w ≡ ok (env.adapter (length w.dispatched) call) (called w)
  unfolding execute_with_retry dispatch
  retry-zero w = refl

  retry-suc : (n : ℕ) (w : World) → execute_with_retry env call (suc n) w ≡ one_call n w (called w)
  unfolding execute_with_retry dispatch ◌>>=◌ one_call
  retry-suc n w = refl

  retry_stops :
      (n : ℕ) (w : World)
      → ((again : M Reply)
          → next_attempt (env.adapter (length w.dispatched) call) again
            ≡ pure (env.adapter (length w.dispatched) call))
      → execute_with_retry env call (suc n) w ≡ ok (reply_at w 0) (called w)
  unfolding one_call pure
  retry_stops n w e =
      retry-suc n w
      ∙ ap (λ (m : M Reply). m (called w)) (e (execute_with_retry env call n))
      ∙ ap (λ (r : Reply). ok r (called w)) (sym (first_reply w))

  retry_goes_on :
      (n : ℕ) (w : World)
      → ((again : M Reply) → next_attempt (env.adapter (length w.dispatched) call) again ≡ again)
      → execute_with_retry env call (suc n) w ≡ execute_with_retry env call n (called w)
  unfolding one_call
  retry_goes_on n w e =
      retry-suc n w ∙ ap (λ (m : M Reply). m (called w)) (e (execute_with_retry env call n))

  -- The replies before the last one, where the first was retryable and the rest went on from there.
  earlier_suc :
      (w : World) (k : ℕ)
      → is_retryable (reply_at w 0) ≡ true
      → ((j : ℕ) → j < k → is_retryable (reply_at (called w) j) ≡ true)
      → (j : ℕ) → j < suc k
      → is_retryable (reply_at w j) ≡ true
  earlier_suc w k first rest zero h = first
  earlier_suc w k first rest (suc j) h = ap is_retryable (next_reply w j) ∙ rest j (omega arith)

  stopped_suc :
      (n : ℕ) (w : World) (k : ℕ)
      → (k ≡ n) ⊎ (is_retryable (reply_at (called w) k) ≡ false)
      → (suc k ≡ suc n) ⊎ (is_retryable (reply_at w (suc k)) ≡ false)
  stopped_suc n w k (inl e) = inl (ap suc e)
  stopped_suc n w k (inr e) = inr (ap is_retryable (next_reply w k) ∙ e)

  abbrev called_again : ℕ → World → World
  called_again k w = record (called w) { dispatched = repeated k call (call ∷ w.dispatched) }

  same_log :
      (k : ℕ) (w : World)
      → called_again k w ≡ record w { dispatched = repeated (suc k) call w.dispatched }
  same_log k w =
      ap (λ (l : List Dispatch). record w { dispatched = l }) (repeated-suc k call w.dispatched)

  -- The run makes at least one call and at most one more than its retries, all of them the same
  -- call; it goes on exactly while the replies are retryable errors, and returns the last reply.
  pub retry-Attempted : (n : ℕ) (w : World) → Attempted n w
  retry-Attempted zero w = record {
    retried = 0;
    bounded = omega arith;
    earlier = λ j h. absurd (omega arith);
    stopped = inl refl;
    returned = retry-zero w ∙ ap (λ (r : Reply). ok r (called w)) (sym (first_reply w));
  }
  retry-Attempted (suc n) w = elim (Reply-cases (env.adapter (length w.dispatched) call)) [
    | inl (again, e) ↦
        let rest = retry-Attempted n (called w) in
        record {
          retried = suc rest.retried;
          bounded = omega (arith, rest.bounded);
          earlier =
              earlier_suc w rest.retried (ap is_retryable (first_reply w) ∙ again) rest.earlier;
          stopped = stopped_suc n w rest.retried rest.stopped;
          returned =
              retry_goes_on n w e
              ∙ rest.returned
              ∙ ap (λ (r : Reply). ok r (called_again (suc rest.retried) w))
                  (sym (next_reply w rest.retried))
              ∙ ap (λ (v : World). ok (reply_at w (suc rest.retried)) v)
                  (same_log (suc rest.retried) w);
        }
    | inr (stop, e) ↦ record {
      retried = 0;
      bounded = omega arith;
      earlier = λ j h. absurd (omega arith);
      stopped = inr (ap is_retryable (first_reply w) ∙ stop);
      returned = retry_stops n w e;
    }
  ]
