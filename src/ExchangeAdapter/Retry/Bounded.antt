-- ===== src/ExchangeAdapter/Retry/Bounded.antt =====
-- How often the retry loop calls.
use turtle_qts_execution.Base.{
  ℕ, zero, suc, ◌+◌, ◌≤◌, ◌<◌, ◌≡◌, refl, arith, true, Option, some, Bool-cases, inl, inr,
}
use turtle_qts_execution.ExchangeAdapter.Retry.{
  AdapterError, Operation, OperationSafety, RetryPolicy, Seconds, Attempt, should_retry,
  backoff_seconds, is_unsafe, retry_or, retry_loop, execute_with_retry,
}

module _ {D A W : Type 0} (seconds : Seconds D) (fn : W → Attempt D A × W) (sleep_fn : D → W → W)
    (operation : Operation) (policy : RetryPolicy D) where
  -- An attempt that is not the last one allowed is before the bound.
  should_retry-bound :
      (attempt : ℕ) (e : AdapterError D)
      → should_retry seconds policy operation attempt e ≡ true
      → attempt < policy.max_attempts
  unfolding should_retry
  should_retry-bound attempt e h = ground (arith, h)

  -- The rest of the loop is used only where the attempt may be retried.
  retry_or-some :
      (attempt : ℕ) (r : Attempt D A × W) (rest : W → Option (Attempt D A × W))
      → (attempt < policy.max_attempts → (w : W) → (q : Attempt D A × W) × (rest w ≡ some q))
      → (q : Attempt D A × W) × (retry_or seconds fn sleep_fn operation policy attempt r rest
          ≡ some q)
  unfolding retry_or
  retry_or-some attempt (Attempt.returned a, w) rest h = (_, refl)
  retry_or-some attempt (Attempt.crashed x, w) rest h = (_, refl)
  retry_or-some attempt (Attempt.failed e, w) rest h =
      elim (Bool-cases (should_retry seconds policy operation attempt e)) [
        | inl again ↦
            let (q, eq) =
              h (should_retry-bound attempt e again)
                (sleep_fn (backoff_seconds seconds policy attempt e) w) in
            (q, ground (arith, again, eq))
        | inr last ↦ ((Attempt.failed e, w), ground (arith, last))
      ]

  retry_loop-some :
      (fuel attempt : ℕ) (w : W)
      → attempt ≤ policy.max_attempts
      → policy.max_attempts < attempt + fuel
      → (q : Attempt D A × W) × (retry_loop seconds fn sleep_fn operation policy fuel attempt w
          ≡ some q)
  unfolding retry_loop
  retry_loop-some zero attempt w l h = absurd (omega (arith, l, h))
  retry_loop-some (suc fuel) attempt w l h =
      retry_or-some (attempt + 1) (fn w) _
        (λ b w'. retry_loop-some fuel (attempt + 1) w' (omega (arith, b)) (omega (arith, h)))

  -- The loop ends, whatever the calls do.
  pub execute_with_retry-ends :
      (w : W)
      → (q : Attempt D A × W) × (execute_with_retry seconds fn sleep_fn operation policy w ≡ some q)
  unfolding execute_with_retry
  execute_with_retry-ends w =
      retry_loop-some (suc policy.max_attempts) 0 w (omega arith) (omega arith)

  unsafe-stops :
      (attempt : ℕ) (r : Attempt D A × W) (rest : W → Option (Attempt D A × W))
      → policy.safety operation ≡ OperationSafety.unsafe_never_auto_retry
      → retry_or seconds fn sleep_fn operation policy attempt r rest ≡ some r
  unfolding retry_or should_retry is_unsafe
  unsafe-stops attempt (Attempt.returned a, w) rest h = refl
  unsafe-stops attempt (Attempt.crashed x, w) rest h = refl
  unsafe-stops attempt (Attempt.failed e, w) rest h = rw h refl

  -- An operation that the policy marks unsafe is called exactly once, and nothing sleeps.
  pub execute_with_retry-unsafe :
      (w : W)
      → policy.safety operation ≡ OperationSafety.unsafe_never_auto_retry
      → execute_with_retry seconds fn sleep_fn operation policy w ≡ some (fn w)
  unfolding execute_with_retry retry_loop
  execute_with_retry-unsafe w h = unsafe-stops 1 (fn w) _ h

  module _ (count : W → ℕ) (counts : (w : W) → count (fn w).1 ≡ count w + 1)
      (sleeps : (d : D) (w : W) → count (sleep_fn d w) ≡ count w) where
    retry_or-count :
        (attempt : ℕ) (r q : Attempt D A × W) (rest : W → Option (Attempt D A × W)) (k most : ℕ)
        → count r.1 + k ≤ most
        → (attempt < policy.max_attempts
            → (w : W) → count w ≡ count r.1
            → rest w ≡ some q
            → count q.1 + k ≤ most)
        → retry_or seconds fn sleep_fn operation policy attempt r rest ≡ some q
        → count q.1 + k ≤ most
    unfolding retry_or
    retry_or-count attempt (Attempt.returned a, w) q rest k most l h eq = ground (arith, l, eq)
    retry_or-count attempt (Attempt.crashed x, w) q rest k most l h eq = ground (arith, l, eq)
    retry_or-count attempt (Attempt.failed e, w) q rest k most l h eq =
        elim (Bool-cases (should_retry seconds policy operation attempt e)) [
          | inl again ↦
              h (should_retry-bound attempt e again)
                (sleep_fn (backoff_seconds seconds policy attempt e) w) (sleeps _ w)
                (ground (arith, again, eq))
          | inr last ↦ ground (arith, last, eq, l)
        ]

    retry_loop-count :
        (fuel attempt : ℕ) (w : W) (q : Attempt D A × W)
        → attempt < policy.max_attempts
        → retry_loop seconds fn sleep_fn operation policy fuel attempt w ≡ some q
        → count q.1 + attempt ≤ count w + policy.max_attempts
    unfolding retry_loop
    retry_loop-count zero attempt w q l eq = cc eq
    retry_loop-count (suc fuel) attempt w q l eq =
        retry_or-count (attempt + 1) (fn w) q _ attempt (count w + policy.max_attempts)
          (omega (arith, l, counts w))
          (λ b w' same there.
            omega (arith, retry_loop-count fuel (attempt + 1) w' q b there, same, counts w))
          eq

    -- Where every call counts one and sleeping none, the loop makes at most `max_attempts` calls.
    pub execute_with_retry-count :
        (w : W) (q : Attempt D A × W)
        → 1 ≤ policy.max_attempts
        → execute_with_retry seconds fn sleep_fn operation policy w ≡ some q
        → count q.1 ≤ count w + policy.max_attempts
    unfolding execute_with_retry
    execute_with_retry-count w q l eq =
        omega (arith, retry_loop-count (suc policy.max_attempts) 0 w q l eq)
