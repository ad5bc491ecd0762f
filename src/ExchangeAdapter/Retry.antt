-- ===== src/ExchangeAdapter/Retry.antt =====
-- exchange_adapter/retry.py: which failed calls of an exchange are made again, and the loop that makes them.
pub mod Bounded
use turtle_qts_execution.Base.{
  ℕ, zero, suc, ◌+◌, ◌-◌, Bool, true, false, Option, none, some, Outcome, ok, err, Error,
  value_error, if◌then◌else◌, ltb, leb,
}

-- errors.py: the subclasses of ExchangeAdapterError; `D` is the type of a number of seconds (a float).
pub data AdapterError (D : Type 0) : Type 0 where
  connection timeout authentication : AdapterError D
  rate_limit_exceeded : Option D → AdapterError D
  order_unknown rejected_order stale_snapshot sequence_gap reconciliation_mismatch other :
      AdapterError D

pub data OperationSafety : Type 0 where
  safe_to_retry unsafe_never_auto_retry : OperationSafety

pub data Operation : Type 0 where
  connect disconnect health get_positions get_orders get_balances get_mark_price get_funding_rate
        place_order amend_order cancel_order cancel_all get_order_status get_fills reconcile :
      Operation

-- `op in _MUTATIONS`
unfoldable pub is_mutation : Operation → Bool
is_mutation Operation.place_order = true
is_mutation Operation.amend_order = true
is_mutation Operation.cancel_order = true
is_mutation Operation.cancel_all = true
is_mutation _ = false

-- `DEFAULT_OPERATION_SAFETY`
unfoldable pub default_operation_safety : Operation → OperationSafety
default_operation_safety op =
    if is_mutation op
    then OperationSafety.unsafe_never_auto_retry
    else OperationSafety.safe_to_retry

pub record RetryPolicy (D : Type 0) : Type 0 where
  pub max_attempts : ℕ
  pub base_delay : D
  pub max_delay : D
  pub safety : Operation → OperationSafety

-- What the arithmetic on seconds gives.
pub record Seconds (D : Type 0) : Type 0 where
  pub is_positive : D → Bool
  -- `base * (2 ** n)`
  pub doubled : D → ℕ → D
  pub least : D → D → D

module _ {D : Type 0} (seconds : Seconds D) where
  -- `__init__`; an override replaces the default where it names the operation.
  unfoldable pub make_policy :
      ℕ → D → D → (Operation → Option OperationSafety) → Outcome (RetryPolicy D)
  make_policy max_attempts base_delay max_delay operation_safety =
      if ltb max_attempts 1
      then err value_error
      else if seconds.is_positive base_delay
      then (if seconds.is_positive max_delay
          then ok (record {
            max_attempts = max_attempts;
            base_delay = base_delay;
            max_delay = max_delay;
            safety = λ op. elim (operation_safety op) [
              | none ↦ default_operation_safety op
              | some s ↦ s
            ];
          })
          else err value_error)
      else err value_error

  -- `isinstance(error, (ExchangeConnectionError, ExchangeTimeoutError, RateLimitExceededError))`
  unfoldable pub is_transient : AdapterError D → Bool
  is_transient AdapterError.connection = true
  is_transient AdapterError.timeout = true
  is_transient (AdapterError.rate_limit_exceeded _) = true
  is_transient _ = false

  is_unsafe : OperationSafety → Bool
  is_unsafe OperationSafety.unsafe_never_auto_retry = true
  is_unsafe OperationSafety.safe_to_retry = false

  unfoldable pub should_retry : RetryPolicy D → Operation → ℕ → AdapterError D → Bool
  unfolding is_unsafe
  should_retry policy operation attempt error =
      if is_unsafe (policy.safety operation)
      then false
      else if leb policy.max_attempts attempt
      then false
      else is_transient error

  unfoldable pub backoff_seconds : RetryPolicy D → ℕ → AdapterError D → D
  backoff_seconds policy attempt (AdapterError.rate_limit_exceeded (some retry_after_seconds)) =
      retry_after_seconds
  backoff_seconds policy attempt error =
      seconds.least (seconds.doubled policy.base_delay (attempt - 1)) policy.max_delay

-- What a call of `fn` does: it returns, raises an ExchangeAdapterError, or raises another exception.
pub data Attempt (D A : Type 0) : Type 0 where
  returned : A → Attempt D A
  failed : AdapterError D → Attempt D A
  crashed : Error → Attempt D A

-- `fn` and `sleep_fn` act on a world. The fuel bounds the rounds of the loop; none where it runs out.
module _ {D A W : Type 0} (seconds : Seconds D) (fn : W → Attempt D A × W) (sleep_fn : D → W → W)
    (operation : Operation) (policy : RetryPolicy D) where
  -- The end of a round, with what the rest of the loop gives.
  unfoldable pub retry_or :
      ℕ → Attempt D A × W → (W → Option (Attempt D A × W)) → Option (Attempt D A × W)
  retry_or attempt (Attempt.returned a, w) rest = some (Attempt.returned a, w)
  retry_or attempt (Attempt.crashed x, w) rest = some (Attempt.crashed x, w)
  retry_or attempt (Attempt.failed e, w) rest =
      if should_retry seconds policy operation attempt e
      then rest (sleep_fn (backoff_seconds seconds policy attempt e) w)
      else some (Attempt.failed e, w)

  unfoldable pub retry_loop : ℕ → ℕ → W → Option (Attempt D A × W)
  unfolding retry_or
  retry_loop zero attempt w = none
  retry_loop (suc fuel) attempt w =
      retry_or (attempt + 1) (fn w) (λ w'. retry_loop fuel (attempt + 1) w')

  -- `execute_with_retry`
  unfoldable pub execute_with_retry : W → Option (Attempt D A × W)
  execute_with_retry w = retry_loop (suc policy.max_attempts) 0 w
