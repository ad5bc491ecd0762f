-- ===== src/Tests/Exchange.antt =====
-- Concrete runs of the exchange adapter's retries and mutations, and of the portfolio's rounding.
use turtle_qts_execution.Base.{
  ℕ, ◌+◌, ◌≤◌, ◌≡◌, refl, arith, true, false, none, some, [], codes, ok, Outcome, dec, Decimal, pos,
  add_dec, sub_dec, eq_dec, lt_dec, rounded, round28, half_even, excess, ◌*ℤ◌, ◌+ℤ◌, ◌-ℤ◌,
}
use turtle_qts_execution.ExchangeAdapter.Models.{OrderSide, OrderType, TimeInForce}
use turtle_qts_execution.ExchangeAdapter.Retry.{
  Seconds, RetryPolicy, AdapterError, Attempt, Operation, execute_with_retry, retry_loop, retry_or,
  should_retry, is_transient, default_operation_safety, is_mutation, backoff_seconds,
}
use turtle_qts_execution.ExchangeAdapter.Retry.Bounded.{
  execute_with_retry-ends, execute_with_retry-unsafe, execute_with_retry-count,
}
use turtle_qts_execution.ExchangeAdapter.Adapter.{
  Stored, ExchangeAdapter, Mutation, call, calls, mutate, keep_result, store,
}
use turtle_qts_execution.ExchangeAdapter.Adapter.Once.{call_again}
use turtle_qts_execution.PortfolioManager.Snapshot.{assets, liabilities, equity, wallet_balance}
use turtle_qts_execution.PortfolioManager.Ledger.{
  empty_portfolio, deposited, pnl_realized, snapshot, is_balanced,
}
use turtle_qts_execution.Tests.{clock}
use turtle_qts_execution.Tests.Managers.{numbers}

abbrev whole_seconds : Seconds ℕ
whole_seconds = record { is_positive = λ d. true; doubled = λ d n. d; least = λ a b. a }

abbrev policy : RetryPolicy ℕ
policy = record {
  max_attempts = 3;
  base_delay = 1;
  max_delay = 10;
  safety = default_operation_safety;
}

-- A venue that times out on every call; it counts them.
abbrev timing_out : ℕ → Attempt ℕ ℕ × ℕ
timing_out calls = (Attempt.failed AdapterError.timeout, calls + 1)

execute_with_retry-ends_example :
    (q : Attempt ℕ ℕ × ℕ) × (execute_with_retry whole_seconds timing_out
        (λ d w. w)
        Operation.get_orders
        policy
        0
      ≡ some q)
execute_with_retry-ends_example =
    execute_with_retry-ends whole_seconds timing_out (λ d w. w) Operation.get_orders policy 0

execute_with_retry-unsafe_example :
    execute_with_retry whole_seconds timing_out (λ d w. w) Operation.place_order policy 0
    ≡ some (timing_out 0)
unfolding default_operation_safety is_mutation
execute_with_retry-unsafe_example =
    execute_with_retry-unsafe whole_seconds timing_out (λ d w. w) Operation.place_order policy 0
      refl

three-calls :
    execute_with_retry whole_seconds timing_out (λ d w. w) Operation.get_orders policy 0
    ≡ some (Attempt.failed AdapterError.timeout, 3)
unfolding execute_with_retry retry_loop retry_or should_retry is_transient default_operation_safety
    is_mutation backoff_seconds
three-calls = refl

execute_with_retry-count_example : 3 ≤ 0 + 3
execute_with_retry-count_example =
    execute_with_retry-count whole_seconds timing_out (λ d w. w) Operation.get_orders policy
      (λ w. w) (λ w. refl) (λ d w. refl) 0 (Attempt.failed AdapterError.timeout, 3) (omega arith)
      three-calls

abbrev adapter : ExchangeAdapter
adapter = record {
  exchange_name = codes "mock";
  adapter_version = codes "1";
  results = [];
  audit_log = [];
}

abbrev buying : Mutation
buying = Mutation.placing (record {
  client_order_id = codes "om:om:1:place";
  symbol = record { value = codes "BTC" };
  side = OrderSide.buy;
  order_type = OrderType.market;
  quantity = dec 1;
  limit_price = none;
  time_in_force = TimeInForce.gtc;
  reduce_only = false;
})

-- A venue that takes every request; it counts them.
abbrev accept : Mutation → ℕ → Outcome Stored × ℕ
accept request sent = (ok (Stored.listing []), sent + 1)

call_again_example :
    call numbers
      (λ _. codes "")
      (λ _. clock)
      accept
      buying
      (calls numbers
        (λ _. codes "")
        (λ _. clock)
        accept
        []
        (call numbers (λ _. codes "") (λ _. clock) accept buying (adapter, 0)).1)
    ≡ (
      ok (Stored.listing []),
      calls numbers
          (λ _. codes "")
          (λ _. clock)
          accept
          []
          (call numbers (λ _. codes "") (λ _. clock) accept buying (adapter, 0)).1,
    )
call_again_example =
    call_again numbers (λ _. codes "") (λ _. clock) accept buying buying [] (Stored.listing [])
      (adapter, 0) refl (unfold call mutate keep_result store in refl)

abbrev third : Decimal
third = record { units = pos 3333333333333333333333333333; scale = 28 }

-- A deposit of 10000 and two gains of a third, to 28 digits: the rounded numbers no longer balance.
rounding_breaks_balance :
    is_balanced (
      snapshot
        (pnl_realized third (pnl_realized third (deposited (dec 10000) (empty_portfolio clock)))))
    ≡ false
unfolding is_balanced snapshot pnl_realized deposited empty_portfolio assets liabilities equity
    wallet_balance add_dec sub_dec eq_dec lt_dec rounded round28 half_even excess ◌*ℤ◌ ◌+ℤ◌ ◌-ℤ◌
rounding_breaks_balance = refl
