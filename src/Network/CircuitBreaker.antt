-- ===== src/Network/CircuitBreaker.antt =====
-- app/network/circuit_breaker.py. Times are readings of the monotonic clock in ticks. Each method
-- body under the breaker's lock is one function, so concurrent calls are interleavings of these
-- (`Run`); `call` is one call with nothing in between.
pub mod Invariant
pub mod Behaviour
pub mod Calls
use social_media_scraper.Base.{
  ℕ, zero, suc, ◌+◌, ◌-◌, Bool, true, false, Option, List, [], ◌∷◌, leb, if◌then◌else◌, or_default,
}
use social_media_scraper.Exceptions.{
  Error, network, circuit_open, Outcome, returned, raised, cancelled,
}

pub data CircuitState : Type 0 where
  closed opened half_open : CircuitState

pub record Breaker : Type 0 where
  pub failure_threshold : ℕ
  pub recovery_timeout : ℕ
  pub half_open_max_calls : ℕ
  pub state : CircuitState
  pub failure_count : ℕ
  pub opened_at : ℕ
  pub half_open_calls : ℕ

-- The fields of `Settings` that the constructor falls back to.
pub record BreakerSettings : Type 0 where
  pub failure_threshold : ℕ
  pub recovery_timeout : ℕ
  pub half_open_max_calls : ℕ

unfoldable pub init : BreakerSettings → Option ℕ → Option ℕ → Option ℕ → Breaker
init s threshold timeout max_calls = record {
  failure_threshold = or_default threshold s.failure_threshold;
  recovery_timeout = or_default timeout s.recovery_timeout;
  half_open_max_calls = or_default max_calls s.half_open_max_calls;
  state = closed;
  failure_count = 0;
  opened_at = 0;
  half_open_calls = 0;
}

-- The second test of `_before_call`, once the state is half-open: true is a call let through.
unfoldable pub take_trial : Breaker → Bool × Breaker
take_trial b =
    if leb b.half_open_max_calls b.half_open_calls
    then (false, b)
    else (true, record b { half_open_calls = b.half_open_calls + 1 })

before_open : ℕ → Breaker → Bool × Breaker
before_open now b =
    if leb b.recovery_timeout (now - b.opened_at)
    then take_trial (record b { state = half_open; half_open_calls = 0 })
    else (false, b)

-- `_before_call`: false is `CircuitOpen`.
unfoldable pub before_call : ℕ → Breaker → Bool × Breaker
unfolding take_trial before_open
before_call now b = elim b.state [
  | closed ↦ (true, b)
  | opened ↦ before_open now b
  | half_open ↦ take_trial b
]

unfoldable pub on_success : Breaker → Breaker
on_success b = record b { failure_count = 0; state = closed }

reopen_at_threshold : ℕ → Breaker → Breaker
reopen_at_threshold now b =
    if leb b.failure_threshold b.failure_count
    then record b { state = opened; opened_at = now }
    else b

after_count : ℕ → Breaker → Breaker
after_count now b = elim b.state [
  | half_open ↦ record b { state = opened; opened_at = now }
  | _ ↦ reopen_at_threshold now b
]

unfoldable pub on_failure : ℕ → Breaker → Breaker
unfolding reopen_at_threshold after_count
on_failure now b = after_count now (record b { failure_count = b.failure_count + 1 })

-- What `call` does after the awaited function ends, at the time of its end.
unfoldable pub after_call {ℓ} : {A : Type ℓ} → ℕ → Outcome A → Breaker → Breaker
unfolding on_success on_failure
after_call now (returned a) b = on_success b
after_call now (raised e) b = on_failure now b
after_call now cancelled b = b

settle {ℓ} : {A : Type ℓ} → ℕ → Outcome A → Bool × Breaker → Outcome A × Breaker
settle later o (true, b) = (o, after_call later o b)
settle later o (false, b) = (raised (network circuit_open), b)

-- `call`, where `func` ends with `o` at the time `later`.
unfoldable pub call {ℓ} : {A : Type ℓ} → ℕ → ℕ → Outcome A → Breaker → Outcome A × Breaker
unfolding before_call after_call settle
call now later o b = settle later o (before_call now b)

-- The critical sections that concurrent calls of `call` run, in the order in which they get the
-- lock.
pub data Event : Type 0 where
  begin : ℕ → Event
  success : Event
  failure : ℕ → Event

unfoldable pub step : Event → Breaker → Breaker
unfolding before_call on_success on_failure
step (begin now) b = (before_call now b).1
step success b = on_success b
step (failure now) b = on_failure now b

unfoldable pub run : List Event → Breaker → Breaker
run [] b = b
run (e ∷ es) b = run es (step e b)
