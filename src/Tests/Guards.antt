-- ===== src/Tests/Guards.antt =====
-- The circuit breaker, the rate limiter, the retries, the metrics and the rotation of user agents,
-- at concrete inputs.
use social_media_scraper.Base.{
  ℕ, zero, suc, ◌+◌, ◌-◌, ◌*◌, ◌≡◌, ◌≤◌, ◌<◌, ◌↔◌, refl, none, List, [], ◌∷◌, true, false,
  or_default, arith, Text,
}
use social_media_scraper.Text.{codes}
use social_media_scraper.Exceptions.{
  network, network_timeout, retry_exceeded, Outcome, returned, raised,
}
use social_media_scraper.Network.CircuitBreaker
use social_media_scraper.Network.CircuitBreaker.{
  CircuitState, closed, opened, half_open, Breaker, BreakerSettings, call, begin, success, failure,
}
use social_media_scraper.Network.CircuitBreaker.Behaviour.{closed_iff, failures_since}
use social_media_scraper.Network.RateLimiter.{Limiter, rounds}
use social_media_scraper.Network.RateLimiter.Bounds.{rounds-balance}
use social_media_scraper.Coroutine.{Coroutine, pure}
use social_media_scraper.Network.RetryAsync.{Retried, retry_async}
use social_media_scraper.Network.RetryAsync.Same.{Agrees, policy_of, effects, retry_async-Agrees}
use social_media_scraper.Network.Retry.{RetryPolicy, compute_delay, execute}
use social_media_scraper.Network.Retry.Attempts.{observed, execute_settled, execute_exhausted}

abbrev breaker_settings : BreakerSettings
breaker_settings = record { failure_threshold = 2; recovery_timeout = 30; half_open_max_calls = 1 }

abbrev new_breaker : Breaker
new_breaker = record {
  failure_threshold = 2;
  recovery_timeout = 30;
  half_open_max_calls = 1;
  state = closed;
  failure_count = 0;
  opened_at = 0;
  half_open_calls = 0;
}

abbrev open_breaker : Breaker
open_breaker = record new_breaker { state = opened; failure_count = 2; opened_at = 100 }

abbrev on_trial : Breaker
on_trial = record open_breaker { state = half_open }

closed_iff_example :
    ((CircuitBreaker.run
        (failure 5 ∷ success ∷ failure 9 ∷ [])
        (CircuitBreaker.init breaker_settings none none none)).state
      ≡ closed)
    ↔ (failures_since 0 (failure 5 ∷ success ∷ failure 9 ∷ []) < or_default none 2)
closed_iff_example =
    closed_iff breaker_settings none none none (failure 5 ∷ success ∷ failure 9 ∷ []) (omega arith)

-- One token is ten units, and a bucket of two tokens gains one unit a tick.
abbrev bucket : Limiter
bucket = record { rate = 1; capacity = 20; tokens = 20; updated_at = 0 }

rounds-balance_example :
    (rounds ((0, 10) ∷ (1, 10) ∷ (5, 10) ∷ []) bucket).0
      + (rounds ((0, 10) ∷ (1, 10) ∷ (5, 10) ∷ []) bucket).1.tokens
    ≤ 20 + (5 - 0) * 1
rounds-balance_example =
    rounds-balance ((0, 10) ∷ (1, 10) ∷ (5, 10) ∷ []) bucket
      ((omega arith), ((omega arith), ((omega arith), tt)))

abbrev policy : RetryPolicy
policy = record {
  max_attempts = 3;
  base_delay = 5;
  max_delay = 8;
  jitter = 2;
  retryable = λ e. elim e [ network _ ↦ true | _ ↦ false ];
}

-- Two timeouts, then a value.
abbrev flaky : ℕ → Outcome ℕ
flaky zero = raised (network network_timeout)
flaky (suc zero) = raised (network network_timeout)
flaky (suc (suc n)) = returned 42

abbrev down : ℕ → Outcome ℕ
down n = raised (network network_timeout)

execute_settled_example :
    execute policy (observed flaky (λ n. 1)) (record { calls = 0; slept = []; retried = [] })
    ≡ (returned 42, record { calls = 3; slept = 6 ∷ 9 ∷ []; retried = 1 ∷ 2 ∷ [] })
unfolding compute_delay
execute_settled_example =
    execute_settled policy flaky (λ n. 1) 2 (omega arith) (refl, (refl, tt)) refl

-- The decorator with the numbers of a policy, on the function that times out.
abbrev decorated : Retried
decorated = record {
  max_attempts = 2;
  base_delay = 1;
  max_delay = 8;
  exceptions = λ e. elim e [ network _ ↦ true | _ ↦ false ];
}

abbrev nap : ℕ → Coroutine ℕ Unit
nap t w = (returned tt, w + t)

abbrev fails : Coroutine ℕ ℕ
fails w = (raised (network network_timeout), w + 100)

retry_async-Agrees_example :
    Agrees decorated.exceptions
      (retry_async decorated fails pure nap 0)
      (execute (policy_of decorated) (effects decorated fails pure nap) 0)
retry_async-Agrees_example = retry_async-Agrees decorated fails pure nap 0 (omega arith)

execute_exhausted_example :
    execute policy (observed down (λ n. 1)) (record { calls = 0; slept = []; retried = [] }) ≡ (
      raised (network retry_exceeded),
      record { calls = 3; slept = 6 ∷ 9 ∷ []; retried = 1 ∷ 2 ∷ [] },
    )
unfolding compute_delay
execute_exhausted_example = execute_exhausted policy down (λ n. 1) 2 refl (refl, (refl, (refl, tt)))

abbrev agents : List Text
agents = codes "one" ∷ codes "two" ∷ []
