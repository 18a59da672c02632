-- ===== src/Network/Session.antt =====
-- app/network/session_manager.py: one call of `request`, run with no other coroutine in between
-- (interleavings are modelled in the circuit breaker's and the rate limiter's own modules). The
-- HTTP library, the random draws and how each sleep ends are parameters; a sleep that is not
-- cancelled lasts exactly as long as asked.
pub mod Relations
pub mod Waits
pub mod Guards
pub mod Returns
use social_media_scraper.Base.{
  ℕ, zero, suc, ◌+◌, ◌-◌, Bool, true, false, Option, none, some, List, [], ◌∷◌, Text, text_eq, Dict,
  get, put, min, if◌then◌else◌,
}
use social_media_scraper.Exceptions.{
  Error, network, foreign, value_error, network_timeout, network_connection_error, circuit_open,
  Outcome, returned, raised, cancelled,
}
use social_media_scraper.Coroutine.{Coroutine, pure, raise, modify, ◌>>=◌, ◌>>◌}
use social_media_scraper.Text.{codes, is_empty}
use social_media_scraper.Url.Helper.{extract_domain}
use social_media_scraper.Network.CircuitBreaker
use social_media_scraper.Network.CircuitBreaker.{Breaker, BreakerSettings, before_call, after_call}
use social_media_scraper.Network.RateLimiter
use social_media_scraper.Network.RateLimiter.{Limiter, LimiterSettings, wait_time, try_acquire}
use social_media_scraper.Network.Retry.{RetryPolicy, Effects, execute}
use social_media_scraper.Network.Metrics
use social_media_scraper.Network.Metrics.{
  NetworkMetrics, record_request_start, record_request_end, record_retry,
}

-- What a call of the HTTP library ends in: a response, one of its two kinds of exceptions that
-- `request` tells apart, any other exception, or a cancellation of the task.
pub data Reply (R : Type 0) : Type 0 where
  response : R → Reply R
  timeout_exception : Reply R
  http_error : Reply R
  other_exception : ℕ → Reply R
  aborted : Reply R

pub record World : Type 0 where
  pub clock : ℕ
  pub limiters : Dict Text Limiter
  pub breakers : Dict Text Breaker
  pub metrics : NetworkMetrics
  -- the calls of the HTTP library so far
  pub sent : ℕ
  -- the random draws so far
  pub drawn : ℕ
  -- the sleeps so far
  pub slept : ℕ

-- The environment: the outcome and the duration of the n-th call of the HTTP library, the n-th draw
-- from a range, and after how many ticks the task is cancelled in the n-th sleep, if it is.
pub record Environment (R : Type 0) : Type 0 where
  pub breaker_settings : BreakerSettings
  pub limiter_settings : LimiterSettings
  pub reply : ℕ → Reply R
  pub duration : ℕ → ℕ
  pub draw : ℕ → ℕ → ℕ
  pub interrupted : ℕ → Option ℕ

-- the `except` clauses of `_call`
unfoldable pub translate : {R : Type 0} → Reply R → Outcome R
translate (response r) = returned r
translate timeout_exception = raised (network network_timeout)
translate http_error = raised (network network_connection_error)
translate (other_exception n) = raised (foreign n)
translate aborted = cancelled

-- `extract_domain(url) or "default"`; `none` is the ValueError that `urlparse` raises.
or_default_host : Option Text → Option Text
unfolding is_empty
or_default_host none = none
or_default_host (some host) = some (if is_empty host then codes "default" else host)

unfoldable pub host_for : Text → Option Text
unfolding or_default_host extract_domain
host_for url = or_default_host (extract_domain url)

-- The exceptions that the default policy retries.
unfoldable pub retried_by_default : Error → Bool
retried_by_default (network network_connection_error) = true
retried_by_default (network network_timeout) = true
retried_by_default _ = false

-- the end of `request`: an exception and a response are counted, a cancellation is not
unfoldable pub finish : {R : Type 0} → ℕ → Outcome R × World → Outcome R × World
finish start (returned r, w) =
    (returned r, record w { metrics = record_request_end (w.clock - start) true w.metrics })
finish start (raised e, w) =
    (raised e, record w { metrics = record_request_end (w.clock - start) false w.metrics })
finish start (cancelled, w) = (cancelled, w)

-- A sleep of `delay` that is not cancelled, or is after some ticks.
unfoldable pub sleep_until : ℕ → Option ℕ → World → Outcome {0} Unit × World
sleep_until delay none w = (returned tt, record w { clock = w.clock + delay })
sleep_until delay (some ticks) w = (cancelled, record w { clock = w.clock + min ticks delay })

-- what follows a sleep, unless it is cancelled
unfoldable pub after_sleep :
    Outcome {0} Unit × World
    → (World → Option (Outcome {0} Unit × World))
    → Option (Outcome {0} Unit × World)
after_sleep (returned u, w) k = k w
after_sleep (raised e, w) k = some (raised e, w)
after_sleep (cancelled, w) k = some (cancelled, w)

module _ {R : Type 0} (env : Environment R) where
  -- `rate_limiter_for`, `circuit_breaker_for`: created on first use
  unfoldable pub limiter_of : Text → World → Limiter
  limiter_of host w = elim (get host w.limiters) [
    | none ↦ RateLimiter.init env.limiter_settings none none w.clock
    | some l ↦ l
  ]

  unfoldable pub breaker_of : Text → World → Breaker
  breaker_of host w = elim (get host w.breakers) [
    | none ↦ CircuitBreaker.init env.breaker_settings none none none
    | some b ↦ b
  ]

  -- `_call`
  unfoldable pub send : Coroutine World R
  unfolding translate
  send w = (
    translate (env.reply w.sent),
    record w { sent = w.sent + 1; clock = w.clock + env.duration w.sent },
  )

  -- the end of `CircuitBreaker.call`, on the breaker as it then is
  unfoldable pub settle : Text → Outcome R → World → Outcome R × World
  settle host o w =
      (o, record w { breakers = put host (after_call w.clock o (breaker_of host w)) w.breakers })

  pass_or_reject : Text → Bool → World → Outcome R × World
  unfolding settle send
  pass_or_reject host true w = let (o, w') = send w in settle host o w'
  pass_or_reject host false w = (raised (network circuit_open), w)

  -- `_guarded_call`: `CircuitBreaker.call` around `_call`
  unfoldable pub guarded_call : Text → Coroutine World R
  unfolding pass_or_reject breaker_of
  guarded_call host w =
      let (passed, b) = before_call w.clock (breaker_of host w) in
      pass_or_reject host passed (record w { breakers = put host b w.breakers })

  -- `asyncio.sleep`
  unfoldable pub sleep : ℕ → Coroutine World Unit
  unfolding sleep_until
  sleep delay w = sleep_until delay (env.interrupted w.slept) (record w { slept = w.slept + 1 })

  -- what `RetryPolicy.execute` is given
  unfoldable pub effects : Text → Effects World R
  unfolding guarded_call sleep
  effects host = record {
    func = guarded_call host;
    on_retry = λ attempt e. modify (λ w. record w { metrics = record_retry w.metrics });
    uniform = λ jitter w. (returned (env.draw jitter w.drawn), record w { drawn = w.drawn + 1 });
    sleep = sleep;
  }

  -- `rate_limiter.acquire()`, for one token, with fuel for the rounds: `none` is a caller that still
  -- waits after the last.
  unfoldable pub acquire_within : ℕ → Text → World → Option (Outcome {0} Unit × World)
  unfolding limiter_of sleep after_sleep
  acquire_within zero host w = none
  acquire_within (suc rounds) host w =
      let (done, l) = try_acquire w.clock env.limiter_settings.unit (limiter_of host w) in
      let w' = record w { limiters = put host l w.limiters } in
      let rest =
        after_sleep (sleep (wait_time env.limiter_settings.unit l) w')
          (λ v. acquire_within rounds host v) in
      if done then some (returned tt, w') else rest

  unfoldable pub acquire_for : Text → World → Option (Outcome {0} Unit × World)
  unfolding acquire_within
  acquire_for host w = acquire_within 2 host w

  -- `self.circuit_breaker_for(host)`, `self.rate_limiter_for(host)` and `record_request_start`
  unfoldable pub begin : Text → World → World
  unfolding breaker_of limiter_of
  begin host w = record w {
    breakers = put host (breaker_of host w) w.breakers;
    limiters = put host (limiter_of host w) w.limiters;
    metrics = record_request_start w.metrics;
  }

  -- `_rate_limited_call`, once `acquire` has ended
  unfoldable pub rate_limited : RetryPolicy → Text → Outcome {0} Unit × World → Outcome R × World
  unfolding effects
  rate_limited policy host (returned u, w) = execute policy (effects host) w
  rate_limited policy host (raised e, w) = (raised e, w)
  rate_limited policy host (cancelled, w) = (cancelled, w)

  unfoldable pub after_acquire :
      RetryPolicy → Text → ℕ → Option (Outcome {0} Unit × World) → Option (Outcome R × World)
  unfolding rate_limited finish
  after_acquire policy host start none = none
  after_acquire policy host start (some a) = some (finish start (rate_limited policy host a))

  -- `request` to a host: `none` is a caller that still waits for a token.
  unfoldable pub request_to : RetryPolicy → Text → World → Option (Outcome R × World)
  unfolding after_acquire acquire_for begin
  request_to policy host w = after_acquire policy host w.clock (acquire_for host (begin host w))

  -- `request`: a URL that `urlparse` refuses raises before anything is counted.
  unfoldable pub request : RetryPolicy → Text → World → Option (Outcome R × World)
  unfolding request_to host_for
  request policy url w = elim (host_for url) [
    | none ↦ some (raised value_error, w)
    | some host ↦ request_to policy host w
  ]
