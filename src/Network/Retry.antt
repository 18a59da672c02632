-- ===== src/Network/Retry.antt =====
-- app/network/retry_strategy.py. Delays are in ticks of the clock.
pub mod Attempts
pub mod Moves
use social_media_scraper.Base.{
  ℕ, zero, suc, ◌+◌, ◌-◌, ◌*◌, ◌^◌, Bool, true, false, Option, none, some, leb, if◌then◌else◌, min,
}
use social_media_scraper.Exceptions.{
  Error, network, retry_exceeded, Outcome, returned, raised, cancelled,
}
use social_media_scraper.Coroutine.{Coroutine, pure, raise, ◌>>=◌, ◌>>◌}

pub record RetryPolicy : Type 0 where
  pub max_attempts : ℕ
  pub base_delay : ℕ
  pub max_delay : ℕ
  pub jitter : ℕ
  -- `isinstance(exc, retryable_exceptions)`
  pub retryable : Error → Bool

-- `compute_delay` before the jitter, and with the value `uniform` that was drawn for it.
unfoldable pub backoff : RetryPolicy → ℕ → ℕ
backoff p attempt = min (p.base_delay * 2 ^ (attempt - 1)) p.max_delay

unfoldable pub compute_delay : RetryPolicy → ℕ → ℕ → ℕ
unfolding backoff
compute_delay p attempt uniform = backoff p attempt + uniform

pub record RetrySettings : Type 0 where
  pub max_retries : ℕ
  pub backoff_base : ℕ
  pub max_delay : ℕ
  pub jitter : ℕ

-- `default_retry_policy`
unfoldable pub default_retry_policy : RetrySettings → (Error → Bool) → RetryPolicy
default_retry_policy s retryable = record {
  max_attempts = s.max_retries + 1;
  base_delay = s.backoff_base;
  max_delay = s.max_delay;
  jitter = s.jitter;
  retryable = retryable;
}

-- What `execute` is given by its caller and the event loop: the awaited function, the callback,
-- the draw of `random.uniform(0, jitter)` and the sleep.
pub record Effects (W A : Type 0) : Type 0 where
  pub func : Coroutine W A
  pub on_retry : ℕ → Error → Coroutine W Unit
  pub uniform : ℕ → Coroutine W ℕ
  pub sleep : ℕ → Coroutine W Unit

module _ {W A : Type 0} (p : RetryPolicy) (fx : Effects W A) where
  -- the end of the loop body, for a retryable exception with attempts left
  unfoldable pub pause : ℕ → Error → Coroutine W Unit
  pause attempt e = do
    fx.on_retry attempt e
    drawn ← fx.uniform p.jitter
    fx.sleep (compute_delay p attempt drawn)

  -- the `except` clause of the loop; `rest` is the rounds that follow
  unfoldable pub after_attempt : ℕ → Coroutine W A → Outcome A → Coroutine W A
  unfolding pause
  after_attempt attempt rest (returned a) w = (returned a, w)
  after_attempt attempt rest cancelled w = (cancelled, w)
  after_attempt attempt rest (raised e) w =
      (if p.retryable e
          then (if leb p.max_attempts attempt
              then raise (network retry_exceeded)
              else pause attempt e >> rest)
          else raise e)
        w

  -- `for attempt in range(attempt, attempt + left)`
  unfoldable pub attempts : ℕ → ℕ → Coroutine W A
  unfolding after_attempt
  attempts zero attempt w = (raised (network retry_exceeded), w)
  attempts (suc left) attempt w =
      let (o, w') = fx.func w in after_attempt attempt (attempts left (attempt + 1)) o w'

  unfoldable pub execute : Coroutine W A
  unfolding attempts
  execute = attempts p.max_attempts 1
