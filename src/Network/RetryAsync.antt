-- ===== src/Network/RetryAsync.antt =====
-- app/utils/retry.py: the decorator `retry_async`. Its loop has no bound of its own; the model's
-- takes fuel, of which `none` is the want.
pub mod Same
use social_media_scraper.Base.{
  ℕ, zero, suc, ◌+◌, ◌-◌, ◌*◌, ◌^◌, Bool, true, false, Option, none, some, leb, if◌then◌else◌, max,
  min,
}
use social_media_scraper.Exceptions.{Error, Outcome, returned, raised, cancelled}
use social_media_scraper.Coroutine.{Coroutine, ◌>>=◌}

-- the parameters of the decorator
pub record Retried : Type 0 where
  pub max_attempts : ℕ
  pub base_delay : ℕ
  pub max_delay : ℕ
  -- `isinstance(exc, exceptions)`
  pub exceptions : Error → Bool

unfoldable pub then_on :
    {W A : Type 0} → Outcome {0} Unit × W → (W → Option (Outcome A × W)) → Option (Outcome A × W)
then_on (returned u, w) rest = rest w
then_on (raised e, w) rest = some (raised e, w)
then_on (cancelled, w) rest = some (cancelled, w)

module _ {W A : Type 0} (r : Retried) (func : Coroutine W A) (uniform : ℕ → Coroutine W ℕ)
    (sleep : ℕ → Coroutine W Unit) where
  -- the delay after an attempt, and the sleep
  unfoldable pub delay : ℕ → Coroutine W Unit
  delay attempt = do
    drawn ← uniform r.base_delay
    sleep (min (r.base_delay * 2 ^ (attempt - 1)) r.max_delay + drawn)

  -- the `except` clause, with `attempt` counted already; `rest` is the next round of the loop
  unfoldable pub after_call :
      ℕ → (W → Option (Outcome A × W)) → Outcome A → W → Option (Outcome A × W)
  unfolding delay then_on
  after_call attempt rest (returned a) w = some (returned a, w)
  after_call attempt rest cancelled w = some (cancelled, w)
  after_call attempt rest (raised e) w =
      if r.exceptions e
      then (if leb r.max_attempts attempt
          then some (raised e, w)
          else then_on (delay attempt w) rest)
      else some (raised e, w)

  -- `while True`
  unfoldable pub rounds : ℕ → ℕ → W → Option (Outcome A × W)
  unfolding after_call
  rounds zero attempt w = none
  rounds (suc fuel) attempt w =
      let (o, w') = func w in after_call (attempt + 1) (rounds fuel (attempt + 1)) o w'

  -- `wrapper`; it calls the function at least once
  unfoldable pub retry_async : W → Option (Outcome A × W)
  unfolding rounds
  retry_async = rounds (max r.max_attempts 1) 0
