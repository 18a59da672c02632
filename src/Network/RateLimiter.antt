-- ===== src/Network/RateLimiter.antt =====
-- app/network/rate_limiter.py, a token bucket. Tokens are counted in units small enough that the
-- rate is a whole number of them per tick of the clock, so that no float is rounded; a wait is
-- rounded up to whole ticks.
pub mod Bounds
pub mod Progress
use social_media_scraper.Base.{
  ℕ, zero, suc, ◌+◌, ◌-◌, ◌*◌, Bool, true, false, Option, none, some, List, [], ◌∷◌, leb,
  if◌then◌else◌, or_default, min, ceil_div,
}

pub record Limiter : Type 0 where
  pub rate : ℕ
  pub capacity : ℕ
  pub tokens : ℕ
  pub updated_at : ℕ

-- `requests_per_second` is in units per tick, and `unit` is the number of units of one token.
pub record LimiterSettings : Type 0 where
  pub requests_per_second : ℕ
  pub burst : ℕ
  pub unit : ℕ

unfoldable pub init : LimiterSettings → Option ℕ → Option ℕ → ℕ → Limiter
init s rate burst now = record {
  rate = or_default rate s.requests_per_second;
  capacity = or_default burst s.burst * s.unit;
  tokens = or_default burst s.burst * s.unit;
  updated_at = now;
}

unfoldable pub refill : ℕ → Limiter → Limiter
refill now l = record l {
  tokens = min l.capacity (l.tokens + (now - l.updated_at) * l.rate);
  updated_at = now;
}

-- `wait_time`, for a refilled bucket that is short of `tokens`.
unfoldable pub wait_time : ℕ → Limiter → ℕ
wait_time tokens l = ceil_div (tokens - l.tokens) l.rate

-- One round of the loop in `acquire`, under the lock: true is its `return`.
unfoldable pub try_acquire : ℕ → ℕ → Limiter → Bool × Limiter
unfolding refill
try_acquire now tokens l =
    let l' = refill now l in
    if leb tokens l'.tokens then (true, record l' { tokens = l'.tokens - tokens }) else (false, l')

-- The loop of `acquire`, with the clock reading of each round: `none` is a caller that still
-- waits after the last reading.
unfoldable pub acquire : List ℕ → ℕ → Limiter → Option Limiter
unfolding try_acquire
acquire [] tokens l = none
acquire (now ∷ later) tokens l =
    let (done, l') = try_acquire now tokens l in
    let rest = acquire later tokens l' in if done then some l' else rest

-- Rounds of any number of concurrent callers, in the order in which they get the lock: a clock
-- reading and the tokens asked for.
unfoldable pub rounds : List (ℕ × ℕ) → Limiter → ℕ × Limiter
unfolding try_acquire
rounds [] l = (0, l)
rounds ((now, tokens) ∷ rs) l =
    let (done, l') = try_acquire now tokens l in
    let (granted, l'') = rounds rs l' in ((if done then tokens else 0) + granted, l'')
