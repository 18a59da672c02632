-- ===== src/Network/CircuitBreaker/Invariant.antt =====
-- The invariant of the circuit breaker, and its failure count against the history of events.
use social_media_scraper.Base.{ℕ, ◌≤◌, ◌<◌, ◌≡◌, refl, Option, List, [], ◌∷◌, arith, or_default_pos}
use social_media_scraper.Network.CircuitBreaker.{
  closed, Breaker, BreakerSettings, init, Event, begin, success, failure, step, run,
}

-- The circuit is closed exactly while the failures since the last success are fewer than the
-- threshold, and no more trial calls than allowed were let through since the circuit last opened.
pub record IsValid (b : Breaker) : Type 0 where
  pub threshold_pos : 0 < b.failure_threshold
  pub closed_below : b.state ≡ closed → b.failure_count < b.failure_threshold
  pub open_above : b.failure_count < b.failure_threshold → b.state ≡ closed
  pub trials : b.half_open_calls ≤ b.half_open_max_calls

pub init-IsValid :
    (s : BreakerSettings) (t r m : Option ℕ) → 0 < s.failure_threshold → IsValid (init s t r m)
unfolding init
init-IsValid s t r m h = record {
  threshold_pos = or_default_pos t s.failure_threshold h;
  closed_below = λ _. or_default_pos t s.failure_threshold h;
  open_above = λ _. refl;
  trials = omega arith;
}

pub step-IsValid : (e : Event) (b : Breaker) → IsValid b → IsValid (step e b)
unfolding step
step-IsValid (begin now) b v = ground (arith, v.closed_below, v.open_above)
step-IsValid success b v = ground (arith, v.closed_below, v.open_above)
step-IsValid (failure now) b v = ground (arith, v.closed_below, v.open_above)

pub run-IsValid : (es : List Event) (b : Breaker) → IsValid b → IsValid (run es b)
unfolding run
run-IsValid [] b v = v
run-IsValid (e ∷ es) b v = run-IsValid es (step e b) (step-IsValid e b v)
