-- ===== src/Network/CircuitBreaker/Calls.antt =====
-- `call` as a whole: what the caller gets, and what the breaker remembers.
use social_media_scraper.Base.{ℕ, ◌+◌, ◌-◌, ◌≤◌, ◌<◌, ◌≡◌, arith}
use social_media_scraper.Exceptions.{
  Error, network, circuit_open, Outcome, returned, raised, cancelled,
}
use social_media_scraper.Network.CircuitBreaker.{closed, opened, half_open, Breaker, call}
use social_media_scraper.Network.CircuitBreaker.Invariant.{IsValid}

module _ {ℓ} {A : Type ℓ} where
  -- While the recovery timeout of an open circuit has not elapsed, a call raises `CircuitOpen`,
  -- whatever the function would do, and the breaker stays as it is.
  pub call_open_rejects :
      (now later : ℕ) (o : Outcome A) (b : Breaker)
      → b.state ≡ opened
      → now - b.opened_at < b.recovery_timeout
      → call now later o b ≡ (raised (network circuit_open), b)
  unfolding call
  call_open_rejects now later o b h early = ground arith

  -- Once the recovery timeout of an open circuit has elapsed, and with at least one trial allowed, a
  -- call whose function returns gives its value, closes the circuit and clears the failure count.
  pub call_recovers :
      (now later : ℕ) (a : A) (b : Breaker)
      → b.state ≡ opened
      → b.recovery_timeout ≤ now - b.opened_at
      → 0 < b.half_open_max_calls
      → ((call now later (returned a) b).0 ≡ returned a)
        × ((call now later (returned a) b).1.state ≡ closed)
        × ((call now later (returned a) b).1.failure_count ≡ 0)
  unfolding call
  call_recovers now later a b h late room = ground arith

  -- One whose function raises passes the exception on, and the circuit opens again as of its end.
  pub call_reopens :
      (now later : ℕ) (e : Error) (b : Breaker)
      → b.state ≡ opened
      → b.recovery_timeout ≤ now - b.opened_at
      → 0 < b.half_open_max_calls
      → let o : Outcome A = raised e in
        ((call now later o b).0 ≡ o)
        × ((call now later o b).1.state ≡ opened)
        × ((call now later o b).1.opened_at ≡ later)
  unfolding call
  call_reopens now later e b h late room = ground arith

  -- A trial call of a half-open circuit with a free slot that is cancelled changes the breaker only
  -- by the slot it took, which it keeps.
  pub call_cancelled_keeps_slot :
      (now later : ℕ) (b : Breaker)
      → b.state ≡ half_open
      → b.half_open_calls < b.half_open_max_calls
      → let o : Outcome A = cancelled in
        call now later o b ≡ (o, record b { half_open_calls = b.half_open_calls + 1 })
  unfolding call
  call_cancelled_keeps_slot now later b h room = ground arith

  -- A call keeps the breaker's invariant, however it ends.
  pub call-IsValid :
      (now later : ℕ) (o : Outcome A) (b : Breaker) → IsValid b → IsValid (call now later o b).1
  unfolding call
  call-IsValid now later (returned a) b v = ground (arith, v.closed_below, v.open_above)
  call-IsValid now later (raised e) b v = ground (arith, v.closed_below, v.open_above)
  call-IsValid now later cancelled b v = ground (arith, v.closed_below, v.open_above)
