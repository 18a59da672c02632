-- ===== src/Network/CircuitBreaker/Behaviour.antt =====
-- What a caller sees of the circuit breaker in each state.
use social_media_scraper.Base.{
  ℕ, ◌+◌, ◌≤◌, ◌<◌, ◌≡◌, ◌↔◌, refl, Option, List, [], ◌∷◌, arith, or_default, ◌∙◌, if◌then◌else◌,
  length,
}
use social_media_scraper.Network.CircuitBreaker.{
  closed, half_open, Breaker, BreakerSettings, init, before_call, Event, begin, success, failure,
  step, run, take_trial,
}
use social_media_scraper.Network.CircuitBreaker.Invariant.{IsValid, init-IsValid, run-IsValid}

-- The failures in a history since its last success, after `n` before it.
abbrev pub failures_since : ℕ → List Event → ℕ
failures_since n [] = n
failures_since n (begin now ∷ es) = failures_since n es
failures_since n (success ∷ es) = failures_since 0 es
failures_since n (failure now ∷ es) = failures_since (n + 1) es

step-failure_count :
    (e : Event) (b : Breaker) → (step e b).failure_count ≡ failures_since b.failure_count (e ∷ [])
unfolding step
step-failure_count (begin now) b = ground arith
step-failure_count success b = refl
step-failure_count (failure now) b = ground arith

failures_since-cons :
    (n : ℕ) (e : Event) (es : List Event)
    → failures_since n (e ∷ es) ≡ failures_since (failures_since n (e ∷ [])) es
failures_since-cons n (begin now) es = refl
failures_since-cons n success es = refl
failures_since-cons n (failure now) es = refl

run-failure_count :
    (es : List Event) (b : Breaker) → (run es b).failure_count ≡ failures_since b.failure_count es
unfolding run
run-failure_count [] b = refl
run-failure_count (e ∷ es) b = cc (
  run-failure_count es (step e b),
  step-failure_count e b,
  failures_since-cons b.failure_count e es,
)

step-threshold : (e : Event) (b : Breaker) → (step e b).failure_threshold ≡ b.failure_threshold
unfolding step
step-threshold (begin now) b = ground arith
step-threshold success b = refl
step-threshold (failure now) b = ground arith

run-threshold : (es : List Event) (b : Breaker) → (run es b).failure_threshold ≡ b.failure_threshold
unfolding run
run-threshold [] b = refl
run-threshold (e ∷ es) b = run-threshold es (step e b) ∙ step-threshold e b

fresh_run-IsValid :
    (s : BreakerSettings) (t r m : Option ℕ) (es : List Event)
    → 0 < s.failure_threshold
    → IsValid (run es (init s t r m))
fresh_run-IsValid s t r m es h = run-IsValid es (init s t r m) (init-IsValid s t r m h)

run-init_failure_count :
    (s : BreakerSettings) (t r m : Option ℕ) (es : List Event)
    → (run es (init s t r m)).failure_count ≡ failures_since 0 es
unfolding init
run-init_failure_count s t r m es = run-failure_count es _

run-init_threshold :
    (s : BreakerSettings) (t r m : Option ℕ) (es : List Event)
    → (run es (init s t r m)).failure_threshold ≡ or_default t s.failure_threshold
unfolding init
run-init_threshold s t r m es = run-threshold es _

-- Whatever calls interleave on a new breaker, with a positive default threshold, it is closed
-- exactly while the failures since the last success are fewer than its threshold.
pub closed_iff :
    (s : BreakerSettings) (t r m : Option ℕ) (es : List Event)
    → 0 < s.failure_threshold
    → ((run es (init s t r m)).state ≡ closed)
      ↔ (failures_since 0 es < or_default t s.failure_threshold)
closed_iff s t r m es h =
    let v = fresh_run-IsValid s t r m es h in
    let c = run-init_failure_count s t r m es in
    let d = run-init_threshold s t r m es in
    (λ p. rw (← c, ← d) (v.closed_below p), λ p. v.open_above (rw (c, d) p))

-- The calls let through among calls that begin one after another, none of which ends.
unfoldable pub let_through : List ℕ → Breaker → ℕ
let_through [] b = 0
let_through (now ∷ ns) b =
    let (passed, b') = before_call now b in (if passed then 1 else 0) + let_through ns b'

half_open_room :
    (ns : List ℕ) (b : Breaker)
    → b.state ≡ half_open
    → b.half_open_calls ≤ b.half_open_max_calls
    → let_through ns b + b.half_open_calls ≤ b.half_open_max_calls
unfolding let_through before_call
half_open_room [] b h le = omega arith
half_open_room (now ∷ ns) b h le =
    ground (arith, half_open_room ns (take_trial b).1, half_open_room ns b)

-- A half-open circuit whose trial slots are all taken lets nothing through ever again unless one
-- of the trial calls reports its end: no clock reading frees a slot.
pub full_half_open_rejects :
    (ns : List ℕ) (b : Breaker)
    → b.state ≡ half_open
    → b.half_open_calls ≡ b.half_open_max_calls
    → let_through ns b ≡ 0
full_half_open_rejects ns b h full = omega (arith, half_open_room ns b h)

-- Failures one after another, with calls of others beginning at the given times in between, open
-- a closed circuit once they reach the threshold.
abbrev pub failing : List ℕ → List Event
failing [] = []
failing (t ∷ ts) = failure t ∷ failing ts

failures_since-failing : (n : ℕ) (ts : List ℕ) → failures_since n (failing ts) ≡ n + length ts
failures_since-failing n [] = omega arith
failures_since-failing n (t ∷ ts) = omega (arith, failures_since-failing (n + 1) ts)
