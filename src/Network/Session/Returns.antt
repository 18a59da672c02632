-- ===== src/Network/Session/Returns.antt =====
-- `request` as a whole: that it returns once its bucket can grant, and that an open circuit keeps
-- it from the transport.
use social_media_scraper.Base.{
  ℕ, suc, ◌+◌, ◌-◌, ◌≤◌, ◌<◌, ◌≡◌, refl, ap, ◌∙◌, inl, inr, Bool-cases, leb, leb→le, leb→lt, false,
  Option, none, some, Text, text_eq, =?_refl, Dict, get, put, get-put, arith, if◌then◌else◌,
}
use social_media_scraper.Exceptions.{
  Error, network, circuit_open, Outcome, returned, raised, cancelled,
}
use social_media_scraper.Network.CircuitBreaker
use social_media_scraper.Network.CircuitBreaker.{Breaker, opened, before_call, after_call}
use social_media_scraper.Network.RateLimiter
use social_media_scraper.Network.RateLimiter.{Limiter, refill, wait_time, try_acquire}
use social_media_scraper.Network.RateLimiter.Progress.{refill_after_wait, try_enough, try_short}
use social_media_scraper.Network.Retry.{RetryPolicy, Effects, attempts, execute}
use social_media_scraper.Network.Session.{
  Environment, World, guarded_call, effects, limiter_of, breaker_of, sleep, sleep_until,
  after_sleep, acquire_within, acquire_for, finish, begin, rate_limited, after_acquire, request_to,
}
use social_media_scraper.Network.Session.Relations.{sleep-OnlyTime}
use social_media_scraper.Network.Session.Waits.{acquire_for-IsWait}

or_else : {A : Type 0} → A → Option A → A
or_else x none = x
or_else x (some y) = y

get-put_self : {V : Type 0} (k : Text) (x : V) (d : Dict Text V) → get k (put k x d) ≡ some x
get-put_self k x d = get-put k k x d ∙ ap (λ b. if b then some x else get k d) (=?_refl k)

open_rejects :
    (now : ℕ) (b : Breaker)
    → b.state ≡ opened
    → now - b.opened_at < b.recovery_timeout
    → before_call now b ≡ (false, b)
unfolding before_call
open_rejects now b h early = ground arith

first :
    {W A : Type 0} (p : RetryPolicy) (fx : Effects W A) (left : ℕ) (v v' : W) (e : Error)
    → fx.func v ≡ (raised e, v')
    → p.retryable e ≡ false
    → attempts p fx (suc left) 1 v ≡ (raised e, v')
unfolding attempts
first p fx left v v' e h no_retry = rw (h, no_retry)

-- An exception that is not retried, at the first attempt.
execute_raises :
    {W A : Type 0} (p : RetryPolicy) (fx : Effects W A) (v v' : W) (e : Error)
    → fx.func v ≡ (raised e, v')
    → p.retryable e ≡ false
    → 0 < p.max_attempts
    → execute p fx v ≡ (raised e, v')
unfolding execute
execute_raises p fx v v' e h no_retry pos =
    let max : p.max_attempts ≡ suc (p.max_attempts - 1) = omega arith in
    ap (λ n. attempts p fx n 1 v) max ∙ first p fx (p.max_attempts - 1) v v' e h no_retry

sleep_until_lasts :
    (delay : ℕ) (ticks : Option ℕ) (w : World)
    → (sleep_until delay ticks w).0 ≡ returned tt
    → (sleep_until delay ticks w).1.clock ≡ w.clock + delay
unfolding sleep_until
sleep_until_lasts delay none w e = refl
sleep_until_lasts delay (some n) w e = absurd (ground arith)

sleep_lasts :
    {R : Type 0} (env : Environment R) (delay : ℕ) (w : World)
    → (sleep env delay w).0 ≡ returned tt
    → (sleep env delay w).1.clock ≡ w.clock + delay
unfolding sleep
sleep_lasts env delay w e =
    sleep_until_lasts delay (env.interrupted w.slept) (record w { slept = w.slept + 1 }) e

after_sleep_returns :
    (s : Outcome {0} Unit × World) (k : World → Option (Outcome {0} Unit × World))
    → (s.0 ≡ returned tt → (a : Outcome {0} Unit × World) × (k s.1 ≡ some a))
    → (a : Outcome {0} Unit × World) × (after_sleep s k ≡ some a)
unfolding after_sleep
after_sleep_returns (returned u, w) k f = f refl
after_sleep_returns (raised e, w) k f = (_, refl)
after_sleep_returns (cancelled, w) k f = (_, refl)

module _ {R : Type 0} (env : Environment R) (p : RetryPolicy) (host : Text) where
  -- The bucket of the host, existing or new, can hold a token and fills up.
  abbrev pub CanGrant : World → Type 0
  CanGrant w =
      (0 < (limiter_of env host w).rate)
      × (env.limiter_settings.unit ≤ (limiter_of env host w).capacity)

  limiter_of-begin : (w : World) → limiter_of env host (begin env host w) ≡ limiter_of env host w
  unfolding begin limiter_of or_else
  limiter_of-begin w =
      ap (or_else (RateLimiter.init env.limiter_settings none none w.clock))
        (get-put_self host (limiter_of env host w) w.limiters)

  limiter_of-put :
      (l : Limiter) (w v : World) → v.limiters ≡ put host l w.limiters → limiter_of env host v ≡ l
  unfolding limiter_of or_else
  limiter_of-put l w v e =
      let new = RateLimiter.init env.limiter_settings none none v.clock in
      ap (λ (d : Dict Text Limiter). or_else new (get host d)) e
      ∙ ap (or_else new) (get-put_self host l w.limiters)

  -- a round that finds a token
  abbrev granted : Limiter → World → Outcome {0} Unit × World
  granted l v =
      let l' = refill v.clock l in
      let left : Limiter = record l' { tokens = l'.tokens - env.limiter_settings.unit } in
      (returned tt, record v { limiters = put host left v.limiters })

  -- a second round that comes late enough is the last
  second_round :
      (l : Limiter) (v : World)
      → limiter_of env host v ≡ l
      → env.limiter_settings.unit ≤ (refill v.clock l).tokens
      → (a : Outcome {0} Unit × World) × (acquire_within env 1 host v ≡ some a)
  unfolding acquire_within
  second_round l v e enough =
      let unit = env.limiter_settings.unit in
      (granted l v, rw (e, try_enough v.clock unit l enough) refl)

  acquire_within_returns :
      (l : Limiter) (w : World)
      → limiter_of env host w ≡ l
      → 0 < l.rate
      → env.limiter_settings.unit ≤ l.capacity
      → (a : Outcome {0} Unit × World) × (acquire_within env 2 host w ≡ some a)
  unfolding acquire_within refill
  acquire_within_returns l w e rate room =
      let unit = env.limiter_settings.unit in
      let l' = refill w.clock l in
      elim (Bool-cases (leb unit l'.tokens)) [
        | inl enough ↦ (granted l w, rw (e, try_enough w.clock unit l (leb→le _ _ enough)) refl)
        | inr short ↦
            let w' : World = record w { limiters = put host l' w.limiters } in
            let delay = wait_time unit l' in
            let o = sleep-OnlyTime env delay w' in
            let v = (sleep env delay w').1 in
            let there = λ (s : (sleep env delay w').0 ≡ returned tt).
              refill_after_wait w.clock v.clock unit l' rate room refl
                (omega (arith, sleep_lasts env delay w' s)) in
            let (a, done) =
              after_sleep_returns (sleep env delay w') (λ u. acquire_within env 1 host u)
                (λ s. second_round l' v (limiter_of-put l' w v o.limiters) (there s)) in
            (a, rw (e, try_short w.clock unit l (leb→lt _ _ short)) done)
      ]

  acquire_for_returns :
      (w : World)
      → CanGrant w
      → (a : Outcome {0} Unit × World) × (acquire_for env host (begin env host w) ≡ some a)
  unfolding acquire_for
  acquire_for_returns w (rate, room) =
      acquire_within_returns (limiter_of env host w) (begin env host w) (limiter_of-begin w) rate
        room

  -- With such a bucket a request ends: the wait for the token does.
  pub request_to_returns :
      (w : World) → CanGrant w → (q : Outcome R × World) × (request_to env p host w ≡ some q)
  unfolding request_to after_acquire
  request_to_returns w can =
      let (a, e) = acquire_for_returns w can in
      (finish w.clock (rate_limited env p host a), ap (after_acquire env p host w.clock) e)

  breaker_of-granted :
      (w v : World)
      → v.breakers ≡ (begin env host w).breakers
      → breaker_of env host v ≡ breaker_of env host w
  unfolding breaker_of begin or_else
  breaker_of-granted w v e =
      ap
        (λ (d : Dict Text Breaker).
          or_else (CircuitBreaker.init env.breaker_settings none none none) (get host d))
        e
      ∙ ap (or_else (CircuitBreaker.init env.breaker_settings none none none))
          (get-put_self host (breaker_of env host w) w.breakers)

  guarded_open :
      (v : World) (b : Breaker)
      → breaker_of env host v ≡ b
      → b.state ≡ opened
      → v.clock - b.opened_at < b.recovery_timeout
      → guarded_call env host v
        ≡ (raised (network circuit_open), record v { breakers = put host b v.breakers })
  unfolding guarded_call
  guarded_open v b e h early = rw (e, open_rejects v.clock b h early)

  -- While the recovery timeout of a host's open circuit has not elapsed when the token is granted,
  -- a request to it raises `CircuitOpen` and does not reach the transport, under a policy that
  -- allows an attempt and does not retry `CircuitOpen`.
  pub request_to_open :
      (w v : World)
      → acquire_for env host (begin env host w) ≡ some (returned tt, v)
      → (breaker_of env host w).state ≡ opened
      → v.clock - (breaker_of env host w).opened_at < (breaker_of env host w).recovery_timeout
      → 0 < p.max_attempts
      → p.retryable (network circuit_open) ≡ false
      → (w' : World) × (request_to env p host w ≡ some (raised (network circuit_open), w'))
        × (w'.sent ≡ w.sent)
  unfolding request_to after_acquire rate_limited finish begin
  request_to_open w v got h early some_attempt not_retried =
      let g = acquire_for-IsWait env host (begin env host w) got in
      let b = breaker_of env host w in
      let v' : World = record v { breakers = put host b v.breakers } in
      let call = guarded_open v b (breaker_of-granted w v g.breakers) h early in
      let run =
        execute_raises p (effects env host) v v' (network circuit_open) call not_retried
          some_attempt in
      let q : Outcome R × World = (raised (network circuit_open), v') in
      (
        (finish w.clock q).1,
        ap (after_acquire env p host w.clock) got
            ∙ ap (λ (r : Outcome R × World). some (finish w.clock r)) run,
        g.sent,
      )
