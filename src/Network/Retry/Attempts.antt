-- ===== src/Network/Retry/Attempts.antt =====
-- What `execute` does with a function whose attempts end in a known way: which outcome it hands
-- on, how often it calls the function, and what it sleeps.
use social_media_scraper.Base.{
  ℕ, zero, suc, ◌+◌, ◌-◌, ◌*◌, ◌^◌, lt→leb, le→leb, ◌≤◌, ◌<◌, ◌≡◌, refl, sym, ap, ◌∙◌, Bool, true,
  false, List, [], ◌∷◌, ◌++◌, append_assoc, append-nil, arith,
}
use native.Mathlib.Nat.{pow-le-pow_right}
use social_media_scraper.Exceptions.{network, retry_exceeded, Outcome, returned, raised}
use social_media_scraper.Coroutine.{Coroutine}
use social_media_scraper.Network.Retry.{
  RetryPolicy, backoff, compute_delay, Effects, after_attempt, attempts, execute,
}

-- What an observer of `execute` sees: the number of attempts, the delays slept and the attempt
-- numbers reported to the callback.
pub record Trace : Type 0 where
  pub calls : ℕ
  pub slept : List ℕ
  pub retried : List ℕ

-- The n-th call of the function ends in `outcome n`, and the draw after it is `draw n`.
module _ {A : Type 0} (outcome : ℕ → Outcome A) (draw : ℕ → ℕ) where
  abbrev pub observed : Effects Trace A
  observed = record {
    func = λ w. (outcome w.calls, record w { calls = w.calls + 1 });
    on_retry = λ attempt e w. (returned tt, record w { retried = w.retried ++ attempt ∷ [] });
    uniform = λ jitter w. (returned (draw w.calls), w);
    sleep = λ delay w. (returned tt, record w { slept = w.slept ++ delay ∷ [] });
  }

-- The exception of a failed attempt is one that the policy retries.
abbrev pub is_retried : {A : Type 0} → RetryPolicy → Outcome A → Bool
is_retried p (raised e) = p.retryable e
is_retried p _ = false

module _ {A : Type 0} (p : RetryPolicy) (outcome : ℕ → Outcome A) (draw : ℕ → ℕ) where
  -- The attempt numbers from `attempt`, and the delays after the attempts that they number, the
  -- first of which is the call number `call`.
  abbrev pub numbers : ℕ → ℕ → List ℕ
  numbers zero attempt = []
  numbers (suc k) attempt = attempt ∷ numbers k (attempt + 1)

  abbrev pub delays : ℕ → ℕ → ℕ → List ℕ
  delays zero attempt call = []
  delays (suc k) attempt call =
      compute_delay p attempt (draw (call + 1)) ∷ delays k (attempt + 1) (call + 1)

  -- The first `k` attempts from call number `call` on are all retried.
  abbrev pub AllRetried : ℕ → ℕ → Type 0
  AllRetried zero call = Unit
  AllRetried (suc k) call = (is_retried p (outcome call) ≡ true) × AllRetried k (call + 1)

  -- The trace after an attempt that is retried, and after `k` of them.
  abbrev pub retried_once : ℕ → Trace → Trace
  retried_once attempt w = record {
    calls = w.calls + 1;
    slept = w.slept ++ compute_delay p attempt (draw (w.calls + 1)) ∷ [];
    retried = w.retried ++ attempt ∷ [];
  }

  after_retried :
      (attempt : ℕ) (rest : Coroutine Trace A) (o : Outcome A) (w : Trace)
      → attempt < p.max_attempts
      → is_retried p o ≡ true
      → after_attempt p (observed outcome draw) attempt rest o (record w { calls = w.calls + 1 })
        ≡ rest (retried_once attempt w)
  unfolding after_attempt
  after_retried attempt rest (raised e) w h r = rw (r, lt→leb _ _ h)
  after_retried attempt rest _ w h r = cc

  after_last :
      (attempt : ℕ) (rest : Coroutine Trace A) (o : Outcome A) (w : Trace)
      → p.max_attempts ≤ attempt
      → is_retried p o ≡ true
      → after_attempt p (observed outcome draw) attempt rest o w
        ≡ (raised (network retry_exceeded), w)
  unfolding after_attempt
  after_last attempt rest (raised e) w h r = rw (r, le→leb _ _ h)
  after_last attempt rest _ w h r = cc

  after_settled :
      (attempt : ℕ) (rest : Coroutine Trace A) (o : Outcome A) (w : Trace)
      → is_retried p o ≡ false
      → after_attempt p (observed outcome draw) attempt rest o w ≡ (o, w)
  unfolding after_attempt
  after_settled attempt rest (raised e) w r = rw r
  after_settled attempt rest _ w r = refl

  -- The trace after `k` retried attempts and a last one.
  abbrev pub ended : ℕ → ℕ → Trace → Trace
  ended k attempt w = record {
    calls = w.calls + k + 1;
    slept = w.slept ++ delays k attempt w.calls;
    retried = w.retried ++ numbers k attempt;
  }

  ended-suc :
      (k attempt : ℕ) (w : Trace)
      → ended k (attempt + 1) (retried_once attempt w) ≡ ended (suc k) attempt w
  ended-suc k attempt w = simp (append_assoc) (
      ap
        (λ n. record {
          calls = n;
          slept = w.slept ++ delays (suc k) attempt w.calls;
          retried = w.retried ++ numbers (suc k) attempt;
        })
        (omega arith))

  attempts_settled :
      (k left attempt : ℕ) (w : Trace)
      → k < left
      → attempt + left ≡ p.max_attempts + 1
      → AllRetried k w.calls
      → is_retried p (outcome (w.calls + k)) ≡ false
      → attempts p (observed outcome draw) left attempt w
        ≡ (outcome (w.calls + k), ended k attempt w)
  unfolding attempts
  attempts_settled zero (suc left) attempt w lt e all last =
      let here : w.calls + 0 ≡ w.calls = omega arith in
      let settled = rw here at last in
      simp (here, append-nil)
        (after_settled attempt (attempts p (observed outcome draw) left (attempt + 1))
          (outcome w.calls) (record w { calls = w.calls + 1 }) settled)
  attempts_settled (suc k) (suc left) attempt w lt e all last =
      let there : w.calls + suc k ≡ w.calls + 1 + k = omega arith in
      let settled = rw there at last in
      after_retried attempt (attempts p (observed outcome draw) left (attempt + 1))
        (outcome w.calls) w (omega arith) all.0
      ∙ attempts_settled k left (attempt + 1) (retried_once attempt w) (omega arith) (omega arith)
          all.1 settled
      ∙ rw (ended-suc k attempt w) (ap (λ n. (outcome n, ended (suc k) attempt w)) (sym there))
  attempts_settled k zero attempt w lt e all last = elim lt [ ]

  attempts_exhausted :
      (k attempt : ℕ) (w : Trace)
      → attempt + k ≡ p.max_attempts
      → AllRetried (suc k) w.calls
      → attempts p (observed outcome draw) (suc k) attempt w
        ≡ (raised (network retry_exceeded), ended k attempt w)
  unfolding attempts
  attempts_exhausted zero attempt w e all =
      let here : w.calls + 0 ≡ w.calls = omega arith in
      simp (here, append-nil)
        (after_last attempt (attempts p (observed outcome draw) 0 (attempt + 1)) (outcome w.calls)
          (record w { calls = w.calls + 1 }) (omega arith) all.0)
  attempts_exhausted (suc k) attempt w e all =
      after_retried attempt (attempts p (observed outcome draw) (suc k) (attempt + 1))
        (outcome w.calls) w (omega arith) all.0
      ∙ attempts_exhausted k (attempt + 1) (retried_once attempt w) (omega arith) all.1
      ∙ rw (ended-suc k attempt w)

  abbrev pub start : Trace
  start = record { calls = 0; slept = []; retried = [] }

  -- If the first `k` attempts, fewer than the policy allows, raise retryable exceptions and the
  -- next one ends otherwise, `execute` ends as that one does (returns its value, passes on its
  -- exception or its cancellation), after exactly `k` + 1 calls, one callback and one backoff
  -- delay between two calls.
  pub execute_settled :
      (k : ℕ)
      → k < p.max_attempts
      → AllRetried k 0
      → is_retried p (outcome k) ≡ false
      → execute p (observed outcome draw) start
        ≡ (outcome k, record { calls = k + 1; slept = delays k 1 0; retried = numbers k 1 })
  unfolding execute
  execute_settled k lt all last =
      let z : 0 + k ≡ k = omega arith in
      let settled = rw (← z) at last in
      rw z at (attempts_settled k p.max_attempts 1 start lt (omega arith) all settled)

  -- If every attempt allowed raises a retryable exception, `execute` raises `RetryExceeded` after
  -- exactly `max_attempts` calls, with no delay after the last.
  pub execute_exhausted :
      (k : ℕ)
      → k + 1 ≡ p.max_attempts
      → AllRetried (suc k) 0
      → execute p (observed outcome draw) start ≡ (
        raised (network retry_exceeded),
        record { calls = k + 1; slept = delays k 1 0; retried = numbers k 1 },
      )
  unfolding execute
  execute_exhausted k e all =
      let z : 0 + k ≡ k = omega arith in
      ap (λ n. attempts p (observed outcome draw) n 1 start) {y = suc k} (omega arith)
      ∙ rw z at (attempts_exhausted k 1 start (omega arith) all)

mul_le_mono_left : (a : ℕ) {b c : ℕ} → b ≤ c → a * b ≤ a * c
mul_le_mono_left a h = grind arith

-- The backoff never passes the cap, and does not shrink from one attempt to the next.
pub backoff_bounds :
    (p : RetryPolicy) (attempt : ℕ)
    → (backoff p attempt ≤ p.max_delay) × (backoff p attempt ≤ backoff p (attempt + 1))
unfolding backoff
backoff_bounds p attempt =
    let powers : 2 ^ (attempt - 1) ≤ 2 ^ (attempt + 1 - 1) =
      pow-le-pow_right (omega arith) (omega arith) in
    let delays = mul_le_mono_left p.base_delay powers in (omega arith, omega arith)

-- With a draw within the jitter, a delay lies between the backoff and the backoff plus the jitter.
pub compute_delay_bounds :
    (p : RetryPolicy) (attempt drawn : ℕ)
    → drawn ≤ p.jitter
    → (backoff p attempt ≤ compute_delay p attempt drawn)
      × (compute_delay p attempt drawn ≤ p.max_delay + p.jitter)
unfolding compute_delay
compute_delay_bounds p attempt drawn h = omega (arith, backoff_bounds p attempt)
