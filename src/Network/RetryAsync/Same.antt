-- ===== src/Network/RetryAsync/Same.antt =====
-- The decorator against `RetryPolicy.execute`.
use social_media_scraper.Base.{
  ℕ, zero, suc, ◌+◌, ◌≤◌, ◌≡◌, refl, sym, subst, ◌⊎◌, inl, inr, Bool, true, Bool-cases, Option,
  some, leb, if◌then◌else◌, max, arith,
}
use social_media_scraper.Exceptions.{
  Error, network, retry_exceeded, Outcome, returned, raised, cancelled,
}
use social_media_scraper.Coroutine.{Coroutine, pure, raise, ◌>>=◌, ◌>>◌}
use social_media_scraper.Network.Retry.{
  RetryPolicy, Effects, compute_delay, pause, after_attempt, attempts, execute,
}
use social_media_scraper.Network.RetryAsync.{
  Retried, then_on, delay, after_call, rounds, retry_async,
}

-- One result of the loop, `x`, and one of `execute`, `y`: the same, but for the exception that is
-- raised when no attempt is left.
pub record Agrees {W A : Type 0} (retryable : Error → Bool) (x : Option (Outcome A × W))
    (y : Outcome A × W) : Type 0 where
  pub outcome : Outcome A
  pub ends : x ≡ some (outcome, y.1)
  pub same :
      (outcome ≡ y.0)
      ⊎ ((e : Error) × (outcome ≡ raised e)
          × (retryable e ≡ true)
          × (y.0 ≡ raised (network retry_exceeded)))

-- the policy with the decorator's numbers
unfoldable pub policy_of : Retried → RetryPolicy
policy_of r = record {
  max_attempts = r.max_attempts;
  base_delay = r.base_delay;
  max_delay = r.max_delay;
  jitter = r.base_delay;
  retryable = r.exceptions;
}

module _ {W A : Type 0} (r : Retried) (func : Coroutine W A) (uniform : ℕ → Coroutine W ℕ)
    (sleep : ℕ → Coroutine W Unit) where
  -- no callback
  abbrev pub effects : Effects W A
  effects = record { func = func; on_retry = λ n e. pure tt; uniform = uniform; sleep = sleep }

  then_on-Agrees :
      (o : Outcome {0} Unit) (w : W) (rest : W → Option (Outcome A × W)) (rest' : Coroutine W A)
      → ((v : W) → Agrees r.exceptions (rest v) (rest' v))
      → Agrees r.exceptions (then_on (o, w) rest) (((λ (v : W). (o, w)) >>= λ u. rest') w)
  unfolding then_on
  then_on-Agrees (returned u) w rest rest' h = h w
  then_on-Agrees (raised e) w rest rest' h = record {
    outcome = raised e;
    ends = refl;
    same = inl refl;
  }
  then_on-Agrees cancelled w rest rest' h = record {
    outcome = cancelled;
    ends = refl;
    same = inl refl;
  }

  after_call-Agrees :
      (attempt : ℕ) (rest : W → Option (Outcome A × W)) (rest' : Coroutine W A) (o : Outcome A)
      (w : W)
      → (r.max_attempts ≤ attempt) ⊎ ((v : W) → Agrees r.exceptions (rest v) (rest' v))
      → Agrees r.exceptions
          (after_call r func uniform sleep attempt rest o w)
          (after_attempt (policy_of r) effects attempt rest' o w)
  unfolding after_call after_attempt policy_of compute_delay
  after_call-Agrees attempt rest rest' (returned a) w h = record {
    outcome = returned a;
    ends = refl;
    same = inl refl;
  }
  after_call-Agrees attempt rest rest' cancelled w h = record {
    outcome = cancelled;
    ends = refl;
    same = inl refl;
  }
  after_call-Agrees attempt rest rest' (raised e) w h =
      let goal_at = λ (b c : Bool).
        Agrees r.exceptions
          (if b
            then (if c
                then some (raised e, w)
                else then_on (delay r func uniform sleep attempt w) rest)
            else some (raised e, w))
          ((if b
              then (if c
                  then raise (network retry_exceeded)
                  else pause (policy_of r) effects attempt e >> rest')
              else raise e)
            w) in
      elim (Bool-cases (r.exceptions e)) [
        | inr other ↦
            subst (λ (b : Bool). goal_at b (leb r.max_attempts attempt)) (sym other)
              (record { outcome = raised e; ends = refl; same = inl refl })
        | inl retried ↦
            subst (λ (b : Bool). goal_at b (leb r.max_attempts attempt)) (sym retried)
              (elim (Bool-cases (leb r.max_attempts attempt)) [
                | inl last ↦ subst (goal_at true) (sym last) (record {
                  outcome = raised e;
                  ends = refl;
                  same = inr (e, refl, retried, refl);
                })
                | inr more ↦ subst (goal_at true) (sym more) (elim h [
                  | inl le ↦ absurd (ground arith)
                  | inr go ↦
                      then_on-Agrees (delay r func uniform sleep attempt w).0
                        (delay r func uniform sleep attempt w).1 rest rest' go
                ])
              ])
      ]

  rounds-Agrees :
      (left attempt : ℕ) (w : W)
      → attempt + suc left ≡ r.max_attempts
      → Agrees r.exceptions
          (rounds r func uniform sleep (suc left) attempt w)
          (attempts (policy_of r) effects (suc left) (attempt + 1) w)
  unfolding rounds attempts
  rounds-Agrees zero attempt w e =
      after_call-Agrees (attempt + 1) (rounds r func uniform sleep 0 (attempt + 1))
        (attempts (policy_of r) effects 0 (attempt + 1 + 1)) (func w).0 (func w).1
        (inl (omega arith))
  rounds-Agrees (suc left) attempt w e =
      after_call-Agrees (attempt + 1) (rounds r func uniform sleep (suc left) (attempt + 1))
        (attempts (policy_of r) effects (suc left) (attempt + 1 + 1)) (func w).0 (func w).1
        (inr (λ v. rounds-Agrees left (attempt + 1) v (omega arith)))

  all-Agrees :
      (n m : ℕ) (w : W)
      → n ≡ r.max_attempts
      → m ≡ n
      → 1 ≤ n
      → Agrees r.exceptions
          (rounds r func uniform sleep m 0 w)
          (attempts (policy_of r) effects n 1 w)
  all-Agrees zero m w e f h = absurd (omega arith)
  all-Agrees (suc left) m w e f h =
      subst
        (λ (k : ℕ).
          Agrees r.exceptions (rounds r func uniform sleep k 0 w)
            (attempts (policy_of r) effects (suc left) 1 w))
        (sym f) (rounds-Agrees left 0 w (omega arith))

  -- With at least one attempt allowed, the decorator's loop ends, and it does what `execute` does
  -- under a policy with the same numbers, no callback and the base delay as the jitter: the same
  -- calls, draws and sleeps, and the same outcome, except that it raises the last exception itself
  -- where `execute` raises RetryExceeded for it.
  pub retry_async-Agrees :
      (w : W)
      → 1 ≤ r.max_attempts
      → Agrees r.exceptions (retry_async r func uniform sleep w) (execute (policy_of r) effects w)
  unfolding retry_async execute policy_of
  retry_async-Agrees w some_attempt =
      all-Agrees r.max_attempts (max r.max_attempts 1) w refl (omega arith) some_attempt
