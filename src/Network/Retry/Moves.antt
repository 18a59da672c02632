-- ===== src/Network/Retry/Moves.antt =====
-- Facts about `execute` for any function, callback, draw and sleep: a relation between worlds that
-- each of them respects holds across the whole of it, and it calls the function a bounded number of
-- times.
use social_media_scraper.Base.{ℕ, zero, suc, ◌+◌, ◌≤◌, arith, leb, Bool-cases, inl, inr}
use social_media_scraper.Exceptions.{Error, Outcome, returned, raised, cancelled}
use social_media_scraper.Coroutine.{Coroutine, ◌>>=◌}
use social_media_scraper.Coroutine.Keeps.{Moves, IsPreorder, Moves-bind}
use social_media_scraper.Network.Retry.{
  RetryPolicy, compute_delay, Effects, pause, after_attempt, attempts, execute,
}

module _ {W A : Type 0} (p : RetryPolicy) (fx : Effects W A) {R : W → W → Type 0}
    (pre : IsPreorder R) where
  pub record Respects : Type 0 where
    pub func : Moves R fx.func
    pub on_retry : (attempt : ℕ) (e : Error) → Moves R (fx.on_retry attempt e)
    pub uniform : (jitter : ℕ) → Moves R (fx.uniform jitter)
    pub sleep : (delay : ℕ) → Moves R (fx.sleep delay)

  module _ (r : Respects) where
    pause-Moves : (attempt : ℕ) (e : Error) → Moves R (pause p fx attempt e)
    unfolding pause
    pause-Moves attempt e =
        Moves-bind pre (fx.on_retry attempt e)
          (λ _. fx.uniform p.jitter >>= λ drawn. fx.sleep (compute_delay p attempt drawn))
          (r.on_retry attempt e)
          λ _.
            Moves-bind pre (fx.uniform p.jitter) (λ drawn. fx.sleep (compute_delay p attempt drawn))
              (r.uniform p.jitter) λ drawn. r.sleep (compute_delay p attempt drawn)

    after_attempt-moves :
        (attempt : ℕ) (rest : Coroutine W A) (o : Outcome A) (u v : W)
        → R u v
        → Moves R rest
        → R u (after_attempt p fx attempt rest o v).1
    unfolding after_attempt
    after_attempt-moves attempt rest (returned a) u v m k = m
    after_attempt-moves attempt rest cancelled u v m k = m
    after_attempt-moves attempt rest (raised e) u v m k = elim (Bool-cases (p.retryable e)) [
      | inr other ↦ rw other m
      | inl again ↦ elim (Bool-cases (leb p.max_attempts attempt)) [
        | inl last ↦ rw (again, last) m
        | inr more ↦
            let both =
              Moves-bind pre (pause p fx attempt e) (λ _. rest) (pause-Moves attempt e) (λ _. k) in
            rw (again, more) (pre.transitive u v _ m (both.at v))
      ]
    ]

    attempts-Moves : (left attempt : ℕ) → Moves R (attempts p fx left attempt)
    unfolding attempts
    attempts-Moves zero attempt = record { at = λ w. pre.reflexive w }
    attempts-Moves (suc left) attempt = record {
      at = λ w.
          after_attempt-moves attempt (attempts p fx left (attempt + 1)) (fx.func w).0 w
            (fx.func w).1 (r.func.at w) (attempts-Moves left (attempt + 1));
    }

    -- A relation that holds across each step holds across the whole of `execute`.
    pub execute-Moves : Moves R (execute p fx)
    unfolding execute
    execute-Moves = attempts-Moves p.max_attempts 1

-- What the coroutine adds to a count is at most `n`.
pub record Adds {A W : Type 0} (count : W → ℕ) (n : ℕ) (m : Coroutine W A) : Type 0 where
  pub at : (w : W) → count (m w).1 ≤ count w + n

module _ {A B W : Type 0} {count : W → ℕ} where
  after-Adds :
      (k n : ℕ) (f : A → Coroutine W B) (w : W) (o : Outcome A) (w' : W)
      → count w' ≤ count w + k
      → ((a : A) → Adds count n (f a))
      → count (((λ (v : W). (o, v)) >>= f) w').1 ≤ count w + k + n
  after-Adds k n f w (returned a) w' h fa = omega (arith, (fa a).at w')
  after-Adds k n f w (raised e) w' h fa = omega arith
  after-Adds k n f w cancelled w' h fa = omega arith

  pub bind-Adds :
      (k n : ℕ) (m : Coroutine W A) (f : A → Coroutine W B)
      → Adds count k m
      → ((a : A) → Adds count n (f a))
      → Adds count (k + n) (m >>= f)
  bind-Adds k n m f ma fa = record {
    at = λ w. omega (arith, after-Adds k n f w (m w).0 (m w).1 (ma.at w) fa);
  }

module _ {W A : Type 0} (p : RetryPolicy) (fx : Effects W A) (count : W → ℕ) where
  -- The function counts at most once, and the other effects do not count.
  pub record CountsOnce : Type 0 where
    pub func : Adds count 1 fx.func
    pub on_retry : (attempt : ℕ) (e : Error) → Adds count 0 (fx.on_retry attempt e)
    pub uniform : (jitter : ℕ) → Adds count 0 (fx.uniform jitter)
    pub sleep : (delay : ℕ) → Adds count 0 (fx.sleep delay)

  module _ (c : CountsOnce) where
    pause-Adds : (attempt : ℕ) (e : Error) → Adds count 0 (pause p fx attempt e)
    unfolding pause
    pause-Adds attempt e = record {
      at = λ w. omega (
        arith,
        (bind-Adds 0 0 (fx.on_retry attempt e)
              (λ _. fx.uniform p.jitter >>= λ drawn. fx.sleep (compute_delay p attempt drawn))
              (c.on_retry attempt e)
              (λ _. record {
                at = λ v. omega (
                  arith,
                  (bind-Adds 0 0 (fx.uniform p.jitter)
                        (λ drawn. fx.sleep (compute_delay p attempt drawn)) (c.uniform p.jitter)
                        (λ drawn. c.sleep (compute_delay p attempt drawn))).at
                      v,
                );
              })).at
            w,
      );
    }

    after_attempt-Adds :
        (attempt n : ℕ) (rest : Coroutine W A) (o : Outcome A) (u v : W)
        → count v ≤ count u + 1
        → Adds count n rest
        → count (after_attempt p fx attempt rest o v).1 ≤ count u + 1 + n
    unfolding after_attempt
    after_attempt-Adds attempt n rest (returned a) u v m k = omega arith
    after_attempt-Adds attempt n rest cancelled u v m k = omega arith
    after_attempt-Adds attempt n rest (raised e) u v m k = elim (Bool-cases (p.retryable e)) [
      | inr other ↦ rw other (omega arith)
      | inl again ↦ elim (Bool-cases (leb p.max_attempts attempt)) [
        | inl last ↦ rw (again, last) (omega arith)
        | inr more ↦
            let both =
              bind-Adds 0 n (pause p fx attempt e) (λ _. rest) (pause-Adds attempt e) (λ _. k) in
            rw (again, more) (omega (arith, both.at v))
      ]
    ]

    attempts-Adds : (left attempt : ℕ) → Adds count left (attempts p fx left attempt)
    unfolding attempts
    attempts-Adds zero attempt = record { at = λ w. omega arith }
    attempts-Adds (suc left) attempt = record {
      at = λ w. omega (
        arith,
        after_attempt-Adds attempt left (attempts p fx left (attempt + 1)) (fx.func w).0 w
            (fx.func w).1 (c.func.at w) (attempts-Adds left (attempt + 1)),
      );
    }

    -- However the attempts end, the function is called at most `max_attempts` times.
    pub execute-Adds : Adds count p.max_attempts (execute p fx)
    unfolding execute
    execute-Adds = attempts-Adds p.max_attempts 1
