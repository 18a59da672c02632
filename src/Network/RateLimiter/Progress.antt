-- ===== src/Network/RateLimiter/Progress.antt =====
-- When `acquire` returns, and when it cannot.
use social_media_scraper.Base.{
  ℕ, ◌+◌, ◌-◌, ◌*◌, ◌≤◌, ◌<◌, ◌≡◌, refl, true, false, none, some, List, [], ◌∷◌, arith, leb,
  ceil_div, ceil_div_lem, Bool-cases, leb→le, leb→lt, le→leb, lt→leb, inl, inr, ◌∙◌,
}
use social_media_scraper.Network.RateLimiter.{Limiter, refill, wait_time, try_acquire, acquire}

mul_le_mono : (a b r : ℕ) → a ≤ b → a * r ≤ b * r
mul_le_mono a b r h = grind arith

pub refill_after_wait :
    (now later tokens : ℕ) (l : Limiter)
    → 0 < l.rate
    → tokens ≤ l.capacity
    → l.updated_at ≡ now
    → now + wait_time tokens l ≤ later
    → tokens ≤ (refill later l).tokens
unfolding refill wait_time
refill_after_wait now later tokens l r c e h =
    let enough = ceil_div_lem (tokens - l.tokens) l.rate r in
    let slept : ceil_div (tokens - l.tokens) l.rate ≤ later - l.updated_at = omega arith in
    omega (arith, enough, mul_le_mono _ _ l.rate slept)

-- A call that returns has taken exactly the tokens asked for, and needs one round only when the
-- refilled bucket holds them.
pub acquire_at_once :
    (now tokens : ℕ) (later : List ℕ) (l : Limiter)
    → tokens ≤ (refill now l).tokens
    → (l' : Limiter) × (acquire (now ∷ later) tokens l ≡ some l')
      × (l'.tokens + tokens ≡ (refill now l).tokens)
      × (l'.updated_at ≡ now)
unfolding acquire
acquire_at_once now tokens later l h = (
  record (refill now l) { tokens = (refill now l).tokens - tokens },
  ground arith,
  ground arith,
  refl,
)

acquire_short :
    (now tokens : ℕ) (later : List ℕ) (l : Limiter)
    → (refill now l).tokens < tokens
    → acquire (now ∷ later) tokens l ≡ acquire later tokens (refill now l)
unfolding acquire
acquire_short now tokens later l h = ground arith

-- A caller that asks for no more than the capacity, with no other caller in between, returns
-- in the second round at the latest, if its sleep lasts at least the computed wait.
pub acquire_twice :
    (now later tokens : ℕ) (l : Limiter)
    → 0 < l.rate
    → tokens ≤ l.capacity
    → now + wait_time tokens (refill now l) ≤ later
    → (l' : Limiter) × (acquire (now ∷ later ∷ []) tokens l ≡ some l')
unfolding refill
acquire_twice now later tokens l r c h = elim (Bool-cases (leb tokens (refill now l).tokens)) [
  | inl enough ↦
      let (l', p, _, _) = acquire_at_once now tokens (later ∷ []) l (leb→le _ _ enough) in (l', p)
  | inr short ↦
      let there = refill_after_wait now later tokens (refill now l) r c refl h in
      let (l', p, _, _) = acquire_at_once later tokens [] (refill now l) there in
      (l', acquire_short now tokens (later ∷ []) l (leb→lt _ _ short) ∙ p)
]

-- A caller that asks for more than the capacity never returns, however long it waits.
pub acquire_starves :
    (times : List ℕ) (tokens : ℕ) (l : Limiter)
    → l.capacity < tokens
    → acquire times tokens l ≡ none
unfolding acquire
acquire_starves [] tokens l h = refl
acquire_starves (now ∷ later) tokens l h =
    ground (arith, acquire_starves later tokens (try_acquire now tokens l).1)

pub try_enough :
    (now tokens : ℕ) (l : Limiter)
    → tokens ≤ (refill now l).tokens
    → try_acquire now tokens l
      ≡ (true, record (refill now l) { tokens = (refill now l).tokens - tokens })
unfolding try_acquire
try_enough now tokens l h = rw (le→leb _ _ h)

pub try_short :
    (now tokens : ℕ) (l : Limiter)
    → (refill now l).tokens < tokens
    → try_acquire now tokens l ≡ (false, refill now l)
unfolding try_acquire
try_short now tokens l h = rw (lt→leb _ _ h)
