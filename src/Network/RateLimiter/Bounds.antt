-- ===== src/Network/RateLimiter/Bounds.antt =====
-- The bucket never holds more than its capacity, and never gives out more than it took in.
use social_media_scraper.Base.{
  ℕ, ◌+◌, ◌-◌, ◌*◌, ◌≤◌, ◌≡◌, refl, List, [], ◌∷◌, arith, if◌then◌else◌,
}
use social_media_scraper.Network.RateLimiter.{Limiter, try_acquire, rounds}

-- The clock readings go up from `t`.
abbrev pub Ascending : ℕ → List (ℕ × ℕ) → Type 0
Ascending t [] = Unit
Ascending t ((now, tokens) ∷ rs) = (t ≤ now) × Ascending now rs

abbrev pub last_time : ℕ → List (ℕ × ℕ) → ℕ
last_time t [] = t
last_time t ((now, tokens) ∷ rs) = last_time now rs

pub try_acquire-fields :
    (now tokens : ℕ) (l : Limiter)
    → ((try_acquire now tokens l).1.rate ≡ l.rate)
      × ((try_acquire now tokens l).1.capacity ≡ l.capacity)
      × ((try_acquire now tokens l).1.updated_at ≡ now)
      × ((try_acquire now tokens l).1.tokens ≤ l.capacity)
unfolding try_acquire
try_acquire-fields now tokens l = ground arith

-- One round takes in at most the rate times the time since the last one.
try_acquire-balance :
    (now tokens : ℕ) (l : Limiter)
    → (if (try_acquire now tokens l).0 then tokens else 0) + (try_acquire now tokens l).1.tokens
      ≤ l.tokens + (now - l.updated_at) * l.rate
unfolding try_acquire
try_acquire-balance now tokens l = ground arith

last_time-ge : (t : ℕ) (rs : List (ℕ × ℕ)) → Ascending t rs → t ≤ last_time t rs
last_time-ge t [] a = omega arith
last_time-ge t ((now, tokens) ∷ rs) a = omega (arith, last_time-ge now rs a.1)

split_time : (t now u r : ℕ) → t ≤ now → now ≤ u → (now - t) * r + (u - now) * r ≡ (u - t) * r
split_time t now u r h k = grind arith

balance_from :
    (t : ℕ) (rs : List (ℕ × ℕ)) (l : Limiter)
    → l.updated_at ≡ t
    → Ascending t rs
    → (rounds rs l).0 + (rounds rs l).1.tokens ≤ l.tokens + (last_time t rs - t) * l.rate
unfolding rounds
balance_from t [] l e a = omega arith
balance_from t ((now, tokens) ∷ rs) l e a =
    let (rate, capacity, time, le) = try_acquire-fields now tokens l in
    let here : (if (try_acquire now tokens l).0 then tokens else 0)
          + (try_acquire now tokens l).1.tokens
        ≤ l.tokens + (now - t) * l.rate =
      rw (← e) (try_acquire-balance now tokens l) in
    let rest = balance_from now rs (try_acquire now tokens l).1 time a.1 in
    let sum = split_time t now (last_time now rs) l.rate a.0 (last_time-ge now rs a.1) in
    let rest' = rw rate at rest in omega (arith, here, rest', sum)

-- However many callers there are and however their rounds interleave, at readings of the clock
-- that do not go back, what they are granted and what is left in the bucket is at most what was
-- in it and what the rate adds until the last reading.
pub rounds-balance :
    (rs : List (ℕ × ℕ)) (l : Limiter)
    → Ascending l.updated_at rs
    → (rounds rs l).0 + (rounds rs l).1.tokens
      ≤ l.tokens + (last_time l.updated_at rs - l.updated_at) * l.rate
rounds-balance rs l a = balance_from l.updated_at rs l refl a

-- A bucket that holds at most its capacity does so after any rounds of any callers.
pub rounds-le-capacity :
    (rs : List (ℕ × ℕ)) (l : Limiter) → l.tokens ≤ l.capacity → (rounds rs l).1.tokens ≤ l.capacity
unfolding rounds
rounds-le-capacity [] l h = h
rounds-le-capacity ((now, tokens) ∷ rs) l h =
    let (rate, capacity, time, le) = try_acquire-fields now tokens l in
    omega (arith, rounds-le-capacity rs (try_acquire now tokens l).1 (omega arith))
