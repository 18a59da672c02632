-- ===== src/Network/UserAgent.antt =====
-- app/network/user_agent.py. The position is that of `itertools.cycle`; `random` is not modelled.
use social_media_scraper.Base.{
  ℕ, zero, suc, ◌+◌, ◌*◌, ◌≡◌, refl, ◌∙◌, ap, subst, not, Option, none, some, List, [], ◌∷◌, ◌++◌,
  Text, text_eq, contains, select, length, arith,
}
use social_media_scraper.Exceptions.{value_error, Outcome, returned, raised}

-- The pool, and the part of it that the cycle has not reached in its current round.
pub record UserAgents : Type 0 where
  pub pool : List Text
  pub ahead : List Text

-- `UserAgentManager(user_agents)`, with the default pool for `None`.
agents_or : List Text → Option (List Text) → List Text
agents_or defaults none = defaults
agents_or defaults (some agents) = agents

from_pool : List Text → Outcome UserAgents
from_pool [] = raised value_error
from_pool (a ∷ as') = returned (record { pool = a ∷ as'; ahead = a ∷ as' })

unfoldable pub init : List Text → Option (List Text) → Outcome UserAgents
unfolding agents_or from_pool
init defaults agents = from_pool (agents_or defaults agents)

from_ahead : List Text → UserAgents → Option (Text × UserAgents)
from_ahead [] u = none
from_ahead (a ∷ rest) u = some (a, record u { ahead = rest })

-- `next`: a cycle that has come to the end of its pool starts again. Only the empty pool, which
-- the constructor refuses, has no next agent.
unfoldable pub next : UserAgents → Option (Text × UserAgents)
unfolding from_ahead
next u = elim u.ahead [ [] ↦ from_ahead u.pool u | a ∷ rest ↦ from_ahead (a ∷ rest) u ]

add_new : List Text → UserAgents → UserAgents
add_new [] u = u
add_new (a ∷ new) u = record { pool = u.pool ++ a ∷ new; ahead = u.pool ++ a ∷ new }

-- `register`: the agents are told apart from the pool as it was before the call.
unfoldable pub register : List Text → UserAgents → UserAgents
unfolding add_new contains
register agents u = add_new (select (λ a. not (contains a u.pool)) agents) u

-- The agents of `n` calls of `next`.
unfoldable pub rotation : ℕ → UserAgents → List Text
unfolding next
rotation zero u = []
rotation (suc n) u = elim (next u) [ none ↦ [] | some (a, u') ↦ a ∷ rotation n u' ]

rotation_ahead :
    (pool ahead : List Text) (n : ℕ)
    → rotation (length ahead + n) (record { pool = pool; ahead = ahead })
      ≡ ahead ++ rotation n (record { pool = pool; ahead = [] })
unfolding rotation
rotation_ahead pool [] n = ap (λ k. rotation k (record { pool = pool; ahead = [] })) (omega arith)
rotation_ahead pool (a ∷ ahead) n =
    let e : suc (length ahead) + n ≡ suc (length ahead + n) = omega arith in
    rw e (ap (λ r. a ∷ r) (rotation_ahead pool ahead n))

zero_mul : (n : ℕ) → zero * n ≡ zero
zero_mul n = omega arith

suc_mul : (k n : ℕ) → suc k * n ≡ n + k * n
suc_mul k n = grind arith

returned_injective : {u v : UserAgents} → returned u ≡ returned v → u ≡ v
returned_injective e = cc

-- The pool, `k` times over.
abbrev pub repeated : ℕ → List Text → List Text
repeated zero pool = []
repeated (suc k) pool = pool ++ repeated k pool

rotation_wrap :
    (a : Text) (pool : List Text) (n : ℕ)
    → rotation n (record { pool = a ∷ pool; ahead = [] })
      ≡ rotation n (record { pool = a ∷ pool; ahead = a ∷ pool })
unfolding rotation
rotation_wrap a pool zero = refl
rotation_wrap a pool (suc n) = refl

rotation_rounds :
    (k : ℕ) (a : Text) (pool : List Text)
    → rotation (k * length (a ∷ pool)) (record { pool = a ∷ pool; ahead = a ∷ pool })
      ≡ repeated k (a ∷ pool)
unfolding rotation
rotation_rounds zero a pool = rw zero_mul refl
rotation_rounds (suc k) a pool = rw (suc_mul k (length (a ∷ pool))) (
    rotation_ahead (a ∷ pool) (a ∷ pool) (k * length (a ∷ pool))
    ∙ ap (λ r. (a ∷ pool) ++ r)
        (rotation_wrap a pool (k * length (a ∷ pool)) ∙ rotation_rounds k a pool))

-- A manager built from a pool serves every agent of it once, in order, before it starts again:
-- `k` rounds of as many calls as there are agents give the pool `k` times.
pub rotation-init :
    (k : ℕ) (defaults : List Text) (agents : Option (List Text)) (u : UserAgents)
    → init defaults agents ≡ returned u
    → rotation (k * length u.pool) u ≡ repeated k u.pool
unfolding init
rotation-init k defaults agents u h = split (agents_or defaults agents) h
  where
    split :
        (pool : List Text)
        → from_pool pool ≡ returned u
        → rotation (k * length u.pool) u ≡ repeated k u.pool
    split [] e = absurd (ground arith)
    split (a ∷ pool) e =
        subst (λ (v : UserAgents). rotation (k * length v.pool) v ≡ repeated k v.pool)
          (returned_injective e) (rotation_rounds k a pool)

-- Agents that are all in the pool already change nothing, the place in the rotation included.
pub register_known :
    (agents : List Text) (u : UserAgents)
    → select (λ a. not (contains a u.pool)) agents ≡ []
    → register agents u ≡ u
unfolding register
register_known agents u h = rw h
