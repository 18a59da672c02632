-- ===== src/Discovery/BrowserPool.antt =====
-- app/discovery/google_maps/browser_pool.py. An entry is a number: the context and the page that
-- were created for it. What creating and closing one ends in is a parameter.
pub mod Entries
use social_media_scraper.Base.{
  ℕ, zero, suc, ◌+◌, ◌≡◌, Bool, true, false, Option, none, some, List, [], ◌∷◌, ◌++◌, length,
  or_default, if◌then◌else◌,
}
use social_media_scraper.Exceptions.{Error, Outcome, returned, raised, cancelled}

-- `BrowserContextPool`; `in_use` are the entries whose `acquire` has not ended.
pub record BrowserPool : Type 0 where
  pub pool_size : ℕ
  pub pool : List ℕ
  pub all : List ℕ
  pub started : Bool
  pub in_use : List ℕ

unfoldable pub init : ℕ → Option ℕ → BrowserPool
init setting pool_size = record {
  pool_size = or_default pool_size setting;
  pool = [];
  all = [];
  started = false;
  in_use = [];
}

-- the results that are entries, and the first that is none
unfoldable pub created : List (Outcome ℕ) → List ℕ
created [] = []
created (returned e ∷ rs) = e ∷ created rs
created (_ ∷ rs) = created rs

unfoldable pub first_error : List (Outcome ℕ) → Outcome {0} Unit
first_error [] = returned tt
first_error (returned e ∷ rs) = first_error rs
first_error (raised x ∷ rs) = raised x
first_error (cancelled ∷ rs) = cancelled

unfoldable pub succeeded : Outcome {0} Unit → Bool
succeeded (returned _) = true
succeeded _ = false

-- `start`, on what the gathered calls of `_create_entry` end in
unfoldable pub start : List (Outcome ℕ) → BrowserPool → Outcome {0} Unit × BrowserPool
unfolding created first_error succeeded
start results p = if p.started then (returned tt, p) else (
  first_error results,
  record p {
    all = p.all ++ created results;
    pool = p.pool ++ created results;
    started = succeeded (first_error results);
  },
)

unfoldable pub take_first : List ℕ → BrowserPool → Option (ℕ × BrowserPool)
take_first [] p = none
take_first (e ∷ es) p = some (e, record p { pool = es; in_use = e ∷ p.in_use })

-- `acquire`, up to its `yield`: `none` is a caller that waits
unfoldable pub acquire : BrowserPool → Option (ℕ × BrowserPool)
unfolding take_first
acquire p = take_first p.pool p

-- the `finally` of `acquire`, where the entry is one in use
unfoldable pub release : ℕ → List ℕ → List ℕ → BrowserPool → BrowserPool
release e before after p = record p { pool = p.pool ++ e ∷ []; in_use = before ++ after }

-- The loop of `stop`: how it ends, and the entries whose contexts it has asked to close. An error
-- of one does not keep it from the next; a cancellation, which `except Exception` lets through,
-- does.
unfoldable pub close_each : (ℕ → Outcome {0} Unit) → List ℕ → Outcome {0} Unit × List ℕ
close_each close [] = (returned tt, [])
close_each close (e ∷ es) =
    let (o, closed) = close_each close es in
    elim (close e) [
      | returned u ↦ (o, e ∷ closed)
      | raised x ↦ (o, e ∷ closed)
      | cancelled ↦ (cancelled, e ∷ [])
    ]

-- what follows the loop
unfoldable pub emptied : Outcome {0} Unit → BrowserPool → BrowserPool
emptied (returned u) p = record p { pool = []; all = []; started = false }
emptied _ p = p

-- `stop`, where `close` is what closing the context of an entry ends in: how it ends, the entries
-- it has asked to close, and the pool. An entry in use then goes to a new queue when it is
-- released.
unfoldable pub stop : (ℕ → Outcome {0} Unit) → BrowserPool → Outcome {0} Unit × List ℕ × BrowserPool
unfolding close_each emptied
stop close p = let (o, closed) = close_each close p.all in (o, closed, emptied o p)
