-- ===== src/Gather.antt =====
-- app/utils/async_helper.py. `gather_with_concurrency` vs a step relation: a step is one task that
-- enters the semaphore, or that ends and leaves it. The caller is not cancelled meanwhile.
pub mod Ordered
pub mod Progress
use social_media_scraper.Base.{
  ℕ, zero, suc, ◌+◌, ◌<◌, ◌≡◌, Bool, true, false, Option, none, some, List, [], ◌∷◌, ◌++◌, map,
}
use social_media_scraper.Exceptions.{
  Error, foreign, domain, scraper_timeout_error, Outcome, returned, raised, cancelled,
}

-- A call of `_run`: it waits for the semaphore, it awaits its task, or it has ended.
pub data Task (A : Type 0) : Type 0 where
  waiting : Task A
  running : Task A
  ended : Outcome A → Task A

module _ {A : Type 0} where
  unfoldable pub is_running : Task A → ℕ
  is_running running = 1
  is_running _ = 0

  unfoldable pub is_waiting : Task A → ℕ
  is_waiting waiting = 1
  is_waiting _ = 0

  unfoldable pub count : (Task A → ℕ) → List (Task A) → ℕ
  count f [] = 0
  count f (t ∷ ts) = f t + count f ts

  -- The results, in the order of the tasks, once all have returned.
  unfoldable pub values : List (Task A) → Option (List A)
  values [] = some []
  values (ended (returned a) ∷ ts) = elim (values ts) [ none ↦ none | some vs ↦ some (a ∷ vs) ]
  values (_ ∷ ts) = none

  unfoldable pub when_all : Option (List A) → Option (Outcome (List A))
  when_all none = none
  when_all (some vs) = some (returned vs)

  -- What `asyncio.gather` ends in when the last of the given tasks has ended: the first exception
  -- ends it, while the other tasks go on.
  unfoldable pub settle :
      Option (Outcome (List A)) → Outcome A → List (Task A) → Option (Outcome (List A))
  unfolding values when_all
  settle (some o) last ts = some o
  settle none (raised e) ts = some (raised e)
  settle none cancelled ts = some cancelled
  settle none (returned a) ts = when_all (values ts)

pub record State (A : Type 0) : Type 0 where
  pub tasks : List (Task A)
  pub result : Option (Outcome (List A))

module _ {A : Type 0} where
  unfoldable pub replicate : ℕ → List (Task A)
  replicate zero = []
  replicate (suc n) = waiting ∷ replicate n

  unfoldable pub at_once : ℕ → Option (Outcome (List A))
  at_once zero = some (returned [])
  at_once (suc n) = none

  -- A call with so many tasks; without any it returns at once.
  unfoldable pub init : ℕ → State A
  unfolding replicate at_once
  init n = record { tasks = replicate n; result = at_once n }

  module _ (limit : ℕ) where
    -- The semaphore lets the tasks in by their order.
    pub data Step (s : State A) : State A → Type 0 where
      enter :
          (before after : List (Task A))
          → s.tasks ≡ before ++ waiting ∷ after
          → count is_waiting before ≡ 0
          → count is_running s.tasks < limit
          → Step s (record s { tasks = before ++ running ∷ after })
      leave :
          (before after : List (Task A)) (o : Outcome A)
          → s.tasks ≡ before ++ running ∷ after
          → Step s (record {
            tasks = before ++ ended o ∷ after;
            result = settle s.result o (before ++ ended o ∷ after);
          })

    pub data Reaches (n : ℕ) : State A → Type 0 where
      start : Reaches n (init n)
      step : (s t : State A) → Reaches n s → Step s t → Reaches n t

-- `run_with_timeout`, from how the coroutine ends within the time, if it does
unfoldable pub run_with_timeout : {A : Type 0} → (ℕ → Bool) → Option (Outcome A) → Outcome A
run_with_timeout is_timeout none = raised (domain scraper_timeout_error)
run_with_timeout is_timeout (some (returned a)) = returned a
run_with_timeout is_timeout (some cancelled) = cancelled
run_with_timeout is_timeout (some (raised (foreign n))) = elim (is_timeout n) [
  | true ↦ raised (domain scraper_timeout_error)
  | false ↦ raised (foreign n)
]
run_with_timeout is_timeout (some (raised e)) = raised e
