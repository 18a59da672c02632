-- ===== src/Gather/Progress.antt =====
-- Bounded gathering goes on until it ends.
use social_media_scraper.Base.{
  ℕ, zero, suc, ◌+◌, ◌*◌, ◌≤◌, ◌≡◌, refl, ap, subst, inl, inr, none, List, [], ◌∷◌, ◌++◌, arith,
  Bool-cases, ltb,
}
use social_media_scraper.Exceptions.{cancelled}
use social_media_scraper.Gather.{
  Task, waiting, running, ended, is_running, is_waiting, count, State, replicate, init, Step, enter,
  leave, Reaches,
}
use social_media_scraper.Gather.Ordered.{
  Agrees, IsKept, count-middle, count-replicate, reached-IsKept,
}

-- The first task that waits, or one that runs.
first_waiting :
    {A : Type 0} (ts : List (Task A))
    → 1 ≤ count is_waiting ts
    → (before after : List (Task A)) × (ts ≡ before ++ waiting ∷ after)
      × (count is_waiting before ≡ 0)
unfolding count is_waiting
first_waiting [] h = absurd (omega arith)
first_waiting (waiting ∷ ts) h = ([], ts, refl, refl)
first_waiting (running ∷ ts) h =
    let (before, after, e, k) = first_waiting ts (omega arith) in
    (running ∷ before, after, ap (λ us. running ∷ us) e, omega (arith, k))
first_waiting (ended o ∷ ts) h =
    let (before, after, e, k) = first_waiting ts (omega arith) in
    (ended o ∷ before, after, ap (λ us. ended o ∷ us) e, omega (arith, k))

some_running :
    {A : Type 0} (ts : List (Task A))
    → 1 ≤ count is_running ts
    → (before after : List (Task A)) × (ts ≡ before ++ running ∷ after)
unfolding count is_running
some_running [] h = absurd (omega arith)
some_running (running ∷ ts) h = ([], ts, refl)
some_running (waiting ∷ ts) h =
    let (before, after, e) = some_running ts (omega arith) in
    (waiting ∷ before, after, ap (λ us. waiting ∷ us) e)
some_running (ended o ∷ ts) h =
    let (before, after, e) = some_running ts (omega arith) in
    (ended o ∷ before, after, ap (λ us. ended o ∷ us) e)

-- the steps left: a task that waits takes two, one that runs takes one
unfoldable pub steps_left : {A : Type 0} → State A → ℕ
steps_left s = 2 * count is_waiting s.tasks + count is_running s.tasks

count_waiting-replicate : (A : Type 0) (n : ℕ) → count (is_waiting {A = A}) (replicate n) ≡ n
unfolding count is_waiting replicate
count_waiting-replicate A zero = refl
count_waiting-replicate A (suc n) = omega (arith, count_waiting-replicate A n)

Step-steps_left :
    {A : Type 0} (limit : ℕ) (s t : State A) → Step limit s t → steps_left t + 1 ≡ steps_left s
unfolding steps_left is_waiting is_running
Step-steps_left limit s _ (enter before after e first free) = omega (
  arith,
  ap (count is_waiting) e,
  ap (count is_running) e,
  count-middle is_waiting before waiting after,
  count-middle is_running before waiting after,
  count-middle is_waiting before running after,
  count-middle is_running before running after,
)
Step-steps_left limit s _ (leave before after o e) = omega (
  arith,
  ap (count is_waiting) e,
  ap (count is_running) e,
  count-middle is_waiting before running after,
  count-middle is_running before running after,
  count-middle is_waiting before (ended o) after,
  count-middle is_running before (ended o) after,
)

unended_can :
    {A : Type 0} (limit : ℕ) (s : State A)
    → 1 ≤ limit
    → 1 ≤ count is_waiting s.tasks + count is_running s.tasks
    → (t : State A) × Step limit s t
unended_can limit s h k = elim (Bool-cases (ltb 0 (count is_running s.tasks))) [
  | inl some_run ↦
      let (before, after, e) = some_running s.tasks (ground arith) in
      (_, leave before after cancelled e)
  | inr none_run ↦
      let (before, after, e, f) = first_waiting s.tasks (ground arith) in
      (_, enter before after e f (ground arith))
]

going_on :
    {A : Type 0} {limit n : ℕ} (s : State A)
    → IsKept limit n s
    → s.result ≡ none
    → 1 ≤ count is_waiting s.tasks + count is_running s.tasks
unfolding Agrees
going_on s v e = let a : Agrees none s.tasks = subst (λ r. Agrees r s.tasks) e v.agrees in a.1

-- Gathering does not hang: with a limit that is not 0, as long as the call has not ended a step
-- can be made, and every step leaves one fewer of the steps that can follow, which are two for
-- each task at the start.
pub reached-steps :
    {A : Type 0} (limit n : ℕ) (s : State A)
    → 1 ≤ limit
    → Reaches limit n s
    → (steps_left (init {A = A} n) ≡ 2 * n)
      × (s.result ≡ none → (t : State A) × Step limit s t)
      × ((t : State A) → Step limit s t → steps_left t + 1 ≡ steps_left s)
unfolding steps_left init is_running
reached-steps {A} limit n s h r = (
  omega (arith, count_waiting-replicate A n, count-replicate (is_running {A = A}) n refl),
  λ going. unended_can limit s h (going_on s (reached-IsKept limit n s r) going),
  Step-steps_left limit s,
)
