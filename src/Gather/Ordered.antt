-- ===== src/Gather/Ordered.antt =====
-- What bounded gathering promises.
use social_media_scraper.Base.{
  ℕ, zero, suc, ◌+◌, ◌≤◌, ◌≡◌, refl, sym, ap, subst, ◌∙◌, ◌⊎◌, inl, inr, Option, none, some, List,
  [], ◌∷◌, ◌++◌, map, length, arith,
}
use social_media_scraper.Exceptions.{Outcome, returned, raised, cancelled}
use social_media_scraper.Gather.{
  Task, waiting, running, ended, is_running, is_waiting, count, values, settle, when_all, State,
  replicate, at_once, init, Step, enter, leave, Reaches, start, step,
}

module _ {A : Type 0} where
  pub count-middle :
      (f : Task A → ℕ) (before : List (Task A)) (t : Task A) (after : List (Task A))
      → count f (before ++ t ∷ after) ≡ f t + count f (before ++ after)
  unfolding count
  count-middle f [] t after = refl
  count-middle f (b ∷ before) t after = omega (arith, count-middle f before t after)

  length-middle :
      (before : List (Task A)) (t u : Task A) (after : List (Task A))
      → length (before ++ t ∷ after) ≡ length (before ++ u ∷ after)
  length-middle [] t u after = refl
  length-middle (b ∷ before) t u after = ap suc (length-middle before t u after)

  pub count-replicate : (f : Task A → ℕ) (n : ℕ) → f waiting ≡ 0 → count f (replicate n) ≡ 0
  unfolding count replicate
  count-replicate f zero h = refl
  count-replicate f (suc n) h = omega (arith, count-replicate f n h)

  -- All tasks have returned, with these values in the order of the tasks.
  abbrev pub HasReturned : List (Task A) → List A → Type 0
  HasReturned ts vs = ts ≡ map (λ v. ended (returned v)) vs

  unfoldable pub is_failed : Task A → ℕ
  is_failed (ended (raised e)) = 1
  is_failed (ended cancelled) = 1
  is_failed _ = 0

  -- The results are there only when all tasks have returned, and fail to be there only while one
  -- has not ended or one has failed.
  values_lem :
      (ts : List (Task A))
      → ((vs : List A) × (values ts ≡ some vs) × HasReturned ts vs)
        ⊎ ((values ts ≡ none)
            × (1 ≤ count is_waiting ts + count is_running ts + count is_failed ts))
  unfolding values count is_waiting is_running is_failed
  values_lem [] = inl ([], refl, refl)
  values_lem (ended (returned a) ∷ ts) = elim (values_lem ts) [
    | inl (vs, e, h) ↦
        inl (a ∷ vs, rw e refl, ap (λ (us : List (Task A)). ended (returned a) ∷ us) h)
    | inr (e, h) ↦ inr (rw e refl, omega arith)
  ]
  values_lem (ended (raised e) ∷ ts) = inr (refl, omega arith)
  values_lem (ended cancelled ∷ ts) = inr (refl, omega arith)
  values_lem (waiting ∷ ts) = inr (refl, omega arith)
  values_lem (running ∷ ts) = inr (refl, omega arith)

  count-HasReturned :
      (f : Task A → ℕ) (vs : List A)
      → ((a : A) → f (ended (returned a)) ≡ 0)
      → count f (map (λ v. ended (returned v)) vs) ≡ 0
  unfolding count
  count-HasReturned f [] h = refl
  count-HasReturned f (v ∷ vs) h = omega (arith, h v, count-HasReturned f vs h)

  -- What a result says of the tasks.
  unfoldable pub Agrees : Option (Outcome (List A)) → List (Task A) → Type 0
  Agrees none ts = (count is_failed ts ≡ 0) × (1 ≤ count is_waiting ts + count is_running ts)
  Agrees (some (returned vs)) ts = HasReturned ts vs
  Agrees (some _) ts = 1 ≤ count is_failed ts

  pub record IsKept (limit n : ℕ) (s : State A) : Type 0 where
    pub bounded : count is_running s.tasks ≤ limit
    pub all : length s.tasks ≡ n
    pub agrees : Agrees s.result s.tasks

  not_returned :
      (f : Task A → ℕ) (before : List (Task A)) (t : Task A) (after : List (Task A)) (vs : List A)
      → f t ≡ 1
      → ((a : A) → f (ended (returned a)) ≡ 0)
      → HasReturned (before ++ t ∷ after) vs
      → ⊥
  not_returned f before t after vs one none_else h = absurd (
      omega
        (arith, ap (count f) h, count-middle f before t after, count-HasReturned f vs none_else))

  enter-Agrees :
      (r : Option (Outcome (List A))) (before after : List (Task A))
      → Agrees r (before ++ waiting ∷ after)
      → Agrees r (before ++ running ∷ after)
  unfolding Agrees is_waiting is_running is_failed
  enter-Agrees none before after (h, k) = (
    omega (
      arith,
      count-middle is_failed before waiting after,
      count-middle is_failed before running after,
    ),
    omega (arith, count-middle is_running before running after),
  )
  enter-Agrees (some (returned vs)) before after h =
      absurd (not_returned is_waiting before waiting after vs refl (λ a. refl) h)
  enter-Agrees (some (raised e)) before after h = omega (
    arith,
    count-middle is_failed before waiting after,
    count-middle is_failed before running after,
  )
  enter-Agrees (some cancelled) before after h = omega (
    arith,
    count-middle is_failed before waiting after,
    count-middle is_failed before running after,
  )

  settled-Agrees :
      (before after : List (Task A)) (a : A)
      → count is_failed (before ++ ended (returned a) ∷ after) ≡ 0
      → Agrees
          (settle none (returned a) (before ++ ended (returned a) ∷ after))
          (before ++ ended (returned a) ∷ after)
  unfolding Agrees settle when_all
  settled-Agrees before after a h = elim (values_lem (before ++ ended (returned a) ∷ after)) [
    | inl (vs, e, k) ↦
        subst (λ (o : Option (List A)). Agrees (when_all o) (before ++ ended (returned a) ∷ after))
          (sym e) k
    | inr (e, k) ↦
        subst (λ (o : Option (List A)). Agrees (when_all o) (before ++ ended (returned a) ∷ after))
          (sym e) (h, omega arith)
  ]

  leave-Agrees :
      (r : Option (Outcome (List A))) (before after : List (Task A)) (o : Outcome A)
      → Agrees r (before ++ running ∷ after)
      → Agrees (settle r o (before ++ ended o ∷ after)) (before ++ ended o ∷ after)
  unfolding Agrees is_waiting is_running is_failed settle
  leave-Agrees none before after (returned a) (h, k) = settled-Agrees before after a (
      omega (
        arith,
        count-middle is_failed before running after,
        count-middle is_failed before (ended (returned a)) after,
      ))
  leave-Agrees none before after (raised e) h =
      omega (arith, count-middle is_failed before (ended (raised e)) after)
  leave-Agrees none before after cancelled h =
      omega (arith, count-middle is_failed before (ended cancelled) after)
  leave-Agrees (some (returned vs)) before after o h =
      absurd (not_returned is_running before running after vs refl (λ a. refl) h)
  leave-Agrees (some (raised e)) before after o h = omega (
    arith,
    count-middle is_failed before running after,
    count-middle is_failed before (ended o) after,
  )
  leave-Agrees (some cancelled) before after o h = omega (
    arith,
    count-middle is_failed before running after,
    count-middle is_failed before (ended o) after,
  )

  module _ (limit n : ℕ) where
    Step-IsKept : (s t : State A) → Step limit s t → IsKept limit n s → IsKept limit n t
    unfolding is_running
    Step-IsKept s _ (enter before after e first free) v = record {
      bounded = omega (
        arith,
        ap (count is_running) e,
        count-middle is_running before waiting after,
        count-middle is_running before running after,
      );
      all = sym (ap length e ∙ length-middle before waiting running after) ∙ v.all;
      agrees =
          enter-Agrees s.result before after
            (subst (λ (ts : List (Task A)). Agrees s.result ts) e v.agrees);
    }
    Step-IsKept s _ (leave before after o e) v = record {
      bounded =
          let b = v.bounded in
          omega (
            arith,
            ap (count is_running) e,
            count-middle is_running before running after,
            count-middle is_running before (ended o) after,
          );
      all = sym (ap length e ∙ length-middle before running (ended o) after) ∙ v.all;
      agrees =
          leave-Agrees s.result before after o
            (subst (λ (ts : List (Task A)). Agrees s.result ts) e v.agrees);
    }

init-Agrees : (A : Type 0) (n : ℕ) → Agrees (at_once {A = A} n) (replicate {A = A} n)
unfolding Agrees at_once replicate count is_waiting is_running is_failed
init-Agrees A zero = refl
init-Agrees A (suc n) = (omega (arith, count-replicate (is_failed {A = A}) n refl), omega arith)

length-replicate : (A : Type 0) (n : ℕ) → length (replicate {A = A} n) ≡ n
unfolding replicate
length-replicate A zero = refl
length-replicate A (suc n) = ap suc (length-replicate A n)

-- While tasks are gathered, at most `limit` of them are under way, and none is lost. If the call
-- returns, every task has returned, and the values are theirs in the order of the tasks; it raises
-- or is cancelled only if a task did; and while it has not ended, no task has failed and some task
-- has not ended.
pub reached-IsKept : {A : Type 0} (limit n : ℕ) (s : State A) → Reaches limit n s → IsKept limit n s
unfolding init is_running
reached-IsKept {A} limit n _ start = record {
  bounded = omega (arith, count-replicate (is_running {A = A}) n refl);
  all = length-replicate A n;
  agrees = init-Agrees A n;
}
reached-IsKept limit n _ (step s t r h) = Step-IsKept limit n s t h (reached-IsKept limit n s r)
