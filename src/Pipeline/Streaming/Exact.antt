-- ===== src/Pipeline/Streaming/Exact.antt =====
-- Counting the leads that need a stage, wherever they are on their way.
pub mod Same
pub mod Social
pub mod Enrichment
pub mod Finished
use social_media_scraper.Base.{
  ℕ, zero, suc, ◌+◌, ◌<◌, ◌≤◌, ◌≡◌, ◌≢◌, refl, ap, ◌∙◌, sym, Bool, true, false, List, [], ◌∷◌, ◌++◌,
  map, length, count_if, ltb, ◌==◌, ==_iff, if◌then◌else◌, arith, Bool-cases, inl, inr,
}
use social_media_scraper.Leads.{BusinessLead}
use social_media_scraper.Selection.Ranking.{ScoreSettings}
use social_media_scraper.Pipeline.Selecting.{
  Counts, has_url, is_none, count_enrichment, count_social, count_selection, finish_social,
}
use social_media_scraper.Pipeline.Streaming.{
  Item, lead, done, Config, State, Reaches, update, count_at, at_satisfies, positions, replicate,
}
use social_media_scraper.Pipeline.Streaming.Totals.{total, is_this, is_lead, total-middle}
use social_media_scraper.Pipeline.Streaming.Invariant.{places, IsValid}

-- A weight of leads, on the entries of a queue.
unfoldable pub on_lead : (ℕ → ℕ) → Item → ℕ
on_lead f (lead i) = f i
on_lead f done = 0

-- 1 at a position where `p` holds
unfoldable pub needs : {A : Type 0} → (A → Bool) → List A → ℕ → ℕ
needs p xs i = if at_satisfies i p xs then 1 else 0

module _ {A : Type 0} where
  total-positions_from :
      (p : A → Bool) (n : ℕ) (xs : List A) (f : ℕ → ℕ)
      → ((k : ℕ) → f (n + k) ≡ needs p xs k)
      → total (on_lead f) (map lead (positions n xs)) ≡ count_if p xs
  unfolding total on_lead positions needs at_satisfies
  total-positions_from p n [] f h = refl
  total-positions_from p n (x ∷ xs) f h =
      let here : f n ≡ (if p x then 1 else 0) = ap f (omega arith) ∙ h 0 in
      omega (arith, total-positions_from p (n + 1) xs f (λ k. ap f (omega arith) ∙ h (suc k)), here)

  -- the leads that need it, counted in the feed
  pub total-positions-needs :
      (p : A → Bool) (xs : List A)
      → total (on_lead (needs p xs)) (map lead (positions 0 xs)) ≡ count_if p xs
  total-positions-needs p xs =
      total-positions_from p 0 xs (needs p xs) (λ k. ap (needs p xs) (omega arith))

  pub at_satisfies-update :
      (p : A → Bool) (f : A → A) (i j : ℕ) (xs : List A)
      → i ≢ j
      → at_satisfies i p (update j f xs) ≡ at_satisfies i p xs
  unfolding at_satisfies update
  at_satisfies-update p f i j [] h = refl
  at_satisfies-update p f zero zero (x ∷ xs) h = absurd (h refl)
  at_satisfies-update p f zero (suc j) (x ∷ xs) h = refl
  at_satisfies-update p f (suc i) zero (x ∷ xs) h = refl
  at_satisfies-update p f (suc i) (suc j) (x ∷ xs) h =
      at_satisfies-update p f i j xs (λ e. h (ap suc e))

  pub at_satisfies-update_same :
      (p : A → Bool) (f : A → A) (i j : ℕ) (xs : List A)
      → ((x : A) → p (f x) ≡ p x)
      → at_satisfies i p (update j f xs) ≡ at_satisfies i p xs
  unfolding at_satisfies update
  at_satisfies-update_same p f i j [] h = refl
  at_satisfies-update_same p f zero zero (x ∷ xs) h = h x
  at_satisfies-update_same p f zero (suc j) (x ∷ xs) h = refl
  at_satisfies-update_same p f (suc i) zero (x ∷ xs) h = refl
  at_satisfies-update_same p f (suc i) (suc j) (x ∷ xs) h = at_satisfies-update_same p f i j xs h

  pub count_at-in :
      {B : Type 0} (i : ℕ) (f : A → B → B) (xs : List A) (b : B)
      → i < length xs
      → (x : A) × (count_at i f xs b ≡ f x b)
  unfolding count_at
  count_at-in i f [] b h = absurd (omega arith)
  count_at-in zero f (x ∷ xs) b h = (x, refl)
  count_at-in (suc i) f (x ∷ xs) b h = count_at-in i f xs b (omega arith)

-- A lead in one of the places is one of `context.leads`, and is not handled yet.
pub placed :
    (c : Config) (s : State) (i : ℕ)
    → IsValid c s
    → total (is_this i) s.handled + 1 ≤ places i s
    → (i < length c.leads) × (total (is_this i) s.handled ≡ 0)
placed c s i v h = let o = v.once i in ground arith

-- What each of the three counts of a lead adds.
pub count_enrichment-sums :
    (l : BusinessLead) (k : Counts)
    → ((count_enrichment l k).enrichment_completed + (count_enrichment l k).enrichment_failed
        ≡ k.enrichment_completed + k.enrichment_failed + 1)
      × ((count_enrichment l k).social_completed + (count_enrichment l k).social_failed
          ≡ k.social_completed + k.social_failed)
unfolding count_enrichment
count_enrichment-sums l k = ground arith

pub finish_social-sums :
    (s : ScoreSettings) (needed : Bool) (l : BusinessLead) (k : Counts)
    → ((finish_social s needed l k).1.enrichment_completed
          + (finish_social s needed l k).1.enrichment_failed
        ≡ k.enrichment_completed + k.enrichment_failed)
      × ((finish_social s needed l k).1.social_completed
            + (finish_social s needed l k).1.social_failed
          ≡ k.social_completed + k.social_failed + (if needed then 1 else 0))
unfolding finish_social count_social count_selection
finish_social-sums s false l k = ground arith
finish_social-sums s true l k = ground arith
