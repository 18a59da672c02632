-- ===== src/Pipeline/Streaming/Invariant.antt =====
-- What every state that the streaming part reaches keeps: each lead of `context.leads` is in one
-- place, and the `_QUEUE_DONE`s match the workers that have not returned.
use social_media_scraper.Base.{
  ℕ, ◌+◌, ◌≡◌, ◌<◌, refl, ap, ◌∙◌, sym, List, [], ◌∷◌, ◌++◌, append_assoc, length, length-append,
  arith, ltb, if◌then◌else◌,
}
use social_media_scraper.Pipeline.Streaming.{
  Item, Config, State, Body, gathering, closing, finished,
}
use social_media_scraper.Pipeline.Streaming.Totals.{
  total, is_lead, is_this, total-cons, total-middle,
}
use social_media_scraper.Pipeline.Streaming.Pool.{IsPool}

-- The `_QUEUE_DONE`s that the body has still to put.
unfoldable pub left_of : ℕ → Body → ℕ
left_of n gathering = n
left_of n (closing k) = k
left_of n finished = 0

-- How often a lead stands in a queue, in a worker's hands or among those handled.
unfoldable pub places : ℕ → State → ℕ
places i s =
    total (is_lead i) (s.to_enrich ++ s.feed)
    + total (is_this i) s.enriching
    + total (is_this i) s.passing
    + total (is_lead i) s.to_social
    + total (is_this i) s.discovering
    + total (is_this i) s.handled

-- Past the first `gather`, the feeder and the enrichment workers have returned; past the second,
-- the social workers.
unfoldable pub IsPast : Config → Body → List Item → ℕ → ℕ → Type 0
IsPast c gathering feed e s = Unit
IsPast c (closing k) feed e s = (feed ≡ []) × (e ≡ c.enrichment_workers)
IsPast c finished feed e s = (feed ≡ []) × (e ≡ c.enrichment_workers) × (s ≡ c.social_workers)

pub record IsValid (c : Config) (s : State) : Type 0 where
  pub enrich :
      IsPool c.enrichment_workers
        (s.to_enrich ++ s.feed)
        s.enrich_idle
        (length s.enriching + length s.passing)
        s.enrich_exited
        0
  pub social :
      IsPool c.social_workers s.to_social s.social_idle
        (length s.discovering)
        s.social_exited
        (left_of c.social_workers s.body)
  pub past : IsPast c s.body s.feed s.enrich_exited s.social_exited
  pub once : (i : ℕ) → places i s ≡ (if ltb i (length c.leads) then 1 else 0)

-- the waiting line of the enrichment workers, when the feeder puts an item into the queue
pub line_put :
    (x : Item) (rest feed q : List Item) → feed ≡ x ∷ rest → (q ++ x ∷ []) ++ rest ≡ q ++ feed
line_put x rest feed q e = append_assoc q (x ∷ []) rest ∙ ap (λ (r : List Item). q ++ r) (sym e)

pub line_take : (x : Item) (rest feed q : List Item) → q ≡ x ∷ rest → q ++ feed ≡ x ∷ (rest ++ feed)
line_take x rest feed q e = ap (λ (r : List Item). r ++ feed) e

pub length-middle : (i : ℕ) (xs ys : List ℕ) → length (xs ++ i ∷ ys) ≡ length (xs ++ ys) + 1
length-middle i xs ys = omega (arith, length-append xs (i ∷ ys), length-append xs ys)

pub total-line :
    (f : Item → ℕ) (x : Item) (rest feed q : List Item)
    → q ≡ x ∷ rest
    → total f (q ++ feed) ≡ f x + total f (rest ++ feed)
total-line f x rest feed q e =
    ap (λ (r : List Item). total f (r ++ feed)) e ∙ total-cons f x (rest ++ feed)

pub total-hand :
    (i j : ℕ) (hand before after : List ℕ)
    → hand ≡ before ++ j ∷ after
    → total (is_this i) hand ≡ is_this i j + total (is_this i) (before ++ after)
total-hand i j hand before after e =
    ap (total (is_this i)) e ∙ total-middle (is_this i) before j after

pub IsPast-put :
    (c : Config) (b : Body) (x : Item) (feed rest : List Item) (e s : ℕ)
    → feed ≡ x ∷ rest
    → IsPast c b feed e s
    → IsPast c b rest e s
unfolding IsPast
IsPast-put c gathering x feed rest e s h p = tt
IsPast-put c (closing k) x feed rest e s h p = let n = sym (p.0) ∙ h in absurd (ground arith)
IsPast-put c finished x feed rest e s h p = let n = sym (p.0) ∙ h in absurd (ground arith)

-- While an enrichment worker has not returned, the body waits for it.
pub past-left :
    (c : Config) (b : Body) (feed : List Item) (e s : ℕ)
    → IsPast c b feed e s
    → e < c.enrichment_workers
    → left_of c.social_workers b ≡ c.social_workers
unfolding IsPast left_of
past-left c gathering feed e s p h = refl
past-left c (closing k) feed e s p h = let q = p.1 in absurd (omega arith)
past-left c finished feed e s p h = let q = p.1 in absurd (omega arith)

pub IsPast-exit :
    (c : Config) (b : Body) (feed : List Item) (e s : ℕ)
    → IsPast c b feed e s
    → e < c.enrichment_workers
    → IsPast c b feed (e + 1) s
unfolding IsPast
IsPast-exit c gathering feed e s p h = tt
IsPast-exit c (closing k) feed e s p h = let q = p.1 in absurd (omega arith)
IsPast-exit c finished feed e s p h = let q = p.1 in absurd (omega arith)

pub IsPast-social_exit :
    (c : Config) (b : Body) (feed : List Item) (e s : ℕ)
    → IsPast c b feed e s
    → s < c.social_workers
    → IsPast c b feed e (s + 1)
unfolding IsPast
IsPast-social_exit c gathering feed e s p h = tt
IsPast-social_exit c (closing k) feed e s p h = p
IsPast-social_exit c finished feed e s (_, _, p) h = absurd (omega arith)
