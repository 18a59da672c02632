-- ===== src/Pipeline/Streaming/Measure.antt =====
-- The streaming part ends: every step takes it nearer to its end.
use social_media_scraper.Base.{
  ℕ, zero, suc, ◌+◌, ◌*◌, ◌≡◌, ◌≤◌, ◌<◌, refl, ap, Bool, true, List, [], ◌∷◌, length, map, arith,
}
use social_media_scraper.Pipeline.Streaming.{
  Item, lead, done, Config, State, Body, gathering, closing, finished, Step, init, handle,
  replicate, positions, feeder_put, enrich_start, enrich_skip, enrich_end, enrich_pass, enrich_exit,
  social_start, social_skip, social_end, social_exit, gathered, close_put, joined,
}
use social_media_scraper.Pipeline.Streaming.Totals.{total, total-append, total-snoc}
use social_media_scraper.Pipeline.Streaming.Invariant.{length-middle}

-- At most this many steps take an item out of the feed, and of either queue.
feed_weight : Item → ℕ
feed_weight (lead i) = 6
feed_weight done = 2

enrich_weight : Item → ℕ
enrich_weight (lead i) = 5
enrich_weight done = 1

social_weight : Item → ℕ
social_weight (lead i) = 2
social_weight done = 1

body_weight : ℕ → Body → ℕ
body_weight n gathering = 2 * n + 3
body_weight n (closing k) = 2 * k + 1
body_weight n finished = 0

put_nearer : (x : Item) → feed_weight x ≡ enrich_weight x + 1
unfolding feed_weight enrich_weight
put_nearer (lead i) = refl
put_nearer done = refl

total-feed :
    {A : Type 0} (n : ℕ) (xs : List A)
    → total feed_weight (map lead (positions n xs)) ≡ 6 * length xs
unfolding total feed_weight positions
total-feed n [] = refl
total-feed n (x ∷ xs) = omega (arith, total-feed (n + 1) xs)

total-feed_done : (n : ℕ) → total feed_weight (replicate n done) ≡ 2 * n
unfolding total feed_weight replicate
total-feed_done zero = refl
total-feed_done (suc n) = omega (arith, total-feed_done n)

module _ (c : Config) where
  measure : State → ℕ
  measure s =
      total feed_weight s.feed
      + total enrich_weight s.to_enrich
      + 4 * length s.enriching
      + 3 * length s.passing
      + total social_weight s.to_social
      + length s.discovering
      + body_weight c.social_workers s.body

  Step-nearer : (s t : State) → Step c s t → measure t < measure s
  unfolding measure handle total enrich_weight social_weight body_weight
  Step-nearer s _ (feeder_put x rest e room) =
      omega (arith, ap (total feed_weight) e, total-snoc enrich_weight s.to_enrich x, put_nearer x)
  Step-nearer s _ (enrich_start i rest e idle h) = omega (arith, ap (total enrich_weight) e)
  Step-nearer s _ (enrich_skip i rest e idle h) = omega (arith, ap (total enrich_weight) e)
  Step-nearer s t (enrich_end i before after o e) =
      omega (arith, ap length e, length-middle i before after)
  Step-nearer s _ (enrich_pass i before after e room) = omega (
    arith,
    ap length e,
    length-middle i before after,
    total-snoc social_weight s.to_social (lead i),
  )
  Step-nearer s _ (enrich_exit rest e idle) = omega (arith, ap (total enrich_weight) e)
  Step-nearer s _ (social_start i rest e idle h) = omega (arith, ap (total social_weight) e)
  Step-nearer s t (social_skip i rest e idle h) = omega (arith, ap (total social_weight) e)
  Step-nearer s t (social_end i before after found e) =
      omega (arith, ap length e, length-middle i before after)
  Step-nearer s _ (social_exit rest e idle) = omega (arith, ap (total social_weight) e)
  Step-nearer s _ (gathered b f e) = omega (arith, ap (body_weight c.social_workers) b)
  Step-nearer s _ (close_put k b room) =
      omega (arith, ap (body_weight c.social_workers) b, total-snoc social_weight s.to_social done)
  Step-nearer s _ (joined b e) = omega (arith, ap (body_weight c.social_workers) b)

  -- So many steps from one state to another, with requests of cancellation in between.
  pub data Run (s : State) : ℕ → State → Type 0 where
    stay : Run s zero s
    then_step : (n : ℕ) (t u : State) → Run s n t → Step c t u → Run s (suc n) u
    then_cancel : (n : ℕ) (t : State) → Run s n t → Run s n (record t { cancel_event = true })

  Run-nearer : (s t : State) (n : ℕ) → Run s n t → n + measure t ≤ measure s
  unfolding measure
  Run-nearer s _ _ stay = omega arith
  Run-nearer s _ _ (then_step n t u r h) = omega (arith, Run-nearer s t n r, Step-nearer t u h)
  Run-nearer s _ _ (then_cancel n t r) = Run-nearer s t n r

  init-measure :
      (b : Bool)
      → measure (init c b)
        ≡ 6 * length c.leads + 2 * c.enrichment_workers + 2 * c.social_workers + 3
  unfolding measure init total body_weight
  init-measure b = omega (
    arith,
    total-feed 0 c.leads,
    total-feed_done c.enrichment_workers,
    total-append feed_weight (map lead (positions 0 c.leads)) (replicate c.enrichment_workers done),
  )

  -- Every run of the streaming part, whatever the interleaving, has at most six steps for each
  -- lead, two for each worker, and three more: no schedule lets it go on for ever.
  pub Run-bounded :
      (is_set : Bool) (n : ℕ) (t : State)
      → Run (init c is_set) n t
      → n ≤ 6 * length c.leads + 2 * c.enrichment_workers + 2 * c.social_workers + 3
  Run-bounded is_set n t r = omega (arith, Run-nearer (init c is_set) t n r, init-measure is_set)
