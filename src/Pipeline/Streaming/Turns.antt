-- ===== src/Pipeline/Streaming/Turns.antt =====
-- Some coroutine of the streaming part has its turn.
use social_media_scraper.Base.{
  ℕ, zero, suc, ◌+◌, ◌≡◌, ◌≢◌, ◌<◌, refl, ap, ◌∙◌, inl, inr, ◌⊎◌, not, ◌&&◌, none, List, [], ◌∷◌,
  ◌++◌, length, length-append, arith, Bool-cases,
}
use social_media_scraper.Exceptions.{returned}
use social_media_scraper.Leads.{SocialLead}
use social_media_scraper.Pipeline.Selecting.{needs_social}
use social_media_scraper.Pipeline.Streaming.{
  Item, lead, done, Config, State, Body, gathering, closing, finished, Step, enrichment_needed,
  at_satisfies, enrich_capacity, social_capacity, feeder_put, enrich_start, enrich_skip, enrich_end,
  enrich_pass, enrich_exit, social_start, social_skip, social_end, social_exit, gathered, close_put,
  joined,
}
use social_media_scraper.Pipeline.Streaming.Totals.{total, is_done, is_any_lead}
use social_media_scraper.Pipeline.Streaming.Pool.{IsPool}
use social_media_scraper.Pipeline.Streaming.Invariant.{left_of, IsValid}

List-cases : {A : Type 0} (xs : List A) → (xs ≡ []) ⊎ ((x : A) × (rest : List A) × (xs ≡ x ∷ rest))
List-cases [] = inl refl
List-cases (x ∷ xs) = inr (x, xs, refl)

total-items : (q : List Item) → total is_done q + total is_any_lead q ≡ length q
unfolding total is_done is_any_lead
total-items [] = refl
total-items (lead i ∷ q) = omega (arith, total-items q)
total-items (done ∷ q) = omega (arith, total-items q)

-- With no lead in the workers' hands, a queue that is not empty has a worker waiting for it.
IsPool-waits :
    (n : ℕ) (q : List Item) (idle busy exited left : ℕ)
    → IsPool n q idle busy exited left
    → busy ≡ 0
    → 0 < n
    → 0 < length q
    → 0 < idle
IsPool-waits n q zero busy exited left p b some_worker some_item =
    let w = p.all_workers in
    let d = p.all_dones in let m = p.no_more (omega arith) in absurd (omega (arith, total-items q))
IsPool-waits n q (suc idle) busy exited left p b some_worker some_item = omega arith

abbrev pub no_links : SocialLead
no_links = record {
  instagram_url = none;
  facebook_url = none;
  google_maps_url = none;
  instagram_confidence = none;
  facebook_confidence = none;
}

module _ (c : Config) where
  CanStep : State → Type 0
  CanStep s = (t : State) × Step c s t

  enrich_can :
      (s : State) (x : Item) (rest : List Item)
      → s.to_enrich ≡ x ∷ rest
      → 0 < s.enrich_idle
      → CanStep s
  unfolding CanStep
  enrich_can s (lead i) rest e idle =
      elim (Bool-cases (enrichment_needed c i && not s.cancel_event)) [
        | inl h ↦ (_, enrich_start i rest e idle h)
        | inr h ↦ (_, enrich_skip i rest e idle h)
      ]
  enrich_can s done rest e idle = (_, enrich_exit rest e idle)

  social_can :
      (s : State) (x : Item) (rest : List Item)
      → s.to_social ≡ x ∷ rest
      → 0 < s.social_idle
      → CanStep s
  unfolding CanStep
  social_can s (lead i) rest e idle =
      elim (Bool-cases (at_satisfies i needs_social s.store && not s.cancel_event)) [
        | inl h ↦ (_, social_start i rest e idle h)
        | inr h ↦ (_, social_skip i rest e idle h)
      ]
  social_can s done rest e idle = (_, social_exit rest e idle)

  room_to_enrich : (q : List Item) → q ≡ [] → length q < enrich_capacity c
  unfolding enrich_capacity
  room_to_enrich q e = omega (arith, ap length e)

  room_to_social : (q : List Item) → q ≡ [] → length q < social_capacity c
  unfolding social_capacity
  room_to_social q e = omega (arith, ap length e)

  -- With every queue and every hand empty it is the body's turn.
  body_can :
      (s : State) (b : Body)
      → s.body ≡ b
      → b ≢ finished
      → IsValid c s
      → s.feed ≡ []
      → s.to_enrich ≡ []
      → s.to_social ≡ []
      → CanStep s
  unfolding CanStep left_of total
  body_can s gathering b n v f e q =
      let d = v.enrich.all_dones in
      (
        _,
        gathered b f
            (omega (arith, ap (total is_done) (ap (λ (r : List Item). r ++ s.feed) e ∙ f))),
      )
  body_can s (closing zero) b n v f e q =
      let d = v.social.all_dones in
      (_, joined b (omega (arith, ap (total is_done) q, ap (left_of c.social_workers) b)))
  body_can s (closing (suc k)) b n v f e q = (_, close_put k b (room_to_social s.to_social q))
  body_can s finished b n v f e q = absurd (n refl)

  -- no lead in a worker's hands, and nothing for the social workers
  feed_can :
      (s : State)
      → s.body ≢ finished
      → 0 < c.enrichment_workers
      → IsValid c s
      → length s.enriching + length s.passing ≡ 0
      → s.to_social ≡ []
      → CanStep s
  unfolding CanStep
  feed_can s n some_worker v idle q = elim (List-cases s.to_enrich) [
    | inr (x, rest, e) ↦ enrich_can s x rest e (
        IsPool-waits c.enrichment_workers (s.to_enrich ++ s.feed) s.enrich_idle
          (length s.enriching + length s.passing) s.enrich_exited 0 v.enrich idle some_worker
          (omega (arith, ap length e, length-append s.to_enrich s.feed)))
    | inl e ↦ elim (List-cases s.feed) [
      | inr (x, rest, f) ↦ (_, feeder_put x rest f (room_to_enrich s.to_enrich e))
      | inl f ↦ body_can s s.body refl n v f e q
    ]
  ]

  hands_can :
      (s : State)
      → s.body ≢ finished
      → 0 < c.enrichment_workers
      → IsValid c s
      → s.enriching ≡ []
      → s.to_social ≡ []
      → CanStep s
  unfolding CanStep
  hands_can s n some_worker v a q = elim (List-cases s.passing) [
    | inr (i, rest, e) ↦ (_, enrich_pass i [] rest e (room_to_social s.to_social q))
    | inl e ↦ feed_can s n some_worker v (omega (arith, ap length a, ap length e)) q
  ]

  -- A state that keeps the invariant and is not finished has a step, whatever the interleaving
  -- was that led to it: nothing deadlocks on the bounded queues.
  pub valid_can :
      (s : State)
      → 0 < c.enrichment_workers
      → 0 < c.social_workers
      → IsValid c s
      → s.body ≢ finished
      → (t : State) × Step c s t
  unfolding CanStep
  valid_can s enrichers socials v n = elim (List-cases s.discovering) [
    | inr (i, rest, e) ↦ (_, social_end i [] rest no_links e)
    | inl e ↦ elim (List-cases s.to_social) [
      | inr (x, rest, q) ↦ social_can s x rest q (
          IsPool-waits c.social_workers s.to_social s.social_idle (length s.discovering)
            s.social_exited (left_of c.social_workers s.body) v.social (ap length e) socials
            (omega (arith, ap length q)))
      | inl q ↦ elim (List-cases s.enriching) [
        | inr (i, rest, a) ↦ (_, enrich_end i [] rest (returned none) a)
        | inl a ↦ hands_can s n enrichers v a q
      ]
    ]
  ]
