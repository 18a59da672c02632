-- ===== src/Pipeline/Streaming/Progress.antt =====
-- How the streaming part goes on, and what has been handled in the end.
use social_media_scraper.Base.{
  ℕ, ◌+◌, ◌≡◌, ◌≢◌, ◌≤◌, ◌<◌, subst, Bool, List, [], ◌∷◌, ◌++◌, length, arith, ltb, if◌then◌else◌,
}
use social_media_scraper.Pipeline.Streaming.{
  Item, lead, done, Config, State, Body, finished, Step, Reaches,
}
use social_media_scraper.Pipeline.Streaming.Totals.{total, is_lead, is_this, is_any_lead}
use social_media_scraper.Pipeline.Streaming.Invariant.{places, IsPast, IsValid}
use social_media_scraper.Pipeline.Streaming.Kept.{reached-IsValid}
use social_media_scraper.Pipeline.Streaming.Turns.{valid_can}

is_lead-le : (i : ℕ) (q : List Item) → total (is_lead i) q ≤ total is_any_lead q
unfolding total is_lead is_any_lead
is_lead-le i [] = omega arith
is_lead-le i (lead j ∷ q) = ground (arith, is_lead-le i q)
is_lead-le i (done ∷ q) = omega (arith, is_lead-le i q)

is_this-le : (i : ℕ) (js : List ℕ) → total (is_this i) js ≤ length js
unfolding total is_this
is_this-le i [] = omega arith
is_this-le i (j ∷ js) = ground (arith, is_this-le i js)

module _ (c : Config) where
  -- With at least one worker in each pool, no state that the streaming part reaches before its
  -- body is through is stuck, whatever the interleaving and the requests of cancellation.
  pub reached_can :
      (is_set : Bool) (s : State)
      → 0 < c.enrichment_workers
      → 0 < c.social_workers
      → Reaches c is_set s
      → s.body ≢ finished
      → (t : State) × Step c s t
  reached_can is_set s enrichers socials r n =
      valid_can c s enrichers socials (reached-IsValid c is_set s r) n

  finished-past :
      (s : State)
      → IsValid c s
      → s.body ≡ finished
      → (s.enrich_exited ≡ c.enrichment_workers) × (s.social_exited ≡ c.social_workers)
  unfolding IsPast
  finished-past s v h =
      let (_, p, q) =
        subst (λ (b : Body). IsPast c b s.feed s.enrich_exited s.social_exited) h v.past in
      (p, q)

  -- Where the body is through, no lead waits and none is in a worker's hands.
  pub finished_empty :
      (is_set : Bool) (s : State)
      → 0 < c.enrichment_workers
      → 0 < c.social_workers
      → Reaches c is_set s
      → s.body ≡ finished
      → (total is_any_lead (s.to_enrich ++ s.feed) ≡ 0)
        × (total is_any_lead s.to_social ≡ 0)
        × (length s.enriching + length s.passing + length s.discovering ≡ 0)
  finished_empty is_set s enrichers socials r h =
      let v = reached-IsValid c is_set s r in
      let (e, f) = finished-past s v h in
      let w = v.enrich.all_workers in
      let x = v.social.all_workers in
      (v.enrich.no_more (omega arith), v.social.no_more (omega arith), omega arith)

  -- With at least one worker in each pool, whatever the interleaving, the failures and the
  -- requests of cancellation: when the body is through, each lead of `context.leads` has been
  -- handled by a social worker exactly once, and nothing else has.
  pub finished_handled :
      (is_set : Bool) (s : State)
      → 0 < c.enrichment_workers
      → 0 < c.social_workers
      → Reaches c is_set s
      → s.body ≡ finished
      → (i : ℕ) → total (is_this i) s.handled ≡ (if ltb i (length c.leads) then 1 else 0)
  unfolding places
  finished_handled is_set s enrichers socials r h i =
      let (a, b, n) = finished_empty is_set s enrichers socials r h in
      let o = (reached-IsValid c is_set s r).once i in
      omega (
        arith,
        is_lead-le i (s.to_enrich ++ s.feed),
        is_lead-le i s.to_social,
        is_this-le i s.enriching,
        is_this-le i s.passing,
        is_this-le i s.discovering,
      )
