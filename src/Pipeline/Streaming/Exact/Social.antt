-- ===== src/Pipeline/Streaming/Exact/Social.antt =====
-- The counts of the social workers.
use social_media_scraper.Base.{
  ℕ, zero, suc, ◌+◌, ◌<◌, ◌≡◌, refl, ap, ◌∙◌, sym, Bool, true, List, [], ◌∷◌, ◌++◌, map, length,
  count_if, ==_iff, if◌then◌else◌, arith,
}
use social_media_scraper.Leads.{BusinessLead}
use social_media_scraper.Pipeline.Selecting.{
  Counts, needs_social, enriched, count_enrichment, finish_social,
}
use social_media_scraper.Pipeline.Streaming.{
  Item, lead, done, Config, State, Step, Reaches, count_at, at_satisfies, positions, replicate,
  handle, init, feeder_put, enrich_start, enrich_skip, enrich_end, enrich_pass, enrich_exit,
  social_start, social_skip, social_end, social_exit, gathered, close_put, joined, start, step,
  request_cancellation,
}
use social_media_scraper.Pipeline.Streaming.Totals.{
  total, is_this, is_lead, total-middle, total-append, total-snoc, total-replicate_none,
}
use social_media_scraper.Pipeline.Streaming.Invariant.{
  places, IsValid, line_put, total-line, total-hand, length-middle,
}
use social_media_scraper.Pipeline.Streaming.Kept.{reached-IsValid}
use social_media_scraper.Pipeline.Streaming.Length.{Reaches-length}
use social_media_scraper.Pipeline.Streaming.Exact.{
  on_lead, needs, total-positions-needs, placed, count_enrichment-sums, finish_social-sums,
}
use social_media_scraper.Pipeline.Streaming.Exact.Same.{IsSame, reached-IsSame}

module _ (c : Config) where
  -- the leads that lacked a profile and have not come to a social worker
  unfoldable pub waiting : State → ℕ
  waiting s =
      total (on_lead (needs needs_social c.leads)) (s.to_enrich ++ s.feed)
      + total (needs needs_social c.leads) s.enriching
      + total (needs needs_social c.leads) s.passing
      + total (on_lead (needs needs_social c.leads)) s.to_social

  IsCountedSocial : State → Type 0
  IsCountedSocial s =
      s.counts.social_completed + s.counts.social_failed + length s.discovering + waiting s
      ≡ count_if needs_social c.leads

  total-taken :
      (f : ℕ → ℕ) (j : ℕ) (hand before after : List ℕ)
      → hand ≡ before ++ j ∷ after
      → total f hand ≡ f j + total f (before ++ after)
  total-taken f j hand before after e = ap (total f) e ∙ total-middle f before j after

  -- the enrichment workers leave the counts of the social workers alone
  enrichment-social :
      (f : BusinessLead → BusinessLead) (i : ℕ) (store : List BusinessLead) (k : Counts)
      → (count_at i (λ l. count_enrichment (f l)) store k).social_completed
          + (count_at i (λ l. count_enrichment (f l)) store k).social_failed
        ≡ k.social_completed + k.social_failed
  unfolding count_at
  enrichment-social f i [] k = refl
  enrichment-social f zero (x ∷ store) k = (count_enrichment-sums (f x) k).1
  enrichment-social f (suc i) (x ∷ store) k = enrichment-social f i store k

  handled-social :
      (needed : Bool) (f : BusinessLead → BusinessLead) (i : ℕ) (store : List BusinessLead)
      (k : Counts)
      → i < length store
      → (count_at i (λ l b. (finish_social c.settings needed (f l) b).1) store k).social_completed
          + (count_at i (λ l b. (finish_social c.settings needed (f l) b).1) store k).social_failed
        ≡ k.social_completed + k.social_failed + (if needed then 1 else 0)
  unfolding count_at
  handled-social needed f i [] k h = absurd (omega arith)
  handled-social needed f zero (x ∷ store) k h = (finish_social-sums c.settings needed (f x) k).1
  handled-social needed f (suc i) (x ∷ store) k h = handled-social needed f i store k (omega arith)

  -- the lead at the head of the second queue, and one in discovery
  head_placed :
      (s : State) (j : ℕ) (rest : List Item)
      → s.to_social ≡ lead j ∷ rest
      → IsValid c s
      → (j < length c.leads) × (total (is_this j) s.handled ≡ 0)
  unfolding places total is_lead
  head_placed s j rest e v = placed c s j v (ground (arith, ap (total (is_lead j)) e, ==_iff j j))

  hand_placed :
      (s : State) (j : ℕ) (before after : List ℕ)
      → s.discovering ≡ before ++ j ∷ after
      → IsValid c s
      → (j < length c.leads) × (total (is_this j) s.handled ≡ 0)
  unfolding places is_this
  hand_placed s j before after e v =
      placed c s j v (ground (arith, total-hand j j s.discovering before after e, ==_iff j j))

  needs-now :
      (s : State) (j : ℕ)
      → IsSame c s
      → total (is_this j) s.handled ≡ 0
      → needs needs_social c.leads j ≡ (if at_satisfies j needs_social s.store then 1 else 0)
  unfolding needs IsSame
  needs-now s j w h = ap (λ (b : Bool). if b then 1 else 0) (sym (w j h))

  Step-IsCountedSocial :
      (s t : State)
      → Step c s t
      → IsValid c s
      → length s.store ≡ length c.leads
      → IsSame c s
      → IsCountedSocial s
      → IsCountedSocial t
  unfolding IsCountedSocial waiting handle total on_lead
  Step-IsCountedSocial s _ (feeder_put x rest e room) v l w h = omega (
    arith,
    ap (total (on_lead (needs needs_social c.leads))) (line_put x rest s.feed s.to_enrich e),
  )
  Step-IsCountedSocial s _ (enrich_start j rest e idle k) v l w h =
      omega (
        arith,
        total-line (on_lead (needs needs_social c.leads)) (lead j) rest s.feed s.to_enrich e,
      )
  Step-IsCountedSocial s _ (enrich_skip j rest e idle k) v l w h =
      omega (
        arith,
        total-line (on_lead (needs needs_social c.leads)) (lead j) rest s.feed s.to_enrich e,
      )
  Step-IsCountedSocial s _ (enrich_end j before after o e) v l w h = omega (
    arith,
    total-taken (needs needs_social c.leads) j s.enriching before after e,
    enrichment-social (enriched o) j s.store s.counts,
  )
  Step-IsCountedSocial s _ (enrich_pass j before after e room) v l w h = omega (
    arith,
    total-taken (needs needs_social c.leads) j s.passing before after e,
    total-snoc (on_lead (needs needs_social c.leads)) s.to_social (lead j),
  )
  Step-IsCountedSocial s _ (enrich_exit rest e idle) v l w h =
      omega
        (arith, total-line (on_lead (needs needs_social c.leads)) done rest s.feed s.to_enrich e)
  Step-IsCountedSocial s _ (social_start j rest e idle k) v l w h =
      let (_, z) = head_placed s j rest e v in
      ground (arith, needs-now s j w z, ap (total (on_lead (needs needs_social c.leads))) e)
  Step-IsCountedSocial s _ (social_skip j rest e idle k) v l w h =
      let (lt, z) = head_placed s j rest e v in
      let needed = at_satisfies j needs_social s.store in
      omega (
        arith,
        needs-now s j w z,
        ap (total (on_lead (needs needs_social c.leads))) e,
        handled-social needed (λ x. x) j s.store s.counts (omega arith),
      )
  Step-IsCountedSocial s _ (social_end j before after found e) v l w h =
      let (lt, z) = hand_placed s j before after e v in
      omega (
        arith,
        ap length e,
        length-middle j before after,
        handled-social true (λ x. record x { social = found }) j s.store s.counts (omega arith),
      )
  Step-IsCountedSocial s _ (social_exit rest e idle) v l w h =
      omega (arith, ap (total (on_lead (needs needs_social c.leads))) e)
  Step-IsCountedSocial s _ (gathered b f e) v l w h = h
  Step-IsCountedSocial s _ (close_put k b room) v l w h =
      omega (arith, total-snoc (on_lead (needs needs_social c.leads)) s.to_social done)
  Step-IsCountedSocial s _ (joined b e) v l w h = h

  pub reached-IsCountedSocial :
      (b : Bool) (s : State)
      → Reaches c b s
      → s.counts.social_completed + s.counts.social_failed + length s.discovering + waiting s
        ≡ count_if needs_social c.leads
  unfolding IsCountedSocial waiting init total on_lead
  reached-IsCountedSocial b _ start =
      let f = needs needs_social c.leads in
      omega (
        arith,
        total-append (on_lead f) (map lead (positions 0 c.leads))
            (replicate c.enrichment_workers done),
        total-positions-needs needs_social c.leads,
        total-replicate_none (on_lead f) c.enrichment_workers done refl,
      )
  reached-IsCountedSocial b _ (step s t r h) =
      Step-IsCountedSocial s t h (reached-IsValid c b s r) (Reaches-length c b s r)
        (reached-IsSame c b s r) (reached-IsCountedSocial b s r)
  reached-IsCountedSocial b _ (request_cancellation s r) = reached-IsCountedSocial b s r
