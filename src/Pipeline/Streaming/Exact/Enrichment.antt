-- ===== src/Pipeline/Streaming/Exact/Enrichment.antt =====
-- The counts of the enrichment workers.
use social_media_scraper.Base.{
  ℕ, zero, suc, ◌+◌, ◌<◌, ◌≡◌, refl, ap, Bool, true, false, not, ◌&&◌, List, [], ◌∷◌, ◌++◌, map,
  length, count_if, ==_iff, arith,
}
use social_media_scraper.Leads.{BusinessLead}
use social_media_scraper.Pipeline.Selecting.{
  Counts, needs_enrichment, needs_social, enriched, count_enrichment, finish_social,
}
use social_media_scraper.Pipeline.Streaming.{
  lead, done, Config, State, Step, Reaches, count_at, at_satisfies, positions, replicate, handle,
  init, enrichment_needed, feeder_put, enrich_start, enrich_skip, enrich_end, enrich_pass,
  enrich_exit, social_start, social_skip, social_end, social_exit, gathered, close_put, joined,
  start, step, request_cancellation,
}
use social_media_scraper.Pipeline.Streaming.Totals.{
  total, is_this, total-append, total-replicate_none,
}
use social_media_scraper.Pipeline.Streaming.Invariant.{
  places, IsValid, line_put, total-line, total-hand, length-middle,
}
use social_media_scraper.Pipeline.Streaming.Kept.{reached-IsValid}
use social_media_scraper.Pipeline.Streaming.Length.{Reaches-length}
use social_media_scraper.Pipeline.Streaming.Exact.{
  on_lead, needs, total-positions-needs, placed, count_enrichment-sums, finish_social-sums,
}

enriched_once :
    (f : BusinessLead → BusinessLead) (i : ℕ) (store : List BusinessLead) (k : Counts)
    → i < length store
    → (count_at i (λ l. count_enrichment (f l)) store k).enrichment_completed
        + (count_at i (λ l. count_enrichment (f l)) store k).enrichment_failed
      ≡ k.enrichment_completed + k.enrichment_failed + 1
unfolding count_at
enriched_once f i [] k h = absurd (omega arith)
enriched_once f zero (x ∷ store) k h = (count_enrichment-sums (f x) k).0
enriched_once f (suc i) (x ∷ store) k h = enriched_once f i store k (omega arith)

module _ (c : Config) where
  -- the social workers leave the counts of the enrichment workers alone
  handled-enrichment :
      (needed : Bool) (f : BusinessLead → BusinessLead) (i : ℕ) (store : List BusinessLead)
      (k : Counts)
      → (count_at i
            (λ l b. (finish_social c.settings needed (f l) b).1)
            store
            k).enrichment_completed
          + (count_at i
              (λ l b. (finish_social c.settings needed (f l) b).1)
              store
              k).enrichment_failed
        ≡ k.enrichment_completed + k.enrichment_failed
  unfolding count_at
  handled-enrichment needed f i [] k = refl
  handled-enrichment needed f zero (x ∷ store) k = (finish_social-sums c.settings needed (f x) k).0
  handled-enrichment needed f (suc i) (x ∷ store) k = handled-enrichment needed f i store k

  enriching_placed :
      (s : State) (j : ℕ) (before after : List ℕ)
      → s.enriching ≡ before ++ j ∷ after
      → IsValid c s
      → j < length c.leads
  unfolding places is_this
  enriching_placed s j before after e v =
      (placed c s j v (ground (arith, total-hand j j s.enriching before after e, ==_iff j j))).0

  skip_needs :
      (j : ℕ) (event : Bool)
      → event ≡ false
      → (enrichment_needed c j && not event) ≡ false
      → needs needs_enrichment c.leads j ≡ 0
  unfolding needs enrichment_needed
  skip_needs j true e h = absurd (ground arith)
  skip_needs j false e h = ground arith

  start_needs :
      (j : ℕ) (event : Bool)
      → (enrichment_needed c j && not event) ≡ true
      → needs needs_enrichment c.leads j ≡ 1
  unfolding needs enrichment_needed
  start_needs j event h = ground arith

  IsCountedEnrichment : State → Type 0
  IsCountedEnrichment s =
      s.cancel_event ≡ false
      → s.counts.enrichment_completed
          + s.counts.enrichment_failed
          + length s.enriching
          + total (on_lead (needs needs_enrichment c.leads)) (s.to_enrich ++ s.feed)
        ≡ count_if needs_enrichment c.leads

  Step-IsCountedEnrichment :
      (s t : State)
      → Step c s t
      → IsValid c s
      → length s.store ≡ length c.leads
      → IsCountedEnrichment s
      → IsCountedEnrichment t
  unfolding IsCountedEnrichment handle on_lead
  Step-IsCountedEnrichment s _ (feeder_put x rest e room) v l w = λ z.
      let h = w z in
      omega (
        arith,
        ap (total (on_lead (needs needs_enrichment c.leads)))
            (line_put x rest s.feed s.to_enrich e),
      )
  Step-IsCountedEnrichment s _ (enrich_start j rest e idle k) v l w = λ z.
      let h = w z in
      omega (
        arith,
        total-line (on_lead (needs needs_enrichment c.leads)) (lead j) rest s.feed s.to_enrich e,
        start_needs j s.cancel_event k,
      )
  Step-IsCountedEnrichment s _ (enrich_skip j rest e idle k) v l w = λ z.
      let h = w z in
      omega (
        arith,
        total-line (on_lead (needs needs_enrichment c.leads)) (lead j) rest s.feed s.to_enrich e,
        skip_needs j s.cancel_event z k,
      )
  Step-IsCountedEnrichment s _ (enrich_end j before after o e) v l w = λ z.
      let h = w z in
      let lt = enriching_placed s j before after e v in
      omega (
        arith,
        ap length e,
        length-middle j before after,
        enriched_once (enriched o) j s.store s.counts (omega arith),
      )
  Step-IsCountedEnrichment s _ (enrich_pass j before after e room) v l w = w
  Step-IsCountedEnrichment s _ (enrich_exit rest e idle) v l w = λ z.
      let h = w z in
      omega (
        arith,
        total-line (on_lead (needs needs_enrichment c.leads)) done rest s.feed s.to_enrich e,
      )
  Step-IsCountedEnrichment s _ (social_start j rest e idle k) v l w = w
  Step-IsCountedEnrichment s _ (social_skip j rest e idle k) v l w = λ z.
      let h = w z in
      let needed = at_satisfies j needs_social s.store in
      omega (arith, handled-enrichment needed (λ x. x) j s.store s.counts)
  Step-IsCountedEnrichment s _ (social_end j before after found e) v l w = λ z.
      let h = w z in
      omega (arith, handled-enrichment true (λ x. record x { social = found }) j s.store s.counts)
  Step-IsCountedEnrichment s _ (social_exit rest e idle) v l w = w
  Step-IsCountedEnrichment s _ (gathered b f e) v l w = w
  Step-IsCountedEnrichment s _ (close_put k b room) v l w = w
  Step-IsCountedEnrichment s _ (joined b e) v l w = w

  pub reached-IsCountedEnrichment :
      (b : Bool) (s : State)
      → Reaches c b s
      → s.cancel_event ≡ false
      → s.counts.enrichment_completed
          + s.counts.enrichment_failed
          + length s.enriching
          + total (on_lead (needs needs_enrichment c.leads)) (s.to_enrich ++ s.feed)
        ≡ count_if needs_enrichment c.leads
  unfolding IsCountedEnrichment init total on_lead
  reached-IsCountedEnrichment b _ start z =
      let f = needs needs_enrichment c.leads in
      omega (
        arith,
        total-append (on_lead f) (map lead (positions 0 c.leads))
            (replicate c.enrichment_workers done),
        total-positions-needs needs_enrichment c.leads,
        total-replicate_none (on_lead f) c.enrichment_workers done refl,
      )
  reached-IsCountedEnrichment b _ (step s t r h) z =
      Step-IsCountedEnrichment s t h (reached-IsValid c b s r) (Reaches-length c b s r)
        (reached-IsCountedEnrichment b s r) z
  reached-IsCountedEnrichment b _ (request_cancellation s r) z = absurd (ground arith)
