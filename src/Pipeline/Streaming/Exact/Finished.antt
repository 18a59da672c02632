-- ===== src/Pipeline/Streaming/Exact/Finished.antt =====
-- The counts of the streaming part once its body is through.
use social_media_scraper.Base.{
  ℕ, ◌+◌, ◌<◌, ◌≡◌, refl, ◌⊎◌, inl, inr, Bool, true, List, [], ◌∷◌, ◌++◌, length, count_if, arith,
  Bool-cases,
}
use social_media_scraper.Pipeline.Selecting.{needs_enrichment, needs_social}
use social_media_scraper.Pipeline.Streaming.{Item, lead, done, Config, State, Reaches, finished}
use social_media_scraper.Pipeline.Streaming.Totals.{total, is_any_lead}
use social_media_scraper.Pipeline.Streaming.Progress.{finished_empty}
use social_media_scraper.Pipeline.Streaming.Exact.{on_lead, needs}
use social_media_scraper.Pipeline.Streaming.Exact.Social.{waiting, reached-IsCountedSocial}
use social_media_scraper.Pipeline.Streaming.Exact.Enrichment.{reached-IsCountedEnrichment}

no_lead-none : (f : ℕ → ℕ) (q : List Item) → total is_any_lead q ≡ 0 → total (on_lead f) q ≡ 0
unfolding total is_any_lead on_lead
no_lead-none f [] e = refl
no_lead-none f (lead i ∷ q) e = absurd (omega arith)
no_lead-none f (done ∷ q) e = omega (arith, no_lead-none f q (omega arith))

no_hand-none : (f : ℕ → ℕ) (js : List ℕ) → length js ≡ 0 → total f js ≡ 0
unfolding total
no_hand-none f [] e = refl
no_hand-none f (j ∷ js) e = absurd (omega arith)

-- With at least one worker in each pool, whatever the interleaving, the failures and the requests
-- of cancellation: when the body is through, the discoveries counted as completed or failed are
-- as many as the leads that lacked a profile at the start, and, unless cancellation was
-- requested, the enrichments counted are as many as the leads that needed one.
pub finished_counts :
    (c : Config) (is_set : Bool) (s : State)
    → 0 < c.enrichment_workers
    → 0 < c.social_workers
    → Reaches c is_set s
    → s.body ≡ finished
    → (s.counts.social_completed + s.counts.social_failed ≡ count_if needs_social c.leads)
      × ((s.cancel_event ≡ true)
          ⊎ (s.counts.enrichment_completed + s.counts.enrichment_failed
              ≡ count_if needs_enrichment c.leads))
unfolding waiting
finished_counts c is_set s enrichers socials r h =
    let (a, b, n) = finished_empty c is_set s enrichers socials r h in
    let counted = reached-IsCountedSocial c is_set s r in
    let f = needs needs_social c.leads in
    (
      omega (
        arith,
        no_lead-none f (s.to_enrich ++ s.feed) a,
        no_lead-none f s.to_social b,
        no_hand-none f s.enriching (omega arith),
        no_hand-none f s.passing (omega arith),
      ),
      elim (Bool-cases s.cancel_event) [
        | inl e ↦ inl e
        | inr e ↦ inr (
            omega (
              arith,
              reached-IsCountedEnrichment c is_set s r e,
              no_lead-none (needs needs_enrichment c.leads) (s.to_enrich ++ s.feed) a,
            ))
      ],
    )
