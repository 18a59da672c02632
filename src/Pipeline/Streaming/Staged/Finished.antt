-- ===== src/Pipeline/Streaming/Staged/Finished.antt =====
-- The leads that the streaming part leaves, against those that the whole-batch stages leave.
use social_media_scraper.Base.{
  ℕ, zero, suc, ◌<◌, ◌≤◌, ◌≡◌, refl, ap, ◌∙◌, sym, inl, inr, Bool, Bool-cases, Option, none, List,
  [], ◌∷◌, length, ltb, arith, Text,
}
use social_media_scraper.Exceptions.{Outcome, raised, value_error}
use social_media_scraper.Leads.{BusinessLead, SocialLead}
use social_media_scraper.Pipeline.Selecting.{select_urls}
use social_media_scraper.Pipeline.Stages.{
  stage, enrich_batch, discover_social_batch, website_enrichment, social_discovery, url_selection,
}
use social_media_scraper.Pipeline.Streaming.{Config, State, Reaches, finished}
use social_media_scraper.Pipeline.Streaming.Progress.{finished_handled}
use social_media_scraper.Pipeline.Streaming.Turns.{no_links}
use social_media_scraper.Pipeline.Streaming.Length.{Reaches-length}
use social_media_scraper.Pipeline.Streaming.Staged.{
  elem, change, change-change, elem-ext, elem-map, enrich_with, discover_with, staged,
  elem-enrich_batch, elem-discover_social_batch,
}
use social_media_scraper.Pipeline.Streaming.Staged.Kept.{handled-final}

elem-none : {A : Type 0} (i : ℕ) (xs : List A) → length xs ≤ i → elem i xs ≡ none
unfolding elem
elem-none i [] h = refl
elem-none zero (x ∷ xs) h = absurd (omega arith)
elem-none (suc i) (x ∷ xs) h = elem-none i xs (omega arith)

-- The leads after the three whole-batch stages, one after the other.
unfoldable pub whole_batch :
    Config → (ℕ → Outcome (Option Text)) → (ℕ → SocialLead) → List BusinessLead
whole_batch c o found =
    (url_selection c.settings 0 (
      social_discovery found 0 (
        website_enrichment o 0
          (record { leads = c.leads; progress = none; metrics = none })))).leads

elem-whole_batch :
    (c : Config) (o : ℕ → Outcome (Option Text)) (found : ℕ → SocialLead) (i : ℕ)
    → elem i (whole_batch c o found) ≡ change (staged c.settings (o i) (found i)) (elem i c.leads)
unfolding whole_batch url_selection social_discovery website_enrichment stage staged
elem-whole_batch c o found i =
    let enriched_leads = enrich_batch o 0 c.leads in
    let x = elem i c.leads in
    elem-map (select_urls c.settings) i (discover_social_batch found 0 enriched_leads)
    ∙ ap (change (select_urls c.settings)) (
        elem-discover_social_batch found 0 i enriched_leads
        ∙ ap (λ (k : ℕ). change (discover_with (found k)) (elem i enriched_leads)) (omega arith)
        ∙ ap (change (discover_with (found i))) (
            elem-enrich_batch o 0 i c.leads
            ∙ ap (λ (k : ℕ). change (enrich_with (o k)) x) (omega arith)))
    ∙ ap (change (select_urls c.settings))
        (change-change (enrich_with (o i)) (discover_with (found i)) x)
    ∙ change-change (λ l. discover_with (found i) (enrich_with (o i) l)) (select_urls c.settings) x

module _ (c : Config) (is_set : Bool) (s : State) (enrichers : 0 < c.enrichment_workers)
    (socials : 0 < c.social_workers) (r : Reaches c is_set s) (h : s.body ≡ finished) where
  finished_one :
      (i : ℕ)
      → (o : Outcome (Option Text)) × (found : SocialLead) × (elem i s.store
          ≡ change (staged c.settings o found) (elem i c.leads))
  unfolding change
  finished_one i =
      let n = finished_handled c is_set s enrichers socials r h i in
      elim (Bool-cases (ltb i (length c.leads))) [
        | inl e ↦ handled-final c i is_set s r (ground arith)
        | inr e ↦
            let l : length c.leads ≤ i = ground arith in
            (
              raised value_error,
              no_links,
              elem-none i s.store (omega (arith, Reaches-length c is_set s r))
                  ∙ sym (
                      ap (change (staged c.settings (raised value_error) no_links))
                        (elem-none i c.leads l)),
            )
      ]

-- With at least one worker in each pool, whatever the interleaving, the failures and the requests
-- of cancellation: when the body is through, the leads are those that the three whole-batch
-- stages, run one after the other on `context.leads`, leave for some outcomes of the enrichments
-- and some profiles found by the discoveries.
pub finished_staged :
    (c : Config) (is_set : Bool) (s : State)
    → 0 < c.enrichment_workers
    → 0 < c.social_workers
    → Reaches c is_set s
    → s.body ≡ finished
    → (o : ℕ → Outcome (Option Text)) × (found : ℕ → SocialLead) × (s.store ≡ whole_batch c o found)
finished_staged c is_set s enrichers socials r h =
    let one = finished_one c is_set s enrichers socials r h in
    let o = λ (i : ℕ). (one i).0 in
    let found = λ (i : ℕ). (one i).1 in
    (
      o,
      found,
      elem-ext s.store (whole_batch c o found)
          (λ i. (one i).2 ∙ sym (elem-whole_batch c o found i)),
    )
