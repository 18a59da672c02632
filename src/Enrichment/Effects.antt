-- ===== src/Enrichment/Effects.antt =====
-- What `enrich_one` does to the lead, the cache and the browser.
use social_media_scraper.Base.{
  ◌≡◌, refl, true, false, Option, none, some, Text, Bool-cases, inl, inr,
}
use social_media_scraper.Exceptions.{Outcome, returned, raised, cancelled}
use social_media_scraper.Leads.{CachedEnrichment, EnrichmentCache, enrichment_get}
use social_media_scraper.Selection.Engine.{truthy}
use social_media_scraper.Enrichment.{
  Environment, World, visit, store, after_visit, visit_and_store, unless_cached, enrich_at,
  enrich_from, enrich_one,
}

-- What the outcome of an enrichment says of the lead: a call that did not return has left it as
-- it was, and one that did has changed at most the website.
abbrev pub Leaves : {X : Type 0} → World X → Outcome {0} Unit × World X → Type 0
Leaves w (returned u, v) = (website : Option Text) × (v.lead ≡ record w.lead { website = website })
Leaves w (raised e, v) = v.lead ≡ w.lead
Leaves w (cancelled, v) = v.lead ≡ w.lead

module _ {X : Type 0} (env : Environment X) where
  after_visit-Leaves :
      (url : Text) (w : World X) (r : Outcome (Option Text) × X)
      → Leaves w (after_visit env url w r)
  unfolding after_visit store
  after_visit-Leaves url w (returned website, x) = (website, refl)
  after_visit-Leaves url w (raised e, x) = refl
  after_visit-Leaves url w (cancelled, x) = refl

  unless_cached-Leaves :
      (url : Text) (c : EnrichmentCache) (o : Option CachedEnrichment) (w : World X)
      → Leaves w (unless_cached env url c o w)
  unfolding unless_cached visit_and_store
  unless_cached-Leaves url c none w =
      after_visit-Leaves url (record w { cache = some c }) (visit env url w.outside)
  unless_cached-Leaves url c (some x) w = (x.website, refl)

  enrich_at-Leaves :
      (url : Text) (o : Option EnrichmentCache) (w : World X) → Leaves w (enrich_at env url o w)
  unfolding enrich_at visit_and_store
  enrich_at-Leaves url none w = after_visit-Leaves url w (visit env url w.outside)
  enrich_at-Leaves url (some c) w =
      unless_cached-Leaves url (enrichment_get (env.now w.outside) url c).1
        (enrichment_get (env.now w.outside) url c).0 w

  enrich_from-Leaves : (o : Option Text) (w : World X) → Leaves w (enrich_from env o w)
  unfolding enrich_from
  enrich_from-Leaves none w = (w.lead.website, refl)
  enrich_from-Leaves (some url) w = elim (Bool-cases (truthy (some url))) [
    | inl full ↦ rw full (enrich_at-Leaves url w.cache w)
    | inr blank ↦ rw blank (w.lead.website, refl)
  ]

  -- However `enrich_one` ends, it changes nothing of the lead but its website, and that only when
  -- it returns: an exception or a cancellation leaves the lead as it was.
  pub enrich_one-Leaves : (w : World X) → Leaves w (enrich_one env w)
  unfolding enrich_one
  enrich_one-Leaves w = elim (Bool-cases (truthy w.lead.website)) [
    | inl full ↦ rw full (w.lead.website, refl)
    | inr blank ↦ rw blank (enrich_from-Leaves w.lead.social.google_maps_url w)
  ]

  -- A lead without a website whose place is in the cache is given the cached website, a missing
  -- one included, and nothing is done outside: the browser is not used.
  pub enrich_one_cached :
      (w : World X) (url : Text) (c : EnrichmentCache) (x : CachedEnrichment)
      → truthy w.lead.website ≡ false
      → w.lead.social.google_maps_url ≡ some url
      → truthy (some url) ≡ true
      → w.cache ≡ some c
      → (enrichment_get (env.now w.outside) url c).0 ≡ some x
      → ((enrich_one env w).0 ≡ returned tt)
        × ((enrich_one env w).1.lead.website ≡ x.website)
        × ((enrich_one env w).1.outside ≡ w.outside)
  unfolding enrich_one enrich_from enrich_at unless_cached
  enrich_one_cached w url c x blank has_url full cached found =
      rw (blank, has_url, full, cached, found) (refl, refl, refl)
