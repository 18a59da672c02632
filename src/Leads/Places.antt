-- ===== src/Leads/Places.antt =====
-- The enrichment cache works by place: URLs of one place share an entry.
use social_media_scraper.Base.{
  ℕ, ◌+◌, ◌≤◌, ◌≡◌, ap, ◌∙◌, sym, Option, none, some, Text, text_eq, arith, =?_refl,
}
use social_media_scraper.Cache.{set, ttl_of}
use social_media_scraper.Cache.Refinement.{view, bind, set_lem, get_lem}
use social_media_scraper.Leads.{
  CachedEnrichment, EnrichmentCache, extract_place_id, url_or, enrichment_key, enrichment_get,
  enrichment_set,
}

same_key :
    (u v place : Text)
    → extract_place_id u ≡ some place
    → extract_place_id v ≡ some place
    → enrichment_key v ≡ enrichment_key u
unfolding enrichment_key url_or
same_key u v place hu hv = ap (url_or v) hv ∙ sym (ap (url_or u) hu)

-- What is stored under one URL of a place, a business confirmed to have no website included, is
-- found under every other URL of it, until the cache's ttl has passed.
pub enrichment_get-set :
    (now later : ℕ) (u v place : Text) (website : Option Text) (c : EnrichmentCache)
    → extract_place_id u ≡ some place
    → extract_place_id v ≡ some place
    → later ≤ now + c.default_ttl
    → (enrichment_get later v (enrichment_set now u website c)).0
      ≡ some (record { website = website })
unfolding enrichment_get enrichment_set bind ttl_of
enrichment_get-set now later u v place website c hu hv in_time =
    let x : CachedEnrichment = record { website = website } in
    let k = enrichment_key u in
    (get_lem later (enrichment_key v) (set now k x none c)).0
    ∙ ap (view (set now k x none c) later) (same_key u v place hu hv)
    ∙ ap (λ (f : ℕ → Text → Option CachedEnrichment). f later k) (set_lem now k x none c)
    ∙ rw (=?_refl k) (ground arith)
