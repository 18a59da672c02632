-- ===== src/Enrichment.antt =====
-- app/enrichment/google_maps: batch.py, workers.py, detail_navigator.py, website_extractor.py and
-- metrics.py. The browser page is a parameter; the pool that it is borrowed from has a module of
-- its own.
pub mod Effects
use social_media_scraper.Base.{
  ℕ, ◌+◌, ◌-◌, Bool, true, false, not, ◌&&◌, Option, none, some, List, [], ◌∷◌, ◌==◌, if◌then◌else◌,
  Text,
}
use social_media_scraper.Exceptions.{
  Error, foreign, domain, scraper_timeout_error, extraction_error, Outcome, returned, raised,
  cancelled,
}
use social_media_scraper.Coroutine.{Coroutine, pure, lift, ◌>>=◌, ◌>>◌}
use social_media_scraper.Network.Retry
use social_media_scraper.Network.Retry.{RetryPolicy, execute}
use social_media_scraper.Normalizers.{validate_and_normalize_website}
use social_media_scraper.Leads.{
  BusinessLead, CachedEnrichment, EnrichmentCache, enrichment_get, enrichment_set,
}
use social_media_scraper.Selection.Engine.{truthy}

-- What is outside the lead and the cache.
pub record Environment (X : Type 0) : Type 0 where
  pub now : X → ℕ
  -- `goto` and `wait_for_selector`, for a Maps URL
  pub goto : Text → Coroutine X Unit
  -- `PlaywrightTimeoutError` among the exceptions of the browser library
  pub is_timeout : ℕ → Bool
  pub link_count : Coroutine X ℕ
  pub first_href : Coroutine X (Option Text)
  pub uniform : ℕ → Coroutine X ℕ
  pub sleep : ℕ → Coroutine X Unit
  pub policy : RetryPolicy

-- `default_detail_retry_policy`: what it retries
unfoldable pub retried_panel : Error → Bool
retried_panel (domain scraper_timeout_error) = true
retried_panel (domain extraction_error) = true
retried_panel _ = false

pub record World (X : Type 0) : Type 0 where
  pub lead : BusinessLead
  pub cache : Option EnrichmentCache
  pub outside : X

module _ {X : Type 0} (env : Environment X) where
  -- the `except` clauses of `_navigate`
  unfoldable pub translate_navigation : Outcome {0} Unit → Outcome {0} Unit
  translate_navigation (returned u) = returned u
  translate_navigation (raised (foreign n)) =
      raised (domain (if env.is_timeout n then scraper_timeout_error else extraction_error))
  translate_navigation (raised e) = raised (domain extraction_error)
  translate_navigation cancelled = cancelled

  unfoldable pub navigate : Text → Coroutine X Unit
  unfolding translate_navigation
  navigate maps_url x = let (o, x') = env.goto maps_url x in (translate_navigation o, x')

  -- `DetailPanelNavigator.open`
  unfoldable pub open_panel : Text → Coroutine X Unit
  unfolding navigate
  open_panel maps_url = execute env.policy (record {
    func = navigate maps_url;
    on_retry = λ attempt e. pure tt;
    uniform = env.uniform;
    sleep = env.sleep;
  })

  -- `WebsiteExtractor.extract`
  unfoldable pub extract : Coroutine X (Option Text)
  extract = env.link_count >>= λ n. if n == 0 then pure none else env.first_href

  -- a visit of the detail panel, to the website that the lead is given
  unfoldable pub visit : Text → Coroutine X (Option Text)
  unfolding open_panel extract
  visit maps_url = open_panel maps_url >> extract >>= λ raw_website.
      lift (validate_and_normalize_website raw_website)

  store : Text → Option Text → World X → World X
  unfolding enrichment_set
  store maps_url website w = record w {
    lead = record w.lead { website = website };
    cache = elim w.cache [
      | none ↦ none
      | some c ↦ some (enrichment_set (env.now w.outside) maps_url website c)
    ];
  }

  after_visit : Text → World X → Outcome (Option Text) × X → Outcome {0} Unit × World X
  unfolding store
  after_visit maps_url w (returned website, x) =
      (returned tt, store maps_url website (record w { outside = x }))
  after_visit maps_url w (raised e, x) = (raised e, record w { outside = x })
  after_visit maps_url w (cancelled, x) = (cancelled, record w { outside = x })

  visit_and_store : Text → Coroutine (World X) Unit
  unfolding after_visit visit
  visit_and_store maps_url w = after_visit maps_url w (visit maps_url w.outside)

  unless_cached : Text → EnrichmentCache → Option CachedEnrichment → Coroutine (World X) Unit
  unfolding visit_and_store
  unless_cached maps_url c none w = visit_and_store maps_url (record w { cache = some c })
  unless_cached maps_url c (some cached) w =
      (returned tt, record w { cache = some c; lead = record w.lead { website = cached.website } })

  unfoldable pub enrich_at : Text → Option EnrichmentCache → Coroutine (World X) Unit
  unfolding unless_cached visit_and_store enrichment_get
  enrich_at maps_url none w = visit_and_store maps_url w
  enrich_at maps_url (some c) w =
      let (found, c') = enrichment_get (env.now w.outside) maps_url c in
      unless_cached maps_url c' found w

  enrich_from : Option Text → Coroutine (World X) Unit
  unfolding enrich_at
  enrich_from none w = (returned tt, w)
  enrich_from (some maps_url) w =
      if truthy (some maps_url) then enrich_at maps_url w.cache w else (returned tt, w)

  -- `enrich_one`
  unfoldable pub enrich_one : Coroutine (World X) Unit
  unfolding enrich_from truthy
  enrich_one w =
      if truthy w.lead.website
      then (returned tt, w)
      else enrich_from w.lead.social.google_maps_url w

-- `EnrichmentMetrics`
pub record EnrichmentMetrics : Type 0 where
  pub total : ℕ
  pub missing : ℕ
  pub total_time : ℕ

unfoldable pub finish_one : ℕ → Bool → EnrichmentMetrics → EnrichmentMetrics
finish_one elapsed success m = record {
  total = m.total + 1;
  missing = m.missing + (if success then 0 else 1);
  total_time = m.total_time + elapsed;
}
