-- ===== src/Discovery/Run.antt =====
-- app/discovery/google_maps/pipeline.py and maps_navigator.py, on `Pipeline.run_one` of
-- app/pipeline/base.py. The page is a parameter; the duration of a run and what is computed of it
-- are left out.
pub mod Found
use social_media_scraper.Base.{
  ℕ, Bool, Option, none, some, List, [], ◌∷◌, ◌++◌, length, if◌then◌else◌, Text,
}
use social_media_scraper.Exceptions.{
  Error, foreign, domain, scraper_timeout_error, discovery_error, Outcome, returned, raised,
  cancelled,
}
use social_media_scraper.Text.{codes}
use social_media_scraper.Coroutine.{Coroutine, ◌>>=◌, ◌>>◌}
use social_media_scraper.Leads.{BusinessLead, deduplicate_leads}
use social_media_scraper.Discovery.Scroll.{
  ScrollEngine, ScrollResult, Page, Loop, chain, scroll_until,
}
use social_media_scraper.Discovery.Cards.{Search, RawCard, extract_all, collect}

-- `PipelineStage.process`: from one item to the next
abbrev pub Stage : Type 0 → Type 0 → Type 0
Stage W C = C → Loop W C

-- `Pipeline.run_one`
unfoldable pub run_one : {W C : Type 0} → List (Stage W C) → Stage W C
unfolding chain
run_one [] item w = some (returned item, w)
run_one (stage ∷ stages) item w = chain (stage item w) (run_one stages)

-- `ProgressTracker`, without its clock
pub record ProgressTracker : Type 0 where
  pub target_limit : ℕ
  pub collected : ℕ

-- `DiscoveryContext`, without the page and the search
pub record DiscoveryContext : Type 0 where
  pub leads : List BusinessLead
  pub scroll_result : Option ScrollResult
  pub duplicate_count : ℕ
  pub progress : Option ProgressTracker

abbrev pub new_context : DiscoveryContext
new_context = record { leads = []; scroll_result = none; duplicate_count = 0; progress = none }

-- What is done with the page, and what its browser library raises when time is up.
pub record Browser (W : Type 0) : Type 0 where
  pub goto_maps : Coroutine W Unit
  pub wait_for_search_box : Coroutine W Unit
  pub fill : Text → Coroutine W Unit
  pub press_enter : Coroutine W Unit
  pub wait_for_results : Coroutine W Unit
  pub is_timeout : ℕ → Bool
  pub scrolling : Page W
  pub evaluate_cards : Coroutine W (List (Option RawCard))
  -- when the n-th card is read
  pub clock : ℕ → ℕ

unfoldable pub translate_search : (ℕ → Bool) → Outcome {0} Unit → Outcome {0} Unit
translate_search is_timeout (returned u) = returned u
translate_search is_timeout (raised (foreign n)) =
    raised (domain (if is_timeout n then scraper_timeout_error else discovery_error))
translate_search is_timeout (raised e) = raised (domain discovery_error)
translate_search is_timeout cancelled = cancelled

pub record DiscoveryMetrics : Type 0 where
  pub cards_collected : ℕ
  pub scroll_count : ℕ
  pub duplicate_count : ℕ

pub record DiscoveryResult : Type 0 where
  pub leads : List BusinessLead
  pub metrics : DiscoveryMetrics

-- what `MapsNavigator.search` does on the page
unfoldable pub search_page : {W : Type 0} → Search → Browser W → Coroutine W Unit
search_page s browser = do
  browser.goto_maps
  browser.wait_for_search_box
  browser.fill (s.keyword ++ codes " in " ++ s.location)
  browser.press_enter
  browser.wait_for_results

module _ {W : Type 0} (s : Search) (engine : ScrollEngine) (browser : Browser W) where
  -- `MapsNavigator.search`
  unfoldable pub navigator_search : Coroutine W Unit
  unfolding search_page translate_search
  navigator_search w =
      let (o, w') = search_page s browser w in (translate_search browser.is_timeout o, w')

  -- `SearchStage.process`
  unfoldable pub search_stage : Stage W DiscoveryContext
  unfolding navigator_search chain
  search_stage c w = chain (some (navigator_search w)) λ _ w'. some (
    returned (record c { progress = some (record { target_limit = s.limit; collected = 0 }) }),
    w',
  )

  -- `ScrollStage.process`
  unfoldable pub scroll_stage : Stage W DiscoveryContext
  unfolding scroll_until chain
  scroll_stage c w =
      chain (scroll_until engine browser.scrolling s.limit w)
        λ r w'. some (returned (record c { scroll_result = some r }), w')

  unfoldable pub update : ℕ → Option ProgressTracker → Option ProgressTracker
  update collected none = none
  update collected (some p) = some (record p { collected = collected })

  -- `CollectCardsStage.process`
  unfoldable pub collect_cards_stage : Stage W DiscoveryContext
  unfolding extract_all collect update chain
  collect_cards_stage c w = chain (some (browser.evaluate_cards w)) λ raw_cards w'.
      let leads = collect s (extract_all s browser.clock 0 raw_cards) in
      some (returned (record c { leads = leads; progress = update (length leads) c.progress }), w')

  -- `DeduplicateStage.process`
  unfoldable pub deduplicate_stage : Stage W DiscoveryContext
  unfolding deduplicate_leads
  deduplicate_stage c w =
      let (unique, duplicate_count) = deduplicate_leads c.leads in
      some (returned (record c { leads = unique; duplicate_count = duplicate_count }), w)

  -- `build_discovery_pipeline`
  unfoldable pub build_discovery_pipeline : List (Stage W DiscoveryContext)
  unfolding search_stage scroll_stage collect_cards_stage deduplicate_stage
  build_discovery_pipeline =
      search_stage ∷ scroll_stage ∷ collect_cards_stage ∷ deduplicate_stage ∷ []

unfoldable pub scrolls : Option ScrollResult → ℕ
scrolls none = 0
scrolls (some r) = r.scroll_count

-- the end of `run_discovery`
unfoldable pub discovered : DiscoveryContext → DiscoveryResult
unfolding scrolls
discovered c = record {
  leads = c.leads;
  metrics = record {
    cards_collected = length c.leads;
    scroll_count = scrolls c.scroll_result;
    duplicate_count = c.duplicate_count;
  };
}

-- `run_discovery`
unfoldable pub run_discovery :
    {W : Type 0} → Search → ScrollEngine → Browser W → Loop W DiscoveryResult
unfolding chain run_one build_discovery_pipeline discovered
run_discovery s engine browser w =
    chain (run_one (build_discovery_pipeline s engine browser) new_context w)
      λ c w'. some (returned (discovered c), w')
