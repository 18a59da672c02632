-- ===== src/Pipeline/Stages.antt =====
-- app/pipeline/orchestrator.py: the whole-batch stages, with app/pipeline/progress.py and
-- app/pipeline/metrics.py. What the batches that a stage calls end in is a parameter: for each
-- lead, by its position, the outcome of its enrichment or what discovery leaves of its profiles.
pub mod Counted
use social_media_scraper.Base.{
  ℕ, ◌+◌, ◌-◌, ◌*◌, Bool, true, false, ◌&&◌, ◌||◌, Option, none, some, List, [], ◌∷◌, map, length,
  count_if, ◌==◌, if◌then◌else◌, Text, text_eq, Dict, get, put,
}
use social_media_scraper.Exceptions.{Outcome}
use social_media_scraper.Text.{codes}
use social_media_scraper.Leads.{BusinessLead, SocialLead}
use social_media_scraper.Selection.Ranking.{ScoreSettings}
use social_media_scraper.Selection.Engine.{truthy}
use social_media_scraper.Pipeline.Selecting.{
  Counts, is_none, has_url, needs_enrichment, needs_social, enriched, select_urls,
}

-- `PipelineProgressTracker`, without its clock
pub record PipelineProgress : Type 0 where
  pub current_stage : Option Text
  pub completed : ℕ
  pub failed : ℕ

abbrev pub no_progress : PipelineProgress
no_progress = record { current_stage = none; completed = 0; failed = 0 }

unfoldable pub start_stage : Text → PipelineProgress → PipelineProgress
start_stage name p = record p { current_stage = some name }

unfoldable pub finish_stage : Text → ℕ → ℕ → PipelineProgress → PipelineProgress
finish_stage name completed failed p = record {
  current_stage = some name;
  completed = p.completed + completed;
  failed = p.failed + failed;
}

-- `PipelineMetrics`: the time of each stage
abbrev pub PipelineMetrics : Type 0
PipelineMetrics = Dict Text ℕ

time_so_far : Option ℕ → ℕ
time_so_far none = 0
time_so_far (some seconds) = seconds

unfoldable pub record_stage_time : Text → ℕ → PipelineMetrics → PipelineMetrics
unfolding time_so_far get put
record_stage_time stage seconds m = put stage (time_so_far (get stage m) + seconds) m

-- `success_rate`, before rounding: a numerator and a denominator
unfoldable pub success_rate : ℕ → ℕ → ℕ × ℕ
success_rate total_businesses successful_businesses =
    if total_businesses == 0 then (0, 1) else (successful_businesses * 100, total_businesses)

-- The fields of `OrchestratorContext` that the stages change.
pub record Context : Type 0 where
  pub leads : List BusinessLead
  pub progress : Option PipelineProgress
  pub metrics : Option PipelineMetrics

unfoldable pub with_progress :
    (PipelineProgress → PipelineProgress) → Option PipelineProgress → Option PipelineProgress
with_progress f none = none
with_progress f (some p) = some (f p)

unfoldable pub with_metrics :
    (PipelineMetrics → PipelineMetrics) → Option PipelineMetrics → Option PipelineMetrics
with_metrics f none = none
with_metrics f (some m) = some (f m)

-- The frame of a stage: what it reports of its start and its end, around new leads.
unfoldable pub stage : Text → ℕ → List BusinessLead → ℕ → ℕ → Context → Context
unfolding with_progress with_metrics start_stage finish_stage record_stage_time
stage name elapsed leads completed failed c = record {
  leads = leads;
  metrics = with_metrics (record_stage_time name elapsed) c.metrics;
  progress =
      with_progress (finish_stage name completed failed)
        (with_progress (start_stage name) c.progress);
}

-- How many leads satisfy `p` before and `q` after.
unfoldable pub count_pairs :
    (BusinessLead → Bool) → (BusinessLead → Bool) → List BusinessLead → List BusinessLead → ℕ
count_pairs p q (l ∷ ls) (m ∷ ms) = (if p l && q m then 1 else 0) + count_pairs p q ls ms
count_pairs p q _ _ = 0

-- `MapsDiscoveryStage.process`, on the leads that discovery returns
unfoldable pub maps_discovery : ℕ → List BusinessLead → Context → Context
unfolding stage
maps_discovery elapsed leads c = stage (codes "maps_discovery") elapsed leads (length leads) 0 c

-- `enrich_batch`: a lead that does not need it is not sent to the workers
unfoldable pub enrich_batch :
    (ℕ → Outcome (Option Text)) → ℕ → List BusinessLead → List BusinessLead
unfolding needs_enrichment enriched
enrich_batch outcome n [] = []
enrich_batch outcome n (l ∷ ls) =
    (if needs_enrichment l then enriched (outcome n) l else l) ∷ enrich_batch outcome (n + 1) ls

-- `lead.website is None and lead.social.google_maps_url`
unfoldable pub counts_as_needed : BusinessLead → Bool
unfolding is_none truthy
counts_as_needed l = is_none l.website && truthy l.social.google_maps_url

has_website : BusinessLead → Bool
has_website l = elim l.website [ none ↦ false | some w ↦ true ]

-- `WebsiteEnrichmentStage.process`
unfoldable pub website_enrichment : (ℕ → Outcome (Option Text)) → ℕ → Context → Context
unfolding stage enrich_batch count_pairs has_website counts_as_needed
website_enrichment outcome elapsed c =
    let leads = enrich_batch outcome 0 c.leads in
    let completed = count_pairs counts_as_needed has_website c.leads leads in
    stage (codes "website_enrichment") elapsed leads completed
      (count_if counts_as_needed c.leads - completed) c

-- `discover_social_batch`
unfoldable pub discover_social_batch : (ℕ → SocialLead) → ℕ → List BusinessLead → List BusinessLead
unfolding needs_social
discover_social_batch found n [] = []
discover_social_batch found n (l ∷ ls) =
    (if needs_social l then record l { social = found n } else l)
    ∷ discover_social_batch found (n + 1) ls

-- `SocialDiscoveryStage.process`
unfoldable pub social_discovery : (ℕ → SocialLead) → ℕ → Context → Context
unfolding stage discover_social_batch count_pairs needs_social has_url
social_discovery found elapsed c =
    let leads = discover_social_batch found 0 c.leads in
    let completed = count_pairs needs_social has_url c.leads leads in
    stage (codes "social_discovery") elapsed leads completed
      (count_if needs_social c.leads - completed) c

-- `UrlSelectionStage.process`; `max(0, before - after)` is the subtraction of ℕ.
unfoldable pub url_selection : ScoreSettings → ℕ → Context → Context
unfolding stage select_urls has_url
url_selection s elapsed c =
    let leads = map (select_urls s) c.leads in
    let after = count_if has_url leads in
    stage (codes "url_selection") elapsed leads after (count_if has_url c.leads - after) c

-- The end of `_stream_enrichment_social_selection`: what it reports to the tracker.
unfoldable pub finish_streaming : Counts → Option PipelineProgress → Option PipelineProgress
unfolding with_progress finish_stage
finish_streaming k p =
    with_progress
      (finish_stage (codes "url_selection") k.selection_after
        (k.selection_before - k.selection_after))
      (with_progress (finish_stage (codes "social_discovery") k.social_completed k.social_failed) (
        with_progress
          (finish_stage (codes "website_enrichment") k.enrichment_completed k.enrichment_failed) p))
