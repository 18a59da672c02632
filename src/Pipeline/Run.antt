-- ===== src/Pipeline/Run.antt =====
-- app/pipeline/orchestrator.py: `PipelineOrchestrator.run`. What the run calls is a parameter: the
-- browser manager, the browser pool, the session manager, discovery on a page of the pool, and the
-- streaming part, for which Pipeline.Streaming has a step relation.
pub mod Cleanup
pub mod Isolated
pub mod Limited
pub mod Cancelled
pub mod Released
use social_media_scraper.Base.{
  ℕ, ◌-◌, Bool, true, false, ◌&&◌, Option, none, some, List, [], length, count_if, if◌then◌else◌,
  Text,
}
use social_media_scraper.Exceptions.{Error, Outcome, returned, raised, cancelled}
use social_media_scraper.Text.{codes}
use social_media_scraper.Coroutine.{Coroutine, pure, catching, finally, modify, gets, ◌>>=◌, ◌>>◌}
use social_media_scraper.Leads.{BusinessLead}
use social_media_scraper.Selection.Engine.{truthy}
use social_media_scraper.Pipeline.Selecting.{Counts, has_url}
use social_media_scraper.Pipeline.Stages.{
  PipelineProgress, PipelineMetrics, Context, no_progress, with_progress, with_metrics, start_stage,
  finish_stage, record_stage_time, maps_discovery, finish_streaming, success_rate,
}

-- What the streaming part has counted and timed when it returns.
pub record Streamed : Type 0 where
  pub counts : Counts
  pub enrichment_elapsed : ℕ
  pub social_elapsed : ℕ
  pub selection_time : ℕ

pub record Parts (X : Type 0) : Type 0 where
  pub manager_start : Coroutine X Unit
  pub manager_stop : Coroutine X Unit
  pub pool_start : Coroutine X Unit
  pub pool_stop : Coroutine X Unit
  pub session_startup : Coroutine X Unit
  -- `run_discovery` on a page that is acquired from the pool: the leads
  pub discover : Coroutine X (List BusinessLead)
  -- the feeder and the workers, on `context.leads`, which they change also if they do not return
  pub stream : List BusinessLead → X → Outcome Streamed × List BusinessLead × X
  -- `self._cancel_event.is_set()`
  pub is_set : X → Bool
  -- `time.perf_counter()`
  pub clock : X → ℕ

pub record World (X : Type 0) : Type 0 where
  pub context : Context
  pub outside : X

pub record PipelineResult : Type 0 where
  pub leads : List BusinessLead
  pub progress : Option PipelineProgress
  pub stage_times : Option PipelineMetrics
  pub success_rate : ℕ × ℕ

-- A lead with a website and a profile.
unfoldable pub is_successful : BusinessLead → Bool
unfolding truthy has_url
is_successful lead = truthy lead.website && has_url lead

-- the start of the three streaming stages
unfoldable pub start_streaming : Option PipelineProgress → Option PipelineProgress
unfolding with_progress start_stage
start_streaming p = with_progress (start_stage (codes "url_selection")) (
    with_progress (start_stage (codes "social_discovery"))
      (with_progress (start_stage (codes "website_enrichment")) p))

unfoldable pub record_streaming : Streamed → Option PipelineMetrics → Option PipelineMetrics
unfolding with_metrics record_stage_time
record_streaming r m = with_metrics (record_stage_time (codes "url_selection") r.selection_time) (
    with_metrics (record_stage_time (codes "social_discovery") r.social_elapsed)
      (with_metrics (record_stage_time (codes "website_enrichment") r.enrichment_elapsed) m))

-- The context when the streaming part ends.
unfoldable pub after_streaming : Outcome Streamed → List BusinessLead → Context → Context
unfolding record_streaming finish_streaming
after_streaming (returned r) leads c = record {
  leads = leads;
  progress = finish_streaming r.counts c.progress;
  metrics = record_streaming r c.metrics;
}
after_streaming _ leads c = record c { leads = leads }

unfoldable pub forget : {A : Type 0} → Outcome A → Outcome {0} Unit
forget (returned a) = returned tt
forget (raised e) = raised e
forget cancelled = cancelled

-- The context when the discovery stage ends; if it does not return, the stage was only started.
unfoldable pub after_discovery : ℕ → Outcome (List BusinessLead) → Context → Context
unfolding maps_discovery with_progress start_stage
after_discovery elapsed (returned leads) c = maps_discovery elapsed leads c
after_discovery elapsed _ c = record c {
  progress = with_progress (start_stage (codes "maps_discovery")) c.progress;
}

module _ {X : Type 0} (parts : Parts X) where
  -- a call that leaves the context alone
  unfoldable pub outside : {A : Type 0} → Coroutine X A → Coroutine (World X) A
  outside m w = let (o, x) = m w.outside in (o, record w { outside = x })

  -- `MapsDiscoveryStage().process(context)`
  unfoldable pub discovery_stage : Coroutine (World X) Unit
  unfolding after_discovery forget
  discovery_stage w =
      let (o, x) = parts.discover w.outside in
      (
        forget o,
        record {
          context = after_discovery (parts.clock x - parts.clock w.outside) o w.context;
          outside = x;
        },
      )

  -- the handler of its exceptions
  unfoldable pub discovery_failed : Error → Coroutine (World X) Unit
  unfolding with_progress finish_stage
  discovery_failed e = modify λ w. record w {
    context = record w.context {
      progress =
          with_progress (finish_stage (codes "maps_discovery") 0 (length w.context.leads))
            w.context.progress;
    };
  }

  -- `_stream_enrichment_social_selection(context)`
  unfoldable pub stream_stage : Coroutine (World X) Unit
  unfolding after_streaming start_streaming forget
  stream_stage w =
      let (o, leads, x) = parts.stream w.context.leads w.outside in
      (
        forget o,
        record {
          context =
              after_streaming o leads
                (record w.context { progress = start_streaming w.context.progress });
          outside = x;
        },
      )

  -- `if self._cancel_event.is_set(): … else: …`
  unfoldable pub unless_set : Coroutine (World X) Unit → Coroutine (World X) Unit
  unless_set m w = (if parts.is_set w.outside then pure tt else m) w

  -- what follows the start-ups
  unfoldable pub stages : Coroutine (World X) Unit
  unfolding unless_set discovery_stage discovery_failed stream_stage
  stages = unless_set (do
    catching discovery_stage discovery_failed
    unless_set (catching stream_stage (λ e. pure tt)))

  unfoldable pub start_up : Bool → Coroutine (World X) Unit
  unfolding outside
  start_up owns_browser_resources =
      (if owns_browser_resources
        then outside parts.manager_start >> outside parts.pool_start
        else pure tt)
      >> outside parts.session_startup

  -- the body of the `try`
  unfoldable pub body : Bool → Coroutine (World X) Unit
  unfolding start_up stages
  body owns_browser_resources = start_up owns_browser_resources >> stages

  -- the `finally` clause
  unfoldable pub clean_up : Bool → Coroutine (World X) Unit
  unfolding outside
  clean_up true =
      catching (outside parts.pool_stop) (λ e. pure tt)
      >> catching (outside parts.manager_stop) (λ e. pure tt)
  clean_up false = pure tt

  unfoldable pub result : Context → PipelineResult
  unfolding success_rate is_successful
  result c = record {
    leads = c.leads;
    progress = c.progress;
    stage_times = c.metrics;
    success_rate = success_rate (length c.leads) (count_if is_successful c.leads);
  }

  unfoldable pub new_world : X → World X
  new_world x = record {
    context = record { leads = []; progress = some no_progress; metrics = some [] };
    outside = x;
  }

  -- `run`, from the world outside at its start
  unfoldable pub run : Bool → X → Outcome PipelineResult × World X
  unfolding body clean_up result new_world
  run owns_browser_resources x =
      (finally (body owns_browser_resources) (clean_up owns_browser_resources) >>= λ _.
      gets (λ w. result w.context))
        (new_world x)
