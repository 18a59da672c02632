-- ===== src/Pipeline/Run/Cancelled.antt =====
-- A run whose cancellation is requested before it begins.
use social_media_scraper.Base.{◌≡◌, true, some, []}
use social_media_scraper.Exceptions.{Outcome, returned}
use social_media_scraper.Coroutine.{Coroutine}
use social_media_scraper.Pipeline.Stages.{no_progress}
use social_media_scraper.Pipeline.Run.{Parts, PipelineResult, World, outside}

-- The event that is set stays set while the parts of a run start.
pub record StaysSet {X : Type 0} (parts : Parts X) : Type 0 where
  pub manager : (x : X) → parts.is_set x ≡ true → parts.is_set (parts.manager_start x).1 ≡ true
  pub pool : (x : X) → parts.is_set x ≡ true → parts.is_set (parts.pool_start x).1 ≡ true
  pub session : (x : X) → parts.is_set x ≡ true → parts.is_set (parts.session_startup x).1 ≡ true

-- A run that has found nothing, has reported no stage, and has left `x` outside.
pub record IsIdle {X : Type 0} (q : Outcome PipelineResult × World X) (x : X) : Type 0 where
  pub found : PipelineResult
  pub returns : q.0 ≡ returned found
  pub leads : found.leads ≡ []
  pub progress : found.progress ≡ some no_progress
  pub stage_times : found.stage_times ≡ some []
  pub left : q.1.outside ≡ x

module _ {X : Type 0} (parts : Parts X) where
  at_outside : World X → X → World X
  at_outside w x = record w { outside = x }
