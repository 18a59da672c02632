-- ===== src/Settings.antt =====
-- app/config/settings.py, the numbers that `Settings` checks, and the constants that they default
-- to. Times are in milliseconds, of which a setting that must be positive has at least one; a rate
-- is in thousandths of a token per millisecond.
pub mod Defaults
pub mod Components
use social_media_scraper.Base.{
  ℕ, ◌+◌, ◌*◌, Bool, true, false, ◌&&◌, Option, none, some, leb, if◌then◌else◌,
}
use social_media_scraper.Exceptions.{Error, Outcome, returned, raised}
use social_media_scraper.Network.CircuitBreaker.{BreakerSettings}
use social_media_scraper.Network.RateLimiter.{LimiterSettings}
use social_media_scraper.Network.Retry.{RetrySettings}
use social_media_scraper.Discovery.Scroll.{ScrollEngine}
use social_media_scraper.Selection.Ranking.{ScoreSettings}

pub record Settings : Type 0 where
  pub max_concurrency : ℕ
  pub request_timeout : ℕ
  pub connect_timeout : ℕ
  pub max_retries : ℕ
  pub retry_backoff_base : ℕ
  pub connection_pool_size : ℕ
  pub connection_pool_size_per_host : ℕ
  pub retry_max_delay : ℕ
  pub retry_jitter : ℕ
  pub circuit_breaker_failure_threshold : ℕ
  pub circuit_breaker_recovery_timeout : ℕ
  pub circuit_breaker_half_open_max_calls : ℕ
  pub rate_limit_requests_per_second : ℕ
  pub rate_limit_burst : ℕ
  pub dns_cache_ttl : ℕ
  pub browser_navigation_timeout : ℕ
  pub browser_pool_size : ℕ
  pub viewport_width : ℕ
  pub viewport_height : ℕ
  pub scroll_pause : ℕ
  pub scroll_max_attempts_without_progress : ℕ
  pub scroll_max_total_attempts : ℕ
  pub scroll_poll_interval : ℕ
  pub enrichment_worker_count : ℕ
  pub social_search_result_limit : ℕ
  pub social_search_timeout : ℕ
  pub social_browser_fetch_timeout : ℕ
  pub social_browser_networkidle_timeout : ℕ
  pub max_search_workers : ℕ
  pub confidence_score_high : ℕ
  pub confidence_score_medium : ℕ
  pub confidence_score_low : ℕ
  pub confidence_score_none : ℕ

-- the fields with `ge=1` or `gt=0`
network_is_positive : Settings → Bool
network_is_positive s =
    leb 1 s.max_concurrency
    && leb 1 s.request_timeout
    && leb 1 s.connect_timeout
    && leb 1 s.connection_pool_size
    && leb 1 s.connection_pool_size_per_host
    && leb 1 s.circuit_breaker_failure_threshold
    && leb 1 s.circuit_breaker_recovery_timeout
    && leb 1 s.circuit_breaker_half_open_max_calls
    && leb 1 s.rate_limit_requests_per_second

browser_is_positive : Settings → Bool
browser_is_positive s =
    leb 1 s.rate_limit_burst
    && leb 1 s.browser_navigation_timeout
    && leb 1 s.browser_pool_size
    && leb 1 s.viewport_width
    && leb 1 s.viewport_height
    && leb 1 s.scroll_pause
    && leb 1 s.scroll_max_attempts_without_progress
    && leb 1 s.scroll_max_total_attempts

social_is_positive : Settings → Bool
social_is_positive s =
    leb 1 s.scroll_poll_interval
    && leb 1 s.enrichment_worker_count
    && leb 1 s.social_search_result_limit
    && leb 1 s.social_search_timeout
    && leb 1 s.social_browser_fetch_timeout
    && leb 1 s.social_browser_networkidle_timeout
    && leb 1 s.max_search_workers

unfoldable pub is_accepted : Settings → Bool
unfolding network_is_positive browser_is_positive social_is_positive
is_accepted s = network_is_positive s && browser_is_positive s && social_is_positive s

-- `Settings()`, on the values that the environment gives: pydantic raises what it raises for a
-- value out of its range.
unfoldable pub settings_from : Error → Settings → Outcome Settings
unfolding is_accepted
settings_from refusal s = if is_accepted s then returned s else raised refusal

-- What the components read of the settings.
unfoldable pub breaker_settings : Settings → BreakerSettings
breaker_settings s = record {
  failure_threshold = s.circuit_breaker_failure_threshold;
  recovery_timeout = s.circuit_breaker_recovery_timeout;
  half_open_max_calls = s.circuit_breaker_half_open_max_calls;
}

unfoldable pub limiter_settings : Settings → LimiterSettings
limiter_settings s = record {
  requests_per_second = s.rate_limit_requests_per_second;
  burst = s.rate_limit_burst;
  unit = 1000;
}

unfoldable pub retry_settings : Settings → RetrySettings
retry_settings s = record {
  max_retries = s.max_retries;
  backoff_base = s.retry_backoff_base;
  max_delay = s.retry_max_delay;
  jitter = s.retry_jitter;
}

unfoldable pub scroll_settings : Settings → ScrollEngine
scroll_settings s = record {
  base_pause = s.scroll_pause;
  max_stall = s.scroll_max_attempts_without_progress;
  max_total = s.scroll_max_total_attempts;
  poll_interval = s.scroll_poll_interval;
}

unfoldable pub score_settings : Settings → ScoreSettings
score_settings s = record {
  score_high = s.confidence_score_high;
  score_medium = s.confidence_score_medium;
  score_low = s.confidence_score_low;
  score_none = s.confidence_score_none;
}
