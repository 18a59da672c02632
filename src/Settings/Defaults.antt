-- ===== src/Settings/Defaults.antt =====
-- app/config/constants.py: the numbers that the settings default to, and the limits of a request.
use social_media_scraper.Base.{ℕ, ◌≡◌, refl, true}
use social_media_scraper.Settings.{Settings, is_accepted}

abbrev pub default_lead_limit : ℕ
default_lead_limit = 20

abbrev pub max_leads : ℕ
max_leads = 500

abbrev pub default_max_concurrency : ℕ
default_max_concurrency = 20

abbrev pub default_request_timeout : ℕ
default_request_timeout = 10000

abbrev pub default_connect_timeout : ℕ
default_connect_timeout = 5000

abbrev pub default_max_retries : ℕ
default_max_retries = 3

abbrev pub default_retry_backoff_base : ℕ
default_retry_backoff_base = 500

abbrev pub default_connection_pool_size : ℕ
default_connection_pool_size = 100

abbrev pub default_connection_pool_size_per_host : ℕ
default_connection_pool_size_per_host = 20

abbrev pub default_retry_max_delay : ℕ
default_retry_max_delay = 8000

abbrev pub default_retry_jitter : ℕ
default_retry_jitter = 500

abbrev pub default_circuit_breaker_failure_threshold : ℕ
default_circuit_breaker_failure_threshold = 5

abbrev pub default_circuit_breaker_recovery_timeout : ℕ
default_circuit_breaker_recovery_timeout = 30000

abbrev pub default_circuit_breaker_half_open_max_calls : ℕ
default_circuit_breaker_half_open_max_calls = 1

abbrev pub default_rate_limit_requests_per_second : ℕ
default_rate_limit_requests_per_second = 10

abbrev pub default_rate_limit_burst : ℕ
default_rate_limit_burst = 20

abbrev pub default_dns_cache_ttl : ℕ
default_dns_cache_ttl = 300000

abbrev pub default_browser_navigation_timeout : ℕ
default_browser_navigation_timeout = 30000

abbrev pub default_browser_pool_size : ℕ
default_browser_pool_size = 12

abbrev pub default_viewport_width : ℕ
default_viewport_width = 1366

abbrev pub default_viewport_height : ℕ
default_viewport_height = 768

abbrev pub default_scroll_pause : ℕ
default_scroll_pause = 1200

abbrev pub default_scroll_max_attempts_without_progress : ℕ
default_scroll_max_attempts_without_progress = 4

abbrev pub default_scroll_max_total_attempts : ℕ
default_scroll_max_total_attempts = 60

abbrev pub default_scroll_poll_interval : ℕ
default_scroll_poll_interval = 250

abbrev pub default_enrichment_worker_count : ℕ
default_enrichment_worker_count = 12

abbrev pub default_social_search_result_limit : ℕ
default_social_search_result_limit = 10

abbrev pub default_social_search_timeout : ℕ
default_social_search_timeout = 4000

abbrev pub default_social_browser_fetch_timeout : ℕ
default_social_browser_fetch_timeout = 15000

abbrev pub default_social_browser_networkidle_timeout : ℕ
default_social_browser_networkidle_timeout = 4000

abbrev pub default_max_search_workers : ℕ
default_max_search_workers = 10

abbrev pub default_confidence_score_high : ℕ
default_confidence_score_high = 100

abbrev pub default_confidence_score_medium : ℕ
default_confidence_score_medium = 70

abbrev pub default_confidence_score_low : ℕ
default_confidence_score_low = 40

abbrev pub default_confidence_score_none : ℕ
default_confidence_score_none = 0

abbrev pub default_settings : Settings
default_settings = record {
  max_concurrency = default_max_concurrency;
  request_timeout = default_request_timeout;
  connect_timeout = default_connect_timeout;
  max_retries = default_max_retries;
  retry_backoff_base = default_retry_backoff_base;
  connection_pool_size = default_connection_pool_size;
  connection_pool_size_per_host = default_connection_pool_size_per_host;
  retry_max_delay = default_retry_max_delay;
  retry_jitter = default_retry_jitter;
  circuit_breaker_failure_threshold = default_circuit_breaker_failure_threshold;
  circuit_breaker_recovery_timeout = default_circuit_breaker_recovery_timeout;
  circuit_breaker_half_open_max_calls = default_circuit_breaker_half_open_max_calls;
  rate_limit_requests_per_second = default_rate_limit_requests_per_second;
  rate_limit_burst = default_rate_limit_burst;
  dns_cache_ttl = default_dns_cache_ttl;
  browser_navigation_timeout = default_browser_navigation_timeout;
  browser_pool_size = default_browser_pool_size;
  viewport_width = default_viewport_width;
  viewport_height = default_viewport_height;
  scroll_pause = default_scroll_pause;
  scroll_max_attempts_without_progress = default_scroll_max_attempts_without_progress;
  scroll_max_total_attempts = default_scroll_max_total_attempts;
  scroll_poll_interval = default_scroll_poll_interval;
  enrichment_worker_count = default_enrichment_worker_count;
  social_search_result_limit = default_social_search_result_limit;
  social_search_timeout = default_social_search_timeout;
  social_browser_fetch_timeout = default_social_browser_fetch_timeout;
  social_browser_networkidle_timeout = default_social_browser_networkidle_timeout;
  max_search_workers = default_max_search_workers;
  confidence_score_high = default_confidence_score_high;
  confidence_score_medium = default_confidence_score_medium;
  confidence_score_low = default_confidence_score_low;
  confidence_score_none = default_confidence_score_none;
}

-- The defaults are in their own ranges.
pub defaults_accepted : is_accepted default_settings ≡ true
unfolding is_accepted
defaults_accepted = refl
