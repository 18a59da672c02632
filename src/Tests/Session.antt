-- ===== src/Tests/Session.antt =====
-- Requests through the session manager, at concrete inputs.
use social_media_scraper.Base.{
  ℕ, ◌≡◌, ◌⊎◌, refl, none, some, [], ◌∷◌, or_default, Text, text_eq, text_beq, get, put,
}
use social_media_scraper.Text.{codes, drop_while}
use social_media_scraper.Exceptions.{Outcome, value_error, returned, raised, cancelled}
use social_media_scraper.Url.Helper.{extract_domain}
use social_media_scraper.Network.CircuitBreaker
use social_media_scraper.Network.CircuitBreaker.{
  Breaker, opened, before_call, on_success, after_call,
}
use social_media_scraper.Network.RateLimiter
use social_media_scraper.Network.RateLimiter.{Limiter, refill, wait_time, try_acquire}
use social_media_scraper.Network.Retry.{RetryPolicy, after_attempt, attempts, execute}
use social_media_scraper.Network.Metrics.{empty, record_request_start, record_request_end}
use social_media_scraper.Network.Session.{
  response, World, Environment, retried_by_default, translate, limiter_of, breaker_of, send, settle,
  guarded_call, effects, sleep, sleep_until, after_sleep, acquire_within, acquire_for, begin,
  rate_limited, after_acquire, finish, request_to, request, host_for,
}
use social_media_scraper.Network.Session.Guards.{Counted, request-Counted, request_to-SameElsewhere}
use social_media_scraper.Network.Session.Relations.{SameElsewhere}

abbrev env : Environment ℕ
env = record {
  breaker_settings = record {
    failure_threshold = 2;
    recovery_timeout = 30;
    half_open_max_calls = 1;
  };
  limiter_settings = record { requests_per_second = 1; burst = 2; unit = 10 };
  reply = λ n. response 200;
  duration = λ n. 3;
  draw = λ jitter n. 0;
  interrupted = λ n. none;
}

abbrev policy : RetryPolicy
policy = record {
  max_attempts = 3;
  base_delay = 5;
  max_delay = 8;
  jitter = 2;
  retryable = retried_by_default;
}

abbrev host : Text
host = codes "a.b"

abbrev fresh : World
fresh = record {
  clock = 0;
  limiters = [];
  breakers = [];
  metrics = empty;
  sent = 0;
  drawn = 0;
  slept = 0;
}

-- a request that gets a response
abbrev answered : (w : World) × (request_to env policy host fresh ≡ some (returned 200, w))
unfolding request_to after_acquire rate_limited acquire_for acquire_within begin limiter_of
    breaker_of finish effects guarded_call before_call settle send translate after_call on_success
    execute attempts after_attempt try_acquire refill get put text_beq record_request_start
    record_request_end RateLimiter.init CircuitBreaker.init or_default
answered = (_, refl)

-- A bucket of one token and a task that is cancelled in its first sleep.
abbrev impatient : Environment ℕ
impatient = record env {
  limiter_settings = record { requests_per_second = 1; burst = 0; unit = 10 };
  interrupted = λ n. some 4;
}

abbrev gave_up : Outcome ℕ
gave_up = cancelled

abbrev abandoned :
    (w : World) × (request impatient policy (codes "http://a.b/c") fresh ≡ some (cancelled, w))
unfolding request host_for extract_domain request_to after_acquire rate_limited acquire_for
    acquire_within sleep sleep_until after_sleep wait_time begin limiter_of breaker_of finish
    try_acquire refill get put text_beq record_request_start RateLimiter.init CircuitBreaker.init
    or_default drop_while
abandoned = (_, refl)

request-Counted_example :
    ((host_for (codes "http://a.b/c") ≡ none)
      × (gave_up ≡ raised value_error)
      × (abandoned.0 ≡ fresh))
    ⊎ (((h : Text) × (host_for (codes "http://a.b/c") ≡ some h))
        × Counted gave_up empty abandoned.0.metrics)
request-Counted_example = request-Counted impatient policy (codes "http://a.b/c") fresh abandoned.1

request_to-SameElsewhere_example : SameElsewhere host fresh answered.0
request_to-SameElsewhere_example = request_to-SameElsewhere env policy host fresh answered.1

-- The circuit of the host has opened at time 0.
abbrev tripped : World
tripped = record fresh {
  breakers =
      (
        host,
        record {
          failure_threshold = 2;
          recovery_timeout = 30;
          half_open_max_calls = 1;
          state = opened;
          failure_count = 2;
          opened_at = 0;
          half_open_calls = 0;
        },
      )
      ∷ [];
}
