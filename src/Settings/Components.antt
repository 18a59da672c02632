-- ===== src/Settings/Components.antt =====
-- Settings that are accepted keep the components going.
use social_media_scraper.Base.{
  ◌≤◌, ◌<◌, ◌≡◌, ◌≢◌, ap, ◌∙◌, sym, subst, Bool, true, Option, none, some, Text, text_eq, get,
  or_default, arith, List,
}
use social_media_scraper.Exceptions.{Outcome}
use social_media_scraper.Leads.{BusinessLead}
use social_media_scraper.Network.RateLimiter
use social_media_scraper.Network.RateLimiter.{Limiter, LimiterSettings}
use social_media_scraper.Network.Retry.{RetryPolicy}
use social_media_scraper.Network.Session.{Environment, World, request_to, limiter_of}
use social_media_scraper.Network.Session.Returns.{CanGrant, request_to_returns}
use social_media_scraper.Discovery.Cards.{Search}
use social_media_scraper.Discovery.Run.{Browser, run_discovery}
use social_media_scraper.Discovery.Run.Found.{Ends, IsFound, run_discovery-Ends}
use social_media_scraper.Pipeline.Streaming.{Config, State, Step, Reaches, finished}
use social_media_scraper.Pipeline.Streaming.Progress.{reached_can}
use social_media_scraper.Settings.{
  Settings, is_accepted, limiter_settings, scroll_settings, score_settings,
}

-- What the theorems of the components ask of the settings.
pub record IsUsable (s : Settings) : Type 0 where
  pub rate : 0 < s.rate_limit_requests_per_second
  pub burst : 0 < s.rate_limit_burst
  pub poll_interval : 0 < s.scroll_poll_interval
  pub enrichment_workers : 0 < s.enrichment_worker_count
  pub social_workers : 0 < s.max_search_workers
  pub threshold : 0 < s.circuit_breaker_failure_threshold
  pub trial_calls : 0 < s.circuit_breaker_half_open_max_calls

pub accepted-IsUsable : (s : Settings) → is_accepted s ≡ true → IsUsable s
unfolding is_accepted
accepted-IsUsable s h = record {
  rate = ground arith;
  burst = ground arith;
  poll_interval = ground arith;
  enrichment_workers = ground arith;
  social_workers = ground arith;
  threshold = ground arith;
  trial_calls = ground arith;
}

-- the workers of a run that leaves their numbers to the settings
unfoldable pub streaming_config : Settings → List BusinessLead → Config
unfolding score_settings
streaming_config s leads = record {
  enrichment_workers = s.enrichment_worker_count;
  social_workers = s.max_search_workers;
  settings = score_settings s;
  leads = leads;
}

new_limiter :
    {R : Type 0} (s : Settings) (env : Environment R) (p : RetryPolicy) (host : Text) (w : World)
    → IsUsable s
    → env.limiter_settings ≡ limiter_settings s
    → get host w.limiters ≡ none
    → CanGrant env p host w
unfolding limiter_of RateLimiter.init or_default limiter_settings
new_limiter s env p host w u same new =
    let rate = u.rate in
    let burst = u.burst in
    let made : limiter_of env host w ≡ RateLimiter.init (limiter_settings s) none none w.clock =
      ap
        (λ (o : Option Limiter). elim o [
          | none ↦ RateLimiter.init env.limiter_settings none none w.clock
          | some l ↦ l
        ])
        new
      ∙ ap (λ (t : LimiterSettings). RateLimiter.init t none none w.clock) same in
    let unit : env.limiter_settings.unit ≡ 1000 = ap (λ (t : LimiterSettings). t.unit) same in
    subst (λ (l : Limiter). (0 < l.rate) × (env.limiter_settings.unit ≤ l.capacity)) (sym made)
      (omega arith, omega arith)

-- With settings that are accepted a discovery run ends on every page, a request to a host that has
-- no limiter yet returns, and the streaming part is not stuck before its body is through.
pub accepted_goes_on :
    (s : Settings)
    → is_accepted s ≡ true
    → ((W : Type 0) (request : Search) (browser : Browser W) (w : W)
        → Ends
            (IsFound request (scroll_settings s) browser)
            (run_discovery request (scroll_settings s) browser w))
      × ((R : Type 0) (env : Environment R) (p : RetryPolicy) (host : Text) (w : World)
          → env.limiter_settings ≡ limiter_settings s
          → get host w.limiters ≡ none
          → (q : Outcome R × World) × (request_to env p host w ≡ some q))
      × ((leads : List BusinessLead) (is_set : Bool) (t : State)
          → Reaches (streaming_config s leads) is_set t
          → t.body ≢ finished
          → (next : State) × Step (streaming_config s leads) t next)
unfolding scroll_settings streaming_config
accepted_goes_on s h =
    let u = accepted-IsUsable s h in
    (
      λ W request browser w.
          run_discovery-Ends request (scroll_settings s) browser w u.poll_interval,
      λ R env p host w same new.
          request_to_returns env p host w (new_limiter s env p host w u same new),
      λ leads is_set t r n.
          reached_can (streaming_config s leads) is_set t u.enrichment_workers u.social_workers r n,
    )
