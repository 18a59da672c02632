-- ===== src/Pipeline/Run/Limited.antt =====
-- The run with the discovery and the streaming part that it is composed of.
use social_media_scraper.Base.{some, ℕ, ◌≤◌, ◌<◌, ◌≡◌, ap, subst, Bool, List, length, arith}
use social_media_scraper.Exceptions.{returned}
use social_media_scraper.Leads.{BusinessLead}
use social_media_scraper.Discovery.Cards.{Search}
use social_media_scraper.Discovery.Scroll.{ScrollEngine}
use social_media_scraper.Discovery.Run.{Browser, DiscoveryResult, run_discovery}
use social_media_scraper.Discovery.Run.Found.{Ends, IsFound, run_discovery-Ends}
use social_media_scraper.Pipeline.Streaming.{Config, State, Reaches}
use social_media_scraper.Pipeline.Run.{Parts, PipelineResult, run}
use social_media_scraper.Pipeline.Run.Isolated.{Starts, NotCancelled, run_returns}
use social_media_scraper.Pipeline.Streaming.Length.{Reaches-length}

-- The leads that discovery returns are those of a run of `run_discovery`.
pub record Discovers {X W : Type 0} (parts : Parts X) (request : Search) (engine : ScrollEngine)
    (browser : Browser W) : Type 0 where
  pub found :
      (x : X) (leads : List BusinessLead)
      → (parts.discover x).0 ≡ returned leads
      → (r : DiscoveryResult) × (w : W) × (v : W) × (run_discovery request engine browser w
          ≡ some (returned r, v))
        × (r.leads ≡ leads)

-- The leads that the streaming part leaves are those of a state that it reaches by its steps.
pub record Streams {X : Type 0} (parts : Parts X) : Type 0 where
  pub reached :
      (leads : List BusinessLead) (x : X)
      → (c : Config) × (b : Bool) × (s : State) × (c.leads ≡ leads)
        × Reaches c b s
        × (s.store ≡ (parts.stream leads x).1)

found_limited :
    {W : Type 0} (request : Search) (engine : ScrollEngine) (browser : Browser W)
    (leads : List BusinessLead) (r : DiscoveryResult) (w v : W)
    → 0 < engine.poll_interval
    → run_discovery request engine browser w ≡ some (returned r, v)
    → r.leads ≡ leads
    → length leads ≤ request.limit
found_limited request engine browser leads r w v pos e same =
    let found : IsFound request engine browser r =
      subst (Ends (IsFound request engine browser)) e
        (run_discovery-Ends request engine browser w pos) in
    let limited = found.limited in omega (arith, ap length same)

streamed_limited :
    (limit : ℕ) (leads left : List BusinessLead) (c : Config) (b : Bool) (s : State)
    → length leads ≤ limit
    → c.leads ≡ leads
    → Reaches c b s
    → s.store ≡ left
    → length left ≤ limit
streamed_limited limit leads left c b s h e r same =
    omega (arith, ap length e, ap length same, Reaches-length c b s r)

-- A run that is composed of the discovery and the streaming part, whose start-ups return and that is
-- not cancelled, returns a result with at most as many leads as the request's limit, if the poll
-- interval of scrolling is not 0, whatever its parts raise.
pub run_limited :
    {X W : Type 0} (parts : Parts X) (request : Search) (engine : ScrollEngine)
    (browser : Browser W)
    → Starts parts
    → NotCancelled parts
    → Discovers parts request engine browser
    → Streams parts
    → 0 < engine.poll_interval
    → (owns : Bool) (x : X)
    → (r : PipelineResult) × ((run parts owns x).0 ≡ returned r) × (length r.leads ≤ request.limit)
run_limited parts request engine browser up calm discovers streams pos =
    run_returns (λ leads. length leads ≤ request.limit) parts up calm
      (record {
        empty = omega arith;
        discovered = λ x leads e.
            let (r, w, v, ran, same) = discovers.found x leads e in
            found_limited request engine browser leads r w v pos ran same;
        streamed = λ leads x h.
            let (c, b, s, from, r, same) = streams.reached leads x in
            streamed_limited request.limit leads (parts.stream leads x).1 c b s h from r same;
      })
