-- ===== src/Tests/Run.antt =====
-- A run of the pipeline over a small world: a page whose feed shows cards, a browser that counts its
-- starts and stops, and a pool that raises when it is stopped.
use social_media_scraper.Base.{
  ℕ, ◌+◌, ◌≡◌, ◌≢◌, ◌⊎◌, ◌≤◌, ◌==◌, refl, true, false, none, some, [], ◌∷◌, length, Text, arith,
}
use social_media_scraper.Exceptions.{
  Error, foreign, domain, scraper_timeout_error, discovery_error, Outcome, returned, raised,
  cancelled,
}
use social_media_scraper.Text.{codes}
use social_media_scraper.Coroutine.{pure, raise, gets, modify}
use social_media_scraper.Leads.{BusinessLead}
use social_media_scraper.Discovery.Scroll.{ScrollEngine}
use social_media_scraper.Discovery.Cards.{Search, RawCard}
use social_media_scraper.Discovery.Run.{Browser, DiscoveryResult, run_discovery, search_page}
use social_media_scraper.Discovery.Run.Found.{
  Ends, IsFound, IsTimeout, run_discovery-Ends, search_failed,
}
use social_media_scraper.Pipeline.Streaming.{Config, start}
use social_media_scraper.Tests.Streaming.{scores}
use social_media_scraper.Pipeline.Streaming
use social_media_scraper.Pipeline.Run.{Parts, PipelineResult, run, body, new_world}
use social_media_scraper.Pipeline.Run.Cleanup.{run_cleans_up}
use social_media_scraper.Pipeline.Run.Isolated.{Starts, NotCancelled, Gives, run_returns}
use social_media_scraper.Pipeline.Run.Limited.{Discovers, Streams, run_limited}

abbrev pub scrolling : ScrollEngine
scrolling = record { base_pause = 8; max_stall = 2; max_total = 3; poll_interval = 4 }

abbrev pub plumbers : Search
plumbers = record { keyword = codes "plumbers"; location = codes "Austin"; limit = 2 }

abbrev card : Text → RawCard
card url = record { maps_url = some url; raw_name = some (codes " Acme "); website = none }

abbrev pub maps_page : Browser ℕ
maps_page = record {
  goto_maps = pure tt;
  wait_for_search_box = pure tt;
  fill = λ query. pure tt;
  press_enter = pure tt;
  wait_for_results = pure tt;
  is_timeout = λ n. false;
  scrolling = record {
    card_count = gets (λ n. n);
    end_marks = pure 0;
    scroll_by = modify (λ n. n + 5);
    sleep = λ t. pure tt;
  };
  evaluate_cards = pure (some (card (codes "u")) ∷ none ∷ []);
  clock = λ n. n;
}

run_discovery-Ends_example :
    Ends (IsFound plumbers scrolling maps_page) (run_discovery plumbers scrolling maps_page 0)
run_discovery-Ends_example = run_discovery-Ends plumbers scrolling maps_page 0 (omega arith)

abbrev lost_page : Browser ℕ
lost_page = record maps_page { wait_for_results = raise (foreign 7); is_timeout = λ n. n == 7 }

search_failed_example :
    (IsTimeout lost_page.is_timeout (foreign 7)
      × (run_discovery plumbers scrolling lost_page 0
          ≡ some (raised (domain scraper_timeout_error), (search_page plumbers lost_page 0).1)))
    ⊎ ((¬ IsTimeout lost_page.is_timeout (foreign 7))
        × (run_discovery plumbers scrolling lost_page 0
            ≡ some (raised (domain discovery_error), (search_page plumbers lost_page 0).1)))
unfolding search_page
search_failed_example = search_failed plumbers scrolling lost_page 0 (foreign 7) refl

abbrev parts : Parts ℕ
parts = record {
  manager_start = modify (λ n. n + 1);
  manager_stop = modify (λ n. n + 10);
  pool_start = pure tt;
  pool_stop = raise (foreign 1);
  session_startup = pure tt;
  discover = raise (domain discovery_error);
  stream = λ leads x. (raised (foreign 2), leads, x);
  is_set = λ x. false;
  clock = λ x. x;
}

run_cleans_up_example :
    (((parts.pool_stop (body parts true (new_world parts 0)).1.outside).0 ≢ cancelled)
        × ((run parts true 0).1.outside
            ≡ (parts.manager_stop
                (parts.pool_stop (body parts true (new_world parts 0)).1.outside).1).1)
      ⊎ ((parts.pool_stop (body parts true (new_world parts 0)).1.outside).0 ≡ cancelled)
        × ((run parts true 0).0 ≡ cancelled)
        × ((run parts true 0).1.outside
            ≡ (parts.pool_stop (body parts true (new_world parts 0)).1.outside).1))
    × ((run parts false 0).1 ≡ (body parts false (new_world parts 0)).1)
run_cleans_up_example = run_cleans_up parts 0

parts-Starts : Starts parts
parts-Starts = record { manager = λ x. refl; pool = λ x. refl; session = λ x. refl }

raised_not_cancelled : {A : Type 0} (e : Error) → ◌≢◌ {A = Outcome A} (raised e) cancelled
raised_not_cancelled e h = absurd (ground arith)

returned_not_cancelled : {A : Type 0} (a : A) → returned a ≢ cancelled
returned_not_cancelled a h = absurd (ground arith)

parts-NotCancelled : NotCancelled parts
parts-NotCancelled = record {
  discover = λ x. raised_not_cancelled (domain discovery_error);
  stream = λ leads x. raised_not_cancelled (foreign 2);
  pool_stop = λ x. raised_not_cancelled (foreign 1);
  manager_stop = λ x. returned_not_cancelled tt;
}

raised_not_returned : {A : Type 0} (e : Error) (a : A) → raised e ≢ returned a
raised_not_returned e a h = absurd (ground arith)

parts-Gives : Gives parts (λ leads. length leads ≡ 0)
parts-Gives = record {
  empty = refl;
  discovered = λ x leads e. absurd (raised_not_returned (domain discovery_error) leads e);
  streamed = λ leads x h. h;
}

run_returns_example :
    (r : PipelineResult) × ((run parts true 0).0 ≡ returned r) × (length r.leads ≡ 0)
run_returns_example =
    run_returns (λ leads. length leads ≡ 0) parts parts-Starts parts-NotCancelled parts-Gives true 0

-- What the run of discovery on the page finds.
abbrev acme : BusinessLead
acme = record {
  business_name = codes "Acme";
  website = none;
  social = record {
    instagram_url = none;
    facebook_url = none;
    google_maps_url = some (codes "u");
    instagram_confidence = none;
    facebook_confidence = none;
  };
  source_keyword = some (codes "plumbers");
  source_location = some (codes "Austin");
  discovered_at = 0;
}

abbrev found : DiscoveryResult
found = record {
  leads = acme ∷ [];
  metrics = record { cards_collected = 1; scroll_count = 1; duplicate_count = 0 };
}

found_runs : run_discovery plumbers scrolling maps_page 0 ≡ some (returned found, 5)
unfolding run_discovery
found_runs = refl

abbrev pub composed : Parts ℕ
composed = record parts { discover = pure (acme ∷ []) }

pub composed-Starts : Starts composed
composed-Starts = record { manager = λ x. refl; pool = λ x. refl; session = λ x. refl }

pub composed-NotCancelled : NotCancelled composed
composed-NotCancelled = record {
  discover = λ x. returned_not_cancelled (acme ∷ []);
  stream = λ leads x. raised_not_cancelled (foreign 2);
  pool_stop = λ x. raised_not_cancelled (foreign 1);
  manager_stop = λ x. returned_not_cancelled tt;
}

returned_injective : {A : Type 0} {a b : A} → returned a ≡ returned b → a ≡ b
returned_injective e = cc

pub composed-Discovers : Discovers composed plumbers scrolling maps_page
composed-Discovers = record { found = λ x leads e. (found, 0, 5, found_runs, returned_injective e) }

-- The streaming part that raises before its first step.
pub composed-Streams : Streams composed
unfolding Streaming.init
composed-Streams = record {
  reached = λ leads x. (
    record { enrichment_workers = 1; social_workers = 1; settings = scores; leads = leads },
    false,
    _,
    refl,
    start,
    refl,
  );
}

run_limited_example :
    (r : PipelineResult) × ((run composed true 0).0 ≡ returned r) × (length r.leads ≤ 2)
run_limited_example =
    run_limited composed plumbers scrolling maps_page composed-Starts composed-NotCancelled
      composed-Discovers composed-Streams (omega arith) true 0

-- The cancellation that is requested before the run.
abbrev stopped : Parts ℕ
stopped = record composed { is_set = λ x. true }
