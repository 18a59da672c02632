-- ===== src/Tests/Discovery.antt =====
-- Scrolling, the cards and the browser pool, at concrete inputs.
use social_media_scraper.Base.{
  ℕ, ◌+◌, ◌≡◌, ◌≤◌, ◌&&◌, ◌⊎◌, ◌==◌, In, if◌then◌else◌, refl, Option, none, some, List, [], ◌∷◌,
  false, or_default, Text,
}
use social_media_scraper.Text.{codes}
use social_media_scraper.Exceptions.{foreign, Outcome, returned, raised, cancelled}
use social_media_scraper.Coroutine.{pure, gets, modify}
use social_media_scraper.Discovery.Scroll.{
  ScrollEngine, Page, result, chain, poll, wait_for_progress_or_timeout, judge, rounds,
  scroll_until,
}
use social_media_scraper.Discovery.Scroll.Result.{scroll_until_result}
use social_media_scraper.Discovery.Cards.{Search, RawCard}
use social_media_scraper.Discovery.BrowserPool
use social_media_scraper.Discovery.BrowserPool.{BrowserPool, created, first_error, succeeded, stop}
use social_media_scraper.Discovery.BrowserPool.Entries.{
  occurrences, creations, Reaches, fresh, step, started, stop_lem,
}

abbrev engine : ScrollEngine
engine = record { base_pause = 8; max_stall = 2; max_total = 3; poll_interval = 4 }

-- A page on which each scroll shows five more cards, at once.
abbrev feed : Page ℕ
feed = record {
  card_count = gets (λ n. n);
  end_marks = pure 0;
  scroll_by = modify (λ n. n + 5);
  sleep = λ t. pure tt;
}

-- The limit that is reached by the last scroll allowed is not reported.
reached_by_last : scroll_until engine feed 12 0 ≡ some (returned (result 3 false false), 15)
unfolding scroll_until rounds chain wait_for_progress_or_timeout poll judge
reached_by_last = refl

scroll_until_result_example :
    (3 ≤ 3) × ((false && false) ≡ false) × (false ≡ false → false ≡ false → ◌≡◌ {A = ℕ} 3 3)
scroll_until_result_example =
    scroll_until_result engine feed 12 0 15 (result 3 false false) reached_by_last

abbrev search : Search
search = record { keyword = codes "plumbers"; location = codes "Austin"; limit = 2 }

abbrev card : Text → RawCard
card url = record { maps_url = some url; raw_name = some (codes " Acme "); website = none }

abbrev cards : List (Option RawCard)
cards = some (card (codes "u?1")) ∷ none ∷ some (card (codes "u?2")) ∷ some (card (codes "v")) ∷ []

-- A start of three entries, of which the second fails.
abbrev results : List (Outcome ℕ)
results = returned 1 ∷ raised (foreign 0) ∷ returned 3 ∷ []

abbrev half_started : (p : BrowserPool) × Reaches 3 none results p
unfolding BrowserPool.init BrowserPool.start created first_error succeeded or_default
half_started = (_, step [] results _ _ fresh (started results refl))

-- Closing the first of them raises.
abbrev closing : ℕ → Outcome {0} Unit
closing e = if e == 1 then raised (foreign 9) else returned tt

stop_lem_example :
    (((e : ℕ) × In e half_started.0.all × (closing e ≡ cancelled))
      × ((stop closing half_started.0).0 ≡ cancelled)
      × ((stop closing half_started.0).2 ≡ half_started.0))
    ⊎ (((stop closing half_started.0).0 ≡ returned tt)
        × ((stop closing half_started.0).2.all ≡ [])
        × ((stop closing half_started.0).2.pool ≡ [])
        × ((e : ℕ)
            → (occurrences e (stop closing half_started.0).1 ≡ creations e results)
              × (creations e results
                  ≡ occurrences e half_started.0.pool + occurrences e half_started.0.in_use)))
stop_lem_example = stop_lem 3 none results half_started.0 closing half_started.1
