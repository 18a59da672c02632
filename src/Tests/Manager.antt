-- ===== src/Tests/Manager.antt =====
-- A browser that goes away between two starts.
use social_media_scraper.Base.{◌≡◌, refl, [], ◌∷◌}
use social_media_scraper.Discovery.BrowserManager.{
  Event, starts, stops, disconnects, history, happen, start, stop, disconnect, is_running,
  start_playwright, after_launch, on_return, close_browser, close_held, stop_held, stop_playwright,
}
use social_media_scraper.Discovery.BrowserManager.Processes.{
  abandoned, abandons, is_returned, stop-abandoned,
}
use social_media_scraper.Base.{List}
use social_media_scraper.Pipeline.Run.Released.{all_return}

abbrev lost_browser : List Event
lost_browser = starts all_return ∷ disconnects ∷ starts all_return ∷ []

stop-abandoned_example : (history (stops all_return ∷ lost_browser)).processes ≡ 1
unfolding history happen start stop disconnect is_running start_playwright after_launch on_return
    close_browser close_held stop_held stop_playwright abandoned abandons is_returned
stop-abandoned_example = stop-abandoned lost_browser all_return refl
