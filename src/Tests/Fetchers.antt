-- ===== src/Tests/Fetchers.antt =====
-- A page whose navigation times out.
use social_media_scraper.Base.{ℕ, ◌≡◌}
use social_media_scraper.Exceptions.{foreign}
use social_media_scraper.Text.{codes}
use social_media_scraper.Coroutine.{pure, raise}
use social_media_scraper.Social.Fetchers.{Page, World, browser_fetch}
use social_media_scraper.Social.Fetchers.Quiet.{IsQuiet, browser_fetch-IsQuiet}

abbrev slow_page : Page ℕ
slow_page = record {
  acquire = pure tt;
  release = λ x. x;
  route = pure tt;
  unroute = pure tt;
  goto = λ url timeout. raise (foreign 1);
  wait_for_networkidle = λ timeout. pure tt;
  content = pure (codes "<html>");
}

abbrev idle : World ℕ
idle = record { pages = 0; routes = 0; outside = 0 }

browser_fetch-IsQuiet_example :
    IsQuiet (browser_fetch slow_page 15 5 (codes "http://acme.com") idle).0
    × ((browser_fetch slow_page 15 5 (codes "http://acme.com") idle).1.pages ≡ 0)
browser_fetch-IsQuiet_example = browser_fetch-IsQuiet slow_page 15 5 (codes "http://acme.com") idle
