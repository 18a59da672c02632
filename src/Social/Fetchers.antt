-- ===== src/Social/Fetchers.antt =====
-- app/enrichment/social/html_fetcher.py and browser_html_fetcher.py. The HTTP session and the page
-- of the browser are parameters; how many pages the fetcher holds and how many routes it has set
-- on them is kept beside the world outside.
pub mod Quiet
use social_media_scraper.Base.{
  ℕ, ◌+◌, ◌-◌, ◌*◌, Bool, true, false, ◌||◌, Option, none, some, leb, if◌then◌else◌, Text, text_beq,
}
use social_media_scraper.Exceptions.{Error, Outcome, returned, raised, cancelled}
use social_media_scraper.Text.{codes}
use social_media_scraper.Coroutine.{Coroutine, pure, catching, finally, ◌>>=◌, ◌>>◌}

pub record Response : Type 0 where
  pub status_code : ℕ
  pub text : Text

unfoldable pub text_of : Response → Option Text
text_of response = if leb 400 response.status_code then none else some response.text

-- `WebsiteHTMLFetcher.fetch`, over the session's `request`
unfoldable pub fetch : {W : Type 0} → Coroutine W Response → Coroutine W (Option Text)
unfolding text_of
fetch request = catching (request >>= λ response. pure (text_of response)) (λ e. pure none)

-- `_block_heavy_resources`: whether a resource is aborted
unfoldable pub is_blocked : Text → Bool
is_blocked resource_type =
    text_beq resource_type (codes "image")
    || text_beq resource_type (codes "media")
    || text_beq resource_type (codes "font")
    || text_beq resource_type (codes "stylesheet")

-- The pool and its page. `timeout` is in milliseconds.
pub record Page (X : Type 0) : Type 0 where
  pub acquire : Coroutine X Unit
  pub release : X → X
  pub route : Coroutine X Unit
  pub unroute : Coroutine X Unit
  pub goto : Text → ℕ → Coroutine X Unit
  pub wait_for_networkidle : ℕ → Coroutine X Unit
  pub content : Coroutine X Text

pub record World (X : Type 0) : Type 0 where
  pub pages : ℕ
  pub routes : ℕ
  pub outside : X

-- a call that leaves the counts alone
unfoldable pub call : {X A : Type 0} → Coroutine X A → Coroutine (World X) A
call m w = let (o, x) = m w.outside in (o, record w { outside = x })

module _ {X : Type 0} (page : Page X) where
  -- `__aenter__` of the pool's `acquire`, and its `__aexit__`, which puts the page back
  unfoldable pub enter : Coroutine (World X) Unit
  unfolding call
  enter = call page.acquire >>= λ u w. (returned tt, record w { pages = w.pages + 1 })

  unfoldable pub exit : Coroutine (World X) Unit
  exit w = (returned tt, record w { pages = w.pages - 1; outside = page.release w.outside })

  unfoldable pub set_route : Coroutine (World X) Unit
  unfolding call
  set_route = call page.route >>= λ u w. (returned tt, record w { routes = w.routes + 1 })

  unfoldable pub unset_route : Coroutine (World X) Unit
  unfolding call
  unset_route = call page.unroute >>= λ u w. (returned tt, record w { routes = w.routes - 1 })

  module _ (fetch_timeout networkidle_timeout : ℕ) where
    -- the innermost `try`: a page that goes on loading is read as it is
    unfoldable pub read : Text → Coroutine (World X) Text
    unfolding call
    read url = do
      call (page.goto url (fetch_timeout * 1000))
      catching (call (page.wait_for_networkidle (networkidle_timeout * 1000))) (λ e. pure tt)
      call page.content

    unfoldable pub read_routed : Text → Coroutine (World X) Text
    unfolding set_route read unset_route
    read_routed url = set_route >>= λ u. finally (read url) unset_route

    unfoldable pub read_held : Text → Coroutine (World X) Text
    unfolding enter read_routed exit
    read_held url = enter >>= λ u. finally (read_routed url) exit

    -- `BrowserWebsiteHTMLFetcher.fetch`
    unfoldable pub browser_fetch : Text → Coroutine (World X) (Option Text)
    unfolding read_held
    browser_fetch url = catching (read_held url >>= λ html. pure (some html)) (λ e. pure none)
