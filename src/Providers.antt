-- ===== src/Providers.antt =====
-- app/providers/duckduckgo.py: `DuckDuckGoSearchProvider`. The answer of the session manager and
-- the links that the HTML parser finds in its text are parameters.
pub mod Listed
use social_media_scraper.Base.{
  ℕ, Bool, true, false, not, ◌&&◌, ◌||◌, Option, none, some, List, [], ◌∷◌, ◌++◌, length, leb,
  if◌then◌else◌, Text, ◌=?◌, text_eq,
}
use social_media_scraper.Exceptions.{Outcome, returned, raised, cancelled, value_error}
use social_media_scraper.Text.{codes, starts_with}
use social_media_scraper.Url.{Parsed, urlparse}
use social_media_scraper.Url.Query.{parse_qs_get}

-- `target[0] if target else None`
first_value : List Text → Option Text
first_value [] = none
first_value (v ∷ vs) = some v

-- `href`, with a scheme
with_https : Text → Text
unfolding starts_with
with_https href = if starts_with href (codes "//") then codes "https:" ++ href else href

is_wrapped : Parsed → Bool
unfolding starts_with
is_wrapped p = (p.netloc =? codes "duckduckgo.com") && starts_with p.path (codes "/l/")

-- `_unwrap_redirect`; nothing at all where `urlparse` raises ValueError
unfoldable pub unwrap_redirect : Text → Option (Option Text)
unfolding with_https is_wrapped first_value urlparse parse_qs_get
unwrap_redirect href = elim (urlparse (with_https href)) [
  | none ↦ none
  | some parsed ↦ some (
      if is_wrapped parsed
      then first_value (parse_qs_get parsed.query (codes "uddg"))
      else some (with_https href))
]

-- `if target: urls.append(target)`: what is appended
unfoldable pub kept : Option Text → List Text
kept none = []
kept (some []) = []
kept (some (c ∷ s)) = (c ∷ s) ∷ []

-- the loop over the links, with the `urls` so far
unfoldable pub collect : ℕ → List Text → List Text → Option (List Text)
unfolding kept
collect limit [] urls = some urls
collect limit (href ∷ hrefs) urls = elim (unwrap_redirect href) [
  | none ↦ none
  | some target ↦
      let next = urls ++ kept target in
      let rest = collect limit hrefs next in if leb limit (length next) then some next else rest
]

pub record Response : Type 0 where
  pub status_code : ℕ
  -- the links of the result list
  pub hrefs : List Text

unfoldable pub found : Option (List Text) → Outcome (List Text)
found none = raised value_error
found (some urls) = returned urls

-- `discover`, from how the request ends
unfoldable pub discover : ℕ → Outcome Response → Outcome (List Text)
unfolding found collect
discover limit (raised e) = returned []
discover limit cancelled = cancelled
discover limit (returned response) =
    if leb 400 response.status_code then returned [] else found (collect limit response.hrefs [])
