-- ===== src/Social/Fallback.antt =====
-- app/enrichment/social/search_fallback.py. The search provider is a parameter: the URLs it
-- returns for the query.
pub mod Choice
pub mod Places
use social_media_scraper.Base.{
  ℕ, Bool, true, false, not, ◌&&◌, ◌||◌, Option, none, some, List, [], ◌∷◌, ◌++◌, select,
  if◌then◌else◌, Text, text_eq, ◌=?◌,
}
use social_media_scraper.Text.{codes, is_empty, is_alnum, lower, drop_while, has_infix}
use social_media_scraper.Social.Confidence.{canonical_slug, span}
use social_media_scraper.Social.Normalizer.{normalize_social_url}

-- `re.findall(r"[a-z0-9]+", business_name.lower())[0]`, empty if there is no match
unfoldable pub first_word : Text → Text
unfolding drop_while span lower
first_word business_name =
    let (word, rest) = span is_alnum (drop_while (λ c. not (is_alnum c)) (lower business_name)) in
    word

-- `_looks_related`
unfoldable pub looks_related : Text → Text → Bool
unfolding first_word has_infix lower
looks_related business_name slug =
    is_empty (first_word business_name)
    || has_infix (select is_alnum (lower slug)) (first_word business_name)

unfoldable pub domain_of : Text → Text
domain_of platform =
    if platform =? codes "instagram" then codes "instagram.com" else codes "facebook.com"

-- The query for one of the two platforms.
unfoldable pub query : Text → Text → Text
unfolding domain_of
query business_name platform =
    codes "site:" ++ domain_of platform ++ codes " \"" ++ business_name ++ codes "\""

unfoldable pub platform_urls : Text → List Text → List Text
unfolding has_infix normalize_social_url
platform_urls domain [] = []
platform_urls domain (raw ∷ raws) =
    let rest = platform_urls domain raws in
    if has_infix raw domain
    then elim (normalize_social_url raw) [ none ↦ rest | some url ↦ url ∷ rest ]
    else rest

related_slug : Text → Option Text → Bool
unfolding looks_related is_empty
related_slug business_name none = false
related_slug business_name (some slug) = not (is_empty slug) && looks_related business_name slug

-- A canonical profile URL whose slug looks related to the business.
unfoldable pub is_profile : Text → Text → Text → Bool
unfolding related_slug canonical_slug
is_profile business_name platform url = related_slug business_name (canonical_slug url platform)

unfoldable pub first_profile : Text → Text → List Text → Option Text
unfolding is_profile
first_profile business_name platform [] = none
first_profile business_name platform (url ∷ urls) =
    let rest = first_profile business_name platform urls in
    if is_profile business_name platform url then some url else rest

first_url : List Text → Option Text
first_url [] = none
first_url (url ∷ urls) = some url

unfoldable pub either_pass : Option Text → List Text → Option Text × Bool
unfolding first_url
either_pass (some url) urls = (some url, true)
either_pass none urls = (first_url urls, false)

-- `find`, on the URLs that the provider returns for `query`
unfoldable pub find : Text → Text → List Text → Option Text × Bool
unfolding platform_urls first_profile either_pass
find business_name platform raw_urls =
    let urls = platform_urls (domain_of platform) raw_urls in
    either_pass (first_profile business_name platform urls) urls
