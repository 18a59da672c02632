-- ===== src/Normalizers.antt =====
-- app/normalizers/url_normalizer.py, app/validators/url_validator.py and
-- app/enrichment/google_maps/website_validator.py.
use social_media_scraper.Base.{
  not, Option, none, some, List, [], ◌∷◌, if◌then◌else◌, Text, text_eq, select, contains,
}
use social_media_scraper.Exceptions.{
  Outcome, returned, raised, domain, value_error, validation_error,
}
use social_media_scraper.Text.{codes, lower, is_empty}
use social_media_scraper.Url.{Parsed, urlparse, urlunparse}
use social_media_scraper.Url.Query.{parse_qsl, urlencode}
use social_media_scraper.Url.Helper.{is_valid_url, normalize_url}

abbrev pub tracking_params : List Text
tracking_params =
    codes "utm_source"
    ∷ codes "utm_medium"
    ∷ codes "utm_campaign"
    ∷ codes "utm_term"
    ∷ codes "utm_content"
    ∷ codes "fbclid"
    ∷ codes "gclid"
    ∷ []

-- The query without the parameters whose names, in lower case, are among `dropped`.
unfoldable pub clean_query : List Text → Text → List (Text × Text)
unfolding parse_qsl lower contains
clean_query dropped query = select (λ p. not (contains (lower p.0) dropped)) (parse_qsl query)

unfoldable pub strip_params : List Text → Parsed → Text
unfolding clean_query urlencode urlunparse
strip_params dropped p = urlunparse (record p { query = urlencode (clean_query dropped p.query) })

unfoldable pub normalize_business_url : Text → Option Text
unfolding normalize_url strip_params
normalize_business_url url = elim (normalize_url url) [
  | none ↦ none
  | some normalized ↦ elim (urlparse normalized) [
    | none ↦ none
    | some p ↦ some (strip_params tracking_params p)
  ]
]

-- `validate_url`: the ValueError of a URL that `urlparse` refuses is passed on.
unfoldable pub validate_url : Text → Outcome Text
unfolding normalize_url is_valid_url
validate_url value = elim (normalize_url value) [
  | none ↦ raised value_error
  | some normalized ↦
      if is_valid_url normalized then returned normalized else raised (domain validation_error)
]

normalized_website : Text → Outcome (Option Text)
unfolding normalize_business_url
normalized_website raw = elim (normalize_business_url raw) [
  | none ↦ raised value_error
  | some website ↦ returned (some website)
]

after_validation : Text → Outcome Text → Outcome (Option Text)
unfolding normalized_website
after_validation raw (returned _) = normalized_website raw
after_validation raw (raised (domain validation_error)) = returned none
after_validation raw (raised e) = raised e
after_validation raw Outcome.cancelled = Outcome.cancelled

website_of : Text → Outcome (Option Text)
unfolding after_validation validate_url is_empty
website_of raw = if is_empty raw then returned none else after_validation raw (validate_url raw)

-- `validate_and_normalize_website`: it raises on a URL that `urlparse` refuses.
unfoldable pub validate_and_normalize_website : Option Text → Outcome (Option Text)
unfolding website_of
validate_and_normalize_website none = returned none
validate_and_normalize_website (some raw) = website_of raw
