-- ===== src/Social/Normalizer.antt =====
-- app/enrichment/social/url_normalizer.py. `none` is the ValueError that `urlparse` raises.
use social_media_scraper.Base.{
  ◌&&◌, Option, none, some, List, [], ◌∷◌, if◌then◌else◌, Text, text_eq, ◌=?◌, Dict, get,
}
use social_media_scraper.Text.{codes, lower}
use social_media_scraper.Url.{Parsed, urlparse, urlunparse}
use social_media_scraper.Url.Query.{parse_qs_get}
use social_media_scraper.Url.Helper.{normalize_url}
use social_media_scraper.Normalizers.{normalize_business_url, strip_params}

abbrev pub social_tracking_params : List Text
social_tracking_params =
    codes "igshid"
    ∷ codes "igsh"
    ∷ codes "fbclid"
    ∷ codes "utm_source"
    ∷ codes "utm_medium"
    ∷ codes "utm_campaign"
    ∷ codes "ref"
    ∷ codes "hc_ref"
    ∷ codes "__tn__"
    ∷ []

abbrev pub mobile_hosts : Dict Text Text
mobile_hosts =
    (codes "facebook.com", codes "www.facebook.com")
    ∷ (codes "m.facebook.com", codes "www.facebook.com")
    ∷ (codes "mobile.facebook.com", codes "www.facebook.com")
    ∷ (codes "instagram.com", codes "www.instagram.com")
    ∷ []

shim_target : Text → Parsed → Text
unfolding parse_qs_get
shim_target url p = elim (parse_qs_get p.query (codes "u")) [ [] ↦ url | target ∷ _ ↦ target ]

unfoldable pub unwrap_facebook_link_shim : Text → Option Text
unfolding urlparse lower shim_target
unwrap_facebook_link_shim url = elim (urlparse url) [
  | none ↦ none
  | some p ↦ some (
      if (lower p.netloc =? codes "l.facebook.com") && (p.path =? codes "/l.php")
      then shim_target url p
      else url)
]

unfoldable pub canonical_host : Text → Text
unfolding lower get
canonical_host netloc = elim (get (lower netloc) mobile_hosts) [ none ↦ netloc | some h ↦ h ]

unfoldable pub canonicalize : Parsed → Parsed
unfolding canonical_host
canonicalize p = record p {
  netloc = canonical_host p.netloc;
  scheme = if p.scheme =? codes "http" then codes "https" else p.scheme;
}

unfoldable pub canonicalize_domain : Text → Option Text
unfolding urlparse canonicalize urlunparse
canonicalize_domain url = elim (urlparse url) [
  | none ↦ none
  | some p ↦ some (urlunparse (canonicalize p))
]

unfoldable pub strip_social_tracking_params : Text → Option Text
unfolding urlparse strip_params
strip_social_tracking_params url = elim (urlparse url) [
  | none ↦ none
  | some p ↦ some (strip_params social_tracking_params p)
]

infixl 5 ◌>>=◌
abbrev ◌>>=◌ : Option Text → (Text → Option Text) → Option Text
none >>= f = none
some u >>= f = f u

unfoldable pub normalize_social_url : Text → Option Text
unfolding normalize_url unwrap_facebook_link_shim canonicalize_domain normalize_business_url
    strip_social_tracking_params
normalize_social_url raw = do
  url ← normalize_url raw
  target ← unwrap_facebook_link_shim url
  canonical ← canonicalize_domain target
  clean ← normalize_business_url canonical
  strip_social_tracking_params clean
