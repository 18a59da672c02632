-- ===== src/Leads.antt =====
-- app/models/domain.py (leads), app/discovery/google_maps/dedup.py (place identifiers and the
-- removal of duplicate leads) and app/enrichment/google_maps/cache.py.
pub mod Unique
pub mod Kept
pub mod Places
use social_media_scraper.Base.{
  ℕ, zero, suc, ◌+◌, Bool, true, false, ◌||◌, ◌&&◌, Option, none, some, List, [], ◌∷◌, ◌++◌, leb,
  if◌then◌else◌, Text, text_eq, contains,
}
use social_media_scraper.Text.{codes, is_empty, is_digit, starts_with, split_first, rstrip_by}
use social_media_scraper.Base.{◌==◌, drop, length}
use social_media_scraper.Cache
use social_media_scraper.Cache.{MemoryCache}

pub record SocialLead : Type 0 where
  pub instagram_url : Option Text
  pub facebook_url : Option Text
  pub google_maps_url : Option Text
  pub instagram_confidence : Option Text
  pub facebook_confidence : Option Text

-- `BusinessLead`; `discovered_at` is a reading of the clock.
pub record BusinessLead : Type 0 where
  pub business_name : Text
  pub website : Option Text
  pub social : SocialLead
  pub source_keyword : Option Text
  pub source_location : Option Text
  pub discovered_at : ℕ

-- `[0-9a-fA-F]`
unfoldable pub is_hex_digit : ℕ → Bool
is_hex_digit c = is_digit c || (leb b'a' c && leb c b'f') || (leb b'A' c && leb c b'F')

-- The longest prefix of hexadecimal digits, and what follows it.
unfoldable pub span_hex : Text → Text × Text
unfolding is_hex_digit
span_hex [] = ([], [])
span_hex (c ∷ s) =
    let (digits, rest) = span_hex s in if is_hex_digit c then (c ∷ digits, rest) else ([], c ∷ s)

-- `s` without the prefix `p`
unfoldable pub after_prefix : Text → Text → Option Text
unfolding starts_with
after_prefix p s = if starts_with s p then some (drop (length p) s) else none

-- `0x[0-9a-fA-F]+` at the start of a text: what it matches, and what follows.
unfoldable pub match_hex : Text → Option (Text × Text)
unfolding after_prefix span_hex is_empty
match_hex s = elim (after_prefix (codes "0x") s) [
  | none ↦ none
  | some t ↦
      let (digits, rest) = span_hex t in
      if is_empty digits then none else some (codes "0x" ++ digits, rest)
]

-- `0x[0-9a-fA-F]+:0x[0-9a-fA-F]+` at the start of a text
unfoldable pub match_pair : Text → Option Text
unfolding match_hex after_prefix
match_pair s = elim (match_hex s) [
  | none ↦ none
  | some (first, rest) ↦ elim (after_prefix (codes ":") rest) [
    | none ↦ none
    | some rest ↦ elim (match_hex rest) [
      | none ↦ none
      | some (second, end) ↦ some (first ++ codes ":" ++ second)
    ]
  ]
]

-- `_PLACE_ID_RE` at the start of a text
unfoldable pub match_place : Text → Option Text
unfolding match_pair after_prefix
match_place s = elim (after_prefix (codes "!1s") s) [ none ↦ none | some t ↦ match_pair t ]

-- `extract_place_id`: the leftmost match
unfoldable pub extract_place_id : Text → Option Text
unfolding match_place
extract_place_id [] = none
extract_place_id (c ∷ s) = elim (match_place (c ∷ s)) [
  | none ↦ extract_place_id s
  | some place ↦ some place
]

before_query : Text → Text
unfolding split_first
before_query url = elim (split_first b'?' url) [ none ↦ url | some (path, query) ↦ path ]

-- `_dedup_key`; a match is never empty
unfoldable pub dedup_key : Text → Text
unfolding extract_place_id before_query rstrip_by
dedup_key maps_url = elim (extract_place_id maps_url) [
  | none ↦ rstrip_by (λ c. c == b'/') (before_query maps_url)
  | some place ↦ place
]

-- What a lead is compared by: nothing, for one without a Maps URL.
unfoldable pub lead_key : BusinessLead → Option Text
unfolding dedup_key is_empty
lead_key lead = elim lead.social.google_maps_url [
  | none ↦ none
  | some url ↦ if is_empty url then none else some (dedup_key url)
]

-- The loop of `deduplicate_leads`.
pub record Progress : Type 0 where
  pub seen : List Text
  pub unique : List BusinessLead
  pub duplicate_count : ℕ

unfoldable pub visit_key : BusinessLead → Option Text → Progress → Progress
visit_key lead none p = record p { unique = p.unique ++ lead ∷ [] }
visit_key lead (some key) p =
    if contains key p.seen
    then record p { duplicate_count = p.duplicate_count + 1 }
    else record p { seen = key ∷ p.seen; unique = p.unique ++ lead ∷ [] }

unfoldable pub visit : BusinessLead → Progress → Progress
unfolding visit_key lead_key
visit lead p = visit_key lead (lead_key lead) p

unfoldable pub visit_all : List BusinessLead → Progress → Progress
unfolding visit
visit_all [] p = p
visit_all (lead ∷ leads) p = visit_all leads (visit lead p)

-- `deduplicate_leads`
unfoldable pub deduplicate_leads : List BusinessLead → List BusinessLead × ℕ
unfolding visit_all
deduplicate_leads leads =
    let p = visit_all leads (record { seen = []; unique = []; duplicate_count = 0 }) in
    (p.unique, p.duplicate_count)

-- `CachedEnrichment`
pub record CachedEnrichment : Type 0 where
  pub website : Option Text

abbrev pub EnrichmentCache : Type 0
EnrichmentCache = MemoryCache CachedEnrichment

unfoldable pub url_or : Text → Option Text → Text
url_or maps_url none = maps_url
url_or maps_url (some place) = place

-- `EnrichmentCache._key`
unfoldable pub enrichment_key : Text → Text
unfolding url_or extract_place_id
enrichment_key maps_url = url_or maps_url (extract_place_id maps_url)

-- `EnrichmentCache.get`
unfoldable pub enrichment_get :
    ℕ → Text → EnrichmentCache → Option CachedEnrichment × EnrichmentCache
unfolding enrichment_key
enrichment_get now maps_url c = Cache.get now (enrichment_key maps_url) c

-- `EnrichmentCache.set`
unfoldable pub enrichment_set : ℕ → Text → Option Text → EnrichmentCache → EnrichmentCache
unfolding enrichment_key
enrichment_set now maps_url website c =
    Cache.set now (enrichment_key maps_url) (record { website = website }) none c
