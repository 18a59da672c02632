-- ===== src/Selection/Candidate.antt =====
-- app/selection/candidate.py.
use social_media_scraper.Base.{Bool, false, not, Option, none, some, Text, if◌then◌else◌, []}
use social_media_scraper.Text.{is_empty}
use social_media_scraper.Url.Helper.{is_valid_url}
use social_media_scraper.Social.Confidence.{Confidence}
use social_media_scraper.Social.Normalizer.{normalize_social_url}

pub record Candidate : Type 0 where
  pub platform : Text
  pub url : Text
  pub source : Text
  pub confidence : Confidence
  pub normalized_url : Option Text

-- A normalised URL that is not a well-formed URL is dropped.
unfoldable pub keep_valid : Option Text → Option Text
unfolding is_valid_url
keep_valid none = none
keep_valid (some u) = if is_valid_url u then some u else none

unfoldable pub make_candidate : Text → Text → Text → Confidence → Candidate
unfolding keep_valid normalize_social_url
make_candidate platform url source confidence = record {
  platform = platform;
  url = url;
  source = source;
  confidence = confidence;
  normalized_url = keep_valid (normalize_social_url url);
}

-- `bool(candidate.normalized_url)`
unfoldable pub is_usable : Candidate → Bool
unfolding is_empty
is_usable c = elim c.normalized_url [ none ↦ false | some u ↦ not (is_empty u) ]

-- `candidate.normalized_url`, where it is usable.
unfoldable pub normalized : Candidate → Text
normalized c = elim c.normalized_url [ none ↦ [] | some u ↦ u ]
