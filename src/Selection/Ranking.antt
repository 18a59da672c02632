-- ===== src/Selection/Ranking.antt =====
-- app/selection/scoring.py and app/selection/ranking.py. Every score is a whole number. A URL that
-- `urlparse` refuses, for which the program raises, is scored like one with no parts:
-- `make_candidate` keeps a normalised URL only if `is_valid_url` is true of it.
use social_media_scraper.Base.{
  ℕ, ◌+◌, Bool, false, not, Option, none, some, List, [], ◌∷◌, Text, text_eq, ◌=?◌, Dict, get,
  select, length, leb, if◌then◌else◌,
}
use social_media_scraper.Text.{codes, is_empty, split_on}
use social_media_scraper.Url.{Parsed, urlparse}
use social_media_scraper.Social.Confidence.{Confidence, high, medium, low, nothing, canonical_slug}
use social_media_scraper.Selection.Candidate.{Candidate, is_usable, normalized}

-- The fields of `Settings` that `confidence_score` reads.
pub record ScoreSettings : Type 0 where
  pub score_high : ℕ
  pub score_medium : ℕ
  pub score_low : ℕ
  pub score_none : ℕ

unfoldable pub confidence_score : ScoreSettings → Confidence → ℕ
confidence_score s high = s.score_high
confidence_score s medium = s.score_medium
confidence_score s low = s.score_low
confidence_score s nothing = s.score_none

abbrev pub source_weights : Dict Text ℕ
source_weights =
    (codes "json_ld", 15)
    ∷ (codes "meta", 15)
    ∷ (codes "footer", 10)
    ∷ (codes "header", 10)
    ∷ (codes "anchor", 5)
    ∷ (codes "search_fallback", 0)
    ∷ []

abbrev pub canonical_domains : Dict Text Text
canonical_domains =
    (codes "instagram", codes "www.instagram.com")
    ∷ (codes "facebook", codes "www.facebook.com")
    ∷ []

unfoldable pub source_weight : Text → ℕ
unfolding get
source_weight source = elim (get source source_weights) [ none ↦ 0 | some w ↦ w ]

-- A slug counts if it is there and not empty.
slug_bonus : Option Text → ℕ
unfolding is_empty
slug_bonus none = 0
slug_bonus (some slug) = if is_empty slug then 0 else 20

unfoldable pub canonical_bonus : Candidate → ℕ
unfolding is_usable normalized canonical_slug slug_bonus
canonical_bonus c = if is_usable c then slug_bonus (canonical_slug (normalized c) c.platform) else 0

netloc_of : Option Parsed → Option Text
netloc_of none = none
netloc_of (some p) = some p.netloc

same_netloc : Option Text → Option Text → Bool
same_netloc (some a) (some b) = a =? b
same_netloc _ _ = false

unfoldable pub domain_quality_score : Candidate → ℕ
unfolding is_usable normalized urlparse netloc_of same_netloc get
domain_quality_score c =
    if is_usable c
    then (if same_netloc (netloc_of (urlparse (normalized c))) (get c.platform canonical_domains)
        then 10
        else 0)
    else 0

path_segments : Text → List Text
unfolding split_on is_empty
path_segments path = select (λ seg. not (is_empty seg)) (split_on b'/' path)

cleanliness : Option Parsed → ℕ
unfolding is_empty path_segments
cleanliness none = 0
cleanliness (some p) =
    (if is_empty p.query then 5 else 0) + (if leb (length (path_segments p.path)) 1 then 5 else 0)

unfoldable pub cleanliness_score : Candidate → ℕ
unfolding is_usable normalized urlparse cleanliness
cleanliness_score c = if is_usable c then cleanliness (urlparse (normalized c)) else 0

unfoldable pub rank_score : ScoreSettings → Candidate → ℕ
unfolding is_usable confidence_score source_weight canonical_bonus domain_quality_score
    cleanliness_score
rank_score s c =
    if is_usable c
    then confidence_score s c.confidence
      + source_weight c.source
      + canonical_bonus c
      + domain_quality_score c
      + cleanliness_score c
    else 0
