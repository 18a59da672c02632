-- ===== src/Selection/Engine.antt =====
-- app/selection/engine.py and app/selection/metrics.py.
pub mod Choice
use social_media_scraper.Base.{
  ℕ, zero, suc, ◌+◌, ◌≤◌, ◌≡◌, refl, ◌⊎◌, inl, inr, Bool, true, false, not, ◌&&◌, Option, none,
  some, List, [], ◌∷◌, Text, text_eq, ◌=?◌, select, count_if, length, if◌then◌else◌, In, arith,
}
use social_media_scraper.Text.{codes, is_empty}
use social_media_scraper.Selection.Candidate.{Candidate, is_usable, normalized}
use social_media_scraper.Selection.Ranking.{ScoreSettings, rank_score}
use social_media_scraper.Selection.Sorting.{sorted}
use social_media_scraper.Selection.Dedup.{deduplicate}

-- app/selection/metrics.py
pub record SelectionMetrics : Type 0 where
  pub candidates : ℕ
  pub duplicates : ℕ
  pub rejected : ℕ
  pub selected : ℕ

unfoldable pub reset : SelectionMetrics → SelectionMetrics
reset m = record { candidates = 0; duplicates = 0; rejected = 0; selected = 0 }

pub record SelectionResult : Type 0 where
  pub instagram_url : Option Text
  pub facebook_url : Option Text

first_url : List Candidate → Option Text
first_url [] = none
first_url (c ∷ cs) = c.normalized_url

-- `bool(url)`
unfoldable pub truthy : Option Text → Bool
unfolding is_empty
truthy none = false
truthy (some u) = not (is_empty u)

module _ (s : ScoreSettings) where
  -- `SocialUrlRanker.rank`
  unfoldable pub rank : List Candidate → List Candidate
  rank = sorted (rank_score s)

  -- the loop over the platforms, for one of them, over the deduplicated candidates
  unfoldable pub best_url : Text → List Candidate → Option Text
  unfolding rank first_url
  best_url platform deduped =
      first_url (rank (select (λ c. c.platform =? platform) (select is_usable deduped)))

  unfoldable pub selection : List Candidate → SelectionResult
  unfolding best_url
  selection cs =
      let (deduped, _) = deduplicate s cs in
      record {
        instagram_url = best_url (codes "instagram") deduped;
        facebook_url = best_url (codes "facebook") deduped;
      }

  selected_count : SelectionResult → ℕ
  unfolding truthy
  selected_count r =
      (if truthy r.instagram_url then 1 else 0) + (if truthy r.facebook_url then 1 else 0)

  -- `select` with a metrics object. The tests for a count of 0 skip an addition of 0.
  unfoldable pub record_selection : List Candidate → SelectionMetrics → SelectionMetrics
  unfolding selected_count selection
  record_selection cs m =
      let (_, duplicate_count) = deduplicate s cs in
      record {
        candidates = m.candidates + length cs;
        duplicates = m.duplicates + duplicate_count;
        rejected = m.rejected + count_if (λ c. not (is_usable c)) cs;
        selected = m.selected + selected_count (selection cs);
      }
