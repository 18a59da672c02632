-- ===== src/Selection/Dedup.antt =====
-- app/selection/dedup.py. A dictionary keyed by pairs of texts keeps the best candidate of each key.
use social_media_scraper.Base.{
  ℕ, ◌+◌, Option, none, some, List, [], ◌∷◌, ◌++◌, Text, text_eq, pair_eq, Dict, get, put, values,
  ltb, if◌then◌else◌,
}
use social_media_scraper.Selection.Candidate.{Candidate, is_usable, normalized}
use social_media_scraper.Selection.Ranking.{ScoreSettings, rank_score}

-- The variables of the loop.
pub record Loop : Type 0 where
  pub best_by_key : Dict (Text × Text) Candidate
  pub unnormalizable : List Candidate
  pub duplicate_count : ℕ

unfoldable pub key : Candidate → Text × Text
key c = (c.platform, normalized c)

abbrev pub start : Loop
start = record { best_by_key = []; unnormalizable = []; duplicate_count = 0 }

module _ (s : ScoreSettings) where
  -- the branches on `existing`
  unfoldable pub merge : Candidate → Option Candidate → Loop → Loop
  unfolding key put
  merge c none l = record l { best_by_key = put (key c) c l.best_by_key }
  merge c (some existing) l =
      if ltb (rank_score s existing) (rank_score s c)
      then record l {
        best_by_key = put (key c) c l.best_by_key;
        duplicate_count = l.duplicate_count + 1;
      }
      else record l { duplicate_count = l.duplicate_count + 1 }

  -- one round
  unfoldable pub visit : Candidate → Loop → Loop
  unfolding merge get
  visit c l =
      if is_usable c
      then merge c (get (key c) l.best_by_key) l
      else record l { unnormalizable = l.unnormalizable ++ c ∷ [] }

  unfoldable pub visit_all : List Candidate → Loop → Loop
  unfolding visit
  visit_all [] l = l
  visit_all (c ∷ cs) l = visit_all cs (visit c l)

  unfoldable pub deduplicate : List Candidate → List Candidate × ℕ
  unfolding visit_all
  deduplicate cs =
      let l = visit_all cs start in (values l.best_by_key ++ l.unnormalizable, l.duplicate_count)
