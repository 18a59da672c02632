-- ===== src/Selection/Size.antt =====
-- How many candidates deduplication keeps or counts.
use social_media_scraper.Base.{
  ℕ, ◌+◌, ◌≡◌, refl, inl, inr, Option, none, some, List, [], ◌∷◌, text_eq, pair_eq, get, values,
  length-put_new, length-put_old, length-append, length, arith, Bool-cases,
}
use social_media_scraper.Selection.Candidate.{Candidate, is_usable}
use social_media_scraper.Selection.Ranking.{ScoreSettings}
use social_media_scraper.Selection.Dedup.{Loop, key, merge, visit, visit_all}

-- the candidates kept, and the duplicates counted
abbrev pub size : Loop → ℕ
size l = length (values l.best_by_key) + length l.unnormalizable + l.duplicate_count

module _ (s : ScoreSettings) where
  merge-size :
      (c : Candidate) (o : Option Candidate) (l : Loop)
      → get (key c) l.best_by_key ≡ o
      → size (merge s c o l) ≡ size l + 1
  unfolding merge
  merge-size c none l e = omega (arith, length-put_new (key c) c l.best_by_key e)
  merge-size c (some x) l e = ground (arith, length-put_old (key c) c x l.best_by_key e)

  visit-size : (c : Candidate) (l : Loop) → size (visit s c l) ≡ size l + 1
  unfolding visit
  visit-size c l = elim (Bool-cases (is_usable c)) [
    | inl u ↦ rw u (merge-size c (get (key c) l.best_by_key) l refl)
    | inr u ↦ rw u (omega (arith, length-append l.unnormalizable (c ∷ [])))
  ]

  pub visit_all-size :
      (cs : List Candidate) (l : Loop) → size (visit_all s cs l) ≡ size l + length cs
  unfolding visit_all
  visit_all-size [] l = omega arith
  visit_all-size (c ∷ cs) l = omega (arith, visit_all-size cs (visit s c l), visit-size c l)
