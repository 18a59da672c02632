-- ===== src/Pipeline/Stages/Counted.antt =====
-- What the stages report of the leads they work on.
use social_media_scraper.Base.{
  ℕ, ◌+◌, ◌≡◌, refl, ap, ◌∙◌, sym, inl, inr, Bool, true, false, not, ◌&&◌, ◌||◌, if◌then◌else◌,
  Option, none, some, List, [], ◌∷◌, map, count_if, Text, arith,
}
use social_media_scraper.Exceptions.{Outcome, returned}
use social_media_scraper.Leads.{BusinessLead, SocialLead}
use social_media_scraper.Selection.Ranking.{ScoreSettings}
use social_media_scraper.Selection.Engine.{truthy}
use social_media_scraper.Pipeline.Selecting.{has_url, select_urls}
use social_media_scraper.Pipeline.Selecting.Clean.{select_urls_lem}
use social_media_scraper.Pipeline.Stages.{PipelineProgress}

-- The businesses reported so far.
unfoldable pub reported : Option PipelineProgress → ℕ
reported none = 0
reported (some p) = p.completed + p.failed

-- What a stage that has been given a tracker adds to the businesses reported.
unfoldable pub Reports : ℕ → Option PipelineProgress → Option PipelineProgress → Type 0
unfolding reported
Reports n none after = after ≡ none
Reports n (some p) after = reported after ≡ reported (some p) + n

-- Selection gives no lead a URL that had none.
pub select_urls-has_url :
    (s : ScoreSettings) (l : BusinessLead) → has_url (select_urls s l) ≡ true → has_url l ≡ true
unfolding has_url
select_urls-has_url s l h = elim (select_urls_lem s l) [
  | inl (_, same) ↦
      ap (λ (m : BusinessLead). truthy m.social.instagram_url || truthy m.social.facebook_url)
        (sym same)
      ∙ h
  | inr (has_one, _) ↦ has_one
]

-- What a stage that has been given a tracker adds to what is completed and to what has failed.
abbrev pub IsReport : ℕ → ℕ → Option PipelineProgress → Option PipelineProgress → Type 0
IsReport completed failed none after = after ≡ none
IsReport completed failed (some p) after =
    (q : PipelineProgress) × (after ≡ some q)
    × (q.completed ≡ p.completed + completed)
    × (q.failed ≡ p.failed + failed)

-- How many leads satisfy `p` and have an outcome that is good, the n-th being the first.
unfoldable pub tally : (BusinessLead → Bool) → (ℕ → BusinessLead → Bool) → ℕ → List BusinessLead → ℕ
tally p good n [] = 0
tally p good n (l ∷ ls) = (if p l && good n l then 1 else 0) + tally p good (n + 1) ls

-- The same with an outcome that is not good.
unfoldable pub tally_rest :
    (BusinessLead → Bool) → (ℕ → BusinessLead → Bool) → ℕ → List BusinessLead → ℕ
unfolding tally
tally_rest p good n ls = tally p (λ k l. not (good k l)) n ls

-- The outcome of a lead's enrichment is a website.
unfoldable pub gives_website : Outcome (Option Text) → Bool
gives_website (returned (some website)) = true
gives_website _ = false

-- Social discovery has found a profile.
unfoldable pub gives_profile : SocialLead → Bool
unfolding truthy
gives_profile s = truthy s.instagram_url || truthy s.facebook_url

selected_count :
    (s : ScoreSettings) (n : ℕ) (ls : List BusinessLead)
    → count_if has_url (map (select_urls s) ls)
      ≡ tally has_url (λ k l. has_url (select_urls s l)) n ls
unfolding tally
selected_count s n [] = refl
selected_count s n (l ∷ ls) = ground (arith, selected_count s (n + 1) ls, select_urls-has_url s l)
