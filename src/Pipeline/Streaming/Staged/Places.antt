-- ===== src/Pipeline/Streaming/Staged/Places.antt =====
-- Where the streaming part has a lead.
use social_media_scraper.Base.{
  ℕ, ◌+◌, ◌≤◌, ◌≡◌, ◌≢◌, ◌⊎◌, inl, inr, Bool-cases, ◌++◌, ◌==◌, ==_iff, arith,
}
use social_media_scraper.Pipeline.Streaming.{Config, State}
use social_media_scraper.Pipeline.Streaming.Totals.{total, is_this, is_lead}
use social_media_scraper.Pipeline.Streaming.Invariant.{places, IsValid}
use social_media_scraper.Pipeline.Streaming.Staged.{elem}
use social_media_scraper.Pipeline.Streaming.Staged.OneLead.{IsStaged}

-- a lead is this one or not
pub same_or_other : (i j : ℕ) → ((i ≡ j) × (is_this i j ≡ 1)) ⊎ ((i ≢ j) × (is_this i j ≡ 0))
unfolding is_this
same_or_other i j = elim (Bool-cases (j == i)) [
  | inl h ↦ inl (ground (arith, ==_iff j i), ground arith)
  | inr h ↦ inr ((λ e. ground (arith, ==_iff j i)), ground arith)
]

unfoldable pub before_enrichment : ℕ → State → ℕ
before_enrichment i s = total (is_lead i) (s.to_enrich ++ s.feed) + total (is_this i) s.enriching

unfoldable pub between : ℕ → State → ℕ
between i s =
    total (is_this i) s.passing + total (is_lead i) s.to_social + total (is_this i) s.discovering

unfoldable pub IsAt : Config → ℕ → State → Type 0
IsAt c i s =
    IsStaged c.settings (elem i c.leads) (elem i s.store) (before_enrichment i s)
      (total (is_this i) s.enriching) (between i s) (total (is_this i) s.discovering)
      (total (is_this i) s.handled)

-- a lead stands in one place
pub places-le :
    (c : Config) (i : ℕ) (s : State)
    → IsValid c s
    → before_enrichment i s + between i s + total (is_this i) s.handled ≤ 1
unfolding places before_enrichment between
places-le c i s v = let o = v.once i in ground arith
