-- ===== src/Pipeline/Streaming/Exact/Same.antt =====
-- Whether a lead that is not handled lacks a profile.
use social_media_scraper.Base.{ℕ, ◌≡◌, refl, ◌∙◌, Bool, Option, ◌∷◌, ==_iff, arith, Text}
use social_media_scraper.Exceptions.{Outcome, returned, raised, cancelled}
use social_media_scraper.Leads.{BusinessLead}
use social_media_scraper.Pipeline.Selecting.{needs_social, enriched}
use social_media_scraper.Pipeline.Streaming.{
  Config, State, Step, Reaches, update, at_satisfies, handle, init, feeder_put, enrich_start,
  enrich_skip, enrich_end, enrich_pass, enrich_exit, social_start, social_skip, social_end,
  social_exit, gathered, close_put, joined, start, step, request_cancellation,
}
use social_media_scraper.Pipeline.Streaming.Totals.{total, is_this}
use social_media_scraper.Pipeline.Streaming.Exact.{at_satisfies-update, at_satisfies-update_same}

enriched-needs_social :
    (o : Outcome (Option Text)) (l : BusinessLead) → needs_social (enriched o l) ≡ needs_social l
unfolding enriched needs_social
enriched-needs_social (returned w) l = refl
enriched-needs_social (raised e) l = refl
enriched-needs_social cancelled l = refl

module _ (c : Config) where
  -- A lead that is not handled yet lacks a profile if it did so at the start.
  unfoldable pub IsSame : State → Type 0
  IsSame s =
      (i : ℕ)
      → total (is_this i) s.handled ≡ 0
      → at_satisfies i needs_social s.store ≡ at_satisfies i needs_social c.leads

  handled-IsSame :
      (s : State) (j : ℕ) (f : BusinessLead → BusinessLead) (i : ℕ)
      → IsSame s
      → total (is_this i) (j ∷ s.handled) ≡ 0
      → at_satisfies i needs_social (update j f s.store) ≡ at_satisfies i needs_social c.leads
  unfolding IsSame total is_this
  handled-IsSame s j f i v h =
      at_satisfies-update needs_social f i j s.store (ground (arith, ==_iff j i))
      ∙ v i (ground arith)

  Step-IsSame : (s t : State) → Step c s t → IsSame s → IsSame t
  unfolding IsSame handle
  Step-IsSame s _ (feeder_put x rest e room) v = v
  Step-IsSame s _ (enrich_start j rest e idle h) v = v
  Step-IsSame s _ (enrich_skip j rest e idle h) v = v
  Step-IsSame s _ (enrich_end j before after o e) v = λ i h.
      at_satisfies-update_same needs_social (enriched o) i j s.store (enriched-needs_social o)
      ∙ v i h
  Step-IsSame s _ (enrich_pass j before after e room) v = v
  Step-IsSame s _ (enrich_exit rest e idle) v = v
  Step-IsSame s _ (social_start j rest e idle h) v = v
  Step-IsSame s _ (social_skip j rest e idle h) v = λ i k. handled-IsSame s j _ i v k
  Step-IsSame s _ (social_end j before after found e) v = λ i k. handled-IsSame s j _ i v k
  Step-IsSame s _ (social_exit rest e idle) v = v
  Step-IsSame s _ (gathered b f e) v = v
  Step-IsSame s _ (close_put k b room) v = v
  Step-IsSame s _ (joined b e) v = v

  pub reached-IsSame : (b : Bool) (s : State) → Reaches c b s → IsSame s
  unfolding IsSame init
  reached-IsSame b _ start = λ i h. refl
  reached-IsSame b _ (step s t r h) = Step-IsSame s t h (reached-IsSame b s r)
  reached-IsSame b _ (request_cancellation s r) = reached-IsSame b s r
