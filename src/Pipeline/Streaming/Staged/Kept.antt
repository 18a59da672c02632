-- ===== src/Pipeline/Streaming/Staged/Kept.antt =====
-- The steps of the streaming part, for one lead.
use social_media_scraper.Base.{ℕ, ◌≤◌, ◌≡◌, refl, ap, Bool, Option, arith, Text}
use social_media_scraper.Exceptions.{Outcome}
use social_media_scraper.Leads.{SocialLead}
use social_media_scraper.Pipeline.Selecting.{finish_social}
use social_media_scraper.Pipeline.Streaming.{
  lead, done, Config, State, Step, Reaches, handle, init, feeder_put, enrich_start, enrich_skip,
  enrich_end, enrich_pass, enrich_exit, social_start, social_skip, social_end, social_exit,
  gathered, close_put, joined, start, step, request_cancellation,
}
use social_media_scraper.Pipeline.Streaming.Totals.{total, is_this, is_lead, total-snoc}
use social_media_scraper.Pipeline.Streaming.Invariant.{IsValid, line_put, total-line, total-hand}
use social_media_scraper.Pipeline.Streaming.Kept.{reached-IsValid}
use social_media_scraper.Pipeline.Streaming.Staged.{elem, change, staged}
use social_media_scraper.Pipeline.Streaming.Staged.OneLead.{IsStaged-weaken}
use social_media_scraper.Pipeline.Streaming.Staged.Places.{before_enrichment, between, IsAt}
use social_media_scraper.Pipeline.Streaming.Staged.Enriching.{start-IsAt, skip-IsAt, end-IsAt}
use social_media_scraper.Pipeline.Streaming.Staged.Discovering.{
  social_skip-IsAt, social_end-IsAt, social_start-IsAt,
}

module _ (c : Config) (i : ℕ) where
  Step-IsAt : (s t : State) → Step c s t → IsValid c s → IsAt c i s → IsAt c i t
  unfolding IsAt before_enrichment between handle finish_social is_lead is_this total
  Step-IsAt s _ (feeder_put x rest e room) valid v =
      IsStaged-weaken refl
        (omega (arith, ap (total (is_lead i)) (line_put x rest s.feed s.to_enrich e))) (omega arith)
        (omega arith) (omega arith) (omega arith) v
  Step-IsAt s _ (enrich_start j rest e idle k) valid v = start-IsAt c i s j rest e k v
  Step-IsAt s _ (enrich_skip j rest e idle k) valid v = skip-IsAt c i s j rest e v
  Step-IsAt s _ (enrich_end j before after o e) valid v = end-IsAt c i s j before after o e valid v
  Step-IsAt s _ (enrich_pass j before after e room) valid v =
      IsStaged-weaken refl (omega arith) (omega arith)
        (omega (
          arith,
          total-hand i j s.passing before after e,
          total-snoc (is_lead i) s.to_social (lead j),
        ))
        (omega arith) (omega arith) v
  Step-IsAt s _ (enrich_exit rest e idle) valid v =
      IsStaged-weaken refl (omega (arith, total-line (is_lead i) done rest s.feed s.to_enrich e))
        (omega arith) (omega arith) (omega arith) (omega arith) v
  Step-IsAt s _ (social_start j rest e idle k) valid v = social_start-IsAt c i s j rest e k v
  Step-IsAt s _ (social_skip j rest e idle k) valid v = social_skip-IsAt c i s j rest e valid v
  Step-IsAt s _ (social_end j before after found e) valid v =
      social_end-IsAt c i s j before after found e valid v
  Step-IsAt s _ (social_exit rest e idle) valid v =
      IsStaged-weaken refl (omega arith) (omega arith) (omega (arith, ap (total (is_lead i)) e))
        (omega arith) (omega arith) v
  Step-IsAt s _ (gathered b f e) valid v = v
  Step-IsAt s _ (close_put k b room) valid v =
      IsStaged-weaken refl (omega arith) (omega arith)
        (omega (arith, total-snoc (is_lead i) s.to_social done)) (omega arith) (omega arith) v
  Step-IsAt s _ (joined b e) valid v = v

  reached-IsAt : (b : Bool) (s : State) → Reaches c b s → IsAt c i s
  unfolding IsAt before_enrichment between init total
  reached-IsAt b _ start = record {
    fresh = λ n. refl;
    lacks = λ n. absurd (omega arith);
    visited = λ n. absurd (omega arith);
    incomplete = λ n. absurd (omega arith);
    final = λ n. absurd (omega arith);
  }
  reached-IsAt b _ (step s t r h) = Step-IsAt s t h (reached-IsValid c b s r) (reached-IsAt b s r)
  reached-IsAt b _ (request_cancellation s r) = reached-IsAt b s r

  -- A lead that is handled is what the stages make of it, for some outcomes of its own.
  pub handled-final :
      (b : Bool) (s : State)
      → Reaches c b s
      → 1 ≤ total (is_this i) s.handled
      → (o : Outcome (Option Text)) × (found : SocialLead) × (elem i s.store
          ≡ change (staged c.settings o found) (elem i c.leads))
  unfolding IsAt
  handled-final b s r h = (reached-IsAt b s r).final h
