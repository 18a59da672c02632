-- ===== src/Pipeline/Streaming/Staged/Enriching.antt =====
-- The steps of the enrichment workers, for one lead.
use social_media_scraper.Base.{
  ℕ, ◌+◌, ◌≡◌, inl, inr, ap, ◌∙◌, sym, true, not, ◌&&◌, Option, List, ◌∷◌, ◌++◌, arith, Text,
}
use social_media_scraper.Exceptions.{Outcome, raised, value_error}
use social_media_scraper.Pipeline.Selecting.{needs_enrichment, enriched}
use social_media_scraper.Pipeline.Streaming.{
  Item, lead, Config, State, update, at_satisfies, enrichment_needed,
}
use social_media_scraper.Pipeline.Streaming.Totals.{total, is_this, is_lead}
use social_media_scraper.Pipeline.Streaming.Invariant.{IsValid, total-line, total-hand}
use social_media_scraper.Pipeline.Streaming.Staged.{
  elem, change, elem-update, elem-update_other, elem-satisfies,
}
use social_media_scraper.Pipeline.Streaming.Staged.OneLead.{
  IsStaged, IsStaged-weaken, enrich_with-raised, enrich_with-lacks,
}
use social_media_scraper.Pipeline.Streaming.Staged.Places.{
  same_or_other, before_enrichment, between, IsAt, places-le,
}

module _ (c : Config) (i : ℕ) where
  pub start-IsAt :
      (s : State) (j : ℕ) (rest : List Item)
      → s.to_enrich ≡ lead j ∷ rest
      → (enrichment_needed c j && not s.cancel_event) ≡ true
      → IsAt c i s
      → IsStaged c.settings
          (elem i c.leads)
          (elem i s.store)
          (total (is_lead i) (rest ++ s.feed) + (is_this i j + total (is_this i) s.enriching))
          (is_this i j + total (is_this i) s.enriching)
          (between i s)
          (total (is_this i) s.discovering)
          (total (is_this i) s.handled)
  unfolding IsAt before_enrichment enrichment_needed is_lead is_this
  start-IsAt s j rest e k v = record {
    fresh = λ n. v.fresh (omega (arith, total-line (is_lead i) (lead j) rest s.feed s.to_enrich e));
    lacks = λ n. elim (same_or_other i j) [
      | inl (same, one) ↦
          elem-satisfies i needs_enrichment c.leads
          ∙ ap (λ (m : ℕ). at_satisfies m needs_enrichment c.leads) same
          ∙ ground arith
      | inr (other, zero_) ↦ v.lacks (omega arith)
    ];
    visited = v.visited;
    incomplete = v.incomplete;
    final = v.final;
  }

  pub skip-IsAt :
      (s : State) (j : ℕ) (rest : List Item)
      → s.to_enrich ≡ lead j ∷ rest
      → IsAt c i s
      → IsStaged c.settings
          (elem i c.leads)
          (elem i s.store)
          (total (is_lead i) (rest ++ s.feed) + total (is_this i) s.enriching)
          (total (is_this i) s.enriching)
          (is_this i j
            + total (is_this i) s.passing
            + total (is_lead i) s.to_social
            + total (is_this i) s.discovering)
          (total (is_this i) s.discovering)
          (total (is_this i) s.handled)
  unfolding IsAt before_enrichment between is_lead is_this
  skip-IsAt s j rest e v =
      let line = total-line (is_lead i) (lead j) rest s.feed s.to_enrich e in
      record {
        fresh = λ n. v.fresh (omega arith);
        lacks = v.lacks;
        visited = λ n. elim (same_or_other i j) [
          | inl (same, one) ↦
              (raised value_error, v.fresh (omega arith) ∙ enrich_with-raised (elem i c.leads))
          | inr (other, zero_) ↦ v.visited (omega arith)
        ];
        incomplete = v.incomplete;
        final = v.final;
      }

  pub end-IsAt :
      (s : State) (j : ℕ) (before after : List ℕ) (o : Outcome (Option Text))
      → s.enriching ≡ before ++ j ∷ after
      → IsValid c s
      → IsAt c i s
      → IsStaged c.settings
          (elem i c.leads)
          (elem i (update j (enriched o) s.store))
          (total (is_lead i) (s.to_enrich ++ s.feed) + total (is_this i) (before ++ after))
          (total (is_this i) (before ++ after))
          (is_this i j
            + total (is_this i) s.passing
            + total (is_lead i) s.to_social
            + total (is_this i) s.discovering)
          (total (is_this i) s.discovering)
          (total (is_this i) s.handled)
  unfolding IsAt before_enrichment between
  end-IsAt s j before after o e valid v =
      let hand = total-hand i j s.enriching before after e in
      let le = places-le c i s valid in
      elim (same_or_other i j) [
        | inl (same, one) ↦ record {
          fresh = λ n. absurd (omega arith);
          lacks = λ n. absurd (omega arith);
          visited = λ n. (
            o,
            ap (λ (m : ℕ). elem i (update m (enriched o) s.store)) (sym same)
                ∙ elem-update i (enriched o) s.store
                ∙ ap (change (enriched o)) (v.fresh (omega arith))
                ∙ enrich_with-lacks o (elem i c.leads) (v.lacks (omega arith)),
          );
          incomplete = λ n. absurd (omega arith);
          final = λ n. absurd (omega arith);
        }
        | inr (other, zero_) ↦
            IsStaged-weaken (elem-update_other i j (enriched o) s.store other) (omega arith)
              (omega arith) (omega arith) (omega arith) (omega arith) v
      ]
