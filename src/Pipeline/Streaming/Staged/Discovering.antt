-- ===== src/Pipeline/Streaming/Staged/Discovering.antt =====
-- The steps of the social workers, for one lead.
use social_media_scraper.Base.{
  ℕ, ◌+◌, ◌≡◌, inl, inr, ap, ◌∙◌, sym, true, not, ◌&&◌, List, ◌∷◌, ◌++◌, arith,
}
use social_media_scraper.Leads.{BusinessLead, SocialLead}
use social_media_scraper.Pipeline.Selecting.{needs_social, select_urls}
use social_media_scraper.Pipeline.Streaming.{Item, lead, Config, State, update, at_satisfies}
use social_media_scraper.Pipeline.Streaming.Totals.{total, is_this, is_lead}
use social_media_scraper.Pipeline.Streaming.Invariant.{IsValid, total-hand}
use social_media_scraper.Pipeline.Streaming.Staged.{
  elem, elem-update, elem-update_other, elem-satisfies,
}
use social_media_scraper.Pipeline.Streaming.Staged.OneLead.{
  IsStaged, IsStaged-weaken, skipped-final, searched-final,
}
use social_media_scraper.Pipeline.Streaming.Staged.Places.{
  same_or_other, before_enrichment, between, IsAt, places-le,
}

module _ (c : Config) (i : ℕ) where
  pub social_skip-IsAt :
      (s : State) (j : ℕ) (rest : List Item)
      → s.to_social ≡ lead j ∷ rest
      → IsValid c s
      → IsAt c i s
      → IsStaged c.settings
          (elem i c.leads)
          (elem i (update j (select_urls c.settings) s.store))
          (before_enrichment i s)
          (total (is_this i) s.enriching)
          (total (is_this i) s.passing + total (is_lead i) rest + total (is_this i) s.discovering)
          (total (is_this i) s.discovering)
          (is_this i j + total (is_this i) s.handled)
  unfolding IsAt before_enrichment between is_lead is_this total
  social_skip-IsAt s j rest e valid v =
      let line = ap (total (is_lead i)) e in
      let le = places-le c i s valid in
      elim (same_or_other i j) [
        | inl (same, one) ↦ record {
          fresh = λ n. absurd (omega arith);
          lacks = λ n. absurd (omega arith);
          visited = λ n. absurd (omega arith);
          incomplete = λ n. absurd (omega arith);
          final = λ n.
              let (o, past) = v.visited (omega arith) in
              let (r, found, q) =
                skipped-final c.settings o (elem i c.leads) (elem i s.store) past in
              (
                r,
                found,
                ap (λ (m : ℕ). elem i (update m (select_urls c.settings) s.store)) (sym same)
                    ∙ elem-update i (select_urls c.settings) s.store
                    ∙ q,
              );
        }
        | inr (other, zero_) ↦
            IsStaged-weaken (elem-update_other i j (select_urls c.settings) s.store other)
              (omega arith) (omega arith) (omega arith) (omega arith) (omega arith) v
      ]

  pub social_end-IsAt :
      (s : State) (j : ℕ) (before after : List ℕ) (found : SocialLead)
      → s.discovering ≡ before ++ j ∷ after
      → IsValid c s
      → IsAt c i s
      → IsStaged c.settings
          (elem i c.leads)
          (elem i (update j (λ l. select_urls c.settings (record l { social = found })) s.store))
          (before_enrichment i s)
          (total (is_this i) s.enriching)
          (total (is_this i) s.passing
            + total (is_lead i) s.to_social
            + total (is_this i) (before ++ after))
          (total (is_this i) (before ++ after))
          (is_this i j + total (is_this i) s.handled)
  unfolding IsAt before_enrichment between
  social_end-IsAt s j before after found e valid v =
      let hand = total-hand i j s.discovering before after e in
      let le = places-le c i s valid in
      let f = λ (l : BusinessLead). select_urls c.settings (record l { social = found }) in
      elim (same_or_other i j) [
        | inl (same, one) ↦ record {
          fresh = λ n. absurd (omega arith);
          lacks = λ n. absurd (omega arith);
          visited = λ n. absurd (omega arith);
          incomplete = λ n. absurd (omega arith);
          final = λ n.
              let (o, past) = v.visited (omega arith) in
              (
                o,
                found,
                ap (λ (m : ℕ). elem i (update m f s.store)) (sym same)
                    ∙ elem-update i f s.store
                    ∙ searched-final c.settings o found (elem i c.leads) (elem i s.store) past
                        (v.incomplete (omega arith)),
              );
        }
        | inr (other, zero_) ↦
            IsStaged-weaken (elem-update_other i j f s.store other) (omega arith) (omega arith)
              (omega arith) (omega arith) (omega arith) v
      ]

  pub social_start-IsAt :
      (s : State) (j : ℕ) (rest : List Item)
      → s.to_social ≡ lead j ∷ rest
      → (at_satisfies j needs_social s.store && not s.cancel_event) ≡ true
      → IsAt c i s
      → IsStaged c.settings
          (elem i c.leads)
          (elem i s.store)
          (before_enrichment i s)
          (total (is_this i) s.enriching)
          (total (is_this i) s.passing
            + total (is_lead i) rest
            + (is_this i j + total (is_this i) s.discovering))
          (is_this i j + total (is_this i) s.discovering)
          (total (is_this i) s.handled)
  unfolding IsAt between is_lead is_this total
  social_start-IsAt s j rest e k v = record {
    fresh = v.fresh;
    lacks = v.lacks;
    visited = λ n. v.visited (omega (arith, ap (total (is_lead i)) e));
    incomplete = λ n. elim (same_or_other i j) [
      | inl (same, one) ↦
          elem-satisfies i needs_social s.store
          ∙ ap (λ (m : ℕ). at_satisfies m needs_social s.store) same
          ∙ ground arith
      | inr (other, zero_) ↦ v.incomplete (omega arith)
    ];
    final = v.final;
  }
