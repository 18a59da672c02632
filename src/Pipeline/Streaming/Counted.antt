-- ===== src/Pipeline/Streaming/Counted.antt =====
-- What the streaming part counts and reports.
use social_media_scraper.Base.{
  ℕ, zero, suc, ◌+◌, ◌≡◌, ◌≤◌, refl, ap, sym, subst, inl, inr, ◌⊎◌, Bool, true, false, Option, none,
  some, List, [], ◌∷◌, ◌++◌, length, arith,
}
use social_media_scraper.Leads.{BusinessLead}
use social_media_scraper.Selection.Ranking.{ScoreSettings}
use social_media_scraper.Pipeline.Selecting.{
  Counts, count_enrichment, count_social, count_selection, finish_social, enriched,
}
use social_media_scraper.Pipeline.Stages.{
  PipelineProgress, with_progress, finish_stage, finish_streaming,
}
use social_media_scraper.Pipeline.Stages.Counted.{Reports, reported, select_urls-has_url}
use social_media_scraper.Pipeline.Streaming.{
  lead, done, Config, State, Step, Reaches, count_at, handle, init, replicate, positions,
  feeder_put, enrich_start, enrich_skip, enrich_end, enrich_pass, enrich_exit, social_start,
  social_skip, social_end, social_exit, gathered, close_put, joined, start, step,
  request_cancellation,
}
use social_media_scraper.Pipeline.Streaming.Totals.{total, is_any_lead, total-snoc}
use social_media_scraper.Pipeline.Streaming.Invariant.{length-middle}

-- The counts against the number of leads that are past enrichment, and of those handled.
pub record IsCounted (k : Counts) (past handled : ℕ) : Type 0 where
  pub enrichment : k.enrichment_completed + k.enrichment_failed ≤ past
  pub social : k.social_completed + k.social_failed ≤ handled
  pub selection : k.selection_after ≤ k.selection_before
  pub chosen : k.selection_before ≤ handled

-- the leads past enrichment
unfoldable pub past_enrichment : State → ℕ
past_enrichment s =
    length s.passing + total is_any_lead s.to_social + length s.discovering + length s.handled

IsCounted-weaken :
    {k : Counts} {past later handled more : ℕ}
    → past ≤ later
    → handled ≤ more
    → IsCounted k past handled
    → IsCounted k later more
IsCounted-weaken g h v = record {
  enrichment = let e = v.enrichment in omega arith;
  social = let e = v.social in omega arith;
  selection = v.selection;
  chosen = let e = v.chosen in omega arith;
}

IsCounted-move :
    {k : Counts} {past later handled : ℕ}
    → past ≤ later
    → IsCounted k past handled
    → IsCounted k later handled
IsCounted-move h v = IsCounted-weaken h (omega arith) v

count_at-cases :
    {A B : Type 0} (n : ℕ) (f : A → B → B) (xs : List A) (b : B)
    → (count_at n f xs b ≡ b) ⊎ ((x : A) × (count_at n f xs b ≡ f x b))
unfolding count_at
count_at-cases n f [] b = inl refl
count_at-cases zero f (x ∷ xs) b = inr (x, refl)
count_at-cases (suc n) f (x ∷ xs) b = count_at-cases n f xs b

-- What one more lead may add to the counts.
count_enrichment-IsCounted :
    {past handled : ℕ} (l : BusinessLead) (k : Counts)
    → IsCounted k past handled
    → IsCounted (count_enrichment l k) (past + 1) handled
unfolding count_enrichment
count_enrichment-IsCounted l k v = record {
  enrichment = let e = v.enrichment in ground arith;
  social = let e = v.social in ground arith;
  selection = let e = v.selection in ground arith;
  chosen = let e = v.chosen in ground arith;
}

finish_social-IsCounted :
    {past handled : ℕ} (s : ScoreSettings) (needed : Bool) (l : BusinessLead) (k : Counts)
    → IsCounted k past handled
    → IsCounted (finish_social s needed l k).1 past (handled + 1)
unfolding finish_social count_social count_selection
finish_social-IsCounted s false l k v = record {
  enrichment = v.enrichment;
  social = let e = v.social in ground arith;
  selection = let e = v.selection in ground (arith, select_urls-has_url s l);
  chosen = let e = v.chosen in ground arith;
}
finish_social-IsCounted s true l k v = record {
  enrichment = let e = v.enrichment in ground arith;
  social = let e = v.social in ground arith;
  selection = let e = v.selection in ground (arith, select_urls-has_url s l);
  chosen = let e = v.chosen in ground arith;
}

module _ (c : Config) where
  handle-IsCounted :
      {past : ℕ} (i : ℕ) (needed : Bool) (found : BusinessLead → BusinessLead) (s : State)
      → IsCounted s.counts past (length s.handled)
      → IsCounted (handle c i needed found s).counts past (suc (length s.handled))
  unfolding handle
  handle-IsCounted {past} i needed found s v =
      elim (count_at-cases i
        (λ (l : BusinessLead) (b : Counts). (finish_social c.settings needed (found l) b).1) s.store
        s.counts) [
          | inl same ↦
              subst (λ (k : Counts). IsCounted k past (suc (length s.handled))) (sym same)
                (IsCounted-weaken (omega arith) (omega arith) v)
          | inr (l, same) ↦
              subst (λ (k : Counts). IsCounted k past (suc (length s.handled))) (sym same)
                (IsCounted-weaken (omega arith) (omega arith)
                  (finish_social-IsCounted c.settings needed (found l) s.counts v))
        ]

  enrich_end-IsCounted :
      {past handled : ℕ} (i : ℕ) (f : BusinessLead → BusinessLead) (store : List BusinessLead)
      (k : Counts)
      → IsCounted k past handled
      → IsCounted (count_at i (λ l. count_enrichment (f l)) store k) (past + 1) handled
  enrich_end-IsCounted {past} {handled} i f store k v =
      elim (count_at-cases i (λ (l : BusinessLead). count_enrichment (f l)) store k) [
        | inl same ↦
            subst (λ (k : Counts). IsCounted k (past + 1) handled) (sym same)
              (IsCounted-move (omega arith) v)
        | inr (l, same) ↦
            subst (λ (k : Counts). IsCounted k (past + 1) handled) (sym same)
              (count_enrichment-IsCounted (f l) k v)
      ]

  Step-IsCounted :
      (s t : State)
      → Step c s t
      → IsCounted s.counts (past_enrichment s) (length s.handled)
      → IsCounted t.counts (past_enrichment t) (length t.handled)
  unfolding past_enrichment handle total is_any_lead
  Step-IsCounted s _ (feeder_put x rest e room) v = v
  Step-IsCounted s _ (enrich_start i rest e idle h) v = v
  Step-IsCounted s _ (enrich_skip i rest e idle h) v = IsCounted-move (omega arith) v
  Step-IsCounted s _ (enrich_end i before after o e) v =
      IsCounted-move (omega arith) (enrich_end-IsCounted i (enriched o) s.store s.counts v)
  Step-IsCounted s _ (enrich_pass i before after e room) v =
      IsCounted-move
        (omega (
          arith,
          ap length e,
          length-middle i before after,
          total-snoc is_any_lead s.to_social (lead i),
        ))
        v
  Step-IsCounted s _ (enrich_exit rest e idle) v = v
  Step-IsCounted s _ (social_start i rest e idle h) v =
      IsCounted-move (omega (arith, ap (total is_any_lead) e)) v
  Step-IsCounted s _ (social_skip i rest e idle h) v =
      IsCounted-move (omega (arith, ap (total is_any_lead) e))
        (handle-IsCounted i _ (λ l. l) (record s { to_social = rest }) v)
  Step-IsCounted s _ (social_end i before after found e) v =
      IsCounted-move (omega (arith, ap length e, length-middle i before after)) (
        handle-IsCounted i true (λ l. record l { social = found })
          (record s { discovering = before ++ after; social_idle = s.social_idle + 1 }) v)
  Step-IsCounted s _ (social_exit rest e idle) v =
      IsCounted-move (omega (arith, ap (total is_any_lead) e)) v
  Step-IsCounted s _ (gathered b f e) v = v
  Step-IsCounted s _ (close_put k b room) v =
      IsCounted-move (omega (arith, total-snoc is_any_lead s.to_social done)) v
  Step-IsCounted s _ (joined b e) v = v

  -- In every state that the streaming part reaches, no more enrichments are counted, completed or
  -- failed, than leads are past enrichment, no more discoveries and no more leads with a URL before
  -- selection than leads are handled, and no more leads have a URL after selection than before it.
  pub reached-IsCounted :
      (b : Bool) (s : State)
      → Reaches c b s
      → IsCounted s.counts (past_enrichment s) (length s.handled)
  unfolding past_enrichment init replicate positions total is_any_lead
  reached-IsCounted b _ start = record {
    enrichment = omega arith;
    social = omega arith;
    selection = omega arith;
    chosen = omega arith;
  }
  reached-IsCounted b _ (step s t r h) = Step-IsCounted s t h (reached-IsCounted b s r)
  reached-IsCounted b _ (request_cancellation s r) = reached-IsCounted b s r

  finished-Reports :
      (k : Counts) (p : Option PipelineProgress)
      → k.selection_after ≤ k.selection_before
      → Reports
          (k.enrichment_completed + k.enrichment_failed + k.social_completed + k.social_failed
            + k.selection_before)
          p
          (finish_streaming k p)
  unfolding Reports reported finish_streaming with_progress finish_stage
  finished-Reports k none h = refl
  finished-Reports k (some p) h = omega arith

  -- What the streaming part reports to a tracker at its end is the enrichments and the discoveries
  -- counted, and each lead that had a URL before selection once, as completed or as failed.
  pub reached-Reports :
      (b : Bool) (s : State) (p : Option PipelineProgress)
      → Reaches c b s
      → Reports
          (s.counts.enrichment_completed + s.counts.enrichment_failed + s.counts.social_completed
            + s.counts.social_failed + s.counts.selection_before)
          p
          (finish_streaming s.counts p)
  reached-Reports b s p r = finished-Reports s.counts p (reached-IsCounted b s r).selection
