-- ===== src/Tests/Streaming.antt =====
-- One lead through the streaming pipeline, with one worker in each pool.
use social_media_scraper.Base.{
  ℕ, Option, Text, ◌≡◌, ◌≢◌, ◌≤◌, ◌+◌, refl, none, some, [], ◌∷◌, true, false, ◌⊎◌, arith,
}
use social_media_scraper.Exceptions.{Outcome}
use social_media_scraper.Text.{codes}
use social_media_scraper.Leads.{BusinessLead, SocialLead}
use social_media_scraper.Selection.Engine.{truthy}
use social_media_scraper.Selection.Ranking.{ScoreSettings}
use social_media_scraper.Pipeline.Selecting.{
  needs_enrichment, needs_social, is_none, select_urls, has_url,
}
use social_media_scraper.Pipeline.Stages.{Context, no_progress}
use social_media_scraper.Pipeline.Selecting.Clean.{IsSelectedFrom, select_urls_lem}
use social_media_scraper.Pipeline.Streaming.{
  Config, State, lead, done, gathering, finished, init, replicate, positions, Step, Reaches, start,
  step, feeder_put, enrich_skip, enrich_pass, enrich_exit, social_start, social_end, social_exit,
  gathered, close_put, joined, enrichment_needed, at_satisfies, enrich_capacity, social_capacity,
  handle,
}
use social_media_scraper.Pipeline.Streaming.Totals.{total, is_this}
use social_media_scraper.Pipeline.Streaming.Progress.{finished_handled, reached_can}
use social_media_scraper.Pipeline.Streaming.Turns.{no_links}
use social_media_scraper.Pipeline.Streaming.Exact.Finished.{finished_counts}
use social_media_scraper.Pipeline.Streaming.Staged.Finished.{whole_batch, finished_staged}
use social_media_scraper.Pipeline.Streaming.Measure.{stay, then_step, Run-bounded}

abbrev pub scores : ScoreSettings
scores = record { score_high = 100; score_medium = 60; score_low = 30; score_none = 0 }

-- A lead without a website and a Maps URL, which enrichment skips.
abbrev pub plumber : BusinessLead
plumber = record {
  business_name = codes "Acme Plumbing";
  website = none;
  social = no_links;
  source_keyword = none;
  source_location = none;
  discovered_at = 0;
}

abbrev one_lead : Config
one_lead = record {
  enrichment_workers = 1;
  social_workers = 1;
  settings = scores;
  leads = plumber ∷ [];
}

abbrev Reached : Type 0
Reached = (s : State) × Reaches one_lead false s

abbrev fed : Reached
unfolding init replicate positions enrich_capacity social_capacity enrichment_needed at_satisfies
    needs_enrichment needs_social is_none truthy handle
fed = (_, step _ _ start (feeder_put (lead 0) (done ∷ []) refl (omega arith)))

abbrev fed_all : Reached
unfolding init replicate positions enrich_capacity social_capacity enrichment_needed at_satisfies
    needs_enrichment needs_social is_none truthy handle
fed_all = (_, step fed.0 _ fed.1 (feeder_put done [] refl (omega arith)))

abbrev skipped : Reached
unfolding init replicate positions enrich_capacity social_capacity enrichment_needed at_satisfies
    needs_enrichment needs_social is_none truthy handle
skipped = (_, step fed_all.0 _ fed_all.1 (enrich_skip 0 (done ∷ []) refl (omega arith) refl))

abbrev passed : Reached
unfolding init replicate positions enrich_capacity social_capacity enrichment_needed at_satisfies
    needs_enrichment needs_social is_none truthy handle
passed = (_, step skipped.0 _ skipped.1 (enrich_pass 0 [] [] refl (omega arith)))

abbrev exited : Reached
unfolding init replicate positions enrich_capacity social_capacity enrichment_needed at_satisfies
    needs_enrichment needs_social is_none truthy handle
exited = (_, step passed.0 _ passed.1 (enrich_exit [] refl (omega arith)))

abbrev all_gathered : Reached
unfolding init replicate positions enrich_capacity social_capacity enrichment_needed at_satisfies
    needs_enrichment needs_social is_none truthy handle
all_gathered = (_, step exited.0 _ exited.1 (gathered refl refl refl))

abbrev taken : Reached
unfolding init replicate positions enrich_capacity social_capacity enrichment_needed at_satisfies
    needs_enrichment needs_social is_none truthy handle
taken = (_, step all_gathered.0 _ all_gathered.1 (social_start 0 [] refl (omega arith) refl))

abbrev closed : Reached
unfolding init replicate positions enrich_capacity social_capacity enrichment_needed at_satisfies
    needs_enrichment needs_social is_none truthy handle
closed = (_, step taken.0 _ taken.1 (close_put 0 refl (omega arith)))

abbrev discovered : Reached
unfolding init replicate positions enrich_capacity social_capacity enrichment_needed at_satisfies
    needs_enrichment needs_social is_none truthy handle
discovered = (_, step closed.0 _ closed.1 (social_end 0 [] [] no_links refl))

abbrev social_exited : Reached
unfolding init replicate positions enrich_capacity social_capacity enrichment_needed at_satisfies
    needs_enrichment needs_social is_none truthy handle
social_exited = (_, step discovered.0 _ discovered.1 (social_exit [] refl (omega arith)))

abbrev through : Reached
unfolding init replicate positions enrich_capacity social_capacity enrichment_needed at_satisfies
    needs_enrichment needs_social is_none truthy handle
through = (_, step social_exited.0 _ social_exited.1 (joined refl refl))

finished_handled_example : total (is_this 0) through.0.handled ≡ 1
unfolding init replicate positions enrich_capacity social_capacity enrichment_needed at_satisfies
    needs_enrichment needs_social is_none truthy handle
finished_handled_example =
    finished_handled one_lead false through.0 (omega arith) (omega arith) through.1 refl 0

finished_counts_example :
    (through.0.counts.social_completed + through.0.counts.social_failed ≡ 1)
    × ((through.0.cancel_event ≡ true)
        ⊎ (through.0.counts.enrichment_completed + through.0.counts.enrichment_failed ≡ 0))
unfolding init replicate positions enrich_capacity social_capacity enrichment_needed at_satisfies
    needs_enrichment needs_social is_none truthy handle
finished_counts_example =
    finished_counts one_lead false through.0 (omega arith) (omega arith) through.1 refl

finished_staged_example :
    (o : ℕ → Outcome (Option Text)) × (found : ℕ → SocialLead) × (through.0.store
      ≡ whole_batch one_lead o found)
unfolding init replicate positions enrich_capacity social_capacity enrichment_needed at_satisfies
    needs_enrichment needs_social is_none truthy handle
finished_staged_example =
    finished_staged one_lead false through.0 (omega arith) (omega arith) through.1 refl

not_finished : gathering ≢ finished
not_finished e = ground arith

reached_can_example : (t : State) × Step one_lead fed.0 t
unfolding init replicate positions enrich_capacity social_capacity enrichment_needed at_satisfies
    needs_enrichment needs_social is_none truthy handle
reached_can_example =
    reached_can one_lead false fed.0 (omega arith) (omega arith) fed.1 not_finished

Run-bounded_example : 1 ≤ 13
unfolding init replicate positions enrich_capacity social_capacity enrichment_needed at_satisfies
    needs_enrichment needs_social is_none truthy handle
Run-bounded_example =
    Run-bounded one_lead false 1 _
      (then_step 0 _ _ stay (feeder_put (lead 0) (done ∷ []) refl (omega arith)))

-- A lead with a profile to clean up, and what selection makes of it.
abbrev profiled : BusinessLead
profiled = record plumber {
  social = record no_links { instagram_url = some (codes "http://instagram.com/acme?igsh=1") };
}

select_urls_lem_example :
    ((has_url profiled ≡ false) × (select_urls scores profiled ≡ profiled))
    ⊎ ((has_url profiled ≡ true) × IsSelectedFrom profiled (select_urls scores profiled))
select_urls_lem_example = select_urls_lem scores profiled

-- Two leads at the end of discovery: one without any URL, one with a profile.
abbrev gathered_leads : Context
gathered_leads = record {
  leads = plumber ∷ profiled ∷ [];
  progress = some no_progress;
  metrics = none;
}
