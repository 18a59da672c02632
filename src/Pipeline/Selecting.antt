-- ===== src/Pipeline/Selecting.antt =====
-- app/pipeline/orchestrator.py: what is done for one lead in the last stage of the pipeline, URL
-- selection, and the counts of the stages.
pub mod Clean
use social_media_scraper.Base.{
  ℕ, ◌+◌, Bool, true, false, not, ◌&&◌, ◌||◌, Option, none, some, List, [], ◌∷◌, ◌++◌, Text,
  if◌then◌else◌,
}
use social_media_scraper.Exceptions.{Outcome, returned, raised, cancelled}
use social_media_scraper.Text.{codes}
use social_media_scraper.Leads.{BusinessLead, SocialLead}
use social_media_scraper.Social.Confidence.{Confidence, low, parse}
use social_media_scraper.Selection.Candidate.{Candidate, make_candidate}
use social_media_scraper.Selection.Ranking.{ScoreSettings}
use social_media_scraper.Selection.Engine.{SelectionResult, selection, truthy}

-- `_parse_confidence`
unfoldable pub parse_confidence : Option Text → Confidence
unfolding parse
parse_confidence none = low
parse_confidence (some value) = elim (parse value) [ none ↦ low | some confidence ↦ confidence ]

unfoldable pub candidate_of : Text → Option Text → Option Text → List Candidate
unfolding truthy parse_confidence make_candidate
candidate_of platform none confidence = []
candidate_of platform (some url) confidence =
    if truthy (some url)
    then make_candidate platform url (codes "social_discovery") (parse_confidence confidence) ∷ []
    else []

-- `_candidates_from_lead`
unfoldable pub candidates_from_lead : BusinessLead → List Candidate
unfolding candidate_of
candidates_from_lead lead =
    candidate_of (codes "instagram") lead.social.instagram_url lead.social.instagram_confidence
    ++ candidate_of (codes "facebook") lead.social.facebook_url lead.social.facebook_confidence

-- `lead.social.instagram_url or lead.social.facebook_url`, as a condition
unfoldable pub has_url : BusinessLead → Bool
unfolding truthy
has_url lead = truthy lead.social.instagram_url || truthy lead.social.facebook_url

-- A confidence, kept only beside a URL.
unfoldable pub beside : Option Text → Option Text → Option Text
unfolding truthy
beside url confidence = if truthy url then confidence else none

unfoldable pub store_result : SelectionResult → SocialLead → SocialLead
unfolding beside
store_result r social = record social {
  instagram_url = r.instagram_url;
  instagram_confidence = beside r.instagram_url social.instagram_confidence;
  facebook_url = r.facebook_url;
  facebook_confidence = beside r.facebook_url social.facebook_confidence;
}

unfoldable pub select_for : ScoreSettings → List Candidate → BusinessLead → BusinessLead
unfolding store_result
select_for s [] lead = lead
select_for s (c ∷ cs) lead = record lead {
  social = store_result (selection s (c ∷ cs)) lead.social;
}

-- The URL selection of one lead: the body of `UrlSelectionStage.process`'s loop, and of the
-- streaming social worker after discovery.
unfoldable pub select_urls : ScoreSettings → BusinessLead → BusinessLead
unfolding select_for candidates_from_lead
select_urls s lead = select_for s (candidates_from_lead lead) lead

-- `counts`, without the time spent
pub record Counts : Type 0 where
  pub enrichment_completed : ℕ
  pub enrichment_failed : ℕ
  pub social_completed : ℕ
  pub social_failed : ℕ
  pub selection_before : ℕ
  pub selection_after : ℕ

-- `not lead.website and lead.social.google_maps_url`
unfoldable pub needs_enrichment : BusinessLead → Bool
unfolding truthy
needs_enrichment lead = not (truthy lead.website) && truthy lead.social.google_maps_url

unfoldable pub is_none : Option Text → Bool
is_none none = true
is_none (some x) = false

unfoldable pub needs_social : BusinessLead → Bool
unfolding is_none
needs_social lead = is_none lead.social.instagram_url || is_none lead.social.facebook_url

-- A call of `enrich_one` sets the website at its end; one that raises leaves the lead as it is.
unfoldable pub enriched : Outcome (Option Text) → BusinessLead → BusinessLead
enriched (returned website) lead = record lead { website = website }
enriched _ lead = lead

-- the count after an attempt to enrich
unfoldable pub count_enrichment : BusinessLead → Counts → Counts
unfolding is_none
count_enrichment lead counts =
    if is_none lead.website
    then record counts { enrichment_failed = counts.enrichment_failed + 1 }
    else record counts { enrichment_completed = counts.enrichment_completed + 1 }

-- the count after social discovery, of a lead that needed it
unfoldable pub count_social : Bool → BusinessLead → Counts → Counts
unfolding has_url
count_social false lead counts = counts
count_social true lead counts =
    if has_url lead
    then record counts { social_completed = counts.social_completed + 1 }
    else record counts { social_failed = counts.social_failed + 1 }

-- the counts around the selection
unfoldable pub count_selection : BusinessLead → BusinessLead → Counts → Counts
unfolding has_url
count_selection before after counts = record counts {
  selection_before = counts.selection_before + (if has_url before then 1 else 0);
  selection_after = counts.selection_after + (if has_url after then 1 else 0);
}

-- The social worker's iteration from the end of discovery on: `needed` is whether the lead needed
-- discovery when the worker took it, and `lead` is what discovery has left.
unfoldable pub finish_social : ScoreSettings → Bool → BusinessLead → Counts → BusinessLead × Counts
unfolding count_social count_selection select_urls
finish_social s needed lead counts =
    let selected = select_urls s lead in
    (selected, count_selection lead selected (count_social needed lead counts))
