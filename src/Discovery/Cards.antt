-- ===== src/Discovery/Cards.antt =====
-- app/discovery/google_maps/card_extractor.py, the stages of
-- app/discovery/google_maps/pipeline.py that work on the cards, and the cleaning of names in
-- app/normalizers/business_name_normalizer.py and app/utils/string_helper.py. What the script in
-- the page returns is a parameter.
pub mod Collected
pub mod Readable
use social_media_scraper.Base.{
  ℕ, ◌+◌, ◌-◌, Bool, true, false, not, ◌&&◌, ◌||◌, Option, none, some, List, [], ◌∷◌, ◌++◌, length,
  take, ltb, ◌==◌, if◌then◌else◌, Text,
}
use social_media_scraper.Text.{is_empty, is_space, drop_while, rstrip_by, strip}
use social_media_scraper.Leads.{BusinessLead, SocialLead, deduplicate_leads}
use social_media_scraper.Normalizers.{normalize_business_url}
use social_media_scraper.Selection.Engine.{truthy}

-- each run of white space, as one space; the flag says that the run has begun
collapse : Bool → Text → Text
unfolding is_space
collapse in_run [] = []
collapse in_run (c ∷ s) =
    let rest_of_run = collapse true s in
    let rest = collapse false s in
    if is_space c then (if in_run then rest_of_run else 32 ∷ rest_of_run) else c ∷ rest

unfoldable pub clean_whitespace : Text → Text
unfolding collapse strip
clean_whitespace text = strip (collapse false text)

-- the characters in " -–—.,"
stray : ℕ → Bool
stray c = c == b' ' || c == b'-' || c == 8211 || c == 8212 || c == b'.' || c == b','

unfoldable pub normalize_business_name : Text → Text
unfolding clean_whitespace stray drop_while rstrip_by
normalize_business_name name = drop_while stray (rstrip_by stray (clean_whitespace name))

-- A card, as the script in the page reads it.
pub record RawCard : Type 0 where
  pub maps_url : Option Text
  pub raw_name : Option Text
  pub website : Option Text

pub record Search : Type 0 where
  pub keyword : Text
  pub location : Text
  pub limit : ℕ

-- The website of a card; the outer `none` is a ValueError.
card_website : Option Text → Option (Option Text)
unfolding truthy normalize_business_url
card_website none = some none
card_website (some url) =
    if truthy (some url)
    then elim (normalize_business_url url) [ none ↦ none | some website ↦ some (some website) ]
    else some none

with_website : Search → ℕ → Text → Text → Option (Option Text) → Option BusinessLead
unfolding normalize_business_name
with_website s now maps_url raw_name none = none
with_website s now maps_url raw_name (some website) = some (record {
  business_name = normalize_business_name raw_name;
  website = website;
  social = record {
    instagram_url = none;
    facebook_url = none;
    google_maps_url = some maps_url;
    instagram_confidence = none;
    facebook_confidence = none;
  };
  source_keyword = some s.keyword;
  source_location = some s.location;
  discovered_at = now;
})

build : Search → ℕ → Option Text → Option Text → Option (Option Text) → Option BusinessLead
unfolding with_website is_empty
build s now (some maps_url) (some raw_name) website =
    if is_empty maps_url || is_empty raw_name
    then none
    else with_website s now maps_url raw_name website
build s now _ _ website = none

-- `_build_lead`
unfoldable pub build_lead : Search → ℕ → RawCard → Option BusinessLead
unfolding build card_website
build_lead s now raw = build s now raw.maps_url raw.raw_name (card_website raw.website)

keep_built : Option BusinessLead → List BusinessLead → List BusinessLead
keep_built none leads = leads
keep_built (some lead) leads = lead ∷ leads

-- `extract_all`; the n-th card is read at the time `clock n`.
unfoldable pub extract_all : Search → (ℕ → ℕ) → ℕ → List (Option RawCard) → List BusinessLead
unfolding keep_built build_lead
extract_all s clock n [] = []
extract_all s clock n (none ∷ raws) = extract_all s clock (n + 1) raws
extract_all s clock n (some raw ∷ raws) =
    keep_built (build_lead s (clock n) raw) (extract_all s clock (n + 1) raws)

-- `CollectCardsStage.process`
unfoldable pub collect : Search → List BusinessLead → List BusinessLead
collect s leads = if ltb s.limit (length leads) then take s.limit leads else leads

-- `CollectCardsStage`, then `DeduplicateStage`: the leads and the number of duplicates.
unfoldable pub collect_cards : Search → (ℕ → ℕ) → List (Option RawCard) → List BusinessLead × ℕ
unfolding collect extract_all deduplicate_leads
collect_cards s clock raws = deduplicate_leads (collect s (extract_all s clock 0 raws))

-- app/discovery/google_maps/progress_tracker.py: what is left of the target.
unfoldable pub remaining : ℕ → ℕ → ℕ
remaining target_limit collected = target_limit - collected
