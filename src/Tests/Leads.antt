-- ===== src/Tests/Leads.antt =====
-- The caches, the removal of duplicate leads and the selection, at concrete inputs.
use social_media_scraper.Base.{ℕ, ◌≡◌, refl, none, some, List, [], ◌∷◌, arith, Text, text_beq}
use social_media_scraper.Text.{codes, is_empty, is_digit, starts_with}
use social_media_scraper.Cache
use social_media_scraper.Cache.History.{
  Call, set_call, get_call, later, run, contract, run-contract,
}
use social_media_scraper.Cache.Refinement.{bind, unbind}
use social_media_scraper.Leads.{
  BusinessLead, EnrichmentCache, is_hex_digit, span_hex, after_prefix, match_hex, match_pair,
  match_place, extract_place_id, enrichment_get, enrichment_set, deduplicate_leads,
}
use social_media_scraper.Leads.Kept.{IsUniqueOf, deduplicate_leads-IsUniqueOf}
use social_media_scraper.Leads.Places.{enrichment_get-set}
use social_media_scraper.Social.Confidence.{high, medium}
use social_media_scraper.Selection.Candidate.{Candidate, make_candidate}
use social_media_scraper.Selection.Engine.{selection}
use social_media_scraper.Selection.Engine.Choice.{IsBest, selection-IsBest}
use social_media_scraper.Tests.Streaming.{scores, plumber}

abbrev history : List (Call ℕ)
history =
    set_call (codes "k") 1 none
    ∷ later 5
    ∷ get_call (codes "k")
    ∷ later 6
    ∷ get_call (codes "k")
    ∷ set_call (codes "k") 2 (some 50)
    ∷ later 50
    ∷ get_call (codes "k")
    ∷ []

run-contract_example : run 0 history (Cache.init 10) ≡ some 1 ∷ none ∷ some 2 ∷ []
unfolding contract bind unbind text_beq
run-contract_example = run-contract 10 0 history

abbrev listed : Text → BusinessLead
listed url = record plumber { social = record plumber.social { google_maps_url = some url } }

abbrev first_url : Text
first_url = codes "https://maps/place/!1s0xA:0xB?hl=en"

abbrev second_url : Text
second_url = codes "https://maps/x!1s0xA:0xB"

abbrev found : List BusinessLead
found = listed first_url ∷ plumber ∷ listed second_url ∷ []

deduplicate_leads-IsUniqueOf_example :
    IsUniqueOf found (deduplicate_leads found).0 (deduplicate_leads found).1
deduplicate_leads-IsUniqueOf_example = deduplicate_leads-IsUniqueOf found

abbrev no_entries : EnrichmentCache
no_entries = record { default_ttl = 60; store = [] }

enrichment_get-set_example :
    (enrichment_get 130 second_url (enrichment_set 100 first_url none no_entries)).0
    ≡ some (record { website = none })
unfolding extract_place_id match_place match_pair match_hex after_prefix span_hex is_hex_digit
    is_digit is_empty starts_with
enrichment_get-set_example =
    enrichment_get-set 100 130 first_url second_url (codes "0xA:0xB") none no_entries refl refl
      (omega arith)

abbrev candidates : List Candidate
candidates =
    make_candidate (codes "instagram") (codes "instagram.com/acme") (codes "footer") high
    ∷ make_candidate (codes "instagram") (codes "https://www.instagram.com/acme/") (codes "anchor")
        medium
    ∷ make_candidate (codes "facebook") (codes "m.facebook.com/acme") (codes "anchor") medium
    ∷ []

selection-IsBest_example :
    IsBest scores (codes "instagram") candidates (selection scores candidates).instagram_url
    × IsBest scores (codes "facebook") candidates (selection scores candidates).facebook_url
selection-IsBest_example = selection-IsBest scores candidates
