-- ===== src/Api.antt =====
-- The web API: app/schemas/search.py, app/validators/search_validator.py and
-- app/api/v1/endpoints/search.py, with the envelope of app/schemas/response.py. Limits are natural
-- numbers, so that a negative limit, which is rejected like 0, is left out; so are timestamps.
pub mod Accepted
pub mod Limited
use social_media_scraper.Base.{
  ℕ, Bool, true, false, ◌&&◌, Option, none, some, List, [], map, length, leb, if◌then◌else◌, Text,
}
use social_media_scraper.Exceptions.{
  Error, domain, validation_error, value_error, Outcome, returned, raised, cancelled,
}
use social_media_scraper.Text.{is_empty, strip}
use social_media_scraper.Leads.{BusinessLead}
use social_media_scraper.Settings.Defaults.{default_lead_limit, max_leads}
use social_media_scraper.Discovery.Cards.{Search}
use social_media_scraper.Pipeline.Stages.{PipelineProgress, PipelineMetrics}
use social_media_scraper.Pipeline.Run.{Parts, PipelineResult, World, run}

-- the body of a request, with its fields as they came
pub record Payload : Type 0 where
  pub keyword : Text
  pub location : Text
  pub limit : Option ℕ

-- `min_length=2, max_length=200`, which are tested first
unfoldable pub has_length : Text → Bool
has_length value = leb 2 (length value) && leb (length value) 200

unfoldable pub not_blank : Text → Outcome Text
unfolding is_empty strip
not_blank value = if is_empty (strip value) then raised value_error else returned (strip value)

-- One of the two texts; `none` is an error in the list of pydantic's ValidationError.
unfoldable pub text_field : Text → Option Text
unfolding has_length not_blank
text_field value =
    if has_length value
    then elim (not_blank value) [ returned v ↦ some v | raised e ↦ none | cancelled ↦ none ]
    else none

-- `default=DEFAULT_LEAD_LIMIT, ge=1, le=MAX_LEADS`
unfoldable pub limit_field : Option ℕ → Option ℕ
limit_field none = some default_lead_limit
limit_field (some n) = if leb 1 n && leb n max_leads then some n else none

unfoldable pub from_fields : Option Text → Option Text → Option ℕ → Option Search
from_fields (some keyword) (some location) (some limit) =
    some (record { keyword = keyword; location = location; limit = limit })
from_fields _ _ _ = none

-- `SearchRequest(**data)`
unfoldable pub search_request : Payload → Option Search
unfolding text_field limit_field from_fields
search_request payload =
    from_fields (text_field payload.keyword) (text_field payload.location)
      (limit_field payload.limit)

unfoldable pub validate_search_request : Payload → Outcome Search
unfolding search_request
validate_search_request payload = elim (search_request payload) [
  | some request ↦ returned request
  | none ↦ raised (domain validation_error)
]

pub record SocialLinksOut : Type 0 where
  pub instagram_url : Option Text
  pub facebook_url : Option Text
  pub google_maps_url : Option Text
  pub instagram_confidence : Option Text
  pub facebook_confidence : Option Text

pub record LeadOut : Type 0 where
  pub business_name : Text
  pub website : Option Text
  pub social : SocialLinksOut
  pub source_keyword : Option Text
  pub source_location : Option Text
  pub discovered_at : ℕ

unfoldable pub from_domain : BusinessLead → LeadOut
from_domain lead = record {
  business_name = lead.business_name;
  website = lead.website;
  social = record {
    instagram_url = lead.social.instagram_url;
    facebook_url = lead.social.facebook_url;
    google_maps_url = lead.social.google_maps_url;
    instagram_confidence = lead.social.instagram_confidence;
    facebook_confidence = lead.social.facebook_confidence;
  };
  source_keyword = lead.source_keyword;
  source_location = lead.source_location;
  discovered_at = lead.discovered_at;
}

pub record SearchResult : Type 0 where
  pub leads : List LeadOut
  pub total : ℕ
  pub stage_times : Option PipelineMetrics
  pub success_rate : ℕ × ℕ
  pub progress : Option PipelineProgress

-- `content` is the source's `data`.
pub record ApiResponse : Type 0 where
  pub success : Bool
  pub content : Option SearchResult
  pub errors : List Text

-- `APIResponse.ok`
unfoldable pub ok : SearchResult → ApiResponse
ok result = record { success = true; content = some result; errors = [] }

unfoldable pub search_result : PipelineResult → SearchResult
unfolding from_domain
search_result r = record {
  leads = map from_domain r.leads;
  total = length r.leads;
  stage_times = r.stage_times;
  success_rate = r.success_rate;
  progress = r.progress;
}

unfoldable pub respond : Outcome PipelineResult → Outcome ApiResponse
unfolding ok search_result
respond (returned r) = returned (ok (search_result r))
respond (raised e) = raised e
respond cancelled = cancelled

-- `search`, with a new orchestrator that owns its browser
unfoldable pub search :
    {X : Type 0} → (Search → Parts X) → Search → X → Outcome ApiResponse × World X
unfolding respond run
search parts request x = let (o, w) = run (parts request) true x in (respond o, w)
