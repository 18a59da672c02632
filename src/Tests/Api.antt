-- ===== src/Tests/Api.antt =====
-- Requests of a search, and an answer over the small world of the pipeline's tests.
use social_media_scraper.Base.{◌≡◌, ◌≤◌, ◌⊎◌, refl, some, arith}
use social_media_scraper.Exceptions.{returned, raised, domain, validation_error}
use social_media_scraper.Text.{codes, strip, is_empty, is_space, drop_while, rstrip_by}
use social_media_scraper.Discovery.Cards.{Search}
use social_media_scraper.Api.{
  Payload, ApiResponse, validate_search_request, search_request, text_field, limit_field,
  from_fields, has_length, not_blank, search,
}
use social_media_scraper.Api.Accepted.{IsRequest, validate_search_request_lem}
use social_media_scraper.Api.Limited.{IsAnswer, search_limited}
use social_media_scraper.Tests.Run.{
  scrolling, plumbers, maps_page, composed, composed-Starts, composed-NotCancelled,
  composed-Discovers, composed-Streams,
}

abbrev payload : Payload
payload = record { keyword = codes " plumbers "; location = codes "Austin"; limit = some 2 }

payload-accepted : validate_search_request payload ≡ returned plumbers
unfolding validate_search_request search_request text_field limit_field from_fields has_length
    not_blank strip is_empty is_space drop_while rstrip_by
payload-accepted = refl

-- One letter and a blank has the length that is asked for.
blank_counts :
    validate_search_request (record payload { keyword = codes "a " })
    ≡ returned (record plumbers { keyword = codes "a" })
unfolding validate_search_request search_request text_field limit_field from_fields has_length
    not_blank strip is_empty is_space drop_while rstrip_by
blank_counts = refl

validate_search_request_lem_example :
    (validate_search_request payload ≡ raised (domain validation_error))
    ⊎ ((r : Search) × (validate_search_request payload ≡ returned r)
        × (r.keyword ≡ strip payload.keyword)
        × (r.location ≡ strip payload.location)
        × IsRequest r)
validate_search_request_lem_example = validate_search_request_lem payload

search_limited_example :
    (response : ApiResponse) × ((search (λ r. composed) plumbers 0).0 ≡ returned response)
    × IsAnswer response 2
    × (2 ≤ 500)
search_limited_example =
    search_limited (λ r. composed) scrolling maps_page payload plumbers payload-accepted
      composed-Starts composed-NotCancelled composed-Discovers composed-Streams (omega arith) 0
