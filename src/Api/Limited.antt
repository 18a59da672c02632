-- ===== src/Api/Limited.antt =====
-- The endpoint over the run of the pipeline.
use social_media_scraper.Base.{
  ℕ, suc, ◌≡◌, ◌≤◌, ◌<◌, refl, ap, ◌∙◌, sym, inl, inr, true, Option, some, none, List, [], ◌∷◌, map,
  length, arith,
}
use social_media_scraper.Exceptions.{Outcome, returned}
use social_media_scraper.Discovery.Scroll.{ScrollEngine}
use social_media_scraper.Discovery.Cards.{Search}
use social_media_scraper.Discovery.Run.{Browser}
use social_media_scraper.Pipeline.Run.{Parts}
use social_media_scraper.Pipeline.Run.Isolated.{Starts, NotCancelled}
use social_media_scraper.Pipeline.Run.Limited.{Discovers, Streams, run_limited}
use social_media_scraper.Settings.Defaults.{max_leads}
use social_media_scraper.Api.{
  Payload, ApiResponse, SearchResult, from_domain, validate_search_request, ok, respond, search,
  search_result,
}
use social_media_scraper.Api.Accepted.{validate_search_request_lem}

length-map : {A B : Type 0} (f : A → B) (xs : List A) → length (map f xs) ≡ length xs
length-map f [] = refl
length-map f (x ∷ xs) = ap suc (length-map f xs)

content_of : Outcome Search → Option Search
content_of (returned r) = some r
content_of _ = none

accepted-limit :
    (payload : Payload) (r : Search)
    → validate_search_request payload ≡ returned r
    → r.limit ≤ max_leads
unfolding content_of
accepted-limit payload r e = elim (validate_search_request_lem payload) [
  | inl h ↦ let n = sym h ∙ e in absurd (ground arith)
  | inr (q, h, _, _, v) ↦
      let same : some q ≡ some r = ap content_of (sym h ∙ e) in
      let limited = v.limited in ground arith
]

-- the answer is a success with the leads, and says how many they are
pub record IsAnswer (response : ApiResponse) (limit : ℕ) : Type 0 where
  pub success : response.success ≡ true
  pub content :
      (result : SearchResult) × (response.content ≡ some result)
      × (result.total ≡ length result.leads)
      × (result.total ≤ limit)
  pub no_errors : response.errors ≡ []

-- For a request that is accepted, with a poll interval of scrolling that is not 0: a search over
-- the discovery and the streaming part that starts and is not cancelled answers with a success
-- that says how many leads it lists, at most as many as asked for and at most 500, whatever the
-- parts of the run raise.
pub search_limited :
    {X W : Type 0} (parts : Search → Parts X) (engine : ScrollEngine) (browser : Browser W)
    (payload : Payload) (r : Search)
    → validate_search_request payload ≡ returned r
    → Starts (parts r)
    → NotCancelled (parts r)
    → Discovers (parts r) r engine browser
    → Streams (parts r)
    → 0 < engine.poll_interval
    → (x : X)
    → (response : ApiResponse) × ((search parts r x).0 ≡ returned response)
      × IsAnswer response r.limit
      × (r.limit ≤ 500)
unfolding search respond ok search_result
search_limited parts engine browser payload r accepted up calm discovers streams pos x =
    let (q, e, le) = run_limited (parts r) r engine browser up calm discovers streams pos true x in
    (
      ok (search_result q),
      ap respond e,
      record {
        success = refl;
        content = (search_result q, refl, sym (length-map from_domain q.leads), le);
        no_errors = refl;
      },
      accepted-limit payload r accepted,
    )
