-- ===== src/Social/Discovery.antt =====
-- app/enrichment/social/batch.py: `discover_social_links_one`, without a metrics object. The
-- fetcher, the HTML parser and the search provider are parameters. The two lookups that
-- `asyncio.gather` runs share nothing: the one for Instagram comes first here.
pub mod Keeps
use social_media_scraper.Base.{
  ℕ, Bool, true, false, not, ◌&&◌, ◌||◌, Option, none, some, List, [], ◌∷◌, if◌then◌else◌, Text,
  text_eq, ◌=?◌,
}
use social_media_scraper.Exceptions.{Error, Outcome, returned, raised, cancelled}
use social_media_scraper.Coroutine.{Coroutine, pure, gets, modify, ◌>>=◌, ◌>>◌}
use social_media_scraper.Text.{codes, is_empty}
use social_media_scraper.Leads.{BusinessLead, SocialLead}
use social_media_scraper.Selection.Engine.{truthy}
use social_media_scraper.Social.Confidence.{
  Confidence, high, medium, low, value, is_canonical_social_url,
}
use social_media_scraper.Social.Normalizer.{normalize_social_url}
use social_media_scraper.Social.Links.{
  LinkCandidate, Page, classify_platform, extract, deduplicate_candidates,
}
use social_media_scraper.Social.Fallback.{query, find}

pub record Environment (X : Type 0) : Type 0 where
  -- `fetcher.fetch`
  pub fetch : Text → Coroutine X (Option Text)
  pub parse_html : Text → Page
  -- the provider's `discover`, for a query
  pub discover : Text → Coroutine X (List Text)

-- The lead, which is changed in place, and everything else.
pub record World (X : Type 0) : Type 0 where
  pub lead : BusinessLead
  pub outside : X

unfoldable pub is_none : {A : Type 0} → Option A → Bool
is_none none = true
is_none (some x) = false

unfoldable pub set_instagram : Text → Confidence → BusinessLead → BusinessLead
set_instagram url c lead = record lead {
  social = record lead.social { instagram_url = some url; instagram_confidence = some (value c) };
}

unfoldable pub set_facebook : Text → Confidence → BusinessLead → BusinessLead
set_facebook url c lead = record lead {
  social = record lead.social { facebook_url = some url; facebook_confidence = some (value c) };
}

-- The two platforms' fields.
pub data Platform : Type 0 where
  instagram facebook : Platform

unfoldable pub name_of : Platform → Text
name_of instagram = codes "instagram"
name_of facebook = codes "facebook"

unfoldable pub url_of : Platform → BusinessLead → Option Text
url_of instagram lead = lead.social.instagram_url
url_of facebook lead = lead.social.facebook_url

unfoldable pub set_url : Platform → Text → Confidence → BusinessLead → BusinessLead
unfolding set_instagram set_facebook
set_url instagram = set_instagram
set_url facebook = set_facebook

-- `needs_instagram`, `needs_facebook`: each becomes false where the URL is set.
unfoldable pub needs : Platform → BusinessLead → Bool
unfolding is_none url_of
needs p lead = is_none (url_of p lead)

-- A URL for a platform, if there is one and the lead still needs it.
unfoldable pub fill : Platform → Option (Text × Confidence) → BusinessLead → BusinessLead
unfolding needs set_url
fill p none lead = lead
fill p (some (url, c)) lead = if needs p lead then set_url p url c lead else lead

website_platform : Option Text → Option Text
unfolding truthy classify_platform
website_platform none = none
website_platform (some url) = if truthy (some url) then classify_platform url else none

-- The platform that the website itself is on.
unfoldable pub platform_of : BusinessLead → Option Text
unfolding website_platform
platform_of lead = website_platform lead.website

own_url : Platform → Option Text → Option Text → Option (Text × Confidence)
unfolding name_of normalize_social_url
own_url p (some platform) (some website) =
    if platform =? name_of p
    then elim (normalize_social_url website) [ none ↦ none | some url ↦ some (url, high) ]
    else none
own_url p _ _ = none

-- the website, taken as the profile that it is
unfoldable pub from_own : BusinessLead → BusinessLead
unfolding fill own_url platform_of
from_own lead =
    fill facebook (own_url facebook (platform_of lead) lead.website)
      (fill instagram (own_url instagram (platform_of lead) lead.website) lead)

-- the first candidate of a platform
unfoldable pub first_match : Platform → List LinkCandidate → Option (Text × Confidence)
unfolding name_of is_canonical_social_url
first_match p [] = none
first_match p (c ∷ cs) =
    let rest = first_match p cs in
    if c.platform =? name_of p
    then some (c.url, if is_canonical_social_url c.url (name_of p) then high else medium)
    else rest

unfoldable pub from_candidates : List LinkCandidate → BusinessLead → BusinessLead
unfolding fill first_match
from_candidates cs lead =
    fill facebook (first_match facebook cs) (fill instagram (first_match instagram cs) lead)

answered : Option Text × Bool → Option (Text × Confidence)
unfolding is_empty
answered (none, canonical) = none
answered (some url, canonical) =
    if is_empty url then none else some (url, if canonical then medium else low)

module _ {X : Type 0} (env : Environment X) where
  -- Something done outside the lead.
  unfoldable pub outside : {A : Type 0} → Coroutine X A → Coroutine (World X) A
  outside m w = let (o, x) = m w.outside in (o, record w { outside = x })

  unfoldable pub update : (BusinessLead → BusinessLead) → Coroutine (World X) Unit
  update f = modify (λ w. record w { lead = f w.lead })

  candidates_in : Option Text → List LinkCandidate
  unfolding is_empty extract deduplicate_candidates
  candidates_in none = []
  candidates_in (some html) =
      if is_empty html then [] else deduplicate_candidates (extract (env.parse_html html))

  fetch_candidates : Option Text → Coroutine (World X) (List LinkCandidate)
  unfolding outside candidates_in
  fetch_candidates none = pure []
  fetch_candidates (some website) =
      outside (env.fetch website) >>= λ html. pure (candidates_in html)

  -- whether the website is fetched
  unfoldable pub wants_page : BusinessLead → Bool
  unfolding needs truthy platform_of is_none
  wants_page lead =
      (needs instagram lead || needs facebook lead)
      && truthy lead.website
      && is_none (platform_of lead)

  website_candidates : BusinessLead → Coroutine (World X) (List LinkCandidate)
  unfolding fetch_candidates wants_page
  website_candidates lead = if wants_page lead then fetch_candidates lead.website else pure []

  -- `fallback.find`
  unfoldable pub look_up :
      BusinessLead → Platform → Coroutine (World X) (Option (Text × Confidence))
  unfolding outside answered find query name_of
  look_up lead p = outside (env.discover (query lead.business_name (name_of p))) >>= λ raw_urls.
      pure (answered (find lead.business_name (name_of p) raw_urls))

  look_up_if : Bool → BusinessLead → Platform → Coroutine (World X) (Option (Text × Confidence))
  unfolding look_up
  look_up_if needed lead p = if needed then look_up lead p else pure none

  -- both answers are there before either is stored
  unfoldable pub fall_back : BusinessLead → Coroutine (World X) Unit
  unfolding look_up_if update fill needs
  fall_back lead = look_up_if (needs instagram lead) lead instagram >>= λ on_instagram.
      look_up_if (needs facebook lead) lead facebook >>= λ on_facebook.
      update (λ l. fill facebook on_facebook (fill instagram on_instagram l))

  -- `discover_social_links_one`
  unfoldable pub discover_social_links_one : Coroutine (World X) Unit
  unfolding update from_own website_candidates from_candidates fall_back
  discover_social_links_one = update from_own >> gets (λ w. w.lead) >>= λ lead.
      website_candidates lead >>= λ cs.
      update (from_candidates cs) >> gets (λ w. w.lead) >>= λ lead. fall_back lead
