-- ===== src/Tests/Social.antt =====
-- Enrichment and social discovery, at concrete inputs.
use social_media_scraper.Base.{ℕ, none, some, List, [], ◌∷◌, true, Text}
use social_media_scraper.Text.{codes}
use social_media_scraper.Exceptions.{foreign}
use social_media_scraper.Coroutine.{pure, raise}
use social_media_scraper.Leads.{BusinessLead, EnrichmentCache}
use social_media_scraper.Enrichment
use social_media_scraper.Enrichment.{enrich_one}
use social_media_scraper.Enrichment.Effects.{Leaves, enrich_one-Leaves}
use social_media_scraper.Social.Discovery
use social_media_scraper.Social.Discovery.{discover_social_links_one}
use social_media_scraper.Social.Discovery.Keeps.{Extends, discover-Extends}
use social_media_scraper.Tests.Streaming.{plumber}

-- A browser that always fails; the world outside is a reading of the clock.
abbrev browser : Enrichment.Environment ℕ
browser = record {
  now = λ t. t;
  goto = λ url. raise (foreign 1);
  is_timeout = λ n. true;
  link_count = pure 0;
  first_href = pure none;
  uniform = λ jitter. pure 0;
  sleep = λ delay. pure tt;
  policy = record {
    max_attempts = 2;
    base_delay = 1;
    max_delay = 2;
    jitter = 0;
    retryable = Enrichment.retried_panel;
  };
}

abbrev place_url : Text
place_url = codes "p"

abbrev listed : BusinessLead
listed = record plumber { social = record plumber.social { google_maps_url = some place_url } }

-- The place is known to have no website.
abbrev known : EnrichmentCache
known = record {
  default_ttl = 60;
  store = (place_url, record { value = record { website = none }; expires_at = 60 }) ∷ [];
}

abbrev before : Enrichment.World ℕ
before = record { lead = listed; cache = some known; outside = 10 }

enrich_one-Leaves_example : Leaves before (enrich_one browser before)
enrich_one-Leaves_example = enrich_one-Leaves browser before

abbrev raw_urls : List Text
raw_urls =
    codes "https://ads.example/?u=1"
    ∷ codes "https://www.instagram.com/p/xyz/"
    ∷ codes "https://instagram.com/acmeplumbing"
    ∷ []

-- No website to fetch, and a search that finds two results.
abbrev web : Discovery.Environment ℕ
web = record {
  fetch = λ url. pure none;
  parse_html =
      λ html. record { footer = []; header = []; anchors = []; me_links = []; scripts = [] };
  discover = λ query. pure raw_urls;
}

discover-Extends_example :
    Extends plumber (discover_social_links_one web (record { lead = plumber; outside = 0 })).1.lead
discover-Extends_example = discover-Extends web (record { lead = plumber; outside = 0 })
