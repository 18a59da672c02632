-- ===== src/Tests/Providers.antt =====
-- A search with two links, the first a redirect.
use social_media_scraper.Base.{text_beq, ◌≡◌, refl, some, [], ◌∷◌, Text, arith}
use social_media_scraper.Exceptions.{returned}
use social_media_scraper.Text.{codes, drop_while}
use social_media_scraper.Providers.{Response, unwrap_redirect, discover}
use social_media_scraper.Providers.Listed.{Searched, discover-Searched}

abbrev redirect : Text
redirect = codes "//duckduckgo.com/l/?uddg=https%3A%2F%2Finstagram.com%2Facme&rut=1"

redirect_target : unwrap_redirect redirect ≡ some (some (codes "https://instagram.com/acme"))
unfolding unwrap_redirect drop_while text_beq
redirect_target = refl

abbrev page : Response
page = record { status_code = 200; hrefs = redirect ∷ codes "https://facebook.com/acme" ∷ [] }

discover-Searched_example : Searched 1 (returned page) (discover 1 (returned page))
discover-Searched_example = discover-Searched 1 (returned page) (omega arith)
