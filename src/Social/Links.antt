-- ===== src/Social/Links.antt =====
-- app/enrichment/social/link_extractor.py and app/enrichment/social/dedup.py. The HTML parser and
-- the JSON decoder are parameters: a page is what `extract` asks the parser for.
use social_media_scraper.Base.{
  ℕ, Bool, true, false, not, ◌&&◌, ◌||◌, Option, none, some, List, [], ◌∷◌, ◌++◌, ◌==◌,
  if◌then◌else◌, Text, text_eq, ◌=?◌, contains, drop, length,
}
use social_media_scraper.Text.{codes, is_space, lower, starts_with}
use social_media_scraper.Social.Normalizer.{normalize_social_url}

pub record LinkCandidate : Type 0 where
  pub url : Text
  pub platform : Text
  pub source : Text

-- `[^/?#\s]`
unfoldable pub handle_char : ℕ → Bool
handle_char c = not (c == b'/' || c == b'?' || c == b'#' || is_space c)

starts_handle : Text → Bool
unfolding handle_char
starts_handle [] = false
starts_handle (c ∷ s) = handle_char c

-- `<domain>/[^/?#\s]+` at the start of a text in lower case
profile_of : Text → Text → Bool
unfolding starts_handle starts_with
profile_of domain s = starts_with s domain && starts_handle (drop (length domain) s)

-- the same after one of the optional prefixes, or none
prefixed : List Text → Text → Text → Bool
unfolding profile_of starts_with
prefixed [] domain s = profile_of domain s
prefixed (p ∷ ps) domain s =
    (starts_with s p && profile_of domain (drop (length p) s)) || prefixed ps domain s

-- the same after a `//` somewhere
after_slashes : List Text → Text → Text → Bool
unfolding prefixed starts_with
after_slashes ps domain [] = false
after_slashes ps domain (c ∷ s) =
    (starts_with (c ∷ s) (codes "//") && prefixed ps domain (drop 2 (c ∷ s)))
    || after_slashes ps domain s

-- `_INSTAGRAM_RE` and `_FACEBOOK_RE`, ignoring the case of ASCII letters
unfoldable pub search : List Text → Text → Text → Bool
unfolding prefixed after_slashes lower
search ps domain s = prefixed ps domain (lower s) || after_slashes ps domain (lower s)

unfoldable pub classify_platform : Text → Option Text
unfolding search
classify_platform url =
    if search (codes "www." ∷ []) (codes "instagram.com/") url
    then some (codes "instagram")
    else if search (codes "www." ∷ codes "m." ∷ codes "mobile." ∷ []) (codes "facebook.com/") url
    then some (codes "facebook")
    else none

mutual
  -- What the JSON decoder returns. A repeated key has its last value only.
  pub data Json : Type 0 where
    text : Text → Json
    array : Jsons → Json
    object : Members → Json
    other : Json

  pub data Jsons : Type 0 where
    nil : Jsons
    cons : Json → Jsons → Jsons

  pub data Members : Type 0 where
    no_members : Members
    member : Text → Json → Members → Members

unfoldable pub lookup : Text → Members → Option Json
lookup k no_members = none
lookup k (member j v ms) = if j =? k then some v else lookup k ms

unfoldable pub to_list : Jsons → List Json
to_list nil = []
to_list (cons j js) = j ∷ to_list js

graph_of : Json → Option Json → List Json
unfolding to_list
graph_of item (some (array js)) = to_list js
graph_of item _ = item ∷ []

-- An item, or the items of its `@graph`.
unfoldable pub expand : Json → List Json
unfolding graph_of lookup
expand (object ms) = graph_of (object ms) (lookup (codes "@graph") ms)
expand item = item ∷ []

expand_all : List Json → List Json
unfolding expand
expand_all [] = []
expand_all (item ∷ items) = expand item ++ expand_all items

entries : Option Json → List Json
unfolding to_list
entries none = []
entries (some (text s)) = text s ∷ []
entries (some (array js)) = to_list js
entries (some _) = []

-- `item.get("sameAs", [])` of an object, as a list
same_as : Json → List Json
unfolding entries lookup
same_as (object ms) = entries (lookup (codes "sameAs") ms)
same_as _ = []

-- The candidates among the URLs from one place of the page.
unfoldable pub classified : Text → List Text → List LinkCandidate
unfolding classify_platform
classified source [] = []
classified source (url ∷ urls) =
    let rest = classified source urls in
    elim (classify_platform url) [
      | none ↦ rest
      | some platform ↦ record { url = url; platform = platform; source = source } ∷ rest
    ]

texts : List Json → List Text
texts [] = []
texts (text s ∷ js) = s ∷ texts js
texts (j ∷ js) = texts js

same_as_urls : List Json → List Text
unfolding same_as texts
same_as_urls [] = []
same_as_urls (item ∷ items) = texts (same_as item) ++ same_as_urls items

items_of : Json → List Json
unfolding to_list
items_of (array js) = to_list js
items_of item = item ∷ []

-- `_iter_json_ld_same_as`: `none` is a script without text, or text that is not JSON.
unfoldable pub iter_json_ld_same_as : Option Json → List LinkCandidate
unfolding items_of expand_all same_as_urls classified
iter_json_ld_same_as none = []
iter_json_ld_same_as (some json) =
    classified (codes "json_ld") (same_as_urls (expand_all (items_of json)))

-- The page: the `href`s of the anchors in the first `<footer>` and in the first `<header>` (none,
-- if there is no such element), of all anchors and of the `<link rel="me">`s, and the decoded
-- scripts of type `application/ld+json`.
pub record Page : Type 0 where
  pub footer : List Text
  pub header : List Text
  pub anchors : List Text
  pub me_links : List Text
  pub scripts : List (Option Json)

from_scripts : List (Option Json) → List LinkCandidate
unfolding iter_json_ld_same_as
from_scripts [] = []
from_scripts (j ∷ js) = iter_json_ld_same_as j ++ from_scripts js

-- `add`, for the candidates in their order: each distinct URL once, by its first occurrence
unfoldable pub add_all : List Text → List LinkCandidate → List LinkCandidate
add_all seen_urls [] = []
add_all seen_urls (c ∷ cs) =
    let skipped = add_all seen_urls cs in
    let added = add_all (c.url ∷ seen_urls) cs in
    if contains c.url seen_urls then skipped else c ∷ added

-- `SocialLinkExtractor.extract`
unfoldable pub extract : Page → List LinkCandidate
unfolding classified from_scripts add_all
extract page = add_all [] (
    classified (codes "footer") page.footer
    ++ classified (codes "header") page.header
    ++ classified (codes "anchor") page.anchors
    ++ classified (codes "meta") page.me_links
    ++ from_scripts page.scripts)

-- `deduplicate_candidates`, from some point of its loop on
unfoldable pub dedup_from : List Text → List LinkCandidate → List LinkCandidate
unfolding normalize_social_url
dedup_from seen [] = []
dedup_from seen (c ∷ cs) = elim (normalize_social_url c.url) [
  | none ↦ dedup_from seen cs
  | some normalized ↦ elim (contains normalized seen) [
    | true ↦ dedup_from seen cs
    | false ↦
        record { url = normalized; platform = c.platform; source = c.source }
        ∷ dedup_from (normalized ∷ seen) cs
  ]
]

unfoldable pub deduplicate_candidates : List LinkCandidate → List LinkCandidate
unfolding dedup_from
deduplicate_candidates = dedup_from []
