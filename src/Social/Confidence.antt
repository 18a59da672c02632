-- ===== src/Social/Confidence.antt =====
-- app/enrichment/social/confidence.py.
use social_media_scraper.Base.{
  ℕ, Bool, true, false, ◌&&◌, ◌||◌, Option, none, some, List, [], ◌∷◌, leb, ◌==◌, if◌then◌else◌,
  Text, text_eq, ◌=?◌, contains, length, drop,
}
use social_media_scraper.Text.{codes, is_alnum, lower, starts_with, has_infix}

pub data Confidence : Type 0 where
  high medium low nothing : Confidence

-- The values of the enumeration, and the constructor call that reads one.
unfoldable pub value : Confidence → Text
value high = codes "high"
value medium = codes "medium"
value low = codes "low"
value nothing = codes "none"

unfoldable pub parse : Text → Option Confidence
parse s =
    if s =? codes "high"
    then some high
    else if s =? codes "medium"
    then some medium
    else if s =? codes "low"
    then some low
    else if s =? codes "none"
    then some nothing
    else none

abbrev pub facebook_non_profile_slugs : List Text
facebook_non_profile_slugs =
    codes "groups"
    ∷ codes "events"
    ∷ codes "watch"
    ∷ codes "marketplace"
    ∷ codes "permalink.php"
    ∷ codes "sharer"
    ∷ codes "sharer.php"
    ∷ codes "pages"
    ∷ []

unfoldable pub instagram_char : ℕ → Bool
unfolding is_alnum
instagram_char c = is_alnum c || c == b'_' || c == b'.'

unfoldable pub facebook_char : ℕ → Bool
unfolding is_alnum
facebook_char c = is_alnum c || c == b'.' || c == b'-'

-- The longest prefix of code points with `p`, and the rest.
unfoldable pub span : (ℕ → Bool) → Text → Text × Text
span p [] = ([], [])
span p (c ∷ s) = let (front, rest) = span p s in if p c then (c ∷ front, rest) else ([], c ∷ s)

-- What `/?$` matches: `$` stands at the end, and before a line end that ends the text.
unfoldable pub at_end : Text → Bool
at_end s = (s =? []) || (s =? codes "/") || (s =? (10 ∷ [])) || (s =? (b'/' ∷ 10 ∷ []))

-- `^<prefix>([p]{1,most})/?$`: the group, if the text matches.
unfoldable pub match_slug : Text → (ℕ → Bool) → ℕ → Text → Option Text
unfolding starts_with span at_end
match_slug prefix p most url =
    let (slug, rest) = span p (drop (length prefix) url) in
    if starts_with url prefix && leb 1 (length slug) && leb (length slug) most && at_end rest
    then some slug
    else none

-- `url.rsplit("id=", 1)[-1]`
unfoldable pub after_last_id : Text → Text
unfolding has_infix
after_last_id [] = []
after_last_id (c ∷ s) =
    if has_infix (c ∷ s) (codes "id=")
    then (if has_infix s (codes "id=") then after_last_id s else drop 3 (c ∷ s))
    else c ∷ s

instagram_slug : Text → Option Text
unfolding match_slug instagram_char
instagram_slug = match_slug (codes "https://www.instagram.com/") instagram_char 30

profile_slug : Option Text → Option Text
unfolding lower contains
profile_slug none = none
profile_slug (some slug) =
    if contains (lower slug) facebook_non_profile_slugs then none else some slug

facebook_slug : Text → Option Text
unfolding starts_with after_last_id profile_slug match_slug facebook_char
facebook_slug url =
    if starts_with url (codes "https://www.facebook.com/profile.php?id=")
    then some (after_last_id url)
    else profile_slug (match_slug (codes "https://www.facebook.com/") facebook_char 100 url)

unfoldable pub canonical_slug : Text → Text → Option Text
unfolding instagram_slug facebook_slug
canonical_slug url platform =
    if platform =? codes "instagram"
    then instagram_slug url
    else if platform =? codes "facebook"
    then facebook_slug url
    else none

unfoldable pub is_canonical_social_url : Text → Text → Bool
unfolding canonical_slug
is_canonical_social_url url platform = elim (canonical_slug url platform) [
  | none ↦ false
  | some _ ↦ true
]

named_platform : Text → Option Text → Bool
unfolding is_canonical_social_url
named_platform url none = false
named_platform url (some []) = false
named_platform url (some platform) = is_canonical_social_url url platform

unfoldable pub classify_confidence : Option Text → Bool → Option Text → Confidence
unfolding named_platform
classify_confidence none found platform = nothing
classify_confidence (some url) found platform =
    if found then high else if named_platform url platform then medium else low
