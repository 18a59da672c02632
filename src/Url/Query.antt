-- ===== src/Url/Query.antt =====
-- The parts of Python's `urllib.parse` that read and write query strings (`parse_qsl`, `parse_qs`,
-- `urlencode`), with the UTF-8 coding that they use: on decoding, what is not UTF-8 becomes
-- U+FFFD.
pub mod Percent
use social_media_scraper.Base.{
  ℕ, Bool, not, ◌&&◌, Option, none, some, List, [], ◌∷◌, ◌++◌, map, if◌then◌else◌, Text, ◌=?◌,
  text_eq, ◌==◌,
}
use social_media_scraper.Text.{is_empty, split_first, split_on}
use Percent.{quote_plus, unquote_plus}

-- one `name=value`; one with no `=` or with no value is dropped
parse_pair : Text → Option (Text × Text)
unfolding split_first is_empty unquote_plus
parse_pair nv = elim (split_first b'=' nv) [
  | none ↦ none
  | some (k, v) ↦ if is_empty v then none else some (unquote_plus k, unquote_plus v)
]

parse_pairs : List Text → List (Text × Text)
unfolding parse_pair
parse_pairs [] = []
parse_pairs (nv ∷ nvs) =
    let rest = parse_pairs nvs in elim (parse_pair nv) [ none ↦ rest | some p ↦ p ∷ rest ]

-- `parse_qsl(query)`
unfoldable pub parse_qsl : Text → List (Text × Text)
unfolding parse_pairs split_on
parse_qsl query = parse_pairs (split_on b'&' query)

values_of : Text → List (Text × Text) → List Text
values_of key [] = []
values_of key ((k, v) ∷ ps) = let rest = values_of key ps in if k =? key then v ∷ rest else rest

-- `parse_qs(query).get(key)`: the key is missing where this is empty
unfoldable pub parse_qs_get : Text → Text → List Text
unfolding parse_qsl values_of
parse_qs_get query key = values_of key (parse_qsl query)

encode_pair : Text × Text → Text
unfolding quote_plus
encode_pair (k, v) = quote_plus k ++ b'=' ∷ quote_plus v

-- `urlencode(pairs)`
unfoldable pub urlencode : List (Text × Text) → Text
unfolding encode_pair
urlencode [] = []
urlencode (p ∷ []) = encode_pair p
urlencode (p ∷ q ∷ ps) = encode_pair p ++ b'&' ∷ urlencode (q ∷ ps)
