-- ===== src/Url.antt =====
-- The parts of Python's `urllib.parse` that the program uses (`urlsplit`, `urlparse`, `urlunparse`), as
-- in CPython 3.11 but for the content of a bracketed host, which is not checked here; on texts that
-- Unicode normalisation leaves alone.
pub mod Query
pub mod Helper
use social_media_scraper.Base.{
  ℕ, zero, suc, ◌+◌, ◌-◌, Bool, true, false, not, ◌&&◌, ◌||◌, Option, none, some, List, [], ◌∷◌,
  ◌++◌, map, ltb, leb, ◌==◌, if◌then◌else◌, Text, select, contains, text_eq,
}
use social_media_scraper.Text.{
  codes, is_empty, is_alpha, is_alnum, lower, starts_with, has_code, drop_while, rstrip_by,
  split_first,
}

pub record Parsed : Type 0 where
  pub scheme : Text
  pub netloc : Text
  pub path : Text
  pub params : Text
  pub query : Text
  pub fragment : Text

-- the code points removed by `urlsplit`: C0 controls and spaces at the start, and tabs and line
-- ends anywhere
clean_url : Text → Text
clean_url s = select (λ c. not (c == 9 || c == 10 || c == 13)) (drop_while (λ c. leb c 32) s)

all_scheme_chars : Text → Bool
unfolding is_alnum
all_scheme_chars [] = true
all_scheme_chars (c ∷ s) = (is_alnum c || c == b'+' || c == b'-' || c == b'.') && all_scheme_chars s

is_scheme : Text → Bool
unfolding is_alpha all_scheme_chars
is_scheme [] = false
is_scheme (c ∷ s) = is_alpha c && all_scheme_chars (c ∷ s)

-- the scheme in lower case, and the rest
split_scheme : Text → Text × Text
unfolding split_first is_scheme lower
split_scheme url = elim (split_first b':' url) [
  | none ↦ ([], url)
  | some (scheme, rest) ↦ if is_scheme scheme then (lower scheme, rest) else ([], url)
]

-- up to the first of `/`, `?` and `#`
split_netloc : Text → Text × Text
split_netloc [] = ([], [])
split_netloc (c ∷ s) =
    let (netloc, rest) = split_netloc s in
    if c == b'/' || c == b'?' || c == b'#' then ([], c ∷ s) else (c ∷ netloc, rest)

-- the part before the separator and the part after it, which is empty if there is none
cut : ℕ → Text → Text × Text
unfolding split_first
cut c s = elim (split_first c s) [ none ↦ (s, []) | some (a, b) ↦ (a, b) ]

-- whether `;` splits parameters off the last segment of a path
uses_params : Text → Bool
unfolding contains
uses_params scheme = contains scheme (
    []
    ∷ codes "ftp"
    ∷ codes "hdl"
    ∷ codes "prospero"
    ∷ codes "http"
    ∷ codes "https"
    ∷ codes "shttp"
    ∷ codes "rtsp"
    ∷ codes "rtspu"
    ∷ codes "sip"
    ∷ codes "sips"
    ∷ codes "mms"
    ∷ codes "sftp"
    ∷ codes "tel"
    ∷ [])

-- `_splitparams`
split_params : Text → Text × Text
unfolding has_code cut
split_params [] = ([], [])
split_params (c ∷ s) =
    let (path, params) = split_params s in
    if has_code (c ∷ s) b'/' then (c ∷ path, params) else cut b';' (c ∷ s)

balanced_brackets : Text → Bool
unfolding has_code
balanced_brackets netloc = elim (has_code netloc b'[') [
  | true ↦ has_code netloc b']'
  | false ↦ not (has_code netloc b']')
]

path_params : Text → Text → Text × Text
unfolding uses_params has_code split_params
path_params scheme path =
    if uses_params scheme && has_code path b';' then split_params path else (path, [])

-- `urlparse(url)`: `none` is the ValueError for a bracket that is not matched
unfoldable pub urlparse : Text → Option Parsed
unfolding clean_url split_scheme starts_with split_netloc balanced_brackets cut path_params
urlparse url =
    let (scheme, rest) = split_scheme (clean_url url) in
    let (netloc, rest') =
      if starts_with rest (codes "//")
      then split_netloc (elim rest [ _ ∷ _ ∷ r ↦ r | r ↦ r ])
      else ([], rest) in
    let (rest'', fragment) = cut b'#' rest' in
    let (whole_path, query) = cut b'?' rest'' in
    let (path, params) = path_params scheme whole_path in
    if balanced_brackets netloc
    then some (record {
      scheme = scheme;
      netloc = netloc;
      path = path;
      params = params;
      query = query;
      fragment = fragment;
    })
    else none

-- the separator and the text, if the text is not empty
suffix : ℕ → Text → Text
unfolding is_empty
suffix c s = if is_empty s then [] else c ∷ s

-- `scheme in uses_netloc`, for the schemes that the program meets
uses_netloc : Text → Bool
unfolding contains
uses_netloc scheme =
    contains scheme
      (codes "ftp" ∷ codes "http" ∷ codes "https" ∷ codes "file" ∷ codes "ws" ∷ codes "wss" ∷ [])

with_netloc : Text → Text → Text → Text
unfolding is_empty starts_with uses_netloc
with_netloc scheme netloc url =
    if not (is_empty netloc)
      || (not (is_empty scheme) && uses_netloc scheme && not (starts_with url (codes "//")))
    then codes "//"
      ++ netloc
      ++ (if is_empty url || starts_with url (codes "/") then url else b'/' ∷ url)
    else url

-- `urlunparse(parsed)`
unfoldable pub urlunparse : Parsed → Text
unfolding with_netloc suffix
urlunparse p =
    let url = with_netloc p.scheme p.netloc (p.path ++ suffix b';' p.params) in
    (if is_empty p.scheme then url else p.scheme ++ b':' ∷ url)
    ++ suffix b'?' p.query
    ++ suffix b'#' p.fragment
