-- ===== src/Url/Helper.antt =====
-- app/utils/url_helper.py. `none` is the ValueError that `urlparse` raises.
use social_media_scraper.Base.{
  ℕ, Bool, true, false, not, ◌&&◌, ◌||◌, Option, none, some, List, [], ◌∷◌, ◌++◌, leb, ◌==◌,
  if◌then◌else◌, Text, ◌=?◌, text_eq, length, drop,
}
use social_media_scraper.Text.{
  codes, is_empty, is_alnum, lower, starts_with, has_code, rstrip_by, strip, split_first, split_on,
}
use social_media_scraper.Url.{Parsed, urlparse, urlunparse}

-- the part after the last separator
after_last : ℕ → Text → Text
unfolding has_code split_first
after_last c [] = []
after_last c (d ∷ s) = if has_code (d ∷ s) c then after_last c s else d ∷ s

before : ℕ → Text → Text
before c s = elim (split_first c s) [ none ↦ s | some (a, _) ↦ a ]

-- `urlparse(...).hostname or ""`
unfoldable pub hostname : Text → Text
unfolding after_last before split_first lower
hostname netloc =
    let host_port = after_last b'@' netloc in
    lower (elim (split_first b'[' host_port) [
      | none ↦ before b':' host_port
      | some (_, bracketed) ↦ before b']' bracketed
    ])

label_chars : Text → Bool
unfolding is_alnum
label_chars [] = true
label_chars (c ∷ s) = (is_alnum c || c == b'-') && label_chars s

ends_with_dash : Text → Bool
ends_with_dash [] = false
ends_with_dash (c ∷ []) = c == b'-'
ends_with_dash (c ∷ d ∷ s) = ends_with_dash (d ∷ s)

is_label : Text → Bool
unfolding label_chars ends_with_dash starts_with
is_label s =
    leb 1 (length s)
    && leb (length s) 63
    && label_chars s
    && not (starts_with s (codes "-"))
    && not (ends_with_dash s)

all_labels : List Text → Bool
unfolding is_label
all_labels [] = true
all_labels (s ∷ ss) = is_label s && all_labels ss

-- `_HOSTNAME_RE.match(hostname)`: no line end is left in a host that `urlparse` returns, so the
-- `$` of the expression matches at the end only.
unfoldable pub is_hostname : Text → Bool
unfolding all_labels split_on
is_hostname host = all_labels (split_on b'.' host)

valid_host : Text → Bool
unfolding is_hostname has_code
valid_host host = (host =? codes "localhost") || (has_code host b'.' && is_hostname host)

unfoldable pub is_valid_url : Text → Bool
unfolding hostname valid_host is_empty urlparse
is_valid_url url = elim (urlparse url) [
  | none ↦ false
  | some p ↦
      ((p.scheme =? codes "http") || (p.scheme =? codes "https"))
      && not (is_empty p.netloc)
      && valid_host (hostname p.netloc)
]

has_scheme : Text → Bool
unfolding starts_with
has_scheme url = starts_with url (codes "http://") || starts_with url (codes "https://")

unfoldable pub with_scheme : Text → Text
unfolding has_scheme
with_scheme url = if has_scheme url then url else codes "https://" ++ url

trim_path : Parsed → Text
unfolding rstrip_by urlunparse
trim_path p = urlunparse (record p { path = rstrip_by (λ c. c == b'/') p.path; fragment = [] })

unfoldable pub normalize_url : Text → Option Text
unfolding strip is_empty with_scheme trim_path urlparse
normalize_url raw =
    let url = strip raw in
    if is_empty url
    then some url
    else elim (urlparse (with_scheme url)) [ none ↦ none | some p ↦ some (trim_path p) ]

unfoldable pub extract_domain : Text → Option Text
unfolding with_scheme lower starts_with urlparse
extract_domain url = elim (urlparse (with_scheme url)) [
  | none ↦ none
  | some p ↦
      let domain = lower p.netloc in
      some (if starts_with domain (codes "www.") then drop 4 domain else domain)
]
