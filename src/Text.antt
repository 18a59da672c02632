-- ===== src/Text.antt =====
-- Python's `str` methods, on texts as lists of code points. `lower` and the letter tests read
-- ASCII letters only; `strip` removes every code point that Python counts as white space.
pub mod Strip
use Prim.Native.Char.{code}
use Prim.Native.String.{String}
use social_media_scraper.Base.{
  ℕ, ◌+◌, Bool, true, false, ◌&&◌, ◌||◌, Option, none, some, List, [], ◌∷◌, map, leb, ◌==◌,
  if◌then◌else◌, Text,
}

-- The code points of a literal.
abbrev pub codes : String → Text
codes String.[] = []
codes (String.◌∷◌ c s) = code c ∷ codes s

unfoldable pub is_empty : Text → Bool
is_empty [] = true
is_empty (c ∷ s) = false

between : ℕ → ℕ → ℕ → Bool
between lo hi c = leb lo c && leb c hi

unfoldable pub is_space : ℕ → Bool
unfolding between
is_space c =
    between 9 13 c
    || between 28 32 c
    || c == 133
    || c == 160
    || c == 5760
    || between 8192 8202 c
    || c == 8232
    || c == 8233
    || c == 8239
    || c == 8287
    || c == 12288

unfoldable pub is_upper : ℕ → Bool
unfolding between
is_upper c = between b'A' b'Z' c

unfoldable pub is_alpha : ℕ → Bool
unfolding between
is_alpha c = between b'A' b'Z' c || between b'a' b'z' c

unfoldable pub is_digit : ℕ → Bool
unfolding between
is_digit c = between b'0' b'9' c

unfoldable pub is_alnum : ℕ → Bool
unfolding is_alpha is_digit
is_alnum c = is_alpha c || is_digit c

unfoldable pub lower_code : ℕ → ℕ
unfolding is_upper
lower_code c = if is_upper c then c + 32 else c

-- `s.lower()`
unfoldable pub lower : Text → Text
unfolding lower_code
lower = map lower_code

-- `s.startswith(p)`
unfoldable pub starts_with : Text → Text → Bool
starts_with s [] = true
starts_with [] (p ∷ ps) = false
starts_with (c ∷ s) (p ∷ ps) = c == p && starts_with s ps

-- `p in s`
unfoldable pub has_infix : Text → Text → Bool
unfolding starts_with
has_infix [] p = starts_with [] p
has_infix (c ∷ s) p = starts_with (c ∷ s) p || has_infix s p

-- `c in s`
unfoldable pub has_code : Text → ℕ → Bool
has_code [] c = false
has_code (d ∷ s) c = d == c || has_code s c

unfoldable pub drop_while : (ℕ → Bool) → Text → Text
drop_while p [] = []
drop_while p (c ∷ s) = if p c then drop_while p s else c ∷ s

-- the text without its longest suffix of code points with `p`
unfoldable pub rstrip_by : (ℕ → Bool) → Text → Text
unfolding is_empty
rstrip_by p [] = []
rstrip_by p (c ∷ s) = let r = rstrip_by p s in if is_empty r && p c then [] else c ∷ r

-- `s.strip()`
unfoldable pub strip : Text → Text
unfolding drop_while rstrip_by is_space
strip s = drop_while is_space (rstrip_by is_space s)

-- `s.split(c, 1)`, when the separator occurs
unfoldable pub split_first : ℕ → Text → Option (Text × Text)
split_first c [] = none
split_first c (d ∷ s) =
    let rest = split_first c s in
    if d == c then some ([], s) else elim rest [ none ↦ none | some (a, b) ↦ some (d ∷ a, b) ]

-- `s.split(c)`
unfoldable pub split_on : ℕ → Text → List Text
split_on c [] = [] ∷ []
split_on c (d ∷ s) =
    let rest = split_on c s in
    if d == c then [] ∷ rest else elim rest [ [] ↦ (d ∷ []) ∷ [] | t ∷ ts ↦ (d ∷ t) ∷ ts ]
