-- ===== src/Social/Fallback/Choice.antt =====
-- What the search fallback returns.
use social_media_scraper.Base.{
  ◌≡◌, Bool, true, false, Option, none, some, List, ◌∷◌, ◌++◌, In, Text,
}
use social_media_scraper.Text.{has_infix}
use social_media_scraper.Social.Normalizer.{normalize_social_url}
use social_media_scraper.Social.Fallback.{domain_of, is_profile}

-- A result of the provider on the platform's domain that `url` is the normal form of.
pub record IsFound (platform : Text) (raw_urls : List Text) (url : Text) : Type 0 where
  pub raw : Text
  pub returned : In raw raw_urls
  pub on_domain : has_infix raw (domain_of platform) ≡ true
  pub normal : normalize_social_url raw ≡ some url

some_injective : {A : Type 0} {a b : A} → some a ≡ some b → a ≡ b
some_injective e = cc

-- The first such result, where every one before it has `Q`.
pub record IsFirst (platform : Text) (raw_urls : List Text) (url : Text) (Q : Text → Type 0)
    : Type 0 where
  pub before : List Text
  pub raw : Text
  pub after : List Text
  pub split : raw_urls ≡ before ++ raw ∷ after
  pub on_domain : has_infix raw (domain_of platform) ≡ true
  pub normal : normalize_social_url raw ≡ some url
  pub earlier : (other : Text) → IsFound platform before other → Q other

-- What an answer of `find` says of the results it was computed from.
abbrev pub Says : Text → Text → List Text → Option Text × Bool → Type 0
Says name platform raws (some url, true) =
    IsFirst platform raws url (λ other. is_profile name platform other ≡ false)
    × (is_profile name platform url ≡ true)
Says name platform raws (some url, false) =
    IsFirst platform raws url (λ other. ⊥)
    × ((other : Text) → IsFound platform raws other → is_profile name platform other ≡ false)
Says name platform raws (none, found) =
    (found ≡ false) × ((url : Text) → ¬ IsFound platform raws url)
