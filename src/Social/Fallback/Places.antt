-- ===== src/Social/Fallback/Places.antt =====
-- Where a URL that the search fallback may return stands among the results.
use social_media_scraper.Base.{
  ◌≡◌, refl, ap, ◌∙◌, subst, inl, inr, true, false, some, List, [], ◌∷◌, ◌++◌, In, Text, arith,
  Bool-cases, Option-cases,
}
use social_media_scraper.Text.{has_infix}
use social_media_scraper.Social.Normalizer.{normalize_social_url}
use social_media_scraper.Social.Fallback.{domain_of, platform_urls, is_profile, first_profile}

-- The result that a URL in the list of the platform's URLs comes from.
pub record Place (platform : Text) (raws urls : List Text) (url : Text) : Type 0 where
  pub before : List Text
  pub raw : Text
  pub after : List Text
  pub split : raws ≡ before ++ raw ∷ after
  pub on_domain : has_infix raw (domain_of platform) ≡ true
  pub normal : normalize_social_url raw ≡ some url
  pub earlier : platform_urls (domain_of platform) before ≡ urls

some_injective : {A : Type 0} {a b : A} → some a ≡ some b → a ≡ b
some_injective e = cc

same_head : {x y : Text} {xs ys : List Text} → x ∷ xs ≡ y ∷ ys → x ≡ y
same_head e = cc

same_tail : {x y : Text} {xs ys : List Text} → x ∷ xs ≡ y ∷ ys → xs ≡ ys
same_tail e = cc

Place-later :
    (platform raw url : Text) (raws urls : List Text) (f : List Text → List Text)
    → ((xs : List Text)
        → platform_urls (domain_of platform) (raw ∷ xs) ≡ f (platform_urls (domain_of platform) xs))
    → Place platform raws urls url
    → Place platform (raw ∷ raws) (f urls) url
Place-later platform raw url raws urls f next p = record {
  before = raw ∷ p.before;
  raw = p.raw;
  after = p.after;
  split = ap (λ (xs : List Text). raw ∷ xs) p.split;
  on_domain = p.on_domain;
  normal = p.normal;
  earlier = next p.before ∙ ap f p.earlier;
}

kept-Place :
    (platform raw url u : Text) (raws urls rest : List Text)
    → has_infix raw (domain_of platform) ≡ true
    → normalize_social_url raw ≡ some u
    → ((us vs : List Text)
        → platform_urls (domain_of platform) raws ≡ us ++ url ∷ vs
        → Place platform raws us url)
    → u ∷ platform_urls (domain_of platform) raws ≡ urls ++ url ∷ rest
    → Place platform (raw ∷ raws) urls url
unfolding platform_urls
kept-Place platform raw url u raws [] rest on good from h = record {
  before = [];
  raw = raw;
  after = raws;
  split = refl;
  on_domain = on;
  normal = good ∙ ap some (same_head h);
  earlier = refl;
}
kept-Place platform raw url u raws (x ∷ urls) rest on good from h =
    subst (λ (y : Text). Place platform (raw ∷ raws) (y ∷ urls) url) (same_head h)
      (Place-later platform raw url raws urls (λ (us : List Text). u ∷ us)
        (λ xs. rw (on, good) refl) (from urls rest (same_tail h)))

pub url-Place :
    (platform url : Text) (raws urls rest : List Text)
    → platform_urls (domain_of platform) raws ≡ urls ++ url ∷ rest
    → Place platform raws urls url
unfolding platform_urls
url-Place platform url [] [] rest h = absurd (ground arith)
url-Place platform url [] (u ∷ urls) rest h = absurd (ground arith)
url-Place platform url (raw ∷ raws) urls rest h =
    let from = λ (us vs : List Text). url-Place platform url raws us vs in
    let later = Place-later platform raw url raws urls (λ (us : List Text). us) in
    elim (Bool-cases (has_infix raw (domain_of platform))) [
      | inr off ↦ later (λ xs. rw off refl) (from urls rest (rw off at h))
      | inl on ↦ elim (Option-cases (normalize_social_url raw)) [
        | inl bad ↦ later (λ xs. rw (on, bad) refl) (from urls rest (rw (on, bad) at h))
        | inr (u, good) ↦
            kept-Place platform raw url u raws urls rest on good from (rw (on, good) at h)
      ]
    ]

-- Where the first profile stands among the URLs.
pub record Chosen (name platform : Text) (urls : List Text) (url : Text) : Type 0 where
  pub before : List Text
  pub after : List Text
  pub split : urls ≡ before ++ url ∷ after
  pub profile : is_profile name platform url ≡ true
  pub earlier : (other : Text) → In other before → is_profile name platform other ≡ false

Chosen-later :
    (name platform u url : Text) (us : List Text)
    → is_profile name platform u ≡ false
    → Chosen name platform us url
    → Chosen name platform (u ∷ us) url
Chosen-later name platform u url us not_it c = record {
  before = u ∷ c.before;
  after = c.after;
  split = ap (λ (xs : List Text). u ∷ xs) c.split;
  profile = c.profile;
  earlier = among;
}
  where
    among : (other : Text) → In other (u ∷ c.before) → is_profile name platform other ≡ false
    among other (inl here) = subst (λ v. is_profile name platform v ≡ false) here not_it
    among other (inr there) = c.earlier other there

pub first_profile-Chosen :
    (name platform url : Text) (urls : List Text)
    → first_profile name platform urls ≡ some url
    → Chosen name platform urls url
unfolding first_profile
first_profile-Chosen name platform url [] h = absurd (ground arith)
first_profile-Chosen name platform url (u ∷ us) h = elim (Bool-cases (is_profile name platform u)) [
  | inl found ↦
      subst (λ (v : Text). Chosen name platform (u ∷ us) v) (some_injective (rw found at h))
        (record {
          before = [];
          after = us;
          split = refl;
          profile = found;
          earlier = λ other m. elim m [ ];
        })
  | inr not_it ↦
      Chosen-later name platform u url us not_it
        (first_profile-Chosen name platform url us (rw not_it at h))
]
