-- ===== src/Discovery/Cards/Readable.antt =====
-- How many leads are read from the cards.
use social_media_scraper.Base.{
  ℕ, ◌+◌, ◌≡◌, refl, ap, ◌∙◌, inl, inr, true, false, not, ◌&&◌, ◌||◌, Bool, Option, none, some,
  List, [], ◌∷◌, length, take, ltb, min, count_if, if◌then◌else◌, arith, Text, Bool-cases,
  Option-cases, zero, suc,
}
use social_media_scraper.Normalizers.{normalize_business_url}
use social_media_scraper.Selection.Engine.{truthy}
use social_media_scraper.Leads.{BusinessLead}
use social_media_scraper.Discovery.Cards.{
  Search, RawCard, card_website, with_website, build, build_lead, keep_built, extract_all, collect,
}

-- `urlparse` does not refuse the website, if there is one.
unfoldable pub is_good_website : Option Text → Bool
unfolding truthy
is_good_website none = true
is_good_website (some url) =
    not (truthy (some url)) || elim (normalize_business_url url) [ none ↦ false | some w ↦ true ]

-- A card that a lead can be read from: it has a Maps URL, a name and no bad website.
unfoldable pub is_readable : Option RawCard → Bool
unfolding truthy is_good_website
is_readable none = false
is_readable (some raw) = truthy raw.maps_url && truthy raw.raw_name && is_good_website raw.website

build-length :
    (s : Search) (now : ℕ) (u n w : Option Text) (ls : List BusinessLead)
    → length (keep_built (build s now u n (card_website w)) ls)
      ≡ (if truthy u && truthy n && is_good_website w then 1 else 0) + length ls
unfolding build keep_built card_website with_website truthy is_good_website
build-length s now none n w ls = omega arith
build-length s now (some u) none w ls = ground arith
build-length s now (some u) (some n) none ls = ground arith
build-length s now (some u) (some n) (some w) ls = elim (Option-cases (normalize_business_url w)) [
  | inl bad ↦ ground arith
  | inr (site, good) ↦ ground arith
]

extract_all-length :
    (s : Search) (clock : ℕ → ℕ) (n : ℕ) (raws : List (Option RawCard))
    → length (extract_all s clock n raws) ≡ count_if is_readable raws
unfolding extract_all build_lead is_readable
extract_all-length s clock n [] = refl
extract_all-length s clock n (none ∷ raws) = omega (arith, extract_all-length s clock (n + 1) raws)
extract_all-length s clock n (some raw ∷ raws) =
    build-length s (clock n) raw.maps_url raw.raw_name raw.website
      (extract_all s clock (n + 1) raws)
    ∙ ap
        (λ (k : ℕ).
          (if truthy raw.maps_url && truthy raw.raw_name && is_good_website raw.website
            then 1
            else 0)
          + k)
        (extract_all-length s clock (n + 1) raws)

length-take-min : {A : Type 0} (n : ℕ) (xs : List A) → length (take n xs) ≡ min n (length xs)
length-take-min zero xs = ground arith
length-take-min (suc n) [] = ground arith
length-take-min (suc n) (x ∷ xs) = omega (arith, length-take-min n xs)

-- The leads read are as many as the readable cards, up to the limit.
pub collect-extract_all-length :
    (s : Search) (clock : ℕ → ℕ) (raws : List (Option RawCard))
    → length (collect s (extract_all s clock 0 raws)) ≡ min s.limit (count_if is_readable raws)
unfolding collect
collect-extract_all-length s clock raws =
    let ls = extract_all s clock 0 raws in
    let all = extract_all-length s clock 0 raws in
    elim (Bool-cases (ltb s.limit (length ls))) [
      | inl more ↦ rw more (length-take-min s.limit ls ∙ ap (min s.limit) all)
      | inr few ↦ rw few (all ∙ ground arith)
    ]
