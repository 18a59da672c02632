-- ===== src/Discovery/Cards/Collected.antt =====
-- What collecting the cards gives.
use social_media_scraper.Base.{
  ℕ, min, count_if, ◌∙◌, suc, zero, ◌+◌, ◌≤◌, ◌≡◌, refl, sym, subst, ◌⊎◌, inl, inr, true, false,
  ◌||◌, Option, none, some, List, [], ◌∷◌, length, take, ltb, In, Distinct, arith, Text, Bool-cases,
  Option-cases, length-take-le,
}
use social_media_scraper.Text.{is_empty}
use social_media_scraper.Normalizers.{normalize_business_url}
use social_media_scraper.Selection.Engine.{truthy}
use social_media_scraper.Leads.{BusinessLead}
use social_media_scraper.Leads.Unique.{lead_keys}
use social_media_scraper.Leads.Kept.{deduplicate_leads-IsUniqueOf}
use social_media_scraper.Discovery.Cards.Readable.{is_readable, collect-extract_all-length}
use social_media_scraper.Discovery.Cards.{
  Search, RawCard, card_website, normalize_business_name, build, build_lead, with_website,
  keep_built, extract_all, collect, collect_cards,
}

-- The website that a lead is given, against the one on its card: none if the card has none, else
-- its normal form.
abbrev pub IsWebsite : Option Text → Option Text → Type 0
IsWebsite none website = website ≡ none
IsWebsite (some url) website =
    ((truthy (some url) ≡ false) × (website ≡ none))
    ⊎ ((truthy (some url) ≡ true)
        × ((site : Text) × (normalize_business_url url ≡ some site) × (website ≡ some site)))

-- A lead against the cards that the page returned: the card it was read from has a Maps URL and a
-- name, and the lead has that URL, the name cleaned, the website of the card, no profile, and the
-- search it came from.
pub record IsFromCard (s : Search) (raws : List (Option RawCard)) (lead : BusinessLead)
    : Type 0 where
  pub raw : RawCard
  pub returned : In (some raw) raws
  pub maps_url :
      (url : Text) × (raw.maps_url ≡ some url)
      × (is_empty url ≡ false)
      × (lead.social.google_maps_url ≡ some url)
  pub name :
      (raw_name : Text) × (raw.raw_name ≡ some raw_name)
      × (is_empty raw_name ≡ false)
      × (lead.business_name ≡ normalize_business_name raw_name)
  pub website : IsWebsite raw.website lead.website
  pub instagram_url : lead.social.instagram_url ≡ none
  pub facebook_url : lead.social.facebook_url ≡ none
  pub source_keyword : lead.source_keyword ≡ some s.keyword
  pub source_location : lead.source_location ≡ some s.location

some_injective : {A : Type 0} {a b : A} → some a ≡ some b → a ≡ b
some_injective e = cc

none_not_some : {A : Type 0} {a : A} → none ≡ some a → ⊥
none_not_some e = ground arith

card_website-IsWebsite :
    (url : Option Text) (website : Option Text)
    → card_website url ≡ some website
    → IsWebsite url website
unfolding card_website
card_website-IsWebsite none website h = some_injective (sym h)
card_website-IsWebsite (some url) website h = elim (Bool-cases (truthy (some url))) [
  | inr blank ↦ inl (blank, some_injective (sym (rw blank at h)))
  | inl full ↦ elim (Option-cases (normalize_business_url url)) [
    | inl bad ↦ absurd (none_not_some (rw (full, bad) at h))
    | inr (site, good) ↦ inr (full, (site, good, some_injective (sym (rw (full, good) at h))))
  ]
]

with_website-IsFromCard :
    (s : Search) (now : ℕ) (raw : RawCard) (url raw_name : Text) (o : Option (Option Text))
    {lead : BusinessLead}
    → raw.maps_url ≡ some url
    → raw.raw_name ≡ some raw_name
    → (is_empty url || is_empty raw_name) ≡ false
    → card_website raw.website ≡ o
    → with_website s now url raw_name o ≡ some lead
    → IsFromCard s (some raw ∷ []) lead
unfolding with_website
with_website-IsFromCard s now raw url raw_name none u n full w h = absurd (ground arith)
with_website-IsFromCard s now raw url raw_name (some website) u n full w h =
    subst (λ (l : BusinessLead). IsFromCard s (some raw ∷ []) l) (some_injective h)
      (record {
        raw = raw;
        returned = inl refl;
        maps_url = (url, u, ground arith, refl);
        name = (raw_name, n, ground arith, refl);
        website = card_website-IsWebsite raw.website website w;
        instagram_url = refl;
        facebook_url = refl;
        source_keyword = refl;
        source_location = refl;
      })

build-IsFromCard :
    (s : Search) (now : ℕ) (raw : RawCard) (u n : Option Text) {lead : BusinessLead}
    → raw.maps_url ≡ u
    → raw.raw_name ≡ n
    → build s now u n (card_website raw.website) ≡ some lead
    → IsFromCard s (some raw ∷ []) lead
unfolding build
build-IsFromCard s now raw (some url) (some raw_name) e f h =
    elim (Bool-cases (is_empty url || is_empty raw_name)) [
      | inl blank ↦ absurd (none_not_some (rw blank at h))
      | inr full ↦
          with_website-IsFromCard s now raw url raw_name (card_website raw.website) e f full refl
            (rw full at h)
    ]
build-IsFromCard s now raw none n e f h = absurd (ground arith)
build-IsFromCard s now raw (some url) none e f h = absurd (ground arith)

IsFromCard-among :
    (s : Search) (raws more : List (Option RawCard)) (lead : BusinessLead)
    → ((o : Option RawCard) → In o raws → In o more)
    → IsFromCard s raws lead
    → IsFromCard s more lead
IsFromCard-among s raws more lead f c = record {
  raw = c.raw;
  returned = f (some c.raw) c.returned;
  maps_url = c.maps_url;
  name = c.name;
  website = c.website;
  instagram_url = c.instagram_url;
  facebook_url = c.facebook_url;
  source_keyword = c.source_keyword;
  source_location = c.source_location;
}

first_of : {A : Type 0} (a b : A) (bs : List A) → In a (b ∷ []) → In a (b ∷ bs)
first_of a b bs (inl here) = inl here
first_of a b bs (inr there) = elim there [ ]

extract_all-IsFromCard :
    (s : Search) (clock : ℕ → ℕ) (n : ℕ) (raws : List (Option RawCard)) (lead : BusinessLead)
    → In lead (extract_all s clock n raws)
    → IsFromCard s raws lead
unfolding extract_all keep_built build_lead
extract_all-IsFromCard s clock n [] lead m = elim m [ ]
extract_all-IsFromCard s clock n (none ∷ raws) lead m =
    IsFromCard-among s raws (none ∷ raws) lead (λ o i. inr i)
      (extract_all-IsFromCard s clock (n + 1) raws lead m)
extract_all-IsFromCard s clock n (some raw ∷ raws) lead m =
    let later = λ (i : In lead (extract_all s clock (n + 1) raws)).
      IsFromCard-among s raws (some raw ∷ raws) lead (λ o j. inr j)
        (extract_all-IsFromCard s clock (n + 1) raws lead i) in
    let among =
      λ (o : Option BusinessLead). In lead (keep_built o (extract_all s clock (n + 1) raws)) in
    elim (Option-cases (build_lead s (clock n) raw)) [
      | inl bad ↦ later (subst among bad m)
      | inr (l, good) ↦ elim (subst among good m) [
        | inl here ↦
            IsFromCard-among s (some raw ∷ []) (some raw ∷ raws) lead
              (λ o. first_of o (some raw) raws)
              (subst (λ (k : BusinessLead). IsFromCard s (some raw ∷ []) k) here
                (build-IsFromCard s (clock n) raw raw.maps_url raw.raw_name refl refl good))
        | inr there ↦ later there
      ]
    ]

In-take : {A : Type 0} (a : A) (n : ℕ) (xs : List A) → In a (take n xs) → In a xs
In-take a zero xs m = elim m [ ]
In-take a (suc n) [] m = elim m [ ]
In-take a (suc n) (x ∷ xs) (inl here) = inl here
In-take a (suc n) (x ∷ xs) (inr there) = inr (In-take a n xs there)

collect-In :
    (s : Search) (a : BusinessLead) (ls : List BusinessLead) → In a (collect s ls) → In a ls
unfolding collect
collect-In s a ls m = elim (Bool-cases (ltb s.limit (length ls))) [
  | inl more ↦ In-take a s.limit ls (rw more at m)
  | inr all ↦ rw all at m
]

collect-length : (s : Search) (ls : List BusinessLead) → length (collect s ls) ≤ s.limit
unfolding collect
collect-length s ls = ground (arith, length-take-le s.limit ls)

-- Collecting the cards of a search gives at most as many leads as its limit, with pairwise
-- different places, each of them read from one of the cards. The
-- leads and the duplicates dropped together are within the limit too: they are as many as the cards
-- that can be read, up to the limit.
pub collect_cards_lem :
    (s : Search) (clock : ℕ → ℕ) (raws : List (Option RawCard))
    → (length (collect_cards s clock raws).0 + (collect_cards s clock raws).1 ≤ s.limit)
      × (length (collect_cards s clock raws).0 + (collect_cards s clock raws).1
          ≡ min s.limit (count_if is_readable raws))
      × Distinct (lead_keys (collect_cards s clock raws).0)
      × ((lead : BusinessLead) → In lead (collect_cards s clock raws).0 → IsFromCard s raws lead)
unfolding collect_cards
collect_cards_lem s clock raws =
    let ls = extract_all s clock 0 raws in
    let u = deduplicate_leads-IsUniqueOf (collect s ls) in
    (
      omega (arith, u.count, collect-length s ls),
      u.count ∙ collect-extract_all-length s clock raws,
      u.distinct,
      λ lead m. extract_all-IsFromCard s clock 0 raws lead (collect-In s lead ls (u.from lead m)),
    )
