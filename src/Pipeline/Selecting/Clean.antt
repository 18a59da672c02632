-- ===== src/Pipeline/Selecting/Clean.antt =====
-- The URLs that selection leaves on a lead.
use social_media_scraper.Base.{
  ◌≡◌, ◌≢◌, refl, ap, ◌∙◌, sym, subst, inl, inr, ◌⊎◌, Bool, true, false, Option, none, some, List,
  [], ◌∷◌, In, In-append, if◌then◌else◌, Text, text_beq, text_beq_iff, arith, Bool-cases,
}
use social_media_scraper.Text.{codes}
use social_media_scraper.Leads.{BusinessLead}
use social_media_scraper.Url.Helper.{is_valid_url}
use social_media_scraper.Social.Normalizer.{normalize_social_url}
use social_media_scraper.Selection.Candidate.{Candidate, make_candidate, keep_valid}
use social_media_scraper.Selection.Ranking.{ScoreSettings}
use social_media_scraper.Selection.Engine.{selection, truthy}
use social_media_scraper.Selection.Engine.Choice.{IsBest, selection-IsBest}
use social_media_scraper.Pipeline.Selecting.{
  parse_confidence, has_url, candidate_of, candidates_from_lead, beside, store_result, select_for,
  select_urls,
}

-- A URL that is valid and the normal form of the one given, which is not empty; or none.
abbrev pub IsCleanOf : Option Text → Option Text → Type 0
IsCleanOf url none = Unit
IsCleanOf url (some u) =
    (raw : Text) × (url ≡ some raw)
    × (truthy (some raw) ≡ true)
    × (normalize_social_url raw ≡ some u)
    × (is_valid_url u ≡ true)

-- What a candidate of a platform comes from.
record Comes (platform : Text) (url : Option Text) (c : Candidate) : Type 0 where
  raw : Text
  from : url ≡ some raw
  full : truthy (some raw) ≡ true
  on : c.platform ≡ platform
  normal : c.normalized_url ≡ keep_valid (normalize_social_url raw)

candidate_of-In :
    (platform : Text) (url confidence : Option Text) (c : Candidate)
    → In c (candidate_of platform url confidence)
    → Comes platform url c
unfolding candidate_of make_candidate
candidate_of-In platform none confidence c m = elim m [ ]
candidate_of-In platform (some raw) confidence c m = elim (Bool-cases (truthy (some raw))) [
  | inr blank ↦ elim (rw blank at m) [ ]
  | inl full ↦ elim (rw full at m) [
    | inl here ↦ record {
      raw = raw;
      from = refl;
      full = full;
      on = sym (ap (λ (x : Candidate). x.platform) here);
      normal = sym (ap (λ (x : Candidate). x.normalized_url) here);
    }
    | inr gone ↦ elim gone [ ]
  ]
]

kept :
    (b : Bool) (v u : Text) → (if b then some v else none) ≡ some u → (some v ≡ some u) × (b ≡ true)
kept true v u h = (h, refl)
kept false v u h = absurd (ground arith)

some_injective : {a b : Text} → some a ≡ some b → a ≡ b
some_injective e = cc

keep_valid-eq_some :
    (o : Option Text) (u : Text) → keep_valid o ≡ some u → (o ≡ some u) × (is_valid_url u ≡ true)
unfolding keep_valid
keep_valid-eq_some none u h = absurd (ground arith)
keep_valid-eq_some (some v) u h =
    let (same, valid) = kept (is_valid_url v) v u h in
    (same, subst (λ (x : Text). is_valid_url x ≡ true) (some_injective same) valid)

platforms_differ : codes "instagram" ≢ codes "facebook"
unfolding text_beq
platforms_differ e =
    let same : text_beq (codes "instagram") (codes "facebook") ≡ true =
      (text_beq_iff (codes "instagram") (codes "facebook")).1 e in
    absurd (ground arith)

clean_choice :
    (s : ScoreSettings) (platform : Text) (url : Option Text) (cs : List Candidate)
    (o : Option Text)
    → ((c : Candidate) → In c cs → c.platform ≡ platform → Comes platform url c)
    → IsBest s platform cs o
    → IsCleanOf url o
clean_choice s platform url cs none h b = tt
clean_choice s platform url cs (some u) h (c, m, _, on, normal, _) =
    let k = h c m on in
    let (n, v) = keep_valid-eq_some (normalize_social_url k.raw) u (sym k.normal ∙ normal) in
    (k.raw, k.from, k.full, n, v)

-- the candidates of each platform come from the lead's own URL
Comes-instagram :
    (lead : BusinessLead) (c : Candidate)
    → In c (candidates_from_lead lead)
    → c.platform ≡ codes "instagram"
    → Comes (codes "instagram") lead.social.instagram_url c
unfolding candidates_from_lead
Comes-instagram lead c m on = elim (In-append c _ _ m) [
  | inl left ↦
      candidate_of-In (codes "instagram") lead.social.instagram_url lead.social.instagram_confidence
        c left
  | inr right ↦ absurd (
      platforms_differ (
        sym on
        ∙ (candidate_of-In (codes "facebook") lead.social.facebook_url
            lead.social.facebook_confidence c right).on))
]

Comes-facebook :
    (lead : BusinessLead) (c : Candidate)
    → In c (candidates_from_lead lead)
    → c.platform ≡ codes "facebook"
    → Comes (codes "facebook") lead.social.facebook_url c
unfolding candidates_from_lead
Comes-facebook lead c m on = elim (In-append c _ _ m) [
  | inl left ↦ absurd (
      platforms_differ (
        sym
          (candidate_of-In (codes "instagram") lead.social.instagram_url
            lead.social.instagram_confidence c left).on
        ∙ on))
  | inr right ↦
      candidate_of-In (codes "facebook") lead.social.facebook_url lead.social.facebook_confidence c
        right
]

-- Selection against the lead: each of the URLs it leaves is clean and has a confidence only if
-- there is a URL, and nothing else is changed.
abbrev pub IsSelectedFrom : BusinessLead → BusinessLead → Type 0
IsSelectedFrom lead selected =
    (selected.website ≡ lead.website)
    × (selected.business_name ≡ lead.business_name)
    × (selected.social.google_maps_url ≡ lead.social.google_maps_url)
    × (selected.source_keyword ≡ lead.source_keyword)
    × (selected.source_location ≡ lead.source_location)
    × (selected.discovered_at ≡ lead.discovered_at)
    × IsCleanOf lead.social.instagram_url selected.social.instagram_url
    × IsCleanOf lead.social.facebook_url selected.social.facebook_url
    × (selected.social.instagram_confidence
        ≡ beside selected.social.instagram_url lead.social.instagram_confidence)
    × (selected.social.facebook_confidence
        ≡ beside selected.social.facebook_url lead.social.facebook_confidence)

IsCandidateOf : (platform : Text) (url confidence : Option Text) → Type 0
IsCandidateOf platform url confidence =
    ((truthy url ≡ false) × (candidate_of platform url confidence ≡ []))
    ⊎ ((truthy url ≡ true) × ((c : Candidate) × (candidate_of platform url confidence ≡ c ∷ [])))

candidate_of_lem :
    (platform : Text) (url confidence : Option Text) → IsCandidateOf platform url confidence
unfolding IsCandidateOf candidate_of truthy
candidate_of_lem platform none confidence = inl (refl, refl)
candidate_of_lem platform (some raw) confidence = elim (Bool-cases (truthy (some raw))) [
  | inr blank ↦ inl (blank, rw blank refl)
  | inl full ↦ inr (
    full,
    (
      make_candidate platform raw (codes "social_discovery") (parse_confidence confidence),
      rw full refl,
    ),
  )
]

-- a lead has a candidate if it has a URL
candidates_lem :
    (lead : BusinessLead)
    → ((has_url lead ≡ false) × (candidates_from_lead lead ≡ []))
      ⊎ ((has_url lead ≡ true)
          × ((c : Candidate) × (cs : List Candidate) × (candidates_from_lead lead ≡ c ∷ cs)))
unfolding has_url candidates_from_lead IsCandidateOf
candidates_lem lead =
    let i =
      candidate_of_lem (codes "instagram") lead.social.instagram_url
        lead.social.instagram_confidence in
    let f =
      candidate_of_lem (codes "facebook") lead.social.facebook_url
        lead.social.facebook_confidence in
    elim i [
      | inr (full, (c, e)) ↦ inr (
        rw full refl,
        (
          c,
          candidate_of (codes "facebook") lead.social.facebook_url lead.social.facebook_confidence,
          rw e refl,
        ),
      )
      | inl (blank, e) ↦ elim f [
        | inr (full, (c, g)) ↦ inr (rw (blank, full) refl, (c, [], rw (e, g) refl))
        | inl (empty, g) ↦ inl (rw (blank, empty) refl, rw (e, g) refl)
      ]
    ]

selected_from :
    (s : ScoreSettings) (lead : BusinessLead) (c : Candidate) (cs : List Candidate)
    → candidates_from_lead lead ≡ c ∷ cs
    → IsSelectedFrom lead (select_for s (c ∷ cs) lead)
unfolding select_for store_result
selected_from s lead c cs e =
    let (i, f) = selection-IsBest s (c ∷ cs) in
    let from : (x : Candidate) → In x (c ∷ cs) → In x (candidates_from_lead lead) =
      λ x. subst (λ (ds : List Candidate). In x ds) (sym e) in
    (
      refl,
      refl,
      refl,
      refl,
      refl,
      refl,
      clean_choice s (codes "instagram") lead.social.instagram_url (c ∷ cs)
          (selection s (c ∷ cs)).instagram_url (λ x m. Comes-instagram lead x (from x m)) i,
      clean_choice s (codes "facebook") lead.social.facebook_url (c ∷ cs)
          (selection s (c ∷ cs)).facebook_url (λ x m. Comes-facebook lead x (from x m)) f,
      refl,
      refl,
    )

-- Selection leaves a lead that has no URL, or only empty ones, exactly as it is. On any other, each
-- of the two URLs it leaves is a valid URL that is the normal form of the URL the lead had for that
-- platform, which was not empty; a confidence is kept only beside a URL, and everything else of the
-- lead is as it was.
pub select_urls_lem :
    (s : ScoreSettings) (lead : BusinessLead)
    → ((has_url lead ≡ false) × (select_urls s lead ≡ lead))
      ⊎ ((has_url lead ≡ true) × IsSelectedFrom lead (select_urls s lead))
unfolding select_urls select_for
select_urls_lem s lead = elim (candidates_lem lead) [
  | inl (no_url, empty) ↦ inl (no_url, ap (λ (cs : List Candidate). select_for s cs lead) empty)
  | inr (has_one, (c, cs, e)) ↦ inr (
    has_one,
    subst (λ (ds : List Candidate). IsSelectedFrom lead (select_for s ds lead)) (sym e)
        (selected_from s lead c cs e),
  )
]
