-- ===== src/Api/Accepted.antt =====
-- What a search request that is accepted is like, and what a search answers.
use social_media_scraper.Base.{
  ℕ, ◌≡◌, ◌≤◌, refl, ◌⊎◌, inl, inr, true, false, ◌&&◌, Bool-cases, Option, none, some, [], ◌∷◌,
  length, leb, Text, arith,
}
use social_media_scraper.Exceptions.{domain, validation_error, returned, raised}
use social_media_scraper.Text.{is_empty, strip}
use social_media_scraper.Text.Strip.{length-strip, strip-strip}
use social_media_scraper.Discovery.Cards.{Search}
use social_media_scraper.Settings.Defaults.{max_leads}
use social_media_scraper.Api.{
  Payload, has_length, not_blank, text_field, limit_field, from_fields, search_request,
  validate_search_request,
}

-- not empty, without a blank at its ends, and at most 200 code points
pub record IsTerm (t : Text) : Type 0 where
  pub some_text : 1 ≤ length t
  pub no_blanks : strip t ≡ t
  pub bounded : length t ≤ 200

pub record IsRequest (r : Search) : Type 0 where
  pub keyword : IsTerm r.keyword
  pub location : IsTerm r.location
  pub some_limit : 1 ≤ r.limit
  pub limited : r.limit ≤ max_leads

not_empty-length : (t : Text) → is_empty t ≡ false → 1 ≤ length t
unfolding is_empty
not_empty-length [] e = absurd (ground arith)
not_empty-length (c ∷ t) e = omega arith

text_field-cases :
    (value : Text)
    → (text_field value ≡ none)
      ⊎ ((has_length value ≡ true)
          × (is_empty (strip value) ≡ false)
          × (text_field value ≡ some (strip value)))
unfolding text_field not_blank
text_field-cases value = elim (Bool-cases (has_length value)) [
  | inr h ↦ inl (ground arith)
  | inl h ↦ elim (Bool-cases (is_empty (strip value))) [
    | inl e ↦ inl (ground arith)
    | inr e ↦ inr (h, e, ground arith)
  ]
]

strip-IsTerm :
    (value : Text) → has_length value ≡ true → is_empty (strip value) ≡ false → IsTerm (strip value)
unfolding has_length
strip-IsTerm value h e = record {
  some_text = not_empty-length (strip value) e;
  no_blanks = strip-strip value;
  bounded = ground (arith, length-strip value);
}

limit_field-cases :
    (limit : Option ℕ)
    → (limit_field limit ≡ none)
      ⊎ ((n : ℕ) × (limit_field limit ≡ some n) × (1 ≤ n) × (n ≤ max_leads))
unfolding limit_field
limit_field-cases none = inr (20, refl, omega arith, omega arith)
limit_field-cases (some n) = elim (Bool-cases (leb 1 n && leb n max_leads)) [
  | inr h ↦ inl (ground arith)
  | inl h ↦ inr (n, ground arith, ground arith, ground arith)
]

-- The body of a request is rejected with a ValidationError, or it is accepted as a request whose
-- keyword and location are those sent, stripped: not empty, without a blank at their ends and of
-- at most 200 code points, and whose limit is from 1 to 500.
pub validate_search_request_lem :
    (payload : Payload)
    → (validate_search_request payload ≡ raised (domain validation_error))
      ⊎ ((r : Search) × (validate_search_request payload ≡ returned r)
          × (r.keyword ≡ strip payload.keyword)
          × (r.location ≡ strip payload.location)
          × IsRequest r)
unfolding validate_search_request search_request from_fields
validate_search_request_lem payload = elim (text_field-cases payload.keyword) [
  | inl k ↦ inl (ground arith)
  | inr (hk, ek, k) ↦ elim (text_field-cases payload.location) [
    | inl l ↦ inl (ground arith)
    | inr (hl, el, l) ↦ elim (limit_field-cases payload.limit) [
      | inl m ↦ inl (ground arith)
      | inr (n, m, some_limit, limited) ↦ inr (
        record { keyword = strip payload.keyword; location = strip payload.location; limit = n },
        ground arith,
        refl,
        refl,
        record {
          keyword = strip-IsTerm payload.keyword hk ek;
          location = strip-IsTerm payload.location hl el;
          some_limit = some_limit;
          limited = limited;
        },
      )
    ]
  ]
]
