-- ===== src/Social/Discovery/Keeps.antt =====
-- What `discover_social_links_one` leaves alone, however it ends.
use social_media_scraper.Base.{
  ◌≡◌, refl, ap, ◌∙◌, inl, inr, Bool, true, false, Option, none, some, [], Text, arith, Bool-cases,
}
use social_media_scraper.Coroutine.{Coroutine, gets, ◌>>=◌, ◌>>◌}
use social_media_scraper.Coroutine.Keeps.{Moves, IsPreorder, Moves-pure, Moves-bind}
use social_media_scraper.Leads.{BusinessLead}
use social_media_scraper.Social.Confidence.{Confidence}
use social_media_scraper.Social.Discovery.{
  Environment, World, Platform, instagram, facebook, is_none, url_of, set_url, set_instagram,
  set_facebook, needs, fill, from_own, from_candidates, outside, update, fetch_candidates,
  website_candidates, look_up, look_up_if, fall_back, discover_social_links_one, wants_page,
}

unfoldable pub confidence_of : Platform → BusinessLead → Option Text
confidence_of instagram lead = lead.social.instagram_confidence
confidence_of facebook lead = lead.social.facebook_confidence

-- Only URLs that were missing, and their confidences, may differ.
pub record Extends (l m : BusinessLead) : Type 0 where
  pub business_name : m.business_name ≡ l.business_name
  pub website : m.website ≡ l.website
  pub google_maps_url : m.social.google_maps_url ≡ l.social.google_maps_url
  pub url :
      (p : Platform) (u : Text)
      → url_of p l ≡ some u
      → (url_of p m ≡ some u) × (confidence_of p m ≡ confidence_of p l)

Extends-refl : (l : BusinessLead) → Extends l l
Extends-refl l = record {
  business_name = refl;
  website = refl;
  google_maps_url = refl;
  url = λ p u e. (e, refl);
}

Extends-trans : (l m n : BusinessLead) → Extends l m → Extends m n → Extends l n
Extends-trans l m n a b = record {
  business_name = b.business_name ∙ a.business_name;
  website = b.website ∙ a.website;
  google_maps_url = b.google_maps_url ∙ a.google_maps_url;
  url = λ p u e. let (f, c) = a.url p u e in let (g, d) = b.url p u f in (g, d ∙ c);
}

needs_none :
    (p : Platform) (l : BusinessLead) (u : Text) → needs p l ≡ true → url_of p l ≡ some u → ⊥
unfolding needs is_none
needs_none p l u h e = let f = ap is_none e in absurd (ground arith)

set_url-Extends :
    (p : Platform) (u : Text) (c : Confidence) (l : BusinessLead)
    → needs p l ≡ true
    → Extends l (set_url p u c l)
unfolding set_url set_instagram set_facebook url_of confidence_of
set_url-Extends instagram u c l h = record {
  business_name = refl;
  website = refl;
  google_maps_url = refl;
  url = λ p v e.
      elim p
          as (λ (p : Platform).
            url_of p l ≡ some v
            → (url_of p (set_url instagram u c l) ≡ some v)
              × (confidence_of p (set_url instagram u c l) ≡ confidence_of p l)) [
                | instagram ↦ λ e. absurd (needs_none instagram l v h e)
                | facebook ↦ λ e. (e, refl)
              ]
        e;
}
set_url-Extends facebook u c l h = record {
  business_name = refl;
  website = refl;
  google_maps_url = refl;
  url = λ p v e.
      elim p
          as (λ (p : Platform).
            url_of p l ≡ some v
            → (url_of p (set_url facebook u c l) ≡ some v)
              × (confidence_of p (set_url facebook u c l) ≡ confidence_of p l)) [
                | instagram ↦ λ e. (e, refl)
                | facebook ↦ λ e. absurd (needs_none facebook l v h e)
              ]
        e;
}

fill-Extends :
    (p : Platform) (o : Option (Text × Confidence)) (l : BusinessLead) → Extends l (fill p o l)
unfolding fill
fill-Extends p none l = Extends-refl l
fill-Extends p (some (u, c)) l = elim (Bool-cases (needs p l)) [
  | inl missing ↦ rw missing (set_url-Extends p u c l missing)
  | inr there ↦ rw there (Extends-refl l)
]

fill_both-Extends :
    (o q : Option (Text × Confidence)) (l : BusinessLead)
    → Extends l (fill facebook q (fill instagram o l))
fill_both-Extends o q l =
    Extends-trans l (fill instagram o l) (fill facebook q (fill instagram o l))
      (fill-Extends instagram o l) (fill-Extends facebook q (fill instagram o l))

module _ {X : Type 0} (env : Environment X) where
  Kept : World X → World X → Type 0
  Kept w v = Extends w.lead v.lead

  kept : IsPreorder Kept
  unfolding Kept
  kept = record {
    reflexive = λ w. Extends-refl w.lead;
    transitive = λ u v w a b. Extends-trans u.lead v.lead w.lead a b;
  }

  outside-Kept : {A : Type 0} (m : Coroutine X A) → Moves Kept (outside env m)
  unfolding Kept outside
  outside-Kept m = record { at = λ w. Extends-refl w.lead }

  update-Kept :
      (f : BusinessLead → BusinessLead)
      → ((l : BusinessLead) → Extends l (f l))
      → Moves Kept (update env f)
  unfolding Kept update
  update-Kept f h = record { at = λ w. h w.lead }

  gets-Kept : {A : Type 0} (f : World X → A) → Moves Kept (gets f)
  unfolding Kept
  gets-Kept f = record { at = λ w. Extends-refl w.lead }

  fetch-Kept : (website : Option Text) → Moves Kept (fetch_candidates env website)
  unfolding fetch_candidates
  fetch-Kept none = Moves-pure kept []
  fetch-Kept (some site) =
      Moves-bind kept _ _ (outside-Kept (env.fetch site)) (λ html. Moves-pure kept _)

  candidates-Kept : (lead : BusinessLead) → Moves Kept (website_candidates env lead)
  unfolding website_candidates
  candidates-Kept lead = elim (Bool-cases (wants_page env lead)) [
    | inl fetched ↦ rw fetched (fetch-Kept lead.website)
    | inr skipped ↦ rw skipped (Moves-pure kept [])
  ]

  look_up-Kept :
      (b : Bool) (lead : BusinessLead) (p : Platform) → Moves Kept (look_up_if env b lead p)
  unfolding look_up_if look_up
  look_up-Kept false lead p = Moves-pure kept none
  look_up-Kept true lead p = Moves-bind kept _ _ (outside-Kept _) (λ raws. Moves-pure kept _)

  fall_back-Kept : (lead : BusinessLead) → Moves Kept (fall_back env lead)
  unfolding fall_back
  fall_back-Kept lead =
      Moves-bind kept _ _ (look_up-Kept (needs instagram lead) lead instagram) (λ o.
        Moves-bind kept _ _ (look_up-Kept (needs facebook lead) lead facebook)
          (λ q. update-Kept _ (fill_both-Extends o q)))

  -- a change of the lead, which is then read
  change-Kept :
      {A : Type 0} (f : BusinessLead → BusinessLead) (k : BusinessLead → Coroutine (World X) A)
      → ((l : BusinessLead) → Extends l (f l))
      → ((l : BusinessLead) → Moves Kept (k l))
      → Moves Kept (update env f >> gets (λ (w : World X). w.lead) >>= k)
  change-Kept f k h g =
      Moves-bind kept _ k
        (Moves-bind kept (update env f) (λ _. gets (λ (w : World X). w.lead)) (update-Kept f h)
          (λ _. gets-Kept (λ (w : World X). w.lead)))
        g

  discover-Kept : Moves Kept (discover_social_links_one env)
  unfolding discover_social_links_one from_own from_candidates
  discover-Kept =
      change-Kept from_own _ (λ l. fill_both-Extends _ _ l)
        (λ lead.
          Moves-bind kept _ _ (candidates-Kept lead) (λ cs.
            change-Kept (from_candidates cs) _ (λ l. fill_both-Extends _ _ l) fall_back-Kept))

  -- However social discovery ends, by returning, by an exception or by a cancellation, the lead has
  -- the name, the website and the Maps URL it had, and a profile URL that it had, with its
  -- confidence, is still there: only missing URLs are filled in.
  pub discover-Extends : (w : World X) → Extends w.lead (discover_social_links_one env w).1.lead
  unfolding Kept
  discover-Extends w = discover-Kept.at w
