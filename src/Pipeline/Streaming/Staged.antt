-- ===== src/Pipeline/Streaming/Staged.antt =====
-- The streaming part against the whole-batch stages: what each does to one lead.
pub mod OneLead
pub mod Places
pub mod Enriching
pub mod Discovering
pub mod Kept
pub mod Finished
use social_media_scraper.Base.{
  ℕ, zero, suc, ◌+◌, ◌≡◌, ◌≢◌, ◌≤◌, refl, ap, ◌∙◌, sym, Bool, true, false, Option, none, some, List,
  [], ◌∷◌, map, arith, if◌then◌else◌, Text,
}
use social_media_scraper.Exceptions.{Outcome}
use social_media_scraper.Leads.{BusinessLead, SocialLead}
use social_media_scraper.Selection.Ranking.{ScoreSettings}
use social_media_scraper.Pipeline.Selecting.{needs_enrichment, needs_social, enriched, select_urls}
use social_media_scraper.Pipeline.Stages.{enrich_batch, discover_social_batch}
use social_media_scraper.Pipeline.Streaming.{update, at_satisfies}

unfoldable pub elem : {A : Type 0} → ℕ → List A → Option A
elem i [] = none
elem zero (x ∷ xs) = some x
elem (suc i) (x ∷ xs) = elem i xs

unfoldable pub change : {A B : Type 0} → (A → B) → Option A → Option B
change f none = none
change f (some x) = some (f x)

unfoldable pub satisfies : {A : Type 0} → (A → Bool) → Option A → Bool
satisfies p none = false
satisfies p (some x) = p x

module _ {A B D : Type 0} where
  pub change-change :
      (f : A → B) (g : B → D) (x : Option A) → change g (change f x) ≡ change (λ a. g (f a)) x
  unfolding change
  change-change f g none = refl
  change-change f g (some x) = refl

module _ {A : Type 0} where
  pub change-same : (f : A → A) (x : Option A) → ((a : A) → x ≡ some a → f a ≡ a) → change f x ≡ x
  unfolding change
  change-same f none h = refl
  change-same f (some x) h = ap some (h x refl)

  pub change-agrees :
      {B : Type 0} (f g : A → B) (x : Option A)
      → ((a : A) → x ≡ some a → f a ≡ g a)
      → change f x ≡ change g x
  unfolding change
  change-agrees f g none h = refl
  change-agrees f g (some x) h = ap some (h x refl)

  pub elem-update :
      (i : ℕ) (f : A → A) (xs : List A) → elem i (update i f xs) ≡ change f (elem i xs)
  unfolding elem change update
  elem-update i f [] = refl
  elem-update zero f (x ∷ xs) = refl
  elem-update (suc i) f (x ∷ xs) = elem-update i f xs

  pub elem-update_other :
      (i j : ℕ) (f : A → A) (xs : List A) → i ≢ j → elem i (update j f xs) ≡ elem i xs
  unfolding elem update
  elem-update_other i j f [] h = refl
  elem-update_other zero zero f (x ∷ xs) h = absurd (h refl)
  elem-update_other zero (suc j) f (x ∷ xs) h = refl
  elem-update_other (suc i) zero f (x ∷ xs) h = refl
  elem-update_other (suc i) (suc j) f (x ∷ xs) h = elem-update_other i j f xs (λ e. h (ap suc e))

  pub elem-satisfies :
      (i : ℕ) (p : A → Bool) (xs : List A) → satisfies p (elem i xs) ≡ at_satisfies i p xs
  unfolding elem satisfies at_satisfies
  elem-satisfies i p [] = refl
  elem-satisfies zero p (x ∷ xs) = refl
  elem-satisfies (suc i) p (x ∷ xs) = elem-satisfies i p xs

  -- lists with the same elements are the same
  pub elem-ext : (xs ys : List A) → ((i : ℕ) → elem i xs ≡ elem i ys) → xs ≡ ys
  unfolding elem
  elem-ext [] [] h = refl
  elem-ext [] (y ∷ ys) h = let e = h 0 in absurd (ground arith)
  elem-ext (x ∷ xs) [] h = let e = h 0 in absurd (ground arith)
  elem-ext (x ∷ xs) (y ∷ ys) h = let e = h 0 in cc (elem-ext xs ys (λ i. h (suc i)), e)

  pub elem-map :
      {B : Type 0} (f : A → B) (i : ℕ) (xs : List A) → elem i (map f xs) ≡ change f (elem i xs)
  unfolding elem change
  elem-map f i [] = refl
  elem-map f zero (x ∷ xs) = refl
  elem-map f (suc i) (x ∷ xs) = elem-map f i xs

-- What the first two whole-batch stages do to a lead.
unfoldable pub enrich_with : Outcome (Option Text) → BusinessLead → BusinessLead
enrich_with o l = if needs_enrichment l then enriched o l else l

unfoldable pub discover_with : SocialLead → BusinessLead → BusinessLead
discover_with found l = if needs_social l then record l { social = found } else l

-- What the three of them do.
unfoldable pub staged :
    ScoreSettings → Outcome (Option Text) → SocialLead → BusinessLead → BusinessLead
staged s o found l = select_urls s (discover_with found (enrich_with o l))

pub elem-enrich_batch :
    (o : ℕ → Outcome (Option Text)) (n i : ℕ) (ls : List BusinessLead)
    → elem i (enrich_batch o n ls) ≡ change (enrich_with (o (n + i))) (elem i ls)
unfolding elem change enrich_batch enrich_with
elem-enrich_batch o n i [] = refl
elem-enrich_batch o n zero (l ∷ ls) = ap (λ (k : ℕ). some (enrich_with (o k) l)) (omega arith)
elem-enrich_batch o n (suc i) (l ∷ ls) =
    elem-enrich_batch o (n + 1) i ls
    ∙ ap (λ (k : ℕ). change (enrich_with (o k)) (elem i ls)) (omega arith)

pub elem-discover_social_batch :
    (found : ℕ → SocialLead) (n i : ℕ) (ls : List BusinessLead)
    → elem i (discover_social_batch found n ls) ≡ change (discover_with (found (n + i))) (elem i ls)
unfolding elem change discover_social_batch discover_with
elem-discover_social_batch found n i [] = refl
elem-discover_social_batch found n zero (l ∷ ls) =
    ap (λ (k : ℕ). some (discover_with (found k) l)) (omega arith)
elem-discover_social_batch found n (suc i) (l ∷ ls) =
    elem-discover_social_batch found (n + 1) i ls
    ∙ ap (λ (k : ℕ). change (discover_with (found k)) (elem i ls)) (omega arith)
