-- ===== src/Pipeline/Streaming/Staged/OneLead.antt =====
-- How far the streaming part has come with one lead.
use social_media_scraper.Base.{
  ℕ, ◌≡◌, ◌≤◌, refl, ap, ◌∙◌, sym, inl, inr, Bool, true, Bool-cases, Option, none, some, arith,
  if◌then◌else◌, Text,
}
use social_media_scraper.Exceptions.{Outcome, raised, value_error}
use social_media_scraper.Leads.{BusinessLead, SocialLead}
use social_media_scraper.Selection.Ranking.{ScoreSettings}
use social_media_scraper.Pipeline.Selecting.{needs_enrichment, needs_social, enriched, select_urls}
use social_media_scraper.Pipeline.Streaming.Turns.{no_links}
use social_media_scraper.Pipeline.Streaming.Staged.{
  change, satisfies, change-same, enrich_with, discover_with, staged,
}

-- The lead was `x` and is `y`; the numbers tell how often it stands before enrichment, in
-- enrichment, between enrichment and selection, in discovery, and among the leads handled.
pub record IsStaged (s : ScoreSettings) (x y : Option BusinessLead)
    (raw enriching past discovering handled : ℕ) : Type 0 where
  pub fresh : 1 ≤ raw → y ≡ x
  pub lacks : 1 ≤ enriching → satisfies needs_enrichment x ≡ true
  pub visited : 1 ≤ past → (o : Outcome (Option Text)) × (y ≡ change (enrich_with o) x)
  pub incomplete : 1 ≤ discovering → satisfies needs_social y ≡ true
  pub final :
      1 ≤ handled
      → (o : Outcome (Option Text)) × (found : SocialLead) × (y ≡ change (staged s o found) x)

module _ {s : ScoreSettings} {x y : Option BusinessLead} {a b p d k : ℕ} where
  pub IsStaged-weaken :
      {z : Option BusinessLead} {a1 b1 p1 d1 k1 : ℕ}
      → z ≡ y
      → a1 ≤ a
      → b1 ≤ b
      → p1 ≤ p
      → d1 ≤ d
      → k1 ≤ k
      → IsStaged s x y a b p d k
      → IsStaged s x z a1 b1 p1 d1 k1
  IsStaged-weaken e f g h i j v = record {
    fresh = λ n. e ∙ v.fresh (omega arith);
    lacks = λ n. v.lacks (omega arith);
    visited = λ n. let (o, q) = v.visited (omega arith) in (o, e ∙ q);
    incomplete = λ n. ap (satisfies needs_social) e ∙ v.incomplete (omega arith);
    final = λ n. let (o, found, q) = v.final (omega arith) in (o, found, e ∙ q);
  }

-- an attempt that fails leaves the lead as it is
pub enrich_with-raised : (x : Option BusinessLead) → x ≡ change (enrich_with (raised value_error)) x
unfolding enrich_with enriched
enrich_with-raised x = sym (change-same (enrich_with (raised value_error)) x (λ l e. ground arith))

pub enrich_with-lacks :
    (o : Outcome (Option Text)) (x : Option BusinessLead)
    → satisfies needs_enrichment x ≡ true
    → change (enriched o) x ≡ change (enrich_with o) x
unfolding enrich_with change satisfies
enrich_with-lacks o none h = refl
enrich_with-lacks o (some l) h = ground arith

discover_with-own : (l : BusinessLead) → discover_with l.social l ≡ l
unfolding discover_with
discover_with-own l = elim (Bool-cases (needs_social l)) [
  | inl h ↦ ground arith
  | inr h ↦ ground arith
]

-- A lead that is not searched for profiles is one whose search finds what it has.
pub skipped-final :
    (s : ScoreSettings) (o : Outcome (Option Text)) (x y : Option BusinessLead)
    → y ≡ change (enrich_with o) x
    → (r : Outcome (Option Text)) × (found : SocialLead) × (change (select_urls s) y
        ≡ change (staged s r found) x)
unfolding staged change
skipped-final s o none y e = (o, no_links, ap (change (select_urls s)) e)
skipped-final s o (some l) y e =
    let m = enrich_with o l in
    (
      o,
      m.social,
      ap (change (select_urls s)) e ∙ ap (λ n. some (select_urls s n)) (sym (discover_with-own m)),
    )

pub searched-final :
    (s : ScoreSettings) (o : Outcome (Option Text)) (found : SocialLead) (x y : Option BusinessLead)
    → y ≡ change (enrich_with o) x
    → satisfies needs_social y ≡ true
    → change (λ l. select_urls s (record l { social = found })) y ≡ change (staged s o found) x
unfolding staged change satisfies discover_with
searched-final s o found none y e h =
    ap (change (λ l. select_urls s (record l { social = found }))) e
searched-final s o found (some l) y e h =
    let needed : needs_social (enrich_with o l) ≡ true = sym (ap (satisfies needs_social) e) ∙ h in
    ap (change (λ l. select_urls s (record l { social = found }))) e
    ∙ ap
        (λ (b : Bool). some (
          select_urls s
            (if b then record (enrich_with o l) { social = found } else enrich_with o l)))
        (sym needed)
