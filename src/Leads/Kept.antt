-- ===== src/Leads/Kept.antt =====
-- The result of `deduplicate_leads`: what it keeps, what it drops, and that a second pass drops
-- nothing.
use social_media_scraper.Base.{
  ℕ, suc, ◌+◌, ◌≡◌, refl, sym, ap, ◌∙◌, inl, inr, ◌⊎◌, Option, none, some, List, [], ◌∷◌, ◌++◌,
  append-nil, append_assoc, length, length-append, In, In-append, In-append_left, In-append_right,
  Distinct, Text, text_eq, contains, Bool-cases, arith, subst,
}
use social_media_scraper.Leads.{
  BusinessLead, lead_key, Progress, visit_key, visit, visit_all, deduplicate_leads,
}
use social_media_scraper.Leads.Unique.{
  lead_keys, lead_keys-append, contains_iff, IsSound, visit_key-IsSound,
}

visit_all-IsSound : (ls : List BusinessLead) (p : Progress) → IsSound p → IsSound (visit_all ls p)
unfolding visit_all visit
visit_all-IsSound [] p s = s
visit_all-IsSound (l ∷ ls) p s =
    visit_all-IsSound ls (visit l p) (visit_key-IsSound l (lead_key l) p refl s)

visit_key-count :
    (l : BusinessLead) (o : Option Text) (p : Progress)
    → length (visit_key l o p).unique + (visit_key l o p).duplicate_count
      ≡ suc (length p.unique + p.duplicate_count)
unfolding visit_key
visit_key-count l none p = omega (arith, length-append p.unique (l ∷ []))
visit_key-count l (some k) p = ground (arith, length-append p.unique (l ∷ []))

visit_all-count :
    (ls : List BusinessLead) (p : Progress)
    → length (visit_all ls p).unique + (visit_all ls p).duplicate_count
      ≡ length ls + (length p.unique + p.duplicate_count)
unfolding visit_all visit
visit_all-count [] p = omega arith
visit_all-count (l ∷ ls) p =
    omega (arith, visit_all-count ls (visit l p), visit_key-count l (lead_key l) p)

added-In :
    (a l : BusinessLead) (kept : List BusinessLead) → In a (kept ++ l ∷ []) → In a kept ⊎ (l ≡ a)
added-In a l kept m = elim (In-append a kept (l ∷ []) m) [
  | inl there ↦ inl there
  | inr (inl here) ↦ inr here
  | inr (inr gone) ↦ elim gone [ ]
]

visit_key-In :
    (a l : BusinessLead) (o : Option Text) (p : Progress)
    → In a (visit_key l o p).unique
    → In a p.unique ⊎ (l ≡ a)
unfolding visit_key
visit_key-In a l none p m = added-In a l p.unique m
visit_key-In a l (some k) p m = elim (Bool-cases (contains k p.seen)) [
  | inl old ↦ inl (rw old at m)
  | inr new ↦ added-In a l p.unique (rw new at m)
]

visit_all-In :
    (a : BusinessLead) (ls : List BusinessLead) (p : Progress)
    → In a (visit_all ls p).unique
    → In a p.unique ⊎ In a ls
unfolding visit_all visit
visit_all-In a [] p m = inl m
visit_all-In a (l ∷ ls) p m = elim (visit_all-In a ls (visit l p) m) [
  | inl before ↦ elim (visit_key-In a l (lead_key l) p before) [
    | inl there ↦ inl there
    | inr here ↦ inr (inl here)
  ]
  | inr after ↦ inr (inr after)
]

-- What is kept stays.
visit_key-grows :
    (l : BusinessLead) (o : Option Text) (p : Progress)
    → (added : List BusinessLead) × ((visit_key l o p).unique ≡ p.unique ++ added)
unfolding visit_key
visit_key-grows l none p = (l ∷ [], refl)
visit_key-grows l (some k) p = elim (Bool-cases (contains k p.seen)) [
  | inl old ↦ rw old ([], sym (append-nil p.unique))
  | inr new ↦ rw new (l ∷ [], refl)
]

visit_all-grows :
    (ls : List BusinessLead) (p : Progress)
    → (added : List BusinessLead) × ((visit_all ls p).unique ≡ p.unique ++ added)
unfolding visit_all visit
visit_all-grows [] p = ([], sym (append-nil p.unique))
visit_all-grows (l ∷ ls) p =
    let (xs, e) = visit_key-grows l (lead_key l) p in
    let (ys, f) = visit_all-grows ls (visit l p) in
    (xs ++ ys, f ∙ ap (λ (q : List BusinessLead). q ++ ys) e ∙ append_assoc p.unique xs ys)

-- A lead that was visited is kept, or another with its key is.
abbrev pub Covered : List BusinessLead → BusinessLead → Type 0
Covered kept l = In l kept ⊎ ((k : Text) × (lead_key l ≡ some k) × In k (lead_keys kept))

Covered-append :
    (kept added : List BusinessLead) (l : BusinessLead) → Covered kept l → Covered (kept ++ added) l
Covered-append kept added l (inl m) = inl (In-append_left l kept added m)
Covered-append kept added l (inr (k, e, m)) = inr (
  k,
  e,
  subst (λ (ks : List Text). In k ks) (sym (lead_keys-append kept added))
      (In-append_left k (lead_keys kept) (lead_keys added) m),
)

visit_key-Covered :
    (l : BusinessLead) (o : Option Text) (p : Progress)
    → lead_key l ≡ o
    → IsSound p
    → Covered (visit_key l o p).unique l
unfolding visit_key
visit_key-Covered l none p e s = inl (In-append_right l p.unique (l ∷ []) (inl refl))
visit_key-Covered l (some k) p e s = elim (Bool-cases (contains k p.seen)) [
  | inl old ↦ rw old (inr (k, e, (s.seen_iff k).0 ((contains_iff k p.seen).0 old)))
  | inr new ↦ rw new (inl (In-append_right l p.unique (l ∷ []) (inl refl)))
]

visit_all-Covered :
    (a : BusinessLead) (ls : List BusinessLead) (p : Progress)
    → IsSound p
    → In a ls
    → Covered (visit_all ls p).unique a
unfolding visit_all visit
visit_all-Covered a [] p s m = elim m [ ]
visit_all-Covered a (l ∷ ls) p s (inl here) =
    let (added, grown) = visit_all-grows ls (visit l p) in
    subst (λ (kept : List BusinessLead). Covered kept a) (sym grown)
      (subst (λ (b : BusinessLead). Covered ((visit l p).unique ++ added) b) here
        (Covered-append (visit l p).unique added l (visit_key-Covered l (lead_key l) p refl s)))
visit_all-Covered a (l ∷ ls) p s (inr there) =
    visit_all-Covered a ls (visit l p) (visit_key-IsSound l (lead_key l) p refl s) there

abbrev start : Progress
start = record { seen = []; unique = []; duplicate_count = 0 }

start-IsSound : IsSound start
unfolding lead_keys
start-IsSound = record { seen_iff = λ k. ((λ m. m), (λ m. m)); distinct = tt }

-- What a list of leads, and the count of those dropped, promise of the leads they come from.
pub record IsUniqueOf (leads kept : List BusinessLead) (dropped : ℕ) : Type 0 where
  -- no two leads kept have the same key
  pub distinct : Distinct (lead_keys kept)
  -- nothing is made up
  pub from : (l : BusinessLead) → In l kept → In l leads
  -- a lead without a key is kept, and of each key there is a lead
  pub covered : (l : BusinessLead) → In l leads → Covered kept l
  pub count : length kept + dropped ≡ length leads

-- The leads that `deduplicate_leads` keeps have pairwise different keys, are leads it was given,
-- include every lead without a key and one for each key, and together with the count of
-- duplicates make up the number of leads given.
pub deduplicate_leads-IsUniqueOf :
    (leads : List BusinessLead)
    → IsUniqueOf leads (deduplicate_leads leads).0 (deduplicate_leads leads).1
unfolding deduplicate_leads
deduplicate_leads-IsUniqueOf leads = record {
  distinct = (visit_all-IsSound leads start start-IsSound).distinct;
  from =
      λ l m. elim (visit_all-In l leads start m) [ inl gone ↦ elim gone [ ] | inr there ↦ there ];
  covered = λ l m. visit_all-Covered l leads start start-IsSound m;
  count = omega (arith, visit_all-count leads start);
}
