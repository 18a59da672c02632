-- ===== src/Providers/Listed.antt =====
-- Which URLs a search returns.
use social_media_scraper.Base.{
  ℕ, zero, suc, ◌+◌, ◌≡◌, ◌≤◌, refl, ap, ◌∙◌, sym, inl, inr, ◌⊎◌, Bool, true, false, Option, none,
  some, List, [], ◌∷◌, ◌++◌, append_assoc, append-nil, length, length-append, take, leb, leb→le,
  le→leb, lt→leb, if◌then◌else◌, Text, In, arith, Bool-cases,
}
use social_media_scraper.Exceptions.{Outcome, returned, raised, cancelled, value_error}
use social_media_scraper.Providers.{unwrap_redirect, kept, collect, Response, found, discover}

-- The targets of all links, without those that have none or whose URL cannot be read.
unfoldable pub target_of : Option (Option Text) → List Text
unfolding kept
target_of none = []
target_of (some target) = kept target

unfoldable pub targets : List Text → List Text
unfolding target_of
targets [] = []
targets (href ∷ hrefs) = target_of (unwrap_redirect href) ++ targets hrefs

-- A link whose URL cannot be read.
abbrev pub HasUnreadable : List Text → Type 0
HasUnreadable hrefs = (href : Text) × In href hrefs × (unwrap_redirect href ≡ none)

IsCollected : ℕ → List Text → List Text → List Text → Option (List Text) → Type 0
IsCollected room ts hrefs urls o =
    (o ≡ some (urls ++ take room ts)) ⊎ ((o ≡ none) × HasUnreadable hrefs)

if_true : {A : Type 0} {b : Bool} (x y : A) → b ≡ true → (if b then x else y) ≡ x
if_true x y h = rw h refl

if_false : {A : Type 0} {b : Bool} (x y : A) → b ≡ false → (if b then x else y) ≡ y
if_false x y h = rw h refl

one_link :
    {limit : ℕ} (room : ℕ) (href : Text) (hrefs urls k ts : List Text) (o : Option (List Text))
    → length urls + suc room ≡ limit
    → length k ≤ 1
    → ((left : ℕ)
        → length (urls ++ k) + suc left ≡ limit
        → IsCollected (suc left) ts hrefs (urls ++ k) o)
    → IsCollected
        (suc room)
        (k ++ ts)
        (href ∷ hrefs)
        urls
        (if leb limit (length (urls ++ k)) then some (urls ++ k) else o)
unfolding IsCollected
one_link {limit} room href hrefs urls [] ts o h short rest =
    let same = append-nil urls in
    let more : leb limit (length (urls ++ [])) ≡ false =
      lt→leb (length (urls ++ [])) limit (omega (arith, ap length same)) in
    elim (rest room (omega (arith, ap length same))) [
      | inl e ↦
          inl
            (if_false _ _ more ∙ e ∙ ap (λ (xs : List Text). some (xs ++ take (suc room) ts)) same)
      | inr (e, (x, m, n)) ↦ inr (if_false _ _ more ∙ e, (x, inr m, n))
    ]
one_link {limit} zero href hrefs urls (u ∷ []) ts o h short rest = inl (
    if_true _ _
      (le→leb limit (length (urls ++ u ∷ [])) (omega (arith, length-append urls (u ∷ [])))))
one_link {limit} (suc room) href hrefs urls (u ∷ []) ts o h short rest =
    let more : leb limit (length (urls ++ u ∷ [])) ≡ false =
      lt→leb (length (urls ++ u ∷ [])) limit (omega (arith, length-append urls (u ∷ []))) in
    elim (rest room (omega (arith, length-append urls (u ∷ [])))) [
      | inl e ↦
          inl (if_false _ _ more ∙ e ∙ ap some (append_assoc urls (u ∷ []) (take (suc room) ts)))
      | inr (e, (x, m, n)) ↦ inr (if_false _ _ more ∙ e, (x, inr m, n))
    ]
one_link room href hrefs urls (u ∷ v ∷ k) ts o h short rest = absurd (omega arith)

kept-short : (t : Option Text) → length (kept t) ≤ 1
unfolding kept
kept-short none = omega arith
kept-short (some []) = omega arith
kept-short (some (c ∷ s)) = omega arith

after_link :
    {limit : ℕ} (room : ℕ) (href : Text) (hrefs urls ts : List Text) (t : Option (Option Text))
    (rest : List Text → Option (List Text))
    → length urls + suc room ≡ limit
    → unwrap_redirect href ≡ t
    → ((more : List Text) (left : ℕ)
        → length more + suc left ≡ limit
        → IsCollected (suc left) ts hrefs more (rest more))
    → IsCollected (suc room) (target_of t ++ ts) (href ∷ hrefs) urls (elim t [
      | none ↦ none
      | some target ↦
          if leb limit (length (urls ++ kept target))
          then some (urls ++ kept target)
          else rest (urls ++ kept target)
    ])
unfolding IsCollected target_of
after_link room href hrefs urls ts none rest h e ih = inr (refl, (href, inl refl, e))
after_link room href hrefs urls ts (some t) rest h e ih =
    one_link room href hrefs urls (kept t) ts (rest (urls ++ kept t)) h (kept-short t)
      (ih (urls ++ kept t))

collect-IsCollected :
    (limit room : ℕ) (hrefs urls : List Text)
    → length urls + suc room ≡ limit
    → IsCollected (suc room) (targets hrefs) hrefs urls (collect limit hrefs urls)
unfolding IsCollected collect targets
collect-IsCollected limit room [] urls h = inl (ap some (sym (append-nil urls)))
collect-IsCollected limit room (href ∷ hrefs) urls h =
    after_link room href hrefs urls (targets hrefs) (unwrap_redirect href) (collect limit hrefs) h
      refl (λ more left. collect-IsCollected limit left hrefs more)

-- What a search ends in, for a limit that is not 0: cancelled if the request is; none if the
-- request raises or the status is an error; else the first `limit` of the targets in the answer,
-- or ValueError, which is raised only if a link cannot be read.
abbrev pub Searched : ℕ → Outcome Response → Outcome (List Text) → Type 0
Searched limit cancelled o = o ≡ cancelled
Searched limit (raised e) o = o ≡ returned []
Searched limit (returned r) o =
    ((400 ≤ r.status_code) × (o ≡ returned []))
    ⊎ ((o ≡ returned (take limit (targets r.hrefs)))
        ⊎ ((o ≡ raised value_error) × HasUnreadable r.hrefs))

found-Searched :
    (limit : ℕ) (hrefs : List Text)
    → 1 ≤ limit
    → (found (collect limit hrefs []) ≡ returned (take limit (targets hrefs)))
      ⊎ ((found (collect limit hrefs []) ≡ raised value_error) × HasUnreadable hrefs)
unfolding found IsCollected
found-Searched zero hrefs h = absurd (omega arith)
found-Searched (suc room) hrefs h =
    elim (collect-IsCollected (suc room) room hrefs [] (omega arith)) [
      | inl e ↦ inl (ap found e)
      | inr (e, x) ↦ inr (ap found e, x)
    ]

-- A search with a limit that is not 0 returns the first `limit` of the targets of the links it
-- finds, in their order and without those that are empty, unless one of the links cannot be read,
-- when it may raise ValueError. If the request raises, or its status is 400 or more, it returns no
-- URL; it is cancelled if the request is.
pub discover-Searched :
    (limit : ℕ) (answer : Outcome Response)
    → 1 ≤ limit
    → Searched limit answer (discover limit answer)
unfolding discover
discover-Searched limit cancelled h = refl
discover-Searched limit (raised e) h = refl
discover-Searched limit (returned r) h = elim (Bool-cases (leb 400 r.status_code)) [
  | inl bad ↦ inl (leb→le 400 r.status_code bad, if_true _ _ bad)
  | inr good ↦ elim (found-Searched limit r.hrefs h) [
    | inl e ↦ inr (inl (if_false _ _ good ∙ e))
    | inr (e, x) ↦ inr (inr (if_false _ _ good ∙ e, x))
  ]
]
