-- ===== src/Discovery/BrowserPool/Entries.antt =====
-- Where the entries of the browser pool are.
use social_media_scraper.Base.{
  ℕ, ◌+◌, ◌≡◌, refl, ap, sym, Option, some, List, [], ◌∷◌, ◌++◌, if◌then◌else◌, ◌==◌, subst, arith,
  ◌∙◌, ◌⊎◌, In, true, false, inl, inr,
}
use social_media_scraper.Exceptions.{Outcome, returned, raised, cancelled}
use social_media_scraper.Discovery.BrowserPool.{
  BrowserPool, init, created, start, acquire, take_first, release, close_each, emptied, stop,
}

some_injective : {A : Type 0} {a b : A} → some a ≡ some b → a ≡ b
some_injective e = cc

-- How often an entry stands in a list.
unfoldable pub occurrences : ℕ → List ℕ → ℕ
occurrences e [] = 0
occurrences e (f ∷ fs) = (if f == e then 1 else 0) + occurrences e fs

occurrences-append :
    (e : ℕ) (xs ys : List ℕ) → occurrences e (xs ++ ys) ≡ occurrences e xs + occurrences e ys
unfolding occurrences
occurrences-append e [] ys = omega arith
occurrences-append e (x ∷ xs) ys = omega (arith, occurrences-append e xs ys)

-- How often an entry was created.
unfoldable pub creations : ℕ → List (Outcome ℕ) → ℕ
creations e [] = 0
creations e (returned f ∷ made) = (if f == e then 1 else 0) + creations e made
creations e (raised x ∷ made) = creations e made
creations e (cancelled ∷ made) = creations e made

creations-append :
    (e : ℕ) (xs ys : List (Outcome ℕ)) → creations e (xs ++ ys) ≡ creations e xs + creations e ys
unfolding creations
creations-append e [] ys = omega arith
creations-append e (returned f ∷ xs) ys = omega (arith, creations-append e xs ys)
creations-append e (raised x ∷ xs) ys = creations-append e xs ys
creations-append e (cancelled ∷ xs) ys = creations-append e xs ys

occurrences-created :
    (e : ℕ) (results : List (Outcome ℕ)) → occurrences e (created results) ≡ creations e results
unfolding occurrences created creations
occurrences-created e [] = refl
occurrences-created e (returned f ∷ rs) = omega (arith, occurrences-created e rs)
occurrences-created e (raised x ∷ rs) = occurrences-created e rs
occurrences-created e (cancelled ∷ rs) = occurrences-created e rs

-- What callers do between the creation of a pool and its `stop`, with what the calls of
-- `_create_entry` in it end in: a start of a pool that has started makes none.
pub data Step (p : BrowserPool) : List (Outcome ℕ) → BrowserPool → Type 0 where
  started : (results : List (Outcome ℕ)) → p.started ≡ false → Step p results (start results p).1
  started_again : p.started ≡ true → Step p [] (start [] p).1
  acquired : (e : ℕ) (q : BrowserPool) → acquire p ≡ some (e, q) → Step p [] q
  released :
      (e : ℕ) (before after : List ℕ)
      → p.in_use ≡ before ++ e ∷ after
      → Step p [] (release e before after p)

-- The pools that are reached, with what all the calls of `_create_entry` have ended in.
pub data Reaches (setting : ℕ) (size : Option ℕ) : List (Outcome ℕ) → BrowserPool → Type 0 where
  fresh : Reaches setting size [] (init setting size)
  step :
      (made more : List (Outcome ℕ)) (p q : BrowserPool)
      → Reaches setting size made p
      → Step p more q
      → Reaches setting size (made ++ more) q

-- Every entry created is tracked, and is in the pool or in use.
record IsAccounted (made : List (Outcome ℕ)) (p : BrowserPool) : Type 0 where
  tracked : (e : ℕ) → occurrences e p.all ≡ creations e made
  somewhere : (e : ℕ) → occurrences e p.pool + occurrences e p.in_use ≡ occurrences e p.all

nothing_made :
    (made : List (Outcome ℕ)) (p : BrowserPool) → IsAccounted made p → IsAccounted (made ++ []) p
unfolding creations
nothing_made made p a = record {
  tracked = λ e. omega (arith, a.tracked e, creations-append e made []);
  somewhere = a.somewhere;
}

take_first-IsAccounted :
    (made : List (Outcome ℕ)) (es : List ℕ) (p : BrowserPool) (e : ℕ) (q : BrowserPool)
    → p.pool ≡ es
    → take_first es p ≡ some (e, q)
    → IsAccounted made p
    → IsAccounted made q
unfolding take_first occurrences
take_first-IsAccounted made [] p e q h t a = absurd (ground arith)
take_first-IsAccounted made (x ∷ es) p e q h t a =
    let taken : BrowserPool = record p { pool = es; in_use = x ∷ p.in_use } in
    let same : taken ≡ q = ap (λ (r : ℕ × BrowserPool). r.1) (some_injective t) in
    subst (λ (r : BrowserPool). IsAccounted made r) same
      (record {
        tracked = a.tracked;
        somewhere = λ f. omega (arith, a.somewhere f, ap (occurrences f) h);
      })

started-IsAccounted :
    (made results : List (Outcome ℕ)) (p : BrowserPool)
    → p.started ≡ false
    → IsAccounted made p
    → IsAccounted (made ++ results) (start results p).1
unfolding start
started-IsAccounted made results p idle a = record {
  tracked = λ e.
      let t = a.tracked e in
      let c = creations-append e made results in
      let o = occurrences-append e p.all (created results) in
      rw idle (omega (arith, t, c, o, occurrences-created e results));
  somewhere = λ e.
      let s = a.somewhere e in
      let o = occurrences-append e p.pool (created results) in
      rw idle (omega (arith, s, o, occurrences-append e p.all (created results)));
}

Step-IsAccounted :
    (made more : List (Outcome ℕ)) (p q : BrowserPool)
    → Step p more q
    → IsAccounted made p
    → IsAccounted (made ++ more) q
unfolding start release occurrences acquire
Step-IsAccounted made _ p _ (started results idle) a = started-IsAccounted made results p idle a
Step-IsAccounted made _ p _ (started_again running) a =
    subst (λ (q : BrowserPool). IsAccounted (made ++ []) q) (sym (rw running refl))
      (nothing_made made p a)
Step-IsAccounted made _ p q (acquired x _ h) a =
    nothing_made made q (take_first-IsAccounted made p.pool p x q refl h a)
Step-IsAccounted made _ p _ (released x before after h) a =
    nothing_made made (release x before after p) (record {
      tracked = a.tracked;
      somewhere = λ e. omega (
        arith,
        a.somewhere e,
        ap (occurrences e) h,
        occurrences-append e before after,
        occurrences-append e before (x ∷ after),
        occurrences-append e p.pool (x ∷ []),
      );
    })

reached-IsAccounted :
    (setting : ℕ) (size : Option ℕ) (made : List (Outcome ℕ)) (p : BrowserPool)
    → Reaches setting size made p
    → IsAccounted made p
unfolding init occurrences creations
reached-IsAccounted setting size _ _ fresh = record { tracked = λ e. refl; somewhere = λ e. refl }
reached-IsAccounted setting size _ q (step made more p _ r h) =
    Step-IsAccounted made more p q h (reached-IsAccounted setting size made p r)

-- The loop is cancelled in the closing of an entry, or asks to close them all.
close_each_lem :
    (close : ℕ → Outcome {0} Unit) (es : List ℕ)
    → (((e : ℕ) × In e es × (close e ≡ cancelled)) × ((close_each close es).0 ≡ cancelled))
      ⊎ (close_each close es ≡ (returned tt, es))
unfolding close_each
close_each_lem close [] = inr refl
close_each_lem close (e ∷ es) = at (close e) refl (close_each_lem close es)
  where
    at :
        (o : Outcome {0} Unit)
        → close e ≡ o
        → (((f : ℕ) × In f es × (close f ≡ cancelled)) × ((close_each close es).0 ≡ cancelled))
          ⊎ (close_each close es ≡ (returned tt, es))
        → (((f : ℕ) × In f (e ∷ es) × (close f ≡ cancelled))
            × ((close_each close (e ∷ es)).0 ≡ cancelled))
          ⊎ (close_each close (e ∷ es) ≡ (returned tt, e ∷ es))
    at cancelled c r = inl ((e, inl refl, c), rw (close_each, c) refl)
    at (returned u) c (inl ((f, m, d), h)) = inl ((f, inr m, d), rw (close_each, c) h)
    at (returned u) c (inr h) = inr (rw (close_each, c, h) refl)
    at (raised x) c (inl ((f, m, d), h)) = inl ((f, inr m, d), rw (close_each, c) h)
    at (raised x) c (inr h) = inr (rw (close_each, c, h) refl)

-- Whatever has been started, acquired and released, also when a start has failed half-way: unless it
-- is cancelled while it closes an entry, which leaves the pool as it was, `stop` returns, has asked
-- to close each entry exactly as often as the calls of `_create_entry` returned it, whatever
-- closing the others raised, and leaves a pool with nothing in it. Each entry it closes was in the
-- pool or in use.
pub stop_lem :
    (setting : ℕ) (size : Option ℕ) (made : List (Outcome ℕ)) (p : BrowserPool)
    (close : ℕ → Outcome {0} Unit)
    → Reaches setting size made p
    → (((e : ℕ) × In e p.all × (close e ≡ cancelled))
        × ((stop close p).0 ≡ cancelled)
        × ((stop close p).2 ≡ p))
      ⊎ (((stop close p).0 ≡ returned tt)
          × ((stop close p).2.all ≡ [])
          × ((stop close p).2.pool ≡ [])
          × ((e : ℕ)
              → (occurrences e (stop close p).1 ≡ creations e made)
                × (creations e made ≡ occurrences e p.pool + occurrences e p.in_use)))
unfolding stop emptied
stop_lem setting size made p close r =
    let a = reached-IsAccounted setting size made p r in
    elim (close_each_lem close p.all) [
      | inl (early, c) ↦ inl (early, c, rw c refl)
      | inr all ↦
          let o = ap (λ (x : Outcome {0} Unit × List ℕ). x.0) all in
          let closed = ap (λ (x : Outcome {0} Unit × List ℕ). x.1) all in
          inr (
            o,
            rw o refl,
            rw o refl,
            λ e. (
              ap (occurrences e) closed ∙ a.tracked e,
              omega (arith, a.tracked e, a.somewhere e),
            ),
          )
    ]
