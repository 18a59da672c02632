-- ===== src/Social/Fetchers/Quiet.antt =====
-- How a fetch of a homepage ends.
use social_media_scraper.Base.{
  ℕ, ◌+◌, ◌-◌, ◌*◌, ◌≡◌, refl, ap, ◌∙◌, ◌⊎◌, inl, inr, Option, none, some, Text, arith,
}
use social_media_scraper.Exceptions.{Outcome, returned, raised, cancelled}
use social_media_scraper.Coroutine.{Coroutine, pure, catching, finally, end_finally, ◌>>=◌}
use social_media_scraper.Coroutine.Keeps.{Moves, IsPreorder, Moves-pure, Moves-bind}
use social_media_scraper.Social.Fetchers.{
  Response, text_of, fetch, Page, World, call, enter, exit, set_route, unset_route, read,
  read_routed, read_held, browser_fetch,
}

-- a value or a cancellation
unfoldable pub IsQuiet : {A : Type 0} → Outcome A → Type 0
IsQuiet {A} o = ((a : A) × (o ≡ returned a)) ⊎ (o ≡ cancelled)

caught-IsQuiet :
    {A W : Type 0} (o : Outcome (Option A)) (w : W)
    → IsQuiet (catching (λ (v : W). (o, w)) (λ e. pure none) w).0
unfolding IsQuiet
caught-IsQuiet (returned a) w = inl (a, refl)
caught-IsQuiet (raised e) w = inl (none, refl)
caught-IsQuiet cancelled w = inr refl

-- Over HTTP, however the request ends.
pub fetch-IsQuiet :
    {W : Type 0} (request : Coroutine W Response) (w : W) → IsQuiet (fetch request w).0
unfolding fetch
fetch-IsQuiet request w =
    let r = (request >>= λ response. pure (text_of response)) w in caught-IsQuiet (r.0) (r.1)

module _ {X : Type 0} where
  -- the pages that are held are as many before and after
  SamePages : World X → World X → Type 0
  SamePages w v = v.pages ≡ w.pages

  SamePages-IsPreorder : IsPreorder SamePages
  unfolding SamePages
  SamePages-IsPreorder = record { reflexive = λ w. refl; transitive = λ u v w p q. q ∙ p }

  end-world :
      {A : Type 0} (o : Outcome A) (p : Outcome {0} Unit) (w : World X)
      → (end_finally o (p, w)).1 ≡ w
  end-world o (returned u) w = refl
  end-world o (raised e) w = refl
  end-world o cancelled w = refl

  finally-world :
      {A : Type 0} (m : Coroutine (World X) A) (clause : Coroutine (World X) Unit) (w : World X)
      → (finally m clause w).1 ≡ (clause (m w).1).1
  finally-world m clause w = end-world (m w).0 (clause (m w).1).0 (clause (m w).1).1

  Moves-finally :
      {A : Type 0} (m : Coroutine (World X) A) (clause : Coroutine (World X) Unit)
      → Moves SamePages m
      → Moves SamePages clause
      → Moves SamePages (finally m clause)
  unfolding SamePages
  Moves-finally m clause mm mc = record {
    at = λ w. ap (λ (v : World X). v.pages) (finally-world m clause w) ∙ mc.at (m w).1 ∙ mm.at w;
  }

  caught-world :
      {A : Type 0} (o : Outcome A) (w : World X) (a : A)
      → (catching (λ (v : World X). (o, w)) (λ e. pure a) w).1 ≡ w
  caught-world (returned b) w a = refl
  caught-world (raised e) w a = refl
  caught-world cancelled w a = refl

  call-Same : {A : Type 0} (m : Coroutine X A) → Moves SamePages (call m)
  unfolding SamePages call
  call-Same m = record { at = λ w. refl }

  caught-Same :
      {A : Type 0} (m : Coroutine (World X) A) (a : A)
      → Moves SamePages m
      → Moves SamePages (catching m (λ e. pure a))
  unfolding SamePages
  caught-Same m a mm = record {
    at = λ w. ap (λ (v : World X). v.pages) (caught-world (m w).0 (m w).1 a) ∙ mm.at w;
  }

  -- putting back the page that was taken
  exit-pages :
      (page : Page X) (w v : World X) → v.pages ≡ w.pages + 1 → (exit page v).1.pages ≡ w.pages
  unfolding exit
  exit-pages page w v h = omega arith

  module _ (page : Page X) where
    set_route-Same : Moves SamePages (set_route page)
    unfolding set_route SamePages
    set_route-Same =
        Moves-bind SamePages-IsPreorder (call page.route)
          (λ u w. (returned tt, record w { routes = w.routes + 1 })) (call-Same page.route)
          (λ u. record { at = λ w. refl })

    unset_route-Same : Moves SamePages (unset_route page)
    unfolding unset_route SamePages
    unset_route-Same =
        Moves-bind SamePages-IsPreorder (call page.unroute)
          (λ u w. (returned tt, record w { routes = w.routes - 1 })) (call-Same page.unroute)
          (λ u. record { at = λ w. refl })

    module _ (fetch_timeout networkidle_timeout : ℕ) where
      read-Same : (url : Text) → Moves SamePages (read page fetch_timeout networkidle_timeout url)
      unfolding read
      read-Same url =
          let waiting = call (page.wait_for_networkidle (networkidle_timeout * 1000)) in
          Moves-bind SamePages-IsPreorder (call (page.goto url (fetch_timeout * 1000)))
            (λ u. catching waiting (λ e. pure tt) >>= λ v. call page.content)
            (call-Same (page.goto url (fetch_timeout * 1000)))
            (λ u.
              Moves-bind SamePages-IsPreorder (catching waiting (λ e. pure tt))
                (λ v. call page.content)
                (caught-Same waiting tt
                  (call-Same (page.wait_for_networkidle (networkidle_timeout * 1000))))
                (λ v. call-Same page.content))

      read_routed-Same :
          (url : Text) → Moves SamePages (read_routed page fetch_timeout networkidle_timeout url)
      unfolding read_routed
      read_routed-Same url =
          Moves-bind SamePages-IsPreorder (set_route page)
            (λ u. finally (read page fetch_timeout networkidle_timeout url) (unset_route page))
            set_route-Same
            (λ u.
              Moves-finally (read page fetch_timeout networkidle_timeout url) (unset_route page)
                (read-Same url) unset_route-Same)

      -- with the page taken, or not
      held-pages :
          (url : Text) (o : Outcome {0} Unit) (x : X) (w : World X)
          → ((((λ (v : World X). (o, record w { outside = x })) >>= λ u v.
                  (returned tt, record v { pages = v.pages + 1 }))
                >>= λ u.
                    finally (read_routed page fetch_timeout networkidle_timeout url) (exit page))
              w).1.pages
            ≡ w.pages
      unfolding SamePages
      held-pages url (returned u) x w =
          let reading = read_routed page fetch_timeout networkidle_timeout url in
          let start = record w { outside = x; pages = w.pages + 1 } in
          ap (λ (v : World X). v.pages) (finally-world reading (exit page) start)
          ∙ exit-pages page w (reading start).1 ((read_routed-Same url).at start)
      held-pages url (raised e) x w = refl
      held-pages url cancelled x w = refl

      read_held-Same :
          (url : Text) → Moves SamePages (read_held page fetch_timeout networkidle_timeout url)
      unfolding read_held enter call SamePages
      read_held-Same url = record {
        at = λ w. held-pages url (page.acquire w.outside).0 (page.acquire w.outside).1 w;
      }

      -- However the calls of the page end, a fetch with the browser returns or is cancelled, it
      -- raises nothing, and a page that it took from the pool is put back.
      pub browser_fetch-IsQuiet :
          (url : Text) (w : World X)
          → IsQuiet (browser_fetch page fetch_timeout networkidle_timeout url w).0
            × ((browser_fetch page fetch_timeout networkidle_timeout url w).1.pages ≡ w.pages)
      unfolding browser_fetch SamePages
      browser_fetch-IsQuiet url w =
          let reading = read_held page fetch_timeout networkidle_timeout url in
          let r = (reading >>= λ html. pure (some html)) w in
          (
            caught-IsQuiet (r.0) (r.1),
            ap (λ (v : World X). v.pages) (caught-world (r.0) (r.1) none)
                ∙ (Moves-bind SamePages-IsPreorder reading (λ html. pure (some html))
                      (read_held-Same url) (λ html. Moves-pure SamePages-IsPreorder (some html))).at
                    w,
          )
