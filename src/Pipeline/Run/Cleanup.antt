-- ===== src/Pipeline/Run/Cleanup.antt =====
-- What a run ends in.
use social_media_scraper.Base.{◌≡◌, ◌≢◌, refl, ap, ◌∙◌, ◌⊎◌, inl, inr, Bool, true, false, arith}
use social_media_scraper.Exceptions.{Outcome, returned, raised, cancelled}
use social_media_scraper.Coroutine.{
  Coroutine, pure, catching, finally, end_finally, gets, ◌>>=◌, ◌>>◌,
}
use social_media_scraper.Pipeline.Run.{
  Parts, World, outside, body, clean_up, result, new_world, run,
}

module _ {W A B : Type 0} where
  -- The world at the end of a `finally` is that of its clause.
  end_finally-world : (o : Outcome A) (q : Outcome B × W) → (end_finally o q).1 ≡ q.1
  end_finally-world o (returned b, w) = refl
  end_finally-world o (raised e, w) = refl
  end_finally-world o (cancelled, w) = refl

  gets-world :
      (q : Outcome A × W) (f : W → B) (w : W) → (((λ (v : W). q) >>= λ _. gets f) w).1 ≡ q.1
  gets-world (returned a, v) f w = refl
  gets-world (raised e, v) f w = refl
  gets-world (cancelled, v) f w = refl

module _ {W : Type 0} where
  -- a call whose exceptions are logged, and what follows it
  then_lem :
      (q : Outcome {0} Unit × W) (k : Coroutine W Unit) (w : W)
      → (q.0 ≢ cancelled → (catching (λ (v : W). q) (λ e. pure tt) >> k) w ≡ k q.1)
        × (q.0 ≡ cancelled → (catching (λ (v : W). q) (λ e. pure tt) >> k) w ≡ (cancelled, q.1))
  then_lem (returned u, v) k w = (λ h. refl, λ h. absurd (ground arith))
  then_lem (raised e, v) k w = (λ h. refl, λ h. absurd (ground arith))
  then_lem (cancelled, v) k w = (λ h. absurd (h refl), λ h. refl)

  quiet-world :
      (q : Outcome {0} Unit × W) (w : W) → (catching (λ (v : W). q) (λ e. pure tt) w).1 ≡ q.1
  quiet-world (returned u, v) w = refl
  quiet-world (raised e, v) w = refl
  quiet-world (cancelled, v) w = refl

cancelled_or_not : {A : Type 0} (o : Outcome A) → (o ≢ cancelled) ⊎ (o ≡ cancelled)
cancelled_or_not (returned a) = inl (λ h. ground arith)
cancelled_or_not (raised e) = inl (λ h. ground arith)
cancelled_or_not cancelled = inr refl

module _ {X : Type 0} (parts : Parts X) where
  run-world :
      (owns : Bool) (x : X)
      → (run parts owns x).1 ≡ (clean_up parts owns (body parts owns (new_world parts x)).1).1
  unfolding run
  run-world owns x =
      let b = body parts owns (new_world parts x) in
      gets-world (finally (body parts owns) (clean_up parts owns) (new_world parts x))
        (λ (w : World X). result parts w.context) (new_world parts x)
      ∙ end_finally-world b.0 (clean_up parts owns b.1)

  clean_up-world :
      (w : World X)
      → ((parts.pool_stop w.outside).0 ≢ cancelled
          → (clean_up parts true w).1.outside
            ≡ (parts.manager_stop (parts.pool_stop w.outside).1).1)
        × ((parts.pool_stop w.outside).0 ≡ cancelled
            → clean_up parts true w
              ≡ (cancelled, record w { outside = (parts.pool_stop w.outside).1 }))
  unfolding clean_up outside
  clean_up-world w =
      let q = outside parts parts.pool_stop w in
      let manager = catching (outside parts parts.manager_stop) (λ e. pure tt) in
      let (go, stop) = then_lem q manager w in
      (
        λ h.
            ap (λ (r : Outcome {0} Unit × World X). r.1.outside) (go h)
            ∙ ap (λ (v : World X). v.outside)
                (quiet-world (outside parts parts.manager_stop q.1) q.1),
        stop,
      )

  -- However the body of a run ends, a run that owns its browser stops the pool and then the
  -- manager, as the last that it does, also if stopping the pool raises; only if the run is
  -- cancelled while it stops the pool does it end there, with the manager not stopped. A run that is
  -- given a pool stops nothing.
  pub run_cleans_up :
      (x : X)
      → (((parts.pool_stop (body parts true (new_world parts x)).1.outside).0 ≢ cancelled)
            × ((run parts true x).1.outside
                ≡ (parts.manager_stop
                    (parts.pool_stop (body parts true (new_world parts x)).1.outside).1).1)
          ⊎ ((parts.pool_stop (body parts true (new_world parts x)).1.outside).0 ≡ cancelled)
            × ((run parts true x).0 ≡ cancelled)
            × ((run parts true x).1.outside
                ≡ (parts.pool_stop (body parts true (new_world parts x)).1.outside).1))
        × ((run parts false x).1 ≡ (body parts false (new_world parts x)).1)
  unfolding run clean_up
  run_cleans_up x =
      let b = (body parts true (new_world parts x)).1 in
      let (go, stop) = clean_up-world b in
      (
        elim (cancelled_or_not (parts.pool_stop b.outside).0) [
          | inl h ↦ inl (h, ap (λ (v : World X). v.outside) (run-world true x) ∙ go h)
          | inr h ↦ inr (
            h,
            ap
                (λ (q : Outcome {0} Unit × World X).
                  (((λ (v : World X). end_finally (body parts true (new_world parts x)).0 q)
                      >>= λ _. gets (λ (w : World X). result parts w.context))
                    (new_world parts x)).0)
                (stop h),
            ap (λ (v : World X). v.outside) (run-world true x)
                ∙ ap (λ (r : Outcome {0} Unit × World X). r.1.outside) (stop h),
          )
        ],
        run-world false x,
      )
