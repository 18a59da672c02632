-- ===== src/Network/Session/Waits.antt =====
-- What the wait for a token in `request` leaves alone.
use social_media_scraper.Base.{
  ℕ, ◌≡◌, ◌≢◌, refl, ap, ◌∙◌, subst, zero, suc, inl, inr, Bool-cases, Option, some, Text, text_eq,
  get, put, arith,
}
use social_media_scraper.Exceptions.{Outcome, returned, raised, cancelled}
use social_media_scraper.Network.RateLimiter.{Limiter, wait_time, try_acquire}
use social_media_scraper.Network.Session.{
  Environment, World, limiter_of, sleep, after_sleep, acquire_within, acquire_for,
}
use social_media_scraper.Network.Session.Relations.{OnlyTime, sleep-OnlyTime, get-put_ne}

-- What waiting for a token of `host` leaves alone.
pub record IsWait (host : Text) (w v : World) : Type 0 where
  pub metrics : v.metrics ≡ w.metrics
  pub breakers : v.breakers ≡ w.breakers
  pub sent : v.sent ≡ w.sent
  pub elsewhere : (h : Text) → h ≢ host → get h v.limiters ≡ get h w.limiters

some_injective : {A : Type 0} {u v : A} → some u ≡ some v → u ≡ v
some_injective e = cc

IsWait-trans : {host : Text} {u v w : World} → IsWait host u v → IsWait host v w → IsWait host u w
IsWait-trans a b = record {
  metrics = b.metrics ∙ a.metrics;
  breakers = b.breakers ∙ a.breakers;
  sent = b.sent ∙ a.sent;
  elsewhere = λ h ne. b.elsewhere h ne ∙ a.elsewhere h ne;
}

-- a round puts back the bucket of the host alone
put-IsWait :
    (host : Text) (l : Limiter) (w : World)
    → IsWait host w (record w { limiters = put host l w.limiters })
put-IsWait host l w = record {
  metrics = refl;
  breakers = refl;
  sent = refl;
  elsewhere = λ k ne. get-put_ne host k l w.limiters ne;
}

OnlyTime-IsWait : (host : Text) {u v : World} → OnlyTime u v → IsWait host u v
OnlyTime-IsWait host o = record {
  metrics = o.metrics;
  breakers = o.breakers;
  sent = o.sent;
  elsewhere = λ k ne. ap (get k) o.limiters;
}

after_sleep-IsWait :
    (host : Text) (u : World) (a : Outcome {0} Unit × World)
    (k : World → Option (Outcome {0} Unit × World)) {q : Outcome {0} Unit × World}
    → IsWait host u a.1
    → ((w : World) (r : Outcome {0} Unit × World) → k w ≡ some r → IsWait host w r.1)
    → after_sleep a k ≡ some q
    → IsWait host u q.1
unfolding after_sleep
after_sleep-IsWait host u (returned x, w) k {q} i f h = IsWait-trans i (f w q h)
after_sleep-IsWait host u (raised e, w) k i f h =
    subst (λ (r : Outcome {0} Unit × World). IsWait host u r.1) (some_injective h) i
after_sleep-IsWait host u (cancelled, w) k i f h =
    subst (λ (r : Outcome {0} Unit × World). IsWait host u r.1) (some_injective h) i

module _ {R : Type 0} (env : Environment R) (host : Text) where
  acquire_within-IsWait :
      (rounds : ℕ) (w : World) {q : Outcome {0} Unit × World}
      → acquire_within env rounds host w ≡ some q
      → IsWait host w q.1
  unfolding acquire_within
  acquire_within-IsWait zero w h = absurd (ground arith)
  acquire_within-IsWait (suc rounds) w h =
      let unit = env.limiter_settings.unit in
      let t = try_acquire w.clock unit (limiter_of env host w) in
      let w' : World = record w { limiters = put host t.1 w.limiters } in
      let put_back = put-IsWait host t.1 w in
      elim (Bool-cases t.0) [
        | inl done ↦
            subst (λ (r : Outcome {0} Unit × World). IsWait host w r.1)
              (some_injective (rw done at h)) put_back
        | inr short ↦ IsWait-trans put_back (
            after_sleep-IsWait host w' (sleep env (wait_time unit t.1) w')
              (λ v. acquire_within env rounds host v)
              (OnlyTime-IsWait host (sleep-OnlyTime env (wait_time unit t.1) w'))
              (λ v r e. acquire_within-IsWait rounds v e) (rw short at h))
      ]

  pub acquire_for-IsWait :
      (w : World) {q : Outcome {0} Unit × World}
      → acquire_for env host w ≡ some q
      → IsWait host w q.1
  unfolding acquire_for
  acquire_for-IsWait w h = acquire_within-IsWait 2 w h
