-- ===== src/Network/Session/Guards.antt =====
-- `request` as a whole: what it counts, what it leaves alone and how often it calls the transport.
use social_media_scraper.Base.{
  ℕ, ◌+◌, ◌≤◌, ◌≡◌, refl, ap, ◌∙◌, subst, sym, ◌⊎◌, inl, inr, Option-cases, Option, none, some,
  Text, text_eq, get, arith,
}
use social_media_scraper.Exceptions.{value_error, Outcome, returned, raised, cancelled}
use social_media_scraper.Network.Retry.{RetryPolicy}
use social_media_scraper.Network.Retry.Moves.{execute-Moves, execute-Adds}
use social_media_scraper.Network.Metrics.{NetworkMetrics, record_request_start, record_request_end}
use social_media_scraper.Network.Session.{
  Environment, World, effects, limiter_of, breaker_of, acquire_for, finish, begin, rate_limited,
  after_acquire, request_to, request, host_for,
}
use social_media_scraper.Network.Session.Waits.{acquire_for-IsWait}
use social_media_scraper.Network.Session.Relations.{
  SameCounts, SameElsewhere, SameElsewhere-preorder, SameCounts-preorder, get-put_ne,
  effects-SameElsewhere, effects-SameCounts, effects-CountsOnce,
}

-- The counts of `n` against those of `m`, by how a request in between has ended.
abbrev pub Counted : {R : Type 0} → Outcome R → NetworkMetrics → NetworkMetrics → Type 0
Counted (returned r) m n =
    (n.total_requests ≡ m.total_requests + 1)
    × (n.successful_requests ≡ m.successful_requests + 1)
    × (n.failed_requests ≡ m.failed_requests)
    × (n.open_connections ≡ m.open_connections)
Counted (raised e) m n =
    (n.total_requests ≡ m.total_requests + 1)
    × (n.successful_requests ≡ m.successful_requests)
    × (n.failed_requests ≡ m.failed_requests + 1)
    × (n.open_connections ≡ m.open_connections)
Counted cancelled m n =
    (n.total_requests ≡ m.total_requests)
    × (n.successful_requests ≡ m.successful_requests)
    × (n.failed_requests ≡ m.failed_requests)
    × (n.open_connections ≡ m.open_connections + 1)

some_injective : {A : Type 0} {u v : A} → some u ≡ some v → u ≡ v
some_injective e = cc

module _ {R : Type 0} (env : Environment R) (p : RetryPolicy) (host : Text) where
  after_acquire-eq_some :
      (start : ℕ) (a : Option (Outcome {0} Unit × World)) {q : Outcome R × World}
      → after_acquire env p host start a ≡ some q
      → (r : Outcome {0} Unit × World) × (a ≡ some r)
        × (finish start (rate_limited env p host r) ≡ q)
  unfolding after_acquire
  after_acquire-eq_some start none h = absurd (ground arith)
  after_acquire-eq_some start (some r) h = (r, refl, some_injective h)

  -- A request that ends has ended its wait for a token, and has then run `execute` unless the wait
  -- was cancelled.
  request_to-eq_some :
      (w : World) {q : Outcome R × World}
      → request_to env p host w ≡ some q
      → (a : Outcome {0} Unit × World) × (acquire_for env host (begin env host w) ≡ some a)
        × (finish w.clock (rate_limited env p host a) ≡ q)
  unfolding request_to
  request_to-eq_some w h = after_acquire-eq_some w.clock (acquire_for env host (begin env host w)) h

  -- what `execute` keeps is kept after `acquire`
  rate_limited-SameCounts :
      (a : Outcome {0} Unit × World) → SameCounts a.1 (rate_limited env p host a).1
  unfolding rate_limited
  rate_limited-SameCounts (returned u, w) =
      (execute-Moves p (effects env host) SameCounts-preorder (effects-SameCounts env host p)).at w
  rate_limited-SameCounts (raised e, w) = SameCounts-preorder.reflexive w
  rate_limited-SameCounts (cancelled, w) = SameCounts-preorder.reflexive w

  rate_limited-SameElsewhere :
      (a : Outcome {0} Unit × World) → SameElsewhere host a.1 (rate_limited env p host a).1
  unfolding rate_limited
  rate_limited-SameElsewhere (returned u, w) =
      (execute-Moves p (effects env host) (SameElsewhere-preorder host)
          (effects-SameElsewhere env host p)).at
        w
  rate_limited-SameElsewhere (raised e, w) = (SameElsewhere-preorder host).reflexive w
  rate_limited-SameElsewhere (cancelled, w) = (SameElsewhere-preorder host).reflexive w

  rate_limited-sent :
      (a : Outcome {0} Unit × World)
      → (rate_limited env p host a).1.sent ≤ a.1.sent + p.max_attempts
  unfolding rate_limited
  rate_limited-sent (returned u, w) =
      (execute-Adds p (effects env host) (λ w. w.sent) (effects-CountsOnce env host p)).at w
  rate_limited-sent (raised e, w) = omega arith
  rate_limited-sent (cancelled, w) = omega arith

  finish-Counted :
      (start : ℕ) (q : Outcome R × World) (m : NetworkMetrics)
      → q.1.metrics.total_requests ≡ m.total_requests
      → q.1.metrics.successful_requests ≡ m.successful_requests
      → q.1.metrics.failed_requests ≡ m.failed_requests
      → q.1.metrics.open_connections ≡ m.open_connections + 1
      → Counted (finish start q).0 m (finish start q).1.metrics
  unfolding finish record_request_end
  finish-Counted start (returned r, w) m a b c d = omega arith
  finish-Counted start (raised e, w) m a b c d = omega arith
  finish-Counted start (cancelled, w) m a b c d = (a, b, c, d)

  request_to-Counted :
      (w : World) {o : Outcome R} {w' : World}
      → request_to env p host w ≡ some (o, w')
      → Counted o w.metrics w'.metrics
  unfolding begin record_request_start
  request_to-Counted w h =
      let (a, got, done) = request_to-eq_some w h in
      let g = acquire_for-IsWait env host (begin env host w) got in
      let r = rate_limited-SameCounts a in
      subst (λ (q : Outcome R × World). Counted q.0 w.metrics q.1.metrics) done
        (finish-Counted w.clock (rate_limited env p host a) w.metrics
          (r.total ∙ ap (λ (m : NetworkMetrics). m.total_requests) g.metrics)
          (r.successful ∙ ap (λ (m : NetworkMetrics). m.successful_requests) g.metrics)
          (r.failed ∙ ap (λ (m : NetworkMetrics). m.failed_requests) g.metrics)
          (r.open_now ∙ ap (λ (m : NetworkMetrics). m.open_connections) g.metrics))

  finish-world :
      (start : ℕ) (q : Outcome R × World)
      → ((finish start q).1.breakers ≡ q.1.breakers)
        × ((finish start q).1.limiters ≡ q.1.limiters)
        × ((finish start q).1.sent ≡ q.1.sent)
  unfolding finish
  finish-world start (returned r, w) = (refl, refl, refl)
  finish-world start (raised e, w) = (refl, refl, refl)
  finish-world start (cancelled, w) = (refl, refl, refl)

  -- A request to one host leaves the breakers and the rate limiters of all the others alone.
  pub request_to-SameElsewhere :
      (w : World) {o : Outcome R} {w' : World}
      → request_to env p host w ≡ some (o, w')
      → SameElsewhere host w w'
  unfolding begin
  request_to-SameElsewhere w h =
      let (a, got, done) = request_to-eq_some w h in
      let g = acquire_for-IsWait env host (begin env host w) got in
      let r = rate_limited-SameElsewhere a in
      let (b, l, _) = finish-world w.clock (rate_limited env p host a) in
      subst (λ (q' : Outcome R × World). SameElsewhere host w q'.1) done
        (record {
          breakers = λ k ne.
              ap (get k) b
              ∙ r.breakers k ne
              ∙ ap (get k) g.breakers
              ∙ get-put_ne host k (breaker_of env host w) w.breakers ne;
          limiters = λ k ne.
              ap (get k) l
              ∙ r.limiters k ne
              ∙ g.elsewhere k ne
              ∙ get-put_ne host k (limiter_of env host w) w.limiters ne;
        })

  -- A request calls the transport at most as often as the retry policy allows attempts.
  pub request_to-sent :
      (w : World) {o : Outcome R} {w' : World}
      → request_to env p host w ≡ some (o, w')
      → w'.sent ≤ w.sent + p.max_attempts
  unfolding begin
  request_to-sent w h =
      let (a, got, done) = request_to-eq_some w h in
      let g = acquire_for-IsWait env host (begin env host w) got in
      let r = rate_limited-sent a in
      let (_, _, s) = finish-world w.clock (rate_limited env p host a) in
      subst (λ (q' : Outcome R × World). q'.1.sent ≤ w.sent + p.max_attempts) done
        (omega (arith, r, s, g.sent))

module _ {R : Type 0} (env : Environment R) (p : RetryPolicy) where
  -- What a call of `request` counts, when it ends. With a URL that `urlparse` refuses it raises
  -- ValueError before it counts anything, and changes nothing. With any other URL a response counts
  -- as one request that succeeded and an exception as one that failed, and in both cases the number
  -- of open connections is what it was; a cancellation, in the transport or in any of the sleeps,
  -- counts as no request, and leaves one more open connection.
  pub request-Counted :
      (url : Text) (w : World) {o : Outcome R} {w' : World}
      → request env p url w ≡ some (o, w')
      → ((host_for url ≡ none) × (o ≡ raised value_error) × (w' ≡ w))
        ⊎ (((host : Text) × (host_for url ≡ some host)) × Counted o w.metrics w'.metrics)
  unfolding request
  request-Counted url w h = elim (Option-cases (host_for url)) [
    | inl refused ↦
        let same = some_injective (rw (request, refused) at h) in
        inl (
          refused,
          sym (ap (λ (q : Outcome R × World). q.0) same),
          sym (ap (λ (q : Outcome R × World). q.1) same),
        )
    | inr (host, named) ↦
        inr ((host, named), request_to-Counted env p host w (rw (request, named) at h))
  ]
