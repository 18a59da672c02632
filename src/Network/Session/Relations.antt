-- ===== src/Network/Session/Relations.antt =====
-- What one request changes: only its own host's limiter and breaker, the metrics as its outcome
-- says, and the transport a bounded number of times.
use social_media_scraper.Base.{
  ◌+◌, ◌≤◌, ◌≡◌, ◌≢◌, refl, ap, ◌∙◌, ℕ, Option, none, some, Bool, true, false, Text, text_eq,
  text_beq_iff, Dict, get, put, get-put, arith,
}
use social_media_scraper.Coroutine.{modify}
use social_media_scraper.Coroutine.Keeps.{Moves, IsPreorder}
use social_media_scraper.Network.CircuitBreaker.{Breaker, before_call}
use social_media_scraper.Network.Retry.{RetryPolicy}
use social_media_scraper.Network.Retry.Moves.{Respects, Adds, CountsOnce}
use social_media_scraper.Network.Metrics.{NetworkMetrics, record_retry}
use social_media_scraper.Network.Session.{
  Environment, World, pass_or_reject, guarded_call, effects, breaker_of, sleep, sleep_until,
}

-- Nothing but the clock and the count of sleeps changes.
pub record OnlyTime (u v : World) : Type 0 where
  pub limiters : v.limiters ≡ u.limiters
  pub breakers : v.breakers ≡ u.breakers
  pub metrics : v.metrics ≡ u.metrics
  pub sent : v.sent ≡ u.sent

sleep_until-OnlyTime :
    (delay : ℕ) (ticks : Option ℕ) (w : World) → OnlyTime w (sleep_until delay ticks w).1
unfolding sleep_until
sleep_until-OnlyTime delay none w = record {
  limiters = refl;
  breakers = refl;
  metrics = refl;
  sent = refl;
}
sleep_until-OnlyTime delay (some n) w = record {
  limiters = refl;
  breakers = refl;
  metrics = refl;
  sent = refl;
}

pub sleep-OnlyTime :
    {R : Type 0} (env : Environment R) (delay : ℕ) (w : World) → OnlyTime w (sleep env delay w).1
unfolding sleep
sleep-OnlyTime env delay w =
    let o =
      sleep_until-OnlyTime delay (env.interrupted w.slept) (record w { slept = w.slept + 1 }) in
    record { limiters = o.limiters; breakers = o.breakers; metrics = o.metrics; sent = o.sent }

-- Nothing of another host changes.
pub record SameElsewhere (host : Text) (u v : World) : Type 0 where
  pub breakers : (h : Text) → h ≢ host → get h v.breakers ≡ get h u.breakers
  pub limiters : (h : Text) → h ≢ host → get h v.limiters ≡ get h u.limiters

pub SameElsewhere-preorder : (host : Text) → IsPreorder (SameElsewhere host)
SameElsewhere-preorder host = record {
  reflexive = λ w. record { breakers = λ h ne. refl; limiters = λ h ne. refl };
  transitive = λ u v w a b. record {
    breakers = λ h ne. b.breakers h ne ∙ a.breakers h ne;
    limiters = λ h ne. b.limiters h ne ∙ a.limiters h ne;
  };
}

-- The counts of requests stay; only retries are added.
pub record SameCounts (u v : World) : Type 0 where
  pub total : v.metrics.total_requests ≡ u.metrics.total_requests
  pub successful : v.metrics.successful_requests ≡ u.metrics.successful_requests
  pub failed : v.metrics.failed_requests ≡ u.metrics.failed_requests
  pub open_now : v.metrics.open_connections ≡ u.metrics.open_connections

pub SameCounts-preorder : IsPreorder SameCounts
SameCounts-preorder = record {
  reflexive = λ w. record { total = refl; successful = refl; failed = refl; open_now = refl };
  transitive = λ u v w a b. record {
    total = b.total ∙ a.total;
    successful = b.successful ∙ a.successful;
    failed = b.failed ∙ a.failed;
    open_now = b.open_now ∙ a.open_now;
  };
}

pub get-put_ne :
    {V : Type 0} (k j : Text) (v : V) (d : Dict Text V) → j ≢ k → get j (put k v d) ≡ get j d
get-put_ne k j v d ne = rw get-put (ground (arith, text_beq_iff k j))

module _ {R : Type 0} (env : Environment R) (host : Text) where
  guarded-SameElsewhere : Moves (SameElsewhere host) (guarded_call env host)
  unfolding guarded_call
  guarded-SameElsewhere = record { at = λ w. split w (before_call w.clock (breaker_of env host w)) }
    where
      split :
          (w : World) (r : Bool × Breaker)
          → SameElsewhere host w
              (pass_or_reject env host r.0 (record w { breakers = put host r.1 w.breakers })).1
      split w (true, b) = record {
        breakers = λ h ne. get-put_ne host h _ _ ne ∙ get-put_ne host h b w.breakers ne;
        limiters = λ h ne. refl;
      }
      split w (false, b) = record {
        breakers = λ h ne. get-put_ne host h b w.breakers ne;
        limiters = λ h ne. refl;
      }

  pub effects-SameElsewhere :
      (p : RetryPolicy) → Respects p (effects env host) (SameElsewhere-preorder host)
  unfolding effects
  effects-SameElsewhere p = record {
    func = guarded-SameElsewhere;
    on_retry = λ attempt e. same;
    uniform =
        λ jitter. record { at = λ w. record { breakers = λ h ne. refl; limiters = λ h ne. refl } };
    sleep = λ delay. record {
      at = λ w.
          let o = sleep-OnlyTime env delay w in
          record {
            breakers = λ h ne. ap (get h) o.breakers;
            limiters = λ h ne. ap (get h) o.limiters;
          };
    };
  }
    where
      same :
          Moves
            (SameElsewhere host)
            (modify (λ (w : World). record w { metrics = record_retry w.metrics }))
      same = record { at = λ w. record { breakers = λ h ne. refl; limiters = λ h ne. refl } }

  guarded-SameCounts : Moves SameCounts (guarded_call env host)
  unfolding guarded_call
  guarded-SameCounts = record { at = λ w. split w (before_call w.clock (breaker_of env host w)) }
    where
      split :
          (w : World) (r : Bool × Breaker)
          → SameCounts w
              (pass_or_reject env host r.0 (record w { breakers = put host r.1 w.breakers })).1
      split w (true, b) = record { total = refl; successful = refl; failed = refl; open_now = refl }
      split w (false, b) = record {
        total = refl;
        successful = refl;
        failed = refl;
        open_now = refl;
      }

  pub effects-SameCounts : (p : RetryPolicy) → Respects p (effects env host) SameCounts-preorder
  unfolding effects record_retry
  effects-SameCounts p = record {
    func = guarded-SameCounts;
    on_retry = λ attempt e. record {
      at = λ w. record { total = refl; successful = refl; failed = refl; open_now = refl };
    };
    uniform = λ jitter. record {
      at = λ w. record { total = refl; successful = refl; failed = refl; open_now = refl };
    };
    sleep = λ delay. record {
      at = λ w.
          let o = sleep-OnlyTime env delay w in
          record {
            total = ap (λ (m : NetworkMetrics). m.total_requests) o.metrics;
            successful = ap (λ (m : NetworkMetrics). m.successful_requests) o.metrics;
            failed = ap (λ (m : NetworkMetrics). m.failed_requests) o.metrics;
            open_now = ap (λ (m : NetworkMetrics). m.open_connections) o.metrics;
          };
    };
  }

  guarded-Adds : Adds (λ (w : World). w.sent) 1 (guarded_call env host)
  unfolding guarded_call
  guarded-Adds = record { at = λ w. split w (before_call w.clock (breaker_of env host w)) }
    where
      split :
          (w : World) (r : Bool × Breaker)
          → (pass_or_reject env host r.0 (record w { breakers = put host r.1 w.breakers })).1.sent
            ≤ w.sent + 1
      split w (true, b) = omega arith
      split w (false, b) = omega arith

  pub effects-CountsOnce : (p : RetryPolicy) → CountsOnce p (effects env host) (λ w. w.sent)
  unfolding effects
  effects-CountsOnce p = record {
    func = guarded-Adds;
    on_retry = λ attempt e. record { at = λ w. omega arith };
    uniform = λ jitter. record { at = λ w. omega arith };
    sleep =
        λ delay. record { at = λ w. let o = sleep-OnlyTime env delay w in omega (arith, o.sent) };
  }
