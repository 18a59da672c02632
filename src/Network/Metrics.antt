-- ===== src/Network/Metrics.antt =====
-- app/network/network_metrics.py. Latencies are in ticks of the clock. An average is kept as the
-- fraction that the program rounds.
use social_media_scraper.Base.{
  ℕ, ◌+◌, ◌-◌, ◌≡◌, refl, Bool, List, [], ◌∷◌, arith, if◌then◌else◌, ◌==◌,
}

pub record NetworkMetrics : Type 0 where
  pub total_requests : ℕ
  pub successful_requests : ℕ
  pub failed_requests : ℕ
  pub retry_count : ℕ
  pub total_latency : ℕ
  pub open_connections : ℕ

abbrev pub empty : NetworkMetrics
empty = record {
  total_requests = 0;
  successful_requests = 0;
  failed_requests = 0;
  retry_count = 0;
  total_latency = 0;
  open_connections = 0;
}

unfoldable pub record_request_start : NetworkMetrics → NetworkMetrics
record_request_start m = record m { open_connections = m.open_connections + 1 }

-- `elapsed` is the time since the start; `max(0, n - 1)` is the subtraction of ℕ.
unfoldable pub record_request_end : ℕ → Bool → NetworkMetrics → NetworkMetrics
record_request_end elapsed success m = record m {
  open_connections = m.open_connections - 1;
  total_requests = m.total_requests + 1;
  total_latency = m.total_latency + elapsed;
  successful_requests = m.successful_requests + (if success then 1 else 0);
  failed_requests = m.failed_requests + (if success then 0 else 1);
}

unfoldable pub record_retry : NetworkMetrics → NetworkMetrics
record_retry m = record m { retry_count = m.retry_count + 1 }

unfoldable pub reset : NetworkMetrics → NetworkMetrics
reset m = empty

-- The average latency of a snapshot: a numerator and a denominator.
unfoldable pub average_latency : NetworkMetrics → ℕ × ℕ
average_latency m = if m.total_requests == 0 then (0, 1) else (m.total_latency, m.total_requests)

-- The methods, as they are called by any number of coroutines.
pub data Event : Type 0 where
  start retry clear : Event
  finish : ℕ → Bool → Event

unfoldable pub step : Event → NetworkMetrics → NetworkMetrics
unfolding record_request_start record_request_end record_retry reset
step start m = record_request_start m
step retry m = record_retry m
step clear m = reset m
step (finish elapsed success) m = record_request_end elapsed success m

unfoldable pub run : List Event → NetworkMetrics → NetworkMetrics
unfolding step
run [] m = m
run (e ∷ es) m = run es (step e m)

-- The requests in flight after a history of starts and ends, from `n` in flight before it, and
-- whether no request ends that has not started since the last reset.
abbrev pub in_flight : ℕ → List Event → ℕ
in_flight n [] = n
in_flight n (start ∷ es) = in_flight (n + 1) es
in_flight n (finish elapsed success ∷ es) = in_flight (n - 1) es
in_flight n (retry ∷ es) = in_flight n es
in_flight n (clear ∷ es) = in_flight 0 es

IsBalanced : NetworkMetrics → Type 0
IsBalanced m = m.total_requests ≡ m.successful_requests + m.failed_requests

step-IsBalanced : (e : Event) (m : NetworkMetrics) → IsBalanced m → IsBalanced (step e m)
unfolding step IsBalanced
step-IsBalanced start m h = h
step-IsBalanced retry m h = h
step-IsBalanced clear m h = refl
step-IsBalanced (finish elapsed success) m h = ground arith

run-IsBalanced : (es : List Event) (m : NetworkMetrics) → IsBalanced m → IsBalanced (run es m)
unfolding run
run-IsBalanced [] m h = h
run-IsBalanced (e ∷ es) m h = run-IsBalanced es (step e m) (step-IsBalanced e m h)

run-in_flight :
    (es : List Event) (m : NetworkMetrics)
    → (run es m).open_connections ≡ in_flight m.open_connections es
unfolding run step
run-in_flight [] m = refl
run-in_flight (start ∷ es) m = run-in_flight es (record_request_start m)
run-in_flight (retry ∷ es) m = run-in_flight es (record_retry m)
run-in_flight (clear ∷ es) m = run-in_flight es empty
run-in_flight (finish elapsed success ∷ es) m =
    run-in_flight es (record_request_end elapsed success m)

-- After any history of calls of the metrics, by whatever coroutines, the requests counted are the
-- successful and the failed ones, and the open connections are the starts not yet matched by an
-- end since the last reset, an end with none open counting as nothing.
pub run-counts :
    (es : List Event)
    → ((run es empty).total_requests
        ≡ (run es empty).successful_requests + (run es empty).failed_requests)
      × ((run es empty).open_connections ≡ in_flight 0 es)
unfolding IsBalanced
run-counts es = (run-IsBalanced es empty refl, run-in_flight es empty)
