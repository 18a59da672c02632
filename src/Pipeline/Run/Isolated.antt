-- ===== src/Pipeline/Run/Isolated.antt =====
-- What goes wrong in a stage does not keep a run from its result.
use social_media_scraper.Base.{
  ℕ, ◌≡◌, ◌≢◌, refl, ap, inl, inr, Bool, true, false, List, [], arith, Bool-cases,
}
use social_media_scraper.Exceptions.{Error, Outcome, returned, raised, cancelled}
use social_media_scraper.Coroutine.{Coroutine, pure, catching, end_finally, gets, ◌>>=◌, ◌>>◌}
use social_media_scraper.Leads.{BusinessLead}
use social_media_scraper.Pipeline.Stages.{Context, maps_discovery, stage}
use social_media_scraper.Pipeline.Run.{
  Parts, Streamed, World, PipelineResult, outside, start_up, stages, body, clean_up, result,
  new_world, run, unless_set, discovery_stage, discovery_failed, stream_stage, forget,
  after_discovery, after_streaming,
}

-- The calls that start what a run uses return.
pub record Starts {X : Type 0} (parts : Parts X) : Type 0 where
  pub manager : (x : X) → (parts.manager_start x).0 ≡ returned tt
  pub pool : (x : X) → (parts.pool_start x).0 ≡ returned tt
  pub session : (x : X) → (parts.session_startup x).0 ≡ returned tt

-- No call of a run is cancelled; any may raise.
pub record NotCancelled {X : Type 0} (parts : Parts X) : Type 0 where
  pub discover : (x : X) → (parts.discover x).0 ≢ cancelled
  pub stream : (leads : List BusinessLead) (x : X) → (parts.stream leads x).0 ≢ cancelled
  pub pool_stop : (x : X) → (parts.pool_stop x).0 ≢ cancelled
  pub manager_stop : (x : X) → (parts.manager_stop x).0 ≢ cancelled

-- A property of the leads that discovery gives them and the streaming part keeps, also if it raises.
pub record Gives {X : Type 0} (parts : Parts X) (P : List BusinessLead → Type 0) : Type 0 where
  pub empty : P []
  pub discovered :
      (x : X) (leads : List BusinessLead) → (parts.discover x).0 ≡ returned leads → P leads
  pub streamed : (leads : List BusinessLead) (x : X) → P leads → P (parts.stream leads x).1

forget-ne : {A : Type 0} (o : Outcome A) → o ≢ cancelled → forget o ≢ cancelled
unfolding forget
forget-ne (returned a) h = λ e. absurd (ground arith)
forget-ne (raised x) h = λ e. absurd (ground arith)
forget-ne cancelled h = λ e. h refl

module _ (P : List BusinessLead → Type 0) where
  after_discovery-leads :
      (elapsed : ℕ) (o : Outcome (List BusinessLead)) (c : Context)
      → P c.leads
      → ((leads : List BusinessLead) → o ≡ returned leads → P leads)
      → P (after_discovery elapsed o c).leads
  unfolding after_discovery maps_discovery stage
  after_discovery-leads elapsed (returned leads) c h f = f leads refl
  after_discovery-leads elapsed (raised e) c h f = h
  after_discovery-leads elapsed cancelled c h f = h

  after_streaming-leads :
      (o : Outcome Streamed) (leads : List BusinessLead) (c : Context)
      → P leads
      → P (after_streaming o leads c).leads
  unfolding after_streaming
  after_streaming-leads (returned r) leads c h = h
  after_streaming-leads (raised e) leads c h = h
  after_streaming-leads cancelled leads c h = h

module _ {X : Type 0} (P : List BusinessLead → Type 0) where
  Holds : World X → Type 0
  Holds w = P w.context.leads

  -- what a coroutine ends in, from a world where the property holds: no cancellation, or a return
  IsSafe : Outcome {0} Unit × World X → Type 0
  IsSafe q = (q.0 ≢ cancelled) × Holds q.1

  IsDone : Outcome {0} Unit × World X → Type 0
  IsDone q = (q.0 ≡ returned tt) × Holds q.1

  then-IsDone :
      (q : Outcome {0} Unit × World X) (k : Coroutine (World X) Unit) (w : World X)
      → IsDone q
      → (Holds q.1 → IsDone (k q.1))
      → IsDone (((λ (v : World X). q) >> k) w)
  unfolding IsDone
  then-IsDone (returned u, v) k w (e, h) f = f h
  then-IsDone (raised x, v) k w (e, h) f = absurd (ground arith)
  then-IsDone (cancelled, v) k w (e, h) f = absurd (ground arith)

  caught-IsDone :
      (q : Outcome {0} Unit × World X) (handler : Error → Coroutine (World X) Unit) (w : World X)
      → IsSafe q
      → ((e : Error) → Holds q.1 → IsDone (handler e q.1))
      → IsDone (catching (λ (v : World X). q) handler w)
  unfolding IsSafe IsDone
  caught-IsDone (returned tt, v) handler w (e, h) f = (refl, h)
  caught-IsDone (raised x, v) handler w (e, h) f = f x h
  caught-IsDone (cancelled, v) handler w (e, h) f = absurd (e refl)

  module _ (parts : Parts X) where
    outside-IsDone :
        (m : Coroutine X Unit) (w : World X)
        → (m w.outside).0 ≡ returned tt
        → Holds w
        → IsDone (outside parts m w)
    unfolding outside IsDone Holds
    outside-IsDone m w e h = (e, h)

    outside-IsSafe :
        (m : Coroutine X Unit) (w : World X)
        → (m w.outside).0 ≢ cancelled
        → Holds w
        → IsSafe (outside parts m w)
    unfolding outside IsSafe Holds
    outside-IsSafe m w e h = (e, h)

    unless_set-IsDone :
        (m : Coroutine (World X) Unit) (w : World X)
        → Holds w
        → IsDone (m w)
        → IsDone (unless_set parts m w)
    unfolding unless_set IsDone
    unless_set-IsDone m w h d = elim (Bool-cases (parts.is_set w.outside)) [
      | inl on ↦ rw on (refl, h)
      | inr off ↦ rw off d
    ]

    module _ (up : Starts parts) (calm : NotCancelled parts) (gives : Gives parts P) where
      discovery_stage-IsSafe : (w : World X) → Holds w → IsSafe (discovery_stage parts w)
      unfolding discovery_stage IsSafe Holds
      discovery_stage-IsSafe w h = (
        forget-ne (parts.discover w.outside).0 (calm.discover w.outside),
        after_discovery-leads P _ (parts.discover w.outside).0 w.context h
            (gives.discovered w.outside),
      )

      stream_stage-IsSafe : (w : World X) → Holds w → IsSafe (stream_stage parts w)
      unfolding stream_stage IsSafe Holds
      stream_stage-IsSafe w h =
          let q = parts.stream w.context.leads w.outside in
          (
            forget-ne q.0 (calm.stream w.context.leads w.outside),
            after_streaming-leads P q.0 q.1 _ (gives.streamed w.context.leads w.outside h),
          )

      failed-IsDone : (e : Error) (w : World X) → Holds w → IsDone (discovery_failed parts e w)
      unfolding discovery_failed IsDone Holds
      failed-IsDone e w h = (refl, h)

      ignored-IsDone : (w : World X) → Holds w → IsDone (pure tt w)
      unfolding IsDone
      ignored-IsDone w h = (refl, h)

      streamed-IsDone :
          (w : World X)
          → Holds w
          → IsDone (unless_set parts (catching (stream_stage parts) (λ e. pure tt)) w)
      streamed-IsDone w h = unless_set-IsDone (catching (stream_stage parts) (λ e. pure tt)) w h (
          caught-IsDone (stream_stage parts w) (λ e. pure tt) w (stream_stage-IsSafe w h)
            (λ e. ignored-IsDone (stream_stage parts w).1))

      stages-IsDone : (w : World X) → Holds w → IsDone (stages parts w)
      unfolding stages
      stages-IsDone w h =
          let discovery = catching (discovery_stage parts) (discovery_failed parts) in
          let streaming = unless_set parts (catching (stream_stage parts) (λ e. pure tt)) in
          unless_set-IsDone (discovery >> streaming) w h (
            then-IsDone (discovery w) streaming w
              (caught-IsDone (discovery_stage parts w) (discovery_failed parts) w
                (discovery_stage-IsSafe w h) (λ e. failed-IsDone e (discovery_stage parts w).1))
              (streamed-IsDone (discovery w).1))

      session-IsDone : (w : World X) → Holds w → IsDone (outside parts parts.session_startup w)
      session-IsDone w h = outside-IsDone parts.session_startup w (up.session w.outside) h

      start_up-IsDone : (owns : Bool) (w : World X) → Holds w → IsDone (start_up parts owns w)
      unfolding start_up
      start_up-IsDone true w h =
          let manager = outside parts parts.manager_start in
          let pool = outside parts parts.pool_start in
          then-IsDone ((manager >> pool) w) (outside parts parts.session_startup) w
            (then-IsDone (manager w) pool w
              (outside-IsDone parts.manager_start w (up.manager w.outside) h)
              (outside-IsDone parts.pool_start (manager w).1 (up.pool (manager w).1.outside)))
            (session-IsDone ((manager >> pool) w).1)
      start_up-IsDone false w h = session-IsDone w h

      body-IsDone : (owns : Bool) (w : World X) → Holds w → IsDone (body parts owns w)
      unfolding body
      body-IsDone owns w h =
          then-IsDone (start_up parts owns w) (stages parts) w (start_up-IsDone owns w h)
            (stages-IsDone (start_up parts owns w).1)

      stop-IsDone :
          (m : Coroutine X Unit) (w : World X)
          → (m w.outside).0 ≢ cancelled
          → Holds w
          → IsDone (catching (outside parts m) (λ e. pure tt) w)
      stop-IsDone m w c h =
          caught-IsDone (outside parts m w) (λ e. pure tt) w (outside-IsSafe m w c h)
            (λ e. ignored-IsDone (outside parts m w).1)

      clean_up-IsDone : (owns : Bool) (w : World X) → Holds w → IsDone (clean_up parts owns w)
      unfolding clean_up
      clean_up-IsDone true w h =
          let pool = catching (outside parts parts.pool_stop) (λ e. pure tt) in
          let manager = catching (outside parts parts.manager_stop) (λ e. pure tt) in
          then-IsDone (pool w) manager w
            (stop-IsDone parts.pool_stop w (calm.pool_stop w.outside) h)
            (stop-IsDone parts.manager_stop (pool w).1 (calm.manager_stop (pool w).1.outside))
      clean_up-IsDone false w h = ignored-IsDone w h

pub finally_lem :
    {W A B : Type 0} (q : Outcome A × W) (r : Outcome {0} Unit × W) (a : A) (f : W → B) (w : W)
    → q.0 ≡ returned a
    → r.0 ≡ returned tt
    → ((λ (v : W). end_finally q.0 r) >>= λ _. gets f) w ≡ (returned (f r.1), r.1)
finally_lem (returned a, v) (returned u, t) b f w e h = refl
finally_lem (raised x, v) r b f w e h = absurd (ground arith)
finally_lem (cancelled, v) r b f w e h = absurd (ground arith)
finally_lem q (raised x, t) b f w e h = absurd (ground arith)
finally_lem q (cancelled, t) b f w e h = absurd (ground arith)

-- A run whose start-ups return and that is not cancelled returns a result, whatever discovery, the
-- streaming part and the stops raise. Its leads have every property that the empty list has, that
-- discovery gives to the leads it returns, and that the streaming part keeps.
pub run_returns :
    {X : Type 0} (P : List BusinessLead → Type 0) (parts : Parts X)
    → Starts parts
    → NotCancelled parts
    → Gives parts P
    → (owns : Bool) (x : X) → (r : PipelineResult) × ((run parts owns x).0 ≡ returned r) × P r.leads
unfolding run new_world result IsDone Holds
run_returns P parts up calm gives owns x =
    let start = new_world parts x in
    let (returns, _) = body-IsDone P parts up calm gives owns start gives.empty in
    let (clean, kept) =
      clean_up-IsDone P parts up calm gives owns (body parts owns start).1
        (body-IsDone P parts up calm gives owns start gives.empty).1 in
    (
      result parts (clean_up parts owns (body parts owns start).1).1.context,
      ap (λ (q : Outcome PipelineResult × World _). q.0)
          (finally_lem (body parts owns start) (clean_up parts owns (body parts owns start).1) tt
            (λ (w : World _). result parts w.context) start returns clean),
      kept,
    )
