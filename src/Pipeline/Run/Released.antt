-- ===== src/Pipeline/Run/Released.antt =====
-- A run over a browser manager of its own.
use social_media_scraper.Base.{
  ◌≡◌, refl, ap, ◌∙◌, sym, subst, ◌⊎◌, inl, inr, true, Bool-cases, List, arith,
}
use social_media_scraper.Exceptions.{Error, Outcome, returned, raised, cancelled}
use social_media_scraper.Coroutine.{Coroutine, pure, catching, ◌>>◌}
use social_media_scraper.Coroutine.Keeps.{Moves, IsPreorder, Moves-bind}
use social_media_scraper.Leads.{BusinessLead}
use social_media_scraper.Discovery.BrowserManager
use social_media_scraper.Discovery.BrowserManager.{
  Manager, Answers, Held, no_browser, connected, disconnected, new_manager, starts, is_running,
  close_browser, close_held, stop_held, stop_playwright, on_return,
}
use social_media_scraper.Discovery.BrowserManager.Processes.{
  held, abandons, start-processes, stop-processes, stop_returned,
}
use social_media_scraper.Pipeline.Run.{
  Parts, World, outside, discovery_stage, discovery_failed, stream_stage, unless_set, stages,
  start_up, body, new_world, run,
}
use social_media_scraper.Pipeline.Run.Cleanup.{run_cleans_up}

abbrev pub all_return : Answers
all_return = record {
  started = returned tt;
  launched = returned tt;
  closed = returned tt;
  stopped = returned tt;
}

stop_held_returns : (m : Manager) → (stop_held all_return m).0 ≡ returned tt
unfolding stop_held stop_playwright on_return
stop_held_returns m = elim (Bool-cases m.playwright) [ inl h ↦ rw h refl | inr h ↦ rw h refl ]

then_returns :
    (b : Held) (m : Manager) → ((close_held all_return b >> stop_held all_return) m).0 ≡ returned tt
unfolding close_held on_return
then_returns no_browser m = stop_held_returns m
then_returns connected m = stop_held_returns (record m { browser = no_browser })
then_returns disconnected m = stop_held_returns (record m { browser = no_browser })

stop_returns : (m : Manager) → (BrowserManager.stop all_return m).0 ≡ returned tt
unfolding BrowserManager.stop close_browser
stop_returns m = then_returns m.browser m

-- the same process; the browser may have gone away
unfoldable pub IsSame : Manager → Manager → Type 0
IsSame m n = (n.playwright ≡ m.playwright) × (n.processes ≡ m.processes)

-- The manager of the run is a `BrowserManager`, which the other parts neither start nor stop.
-- Its start may end in any way; closing the browser and stopping Playwright return.
pub record UsesManager {X : Type 0} (parts : Parts X) (manager : X → Manager) (a : Answers)
    : Type 0 where
  pub start : (x : X) → manager (parts.manager_start x).1 ≡ (BrowserManager.start a (manager x)).1
  pub stop :
      (x : X) → manager (parts.manager_stop x).1 ≡ (BrowserManager.stop all_return (manager x)).1
  pub pool_start : (x : X) → IsSame (manager x) (manager (parts.pool_start x).1)
  pub pool_stop : (x : X) → IsSame (manager x) (manager (parts.pool_stop x).1)
  pub session_startup : (x : X) → IsSame (manager x) (manager (parts.session_startup x).1)
  pub discover : (x : X) → IsSame (manager x) (manager (parts.discover x).1)
  pub stream :
      (leads : List BusinessLead) (x : X) → IsSame (manager x) (manager (parts.stream leads x).2)

module _ {X : Type 0} (parts : Parts X) (manager : X → Manager) (a : Answers)
    (uses : UsesManager parts manager a) where
  -- every process that is running is held
  Fits : X → Type 0
  Fits x = (manager x).processes ≡ held (manager x)

  KeepsFits : World X → World X → Type 0
  KeepsFits w v = Fits w.outside → Fits v.outside

  KeepsFits-IsPreorder : IsPreorder KeepsFits
  unfolding KeepsFits
  KeepsFits-IsPreorder = record { reflexive = λ w h. h; transitive = λ u v w f g h. g (f h) }

  IsSame-Fits : (x y : X) → IsSame (manager x) (manager y) → Fits x → Fits y
  unfolding IsSame Fits held
  IsSame-Fits x y (p, q) h = ground arith

  outside-Moves :
      (m : Coroutine X Unit)
      → ((x : X) → IsSame (manager x) (manager (m x).1))
      → Moves KeepsFits (outside parts m)
  unfolding outside KeepsFits
  outside-Moves m h = record { at = λ w. IsSame-Fits w.outside (m w.outside).1 (h w.outside) }

  caught_at :
      (handler : Error → Coroutine (World X) Unit) (w : World X) (q : Outcome {0} Unit × World X)
      → KeepsFits w q.1
      → ((e : Error) → Moves KeepsFits (handler e))
      → KeepsFits w (catching (λ (v : World X). q) handler w).1
  unfolding KeepsFits
  caught_at handler w (returned u, v) h mh = h
  caught_at handler w (raised e, v) h mh = λ f. (mh e).at v (h f)
  caught_at handler w (cancelled, v) h mh = h

  caught-Moves :
      (m : Coroutine (World X) Unit) (handler : Error → Coroutine (World X) Unit)
      → Moves KeepsFits m
      → ((e : Error) → Moves KeepsFits (handler e))
      → Moves KeepsFits (catching m handler)
  caught-Moves m handler mm mh = record { at = λ w. caught_at handler w (m w) (mm.at w) mh }

  unless_set-Moves :
      (m : Coroutine (World X) Unit) → Moves KeepsFits m → Moves KeepsFits (unless_set parts m)
  unfolding unless_set KeepsFits
  unless_set-Moves m mm = record {
    at = λ w h. elim (Bool-cases (parts.is_set w.outside)) [
      | inl on ↦ rw on h
      | inr off ↦ rw off (mm.at w h)
    ];
  }

  discovery-Moves : Moves KeepsFits (discovery_stage parts)
  unfolding discovery_stage KeepsFits
  discovery-Moves = record {
    at = λ w. IsSame-Fits w.outside (parts.discover w.outside).1 (uses.discover w.outside);
  }

  failed-Moves : (e : Error) → Moves KeepsFits (discovery_failed parts e)
  unfolding discovery_failed KeepsFits
  failed-Moves e = record { at = λ w h. h }

  ignored-Moves : (e : Error) → Moves KeepsFits (pure tt)
  unfolding KeepsFits
  ignored-Moves e = record { at = λ w h. h }

  stream-Moves : Moves KeepsFits (stream_stage parts)
  unfolding stream_stage KeepsFits
  stream-Moves = record {
    at = λ w.
        IsSame-Fits w.outside (parts.stream w.context.leads w.outside).2
          (uses.stream w.context.leads w.outside);
  }

  stages-Moves : Moves KeepsFits (stages parts)
  unfolding stages
  stages-Moves =
      let discovery = catching (discovery_stage parts) (discovery_failed parts) in
      let streaming = catching (stream_stage parts) (λ e. pure tt) in
      unless_set-Moves (discovery >> unless_set parts streaming) (
        Moves-bind KeepsFits-IsPreorder discovery (λ u. unless_set parts streaming)
          (caught-Moves (discovery_stage parts) (discovery_failed parts) discovery-Moves
            failed-Moves)
          (λ u.
            unless_set-Moves streaming
              (caught-Moves (stream_stage parts) (λ e. pure tt) stream-Moves ignored-Moves)))

  -- what follows a coroutine after which the property holds
  then-Fits :
      (q : Outcome {0} Unit × World X) (k : Coroutine (World X) Unit) (w : World X)
      → Fits q.1.outside
      → Moves KeepsFits k
      → Fits (((λ (v : World X). q) >> k) w).1.outside
  unfolding KeepsFits
  then-Fits (returned u, v) k w h mk = mk.at v h
  then-Fits (raised e, v) k w h mk = h
  then-Fits (cancelled, v) k w h mk = h

  -- a start of a new manager
  started-Fits : (x : X) → manager x ≡ new_manager → Fits (parts.manager_start x).1
  unfolding Fits abandons held
  started-Fits x e =
      let m = (BrowserManager.start a new_manager).1 in
      let same : manager (parts.manager_start x).1 ≡ m =
        uses.start x ∙ ap (λ (n : Manager). (BrowserManager.start a n).1) e in
      subst (λ (n : Manager). n.processes ≡ held n) (sym same)
        (omega (arith, start-processes a new_manager 0 refl))

  body-Fits :
      (x : X) → manager x ≡ new_manager → Fits (body parts true (new_world parts x)).1.outside
  unfolding body start_up outside new_world
  body-Fits x e =
      let w = new_world parts x in
      let first = outside parts parts.manager_start in
      let second = outside parts parts.pool_start in
      let third = outside parts parts.session_startup in
      then-Fits (((first >> second) >> third) w) (stages parts) w
        (then-Fits ((first >> second) w) third w
          (then-Fits (first w) second w (started-Fits x e)
            (outside-Moves parts.pool_start uses.pool_start))
          (outside-Moves parts.session_startup uses.session_startup))
        stages-Moves

  -- A stop of the manager in the end.
  stopped-none : (x : X) → Fits x → (manager (parts.manager_stop x).1).processes ≡ 0
  unfolding Fits
  stopped-none x h =
      ap (λ (m : Manager). m.processes) (uses.stop x)
      ∙ omega (
        arith,
        stop-processes all_return (manager x) 0 (omega arith),
        stop_returned all_return (manager x) (stop_returns (manager x)),
      )

  -- A run over a new `BrowserManager`, which only the run starts and stops, and whose stop returns:
  -- however the start, the other start-ups and the stages end, also if they are cancelled, no
  -- Playwright process is running after the run, unless it is cancelled while it stops the pool.
  pub run_releases :
      (x : X)
      → manager x ≡ new_manager
      → ((manager (run parts true x).1.outside).processes ≡ 0)
        ⊎ ((parts.pool_stop (body parts true (new_world parts x)).1.outside).0 ≡ cancelled)
  run_releases x e =
      let y = (body parts true (new_world parts x)).1.outside in
      elim ((run_cleans_up parts x).0) [
        | inr (h, _, _) ↦ inr h
        | inl (h, same) ↦ inl (
            ap (λ (z : X). (manager z).processes) same
            ∙ stopped-none (parts.pool_stop y).1
                (IsSame-Fits y (parts.pool_stop y).1 (uses.pool_stop y) (body-Fits x e)))
      ]
