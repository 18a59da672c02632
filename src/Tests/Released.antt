-- ===== src/Tests/Released.antt =====
-- A run over a browser manager: the launch of the browser fails, and so does the stop of the pool.
use social_media_scraper.Base.{◌≡◌, ◌⊎◌, refl, true, false}
use social_media_scraper.Exceptions.{foreign, domain, discovery_error, raised, cancelled}
use social_media_scraper.Coroutine.{pure, raise}
use social_media_scraper.Discovery.BrowserManager
use social_media_scraper.Discovery.BrowserManager.{Manager, Answers, new_manager}
use social_media_scraper.Pipeline.Run.{Parts, run, body, new_world}
use social_media_scraper.Pipeline.Run.Released.{all_return, IsSame, UsesManager, run_releases}

abbrev no_launch : Answers
no_launch = record all_return { launched = raised (foreign 3) }

abbrev managed : Parts Manager
managed = record {
  manager_start = BrowserManager.start no_launch;
  manager_stop = BrowserManager.stop all_return;
  pool_start = pure tt;
  pool_stop = raise (foreign 1);
  session_startup = pure tt;
  discover = raise (domain discovery_error);
  stream = λ leads m. (raised (foreign 2), leads, m);
  is_set = λ m. false;
  clock = λ m. 0;
}

managed-UsesManager : UsesManager managed (λ m. m) no_launch
unfolding IsSame
managed-UsesManager = record {
  start = λ m. refl;
  stop = λ m. refl;
  pool_start = λ m. (refl, refl);
  pool_stop = λ m. (refl, refl);
  session_startup = λ m. (refl, refl);
  discover = λ m. (refl, refl);
  stream = λ leads m. (refl, refl);
}

run_releases_example :
    ((run managed true new_manager).1.outside.processes ≡ 0)
    ⊎ ((managed.pool_stop (body managed true (new_world managed new_manager)).1.outside).0
        ≡ cancelled)
run_releases_example = run_releases managed (λ m. m) no_launch managed-UsesManager new_manager refl
