-- ===== src/Tests/Singleton.antt =====
-- A session that is shut down, and the one that is created while its client closes.
use social_media_scraper.Base.{◌≡◌, refl, [], arith}
use social_media_scraper.Exceptions.{returned, raised, runtime_error}
use social_media_scraper.Network.Singleton.{
  Process, put_session, construct_at, construct, get_at, get_instance, startup, without, forget,
  has_to_close, begin_close, end_close, Reaches, begin, step, get, shutdown, shutdown_ends,
}
use social_media_scraper.Network.Singleton.Single.{open-instance}

abbrev Reached : Type 0
Reached = (p : Process) × Reaches p

abbrev created_one : Reached
unfolding put_session construct_at construct get_at get_instance startup without forget has_to_close
    begin_close end_close
created_one = (_, step _ _ begin get)

abbrev shut_down : Reached
unfolding put_session construct_at construct get_at get_instance startup without forget has_to_close
    begin_close end_close
shut_down = (_, step created_one.0 _ created_one.1 (shutdown 0 (omega arith) refl))

abbrev forgotten : Reached
unfolding put_session construct_at construct get_at get_instance startup without forget has_to_close
    begin_close end_close
forgotten = (_, step shut_down.0 _ shut_down.1 (shutdown_ends 0 [] [] refl))

abbrev created_two : Reached
unfolding put_session construct_at construct get_at get_instance startup without forget has_to_close
    begin_close end_close
created_two = (_, step forgotten.0 _ forgotten.1 get)

open-instance_example :
    (get_instance created_two.0 ≡ (returned 1, created_two.0))
    × ((construct created_two.0).0 ≡ raised runtime_error)
unfolding put_session construct_at construct get_at get_instance startup without forget has_to_close
    begin_close end_close
open-instance_example = open-instance created_two.0 1 created_two.1 (omega arith) refl
