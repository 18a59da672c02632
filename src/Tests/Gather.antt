-- ===== src/Tests/Gather.antt =====
-- Two tasks gathered with a limit of one, once the first has been let in.
use social_media_scraper.Base.{ℕ, ◌+◌, ◌*◌, ◌≡◌, refl, none, [], ◌∷◌, arith}
use social_media_scraper.Gather.{
  waiting, is_waiting, is_running, count, replicate, at_once, State, init, Step, enter, Reaches,
  start, step,
}
use social_media_scraper.Gather.Ordered.{IsKept, reached-IsKept}
use social_media_scraper.Gather.Progress.{steps_left, reached-steps}

abbrev entered : (s : State ℕ) × Reaches 1 2 s
unfolding init replicate at_once count is_waiting is_running
entered = (_, step _ _ start (enter [] (waiting ∷ []) refl refl (omega arith)))

reached-IsKept_example : IsKept 1 2 entered.0
reached-IsKept_example = reached-IsKept 1 2 entered.0 entered.1

reached-steps_example :
    (steps_left (init {A = ℕ} 2) ≡ 2 * 2)
    × (entered.0.result ≡ none → (t : State ℕ) × Step 1 entered.0 t)
    × ((t : State ℕ) → Step 1 entered.0 t → steps_left t + 1 ≡ steps_left entered.0)
reached-steps_example = reached-steps 1 2 entered.0 (omega arith) entered.1
