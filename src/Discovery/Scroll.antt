-- ===== src/Discovery/Scroll.antt =====
-- app/discovery/google_maps/scroll_engine.py. The page is a parameter: the coroutines that read
-- and move it. Times are whole numbers of a unit that divides the base pause by eight, so that the
-- three factors of 1.5 below the cap of four base pauses are exact.
pub mod Result
use social_media_scraper.Base.{
  ℕ, zero, suc, ◌+◌, ◌-◌, ◌*◌, ◌/◌, min, Bool, true, false, Option, none, some, ltb, leb,
  if◌then◌else◌, or_default,
}
use social_media_scraper.Exceptions.{Error, Outcome, returned, raised, cancelled}
use social_media_scraper.Coroutine.{Coroutine, ◌>>=◌, ◌>>◌}

pub record ScrollResult : Type 0 where
  pub scroll_count : ℕ
  pub reached_end_of_list : Bool
  pub reached_limit : Bool

abbrev pub result : ℕ → Bool → Bool → ScrollResult
result scroll_count reached_end_of_list reached_limit = record {
  scroll_count = scroll_count;
  reached_end_of_list = reached_end_of_list;
  reached_limit = reached_limit;
}

-- `ScrollEngine`, without its page
pub record ScrollEngine : Type 0 where
  pub base_pause : ℕ
  pub max_stall : ℕ
  pub max_total : ℕ
  pub poll_interval : ℕ

-- `__init__`: an argument that is None, or 0, is taken from the settings.
unfoldable pub init : ScrollEngine → Option ℕ → Option ℕ → Option ℕ → Option ℕ → ScrollEngine
unfolding or_default
init settings base_pause_seconds max_attempts_without_progress max_total_attempts
      poll_interval_seconds =
    record {
      base_pause = or_default base_pause_seconds settings.base_pause;
      max_stall = or_default max_attempts_without_progress settings.max_stall;
      max_total = or_default max_total_attempts settings.max_total;
      poll_interval = or_default poll_interval_seconds settings.poll_interval;
    }

-- What the engine does with the page.
pub record Page (W : Type 0) : Type 0 where
  -- how many result cards there are
  pub card_count : Coroutine W ℕ
  -- how often the text of the end of the list occurs
  pub end_marks : Coroutine W ℕ
  pub scroll_by : Coroutine W Unit
  pub sleep : ℕ → Coroutine W Unit

-- A loop on fuel: `none` is a loop that has not ended within it.
abbrev pub Loop : Type 0 → Type 0 → Type 0
Loop W A = W → Option (Outcome A × W)

unfoldable pub chain :
    {W A B : Type 0} → Option (Outcome A × W) → (A → Loop W B) → Option (Outcome B × W)
chain none k = none
chain (some (returned a, w)) k = k a w
chain (some (raised e, w)) k = some (raised e, w)
chain (some (cancelled, w)) k = some (cancelled, w)

module _ {W : Type 0} (engine : ScrollEngine) (page : Page W) where
  -- `_wait_for_progress_or_timeout` from some round of its loop on
  unfoldable pub poll : ℕ → ℕ → ℕ → ℕ → ℕ → Loop W ℕ
  unfolding chain
  poll zero previous_count timeout elapsed current_count w = none
  poll (suc fuel) previous_count timeout elapsed current_count w =
      let interval = min engine.poll_interval (timeout - elapsed) in
      if ltb elapsed timeout
      then chain (some ((page.sleep interval >> page.card_count) w)) (λ n w'.
        if ltb previous_count n
        then some (returned n, w')
        else poll fuel previous_count timeout (elapsed + interval) n w')
      else some (returned current_count, w)

  -- with enough fuel for every timeout, as the poll interval is not 0
  unfoldable pub wait_for_progress_or_timeout : ℕ → ℕ → Loop W ℕ
  unfolding poll
  wait_for_progress_or_timeout previous_count timeout =
      poll (suc timeout) previous_count timeout 0 previous_count

  -- the end of a round of `scroll_until`: `go` is the next one
  unfoldable pub judge : (ℕ → ℕ → ℕ → Loop W ScrollResult) → ℕ → ℕ → ℕ → ℕ → ℕ → Loop W ScrollResult
  judge go stall_count total_attempts pause previous_count current_count w =
      if leb current_count previous_count
      then (if leb engine.max_stall (stall_count + 1)
          then some (returned (result total_attempts true false), w)
          else go (stall_count + 1) (min (pause * 3 / 2) (engine.base_pause * 4)) current_count w)
      else go 0 engine.base_pause current_count w

  -- the loop of `scroll_until`, which may make so many more attempts
  unfoldable pub rounds : ℕ → ℕ → ℕ → ℕ → ℕ → ℕ → Loop W ScrollResult
  unfolding chain wait_for_progress_or_timeout judge
  rounds limit zero total_attempts stall_count pause previous_count w =
      some (returned (result total_attempts false false), w)
  rounds limit (suc left) total_attempts stall_count pause previous_count w =
      if leb limit previous_count
      then some (returned (result total_attempts false true), w)
      else chain (some (page.end_marks w)) λ marks w.
        if ltb 0 marks
        then some (returned (result total_attempts true false), w)
        else chain (some (page.scroll_by w)) λ _ w.
          chain (wait_for_progress_or_timeout previous_count pause w) (
            judge (rounds limit left (total_attempts + 1)) stall_count (total_attempts + 1) pause
              previous_count)

  -- `scroll_until`
  unfoldable pub scroll_until : ℕ → Loop W ScrollResult
  unfolding chain rounds
  scroll_until limit w =
      chain (some (page.card_count w))
        λ previous_count. rounds limit engine.max_total 0 0 engine.base_pause previous_count
