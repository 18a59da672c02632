-- ===== src/Discovery/BrowserManager.antt =====
-- app/discovery/google_maps/browser_manager.py. Playwright is outside: how its calls end is a
-- parameter of each operation. Of its processes the model keeps how many are running; by
-- convention a start of Playwright that does not return leaves none.
pub mod Processes
use social_media_scraper.Base.{
  ℕ, ◌+◌, ◌-◌, Bool, true, false, Option, none, some, List, [], ◌∷◌, if◌then◌else◌,
}
use social_media_scraper.Exceptions.{
  Error, domain, discovery_error, runtime_error, Outcome, returned, raised, cancelled,
}
use social_media_scraper.Coroutine.{Coroutine, pure, raise, ◌>>=◌, ◌>>◌}

-- `self._browser`: none, one that is connected, one that is not
pub data Held : Type 0 where
  no_browser connected disconnected : Held

pub record Manager : Type 0 where
  -- `self._playwright is not None`
  pub playwright : Bool
  pub browser : Held
  -- the Playwright processes that were started and not stopped
  pub processes : ℕ

abbrev pub new_manager : Manager
new_manager = record { playwright = false; browser = no_browser; processes = 0 }

-- How the calls of Playwright end.
pub record Answers : Type 0 where
  pub started : Outcome {0} Unit
  pub launched : Outcome {0} Unit
  pub closed : Outcome {0} Unit
  pub stopped : Outcome {0} Unit

unfoldable pub is_running : Manager → Bool
is_running m = elim m.browser [ no_browser ↦ false | connected ↦ true | disconnected ↦ false ]

-- a call of Playwright, and what it changes when it returns
unfoldable pub on_return : Outcome {0} Unit → (Manager → Manager) → Coroutine Manager Unit
on_return (returned u) f m = (returned tt, f m)
on_return (raised e) f m = (raised e, m)
on_return cancelled f m = (cancelled, m)

-- `self._playwright = await async_playwright().start()`
unfoldable pub start_playwright : Answers → Coroutine Manager Unit
unfolding on_return
start_playwright a =
    on_return a.started λ m. record m { playwright = true; processes = m.processes + 1 }

-- `await self._playwright.stop()` and `self._playwright = None`
unfoldable pub stop_playwright : Answers → Coroutine Manager Unit
unfolding on_return
stop_playwright a =
    on_return a.stopped λ m. record m { playwright = false; processes = m.processes - 1 }

-- what follows the launch of the browser; an exception of it stops Playwright
unfoldable pub after_launch : Answers → Outcome {0} Unit → Coroutine Manager Unit
unfolding stop_playwright
after_launch a (returned u) m = (returned tt, record m { browser = connected })
after_launch a (raised e) m = (stop_playwright a >> raise (domain discovery_error)) m
after_launch a cancelled m = (cancelled, m)

unfoldable pub start : Answers → Coroutine Manager Unit
unfolding is_running start_playwright after_launch
start a m = (if is_running m then pure tt else start_playwright a >> after_launch a a.launched) m

-- the property `browser`
unfoldable pub browser : Manager → Outcome Held
browser m = elim m.browser [
  | no_browser ↦ raised runtime_error
  | connected ↦ returned connected
  | disconnected ↦ returned disconnected
]

unfoldable pub close_held : Answers → Held → Coroutine Manager Unit
unfolding on_return
close_held a no_browser = pure tt
close_held a connected = on_return a.closed λ m. record m { browser = no_browser }
close_held a disconnected = on_return a.closed λ m. record m { browser = no_browser }

unfoldable pub close_browser : Answers → Coroutine Manager Unit
unfolding close_held
close_browser a m = close_held a m.browser m

unfoldable pub stop_held : Answers → Coroutine Manager Unit
unfolding stop_playwright
stop_held a m = (if m.playwright then stop_playwright a else pure tt) m

unfoldable pub stop : Answers → Coroutine Manager Unit
unfolding close_browser stop_held
stop a = close_browser a >> stop_held a

-- What happens to a manager: its operations, and a browser that goes away by itself.
pub data Event : Type 0 where
  starts : Answers → Event
  stops : Answers → Event
  disconnects : Event

unfoldable pub disconnect : Manager → Manager
disconnect m = record m {
  browser = elim m.browser [
    | no_browser ↦ no_browser
    | connected ↦ disconnected
    | disconnected ↦ disconnected
  ];
}

unfoldable pub happen : Event → Manager → Manager
unfolding start stop disconnect
happen (starts a) m = (start a m).1
happen (stops a) m = (stop a m).1
happen disconnects m = disconnect m

-- The first event is the last of the list.
unfoldable pub history : List Event → Manager
unfolding happen
history [] = new_manager
history (e ∷ es) = happen e (history es)
