-- ===== src/Network/Singleton.antt =====
-- app/network/session_manager.py: the one session of the process, with the client of
-- app/network/http_client.py that each session owns. Sessions are named by the order in which they
-- were created. A shutdown waits while the client closes, and others may run then; the client
-- counts as closed from the start of `aclose`, as it does in the HTTP library.
pub mod Single
use social_media_scraper.Base.{
  ℕ, ◌+◌, ◌<◌, ◌≡◌, Bool, true, false, not, ◌||◌, Option, none, some, List, [], ◌∷◌, ◌++◌, ◌==◌,
  if◌then◌else◌,
}
use social_media_scraper.Exceptions.{Error, runtime_error, Outcome, returned, raised, cancelled}

pub record Session : Type 0 where
  -- `_started`
  pub started : Bool
  -- `_client_manager.is_closed`
  pub closed : Bool

abbrev pub new_session : Session
new_session = record { started = false; closed = false }

pub record Process : Type 0 where
  pub created : ℕ
  pub session : ℕ → Session
  -- `SessionManager._instance`
  pub instance_ : Option ℕ
  -- the shutdowns that wait for their client to close
  pub closing : List ℕ

abbrev pub new_process : Process
new_process = record { created = 0; session = λ i. new_session; instance_ = none; closing = [] }

unfoldable pub put_session : ℕ → Session → Process → Process
put_session i s p = record p { session = λ j. if j == i then s else p.session j }

-- `SessionManager(…)`, by what `_instance` is
unfoldable pub construct_at : Option ℕ → Process → Outcome ℕ × Process
unfolding put_session
construct_at (some i) p = (raised runtime_error, p)
construct_at none p = (
  returned p.created,
  put_session p.created new_session
      (record p { created = p.created + 1; instance_ = some p.created }),
)

unfoldable pub construct : Process → Outcome ℕ × Process
unfolding construct_at
construct p = construct_at p.instance_ p

unfoldable pub get_at : Option ℕ → Process → Outcome ℕ × Process
unfolding construct
get_at (some i) p = (returned i, p)
get_at none p = construct p

-- `get_instance`
unfoldable pub get_instance : Process → Outcome ℕ × Process
unfolding get_at
get_instance p = get_at p.instance_ p

unfoldable pub startup : ℕ → Process → Process
unfolding put_session
startup i p = put_session i (record (p.session i) { started = true }) p

unfoldable pub without : ℕ → Option ℕ → Option ℕ
without i none = none
without i (some j) = if j == i then none else some j

-- the end of `shutdown`: `if SessionManager._instance is self: …`
unfoldable pub forget : ℕ → Process → Process
unfolding without
forget i p = record p { instance_ = without i p.instance_ }

-- `self._started or not self._client_manager.is_closed`
unfoldable pub has_to_close : Session → Bool
has_to_close s = s.started || not s.closed

-- `await self._client_manager.aclose()`, as far as it waits
unfoldable pub begin_close : ℕ → Process → Process
unfolding put_session
begin_close i p =
    put_session i (record (p.session i) { closed = true }) (record p { closing = i ∷ p.closing })

-- what follows the wait
unfoldable pub end_close : ℕ → List ℕ → Process → Process
unfolding put_session forget
end_close i left p =
    forget i
      (put_session i (record (p.session i) { started = false }) (record p { closing = left }))

-- What the coroutines of the process do, one after the other.
pub data Step (p : Process) : Process → Type 0 where
  get : Step p (get_instance p).1
  new : Step p (construct p).1
  start : (i : ℕ) → i < p.created → Step p (startup i p)
  shutdown_closed :
      (i : ℕ) → i < p.created → has_to_close (p.session i) ≡ false → Step p (forget i p)
  shutdown : (i : ℕ) → i < p.created → has_to_close (p.session i) ≡ true → Step p (begin_close i p)
  shutdown_ends :
      (i : ℕ) (before after : List ℕ)
      → p.closing ≡ before ++ i ∷ after
      → Step p (end_close i (before ++ after) p)
  -- `aclose` raises, or the task is cancelled meanwhile
  shutdown_fails :
      (i : ℕ) (before after : List ℕ)
      → p.closing ≡ before ++ i ∷ after
      → Step p (record p { closing = before ++ after })

pub data Reaches : Process → Type 0 where
  begin : Reaches new_process
  step : (p q : Process) → Reaches p → Step p q → Reaches q
