-- ===== src/Discovery/BrowserManager/Processes.antt =====
-- How many Playwright processes are running.
use social_media_scraper.Base.{
  ℕ, ◌+◌, ◌-◌, ◌≡◌, refl, sym, subst, inl, inr, Bool, true, false, not, ◌&&◌, Bool-cases, List, [],
  ◌∷◌, if◌then◌else◌, arith,
}
use social_media_scraper.Exceptions.{domain, discovery_error, Outcome, returned, raised, cancelled}
use social_media_scraper.Coroutine.{Coroutine, pure, raise, ◌>>=◌, ◌>>◌}
use social_media_scraper.Discovery.BrowserManager.{
  Manager, Answers, Held, no_browser, connected, disconnected, Event, starts, stops, disconnects,
  is_running, on_return, start_playwright, stop_playwright, after_launch, start, close_held,
  close_browser, stop_held, stop, disconnect, happen, history,
}

unfoldable pub held : Manager → ℕ
held m = if m.playwright then 1 else 0

unfoldable pub is_returned : Outcome {0} Unit → Bool
is_returned (returned u) = true
is_returned (raised e) = false
is_returned cancelled = false

-- A start that gets a new Playwright process while the manager holds one, whose browser is not
-- connected.
unfoldable pub abandons : Event → Manager → ℕ
abandons (starts a) m =
    if m.playwright && (not (is_running m) && is_returned a.started) then 1 else 0
abandons (stops a) m = 0
abandons disconnects m = 0

unfoldable pub abandoned : List Event → ℕ
abandoned [] = 0
abandoned (e ∷ es) = abandoned es + abandons e (history es)

-- what holds before the second of two coroutines and after it holds after both
then_holds :
    {A B : Type 0} (P : Manager → Type 0) (o : Outcome A) (m : Manager)
    (f : A → Coroutine Manager B)
    → P m
    → ((a : A) → P (f a m).1)
    → P (((λ (w : Manager). (o, m)) >>= f) m).1
then_holds P (returned a) m f p q = q a
then_holds P (raised e) m f p q = p
then_holds P cancelled m f p q = p

-- what a successful stop does to the processes of a manager that holds one
stopped-processes :
    (o : Outcome {0} Unit) (m : Manager) (n : ℕ)
    → m.playwright ≡ true
    → m.processes ≡ held m + n
    → (on_return o
        (λ k. record k { playwright = false; processes = k.processes - 1 })
        m).1.processes
      ≡ held (on_return o (λ k. record k { playwright = false; processes = k.processes - 1 }) m).1
        + n
unfolding on_return held
stopped-processes (returned u) m n p h = ground arith
stopped-processes (raised e) m n p h = h
stopped-processes cancelled m n p h = h

returned-processes :
    (o : Outcome {0} Unit) (m : Manager) (n : ℕ)
    → m.processes ≡ held m + n
    → (on_return o (λ k. record k { browser = no_browser }) m).1.processes
      ≡ held (on_return o (λ k. record k { browser = no_browser }) m).1 + n
unfolding on_return held
returned-processes (returned u) m n h = h
returned-processes (raised e) m n h = h
returned-processes cancelled m n h = h

after_launch-processes :
    (a : Answers) (o : Outcome {0} Unit) (m : Manager) (n : ℕ)
    → m.playwright ≡ true
    → m.processes ≡ held m + n
    → (after_launch a o m).1.processes ≡ held (after_launch a o m).1 + n
unfolding after_launch stop_playwright held
after_launch-processes a (returned u) m n p h = h
after_launch-processes a (raised e) m n p h =
    then_holds (λ k. k.processes ≡ held k + n) (stop_playwright a m).0 (stop_playwright a m).1
      (λ u. raise (domain discovery_error)) (stopped-processes a.stopped m n p h)
      (λ u. stopped-processes a.stopped m n p h)
after_launch-processes a cancelled m n p h = h

got-processes :
    (a : Answers) (o : Outcome {0} Unit) (m : Manager) (n : ℕ)
    → m.processes ≡ held m + n
    → ((on_return o (λ k. record k { playwright = true; processes = k.processes + 1 })
          >> after_launch a a.launched)
        m).1.processes
      ≡ held
          ((on_return o (λ k. record k { playwright = true; processes = k.processes + 1 })
              >> after_launch a a.launched)
            m).1
        + (n + (if m.playwright && is_returned o then 1 else 0))
unfolding on_return held is_returned
got-processes a (returned u) m n h =
    after_launch-processes a a.launched
      (record m { playwright = true; processes = m.processes + 1 })
      (n + (if m.playwright && true then 1 else 0)) refl (ground arith)
got-processes a (raised e) m n h = ground arith
got-processes a cancelled m n h = ground arith

pub start-processes :
    (a : Answers) (m : Manager) (n : ℕ)
    → m.processes ≡ held m + n
    → (start a m).1.processes ≡ held (start a m).1 + (n + abandons (starts a) m)
unfolding start start_playwright abandons
start-processes a m n h =
    let f =
      λ (b : Bool). (if b then pure tt else start_playwright a >> after_launch a a.launched) m in
    let goal_at = λ (b : Bool).
      (f b).1.processes
      ≡ held (f b).1 + (n + (if m.playwright && (not b && is_returned a.started) then 1 else 0)) in
    elim (Bool-cases (is_running m)) [
      | inl r ↦ subst goal_at (sym r) (ground arith)
      | inr r ↦ subst goal_at (sym r) (got-processes a a.started m n h)
    ]

closed-processes :
    (a : Answers) (b : Held) (m : Manager) (n : ℕ)
    → m.processes ≡ held m + n
    → (close_held a b m).1.processes ≡ held (close_held a b m).1 + n
unfolding close_held held
closed-processes a no_browser m n h = h
closed-processes a connected m n h = returned-processes a.closed m n h
closed-processes a disconnected m n h = returned-processes a.closed m n h

stop_held-processes :
    (a : Answers) (m : Manager) (n : ℕ)
    → m.processes ≡ held m + n
    → (stop_held a m).1.processes ≡ held (stop_held a m).1 + n
unfolding stop_held stop_playwright
stop_held-processes a m n h =
    let f = λ (b : Bool). (if b then stop_playwright a else pure tt) m in
    let goal_at = λ (b : Bool). (f b).1.processes ≡ held (f b).1 + n in
    elim (Bool-cases m.playwright) [
      | inl p ↦ subst goal_at (sym p) (stopped-processes a.stopped m n p h)
      | inr p ↦ subst goal_at (sym p) h
    ]

pub stop-processes :
    (a : Answers) (m : Manager) (n : ℕ)
    → m.processes ≡ held m + n
    → (stop a m).1.processes ≡ held (stop a m).1 + n
unfolding stop close_browser
stop-processes a m n h =
    let closed = closed-processes a m.browser m n h in
    then_holds (λ k. k.processes ≡ held k + n) (close_browser a m).0 (close_browser a m).1
      (λ u. stop_held a) closed (λ u. stop_held-processes a (close_browser a m).1 n closed)

-- After any history of starts, stops and disconnections of the browser, whatever the calls of
-- Playwright raise, the processes that are running are the one that the manager holds, if it
-- holds one, and one for each start that got a new process while the manager held one whose
-- browser was not connected.
pub history-processes :
    (es : List Event) → (history es).processes ≡ held (history es) + abandoned es
unfolding history happen disconnect abandoned abandons held
history-processes [] = refl
history-processes (starts a ∷ es) =
    start-processes a (history es) (abandoned es) (history-processes es)
history-processes (stops a ∷ es) =
    omega (arith, stop-processes a (history es) (abandoned es) (history-processes es))
history-processes (disconnects ∷ es) = omega (arith, history-processes es)

stopped_returned :
    (o : Outcome {0} Unit) (m : Manager)
    → (on_return o (λ k. record k { playwright = false; processes = k.processes - 1 }) m).0
      ≡ returned tt
    → held (on_return o (λ k. record k { playwright = false; processes = k.processes - 1 }) m).1 ≡ 0
unfolding on_return held
stopped_returned (returned u) m e = refl
stopped_returned (raised x) m e = absurd (ground arith)
stopped_returned cancelled m e = absurd (ground arith)

stop_held_returned :
    (a : Answers) (m : Manager) → (stop_held a m).0 ≡ returned tt → held (stop_held a m).1 ≡ 0
unfolding stop_held stop_playwright held
stop_held_returned a m =
    let f = λ (b : Bool). (if b then stop_playwright a else pure tt) m in
    let goal_at = λ (b : Bool). (f b).0 ≡ returned tt → held (f b).1 ≡ 0 in
    elim (Bool-cases m.playwright) [
      | inl p ↦ subst goal_at (sym p) (stopped_returned a.stopped m)
      | inr p ↦ subst goal_at (sym p) (λ e. ground arith)
    ]

both_returned :
    (a : Answers) (o : Outcome {0} Unit) (m : Manager)
    → (((λ (w : Manager). (o, m)) >>= λ u. stop_held a) m).0 ≡ returned tt
    → held (((λ (w : Manager). (o, m)) >>= λ u. stop_held a) m).1 ≡ 0
both_returned a (returned u) m e = stop_held_returned a m e
both_returned a (raised x) m e = absurd (ground arith)
both_returned a cancelled m e = absurd (ground arith)

pub stop_returned : (a : Answers) (m : Manager) → (stop a m).0 ≡ returned tt → held (stop a m).1 ≡ 0
unfolding stop
stop_returned a m e = both_returned a (close_browser a m).0 (close_browser a m).1 e

-- After any history of starts, stops and disconnections of the browser and then a stop that
-- returns, there runs one Playwright process for each start that got a new one while the manager
-- held one whose browser was not connected, and no other.
pub stop-abandoned :
    (es : List Event) (a : Answers)
    → (stop a (history es)).0 ≡ returned tt
    → (history (stops a ∷ es)).processes ≡ abandoned es
unfolding history happen
stop-abandoned es a e = omega (
  arith,
  stop-processes a (history es) (abandoned es) (history-processes es),
  stop_returned a (history es) e,
)
