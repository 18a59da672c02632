-- ===== src/Discovery/Scroll/Result.antt =====
-- That scrolling ends, and what its result says.
use social_media_scraper.Base.{
  ℕ, zero, suc, ◌+◌, ◌-◌, ◌≤◌, ◌<◌, ◌≡◌, refl, subst, min, Bool, true, false, ◌&&◌, Option, none,
  some, ltb, leb, ltb→lt, arith, if◌then◌else◌,
}
use social_media_scraper.Exceptions.{Outcome, returned, raised, cancelled}
use social_media_scraper.Coroutine.{◌>>◌}
use social_media_scraper.Discovery.Scroll.{
  ScrollResult, ScrollEngine, Page, Loop, result, chain, poll, wait_for_progress_or_timeout, judge,
  rounds, scroll_until,
}

-- A loop that has ended.
abbrev Ends : {W A : Type 0} → Option (Outcome A × W) → Type 0
Ends {W} {A} o = (q : Outcome A × W) × (o ≡ some q)

chain-Ends :
    {W A B : Type 0} (o : Option (Outcome A × W)) (k : A → Loop W B)
    → Ends o
    → ((a : A) (w : W) → Ends (k a w))
    → Ends (chain o k)
unfolding chain
chain-Ends none k (q, e) h = absurd (ground arith)
chain-Ends (some (returned a, w)) k e h = h a w
chain-Ends (some (raised x, w)) k e h = ((raised x, w), refl)
chain-Ends (some (cancelled, w)) k e h = ((cancelled, w), refl)

if-lem :
    {A : Type 0} (P : A → Type 0) (b : Bool) {x y : A}
    → (b ≡ true → P x)
    → (b ≡ false → P y)
    → P (if b then x else y)
if-lem P true f g = f refl
if-lem P false f g = g refl

module _ {W : Type 0} (engine : ScrollEngine) (page : Page W) where
  poll-Ends :
      (fuel previous timeout elapsed current : ℕ) (w : W)
      → 0 < engine.poll_interval
      → timeout - elapsed < fuel
      → Ends (poll engine page fuel previous timeout elapsed current w)
  unfolding poll
  poll-Ends zero previous timeout elapsed current w pos enough = absurd (omega arith)
  poll-Ends (suc fuel) previous timeout elapsed current w pos enough =
      let interval = min engine.poll_interval (timeout - elapsed) in
      if-lem Ends (ltb elapsed timeout)
        (λ more.
          let lt = ltb→lt elapsed timeout more in
          chain-Ends (some ((page.sleep interval >> page.card_count) w)) _ (_, refl)
            (λ n v.
              if-lem Ends (ltb previous n) (λ grown. (_, refl))
                (λ same.
                  poll-Ends fuel previous timeout (elapsed + interval) n v pos (omega arith))))
        (λ over. (_, refl))

  -- The next rounds end.
  NextEnds : (ℕ → ℕ → ℕ → Loop W ScrollResult) → Type 0
  NextEnds go = (stall pause previous : ℕ) (v : W) → Ends (go stall pause previous v)

  judge-Ends :
      (go : ℕ → ℕ → ℕ → Loop W ScrollResult) (stall attempts pause previous current : ℕ) (w : W)
      → NextEnds go
      → Ends (judge engine page go stall attempts pause previous current w)
  unfolding judge NextEnds
  judge-Ends go stall attempts pause previous current w h =
      if-lem Ends (leb current previous)
        (λ stalled.
          if-lem Ends (leb engine.max_stall (stall + 1)) (λ over. (_, refl)) (λ on. h _ _ _ _))
        (λ grown. h _ _ _ _)

  rounds-Ends :
      (limit left attempts stall pause previous : ℕ) (w : W)
      → 0 < engine.poll_interval
      → Ends (rounds engine page limit left attempts stall pause previous w)
  unfolding rounds wait_for_progress_or_timeout NextEnds
  rounds-Ends limit zero attempts stall pause previous w pos = (_, refl)
  rounds-Ends limit (suc left) attempts stall pause previous w pos =
      if-lem Ends (leb limit previous) (λ reached. (_, refl))
        (λ short.
          chain-Ends (some (page.end_marks w)) _ (_, refl)
            (λ marks v.
              if-lem Ends (ltb 0 marks) (λ end. (_, refl))
                (λ on.
                  chain-Ends (some (page.scroll_by v)) _ (_, refl)
                    (λ _ u.
                      chain-Ends (wait_for_progress_or_timeout engine page previous pause u) _
                        (poll-Ends (suc pause) previous pause 0 previous u pos (omega arith))
                        (λ now t.
                          judge-Ends (rounds engine page limit left (attempts + 1)) stall
                            (attempts + 1) pause previous now t
                            (λ a b d x. rounds-Ends limit left (attempts + 1) a b d x pos))))))

  -- With a poll interval that is not 0, scrolling ends, on every page: it returns, or it passes on
  -- an exception or a cancellation of a page operation.
  pub scroll_until_ends :
      (limit : ℕ) (w : W)
      → 0 < engine.poll_interval
      → (q : Outcome ScrollResult × W) × (scroll_until engine page limit w ≡ some q)
  unfolding scroll_until
  scroll_until_ends limit w pos =
      chain-Ends (some (page.card_count w)) _ (_, refl)
        (λ n v. rounds-Ends limit engine.max_total 0 0 engine.base_pause n v pos)

  -- What a result says: at most `max_total_attempts` scrolls; not both ends; and exactly that many
  -- scrolls if neither end was met.
  record IsSound (r : ScrollResult) : Type 0 where
    bounded : r.scroll_count ≤ engine.max_total
    one_end : (r.reached_end_of_list && r.reached_limit) ≡ false
    neither :
        r.reached_end_of_list ≡ false → r.reached_limit ≡ false → r.scroll_count ≡ engine.max_total

  -- If a loop returns a result, it is sound.
  Returns : Option (Outcome ScrollResult × W) → Type 0
  Returns none = Unit
  Returns (some (returned r, w)) = IsSound r
  Returns (some (raised e, w)) = Unit
  Returns (some (cancelled, w)) = Unit

  chain-Returns :
      {A : Type 0} (o : Option (Outcome A × W)) (k : A → Loop W ScrollResult)
      → ((a : A) (w : W) → Returns (k a w))
      → Returns (chain o k)
  unfolding chain Returns
  chain-Returns none k h = tt
  chain-Returns (some (returned a, w)) k h = h a w
  chain-Returns (some (raised e, w)) k h = tt
  chain-Returns (some (cancelled, w)) k h = tt

  at_limit : (n : ℕ) → n ≤ engine.max_total → IsSound (result n false true)
  at_limit n h = record { bounded = h; one_end = refl; neither = λ a b. absurd (ground arith) }

  at_end : (n : ℕ) → n ≤ engine.max_total → IsSound (result n true false)
  at_end n h = record { bounded = h; one_end = refl; neither = λ a b. absurd (ground arith) }

  rounds-Returns :
      (limit left attempts stall pause previous : ℕ) (w : W)
      → attempts + left ≡ engine.max_total
      → Returns (rounds engine page limit left attempts stall pause previous w)
  unfolding rounds judge Returns
  rounds-Returns limit zero attempts stall pause previous w h = record {
    bounded = omega arith;
    one_end = refl;
    neither = λ a b. omega arith;
  }
  rounds-Returns limit (suc left) attempts stall pause previous w h =
      let next = attempts + 1 in
      let go = λ (a b d : ℕ) (x : W). rounds-Returns limit left next a b d x (omega arith) in
      if-lem Returns (leb limit previous) (λ reached. at_limit attempts (omega arith))
        (λ short. chain-Returns (some (page.end_marks w)) _ (λ marks v.
          if-lem Returns (ltb 0 marks) (λ end. at_end attempts (omega arith))
            (λ on. chain-Returns (some (page.scroll_by v)) _ (λ _ u.
              chain-Returns (wait_for_progress_or_timeout engine page previous pause u) _ (λ now t.
                if-lem Returns (leb now previous)
                  (λ stalled.
                    if-lem Returns (leb engine.max_stall (stall + 1))
                      (λ over. at_end next (omega arith)) (λ on. go _ _ _ t))
                  (λ grown. go _ _ _ t))))))

  -- When scrolling returns a result: it has scrolled at most `max_total_attempts` times, it does
  -- not report both the limit and the end of the list, and if it reports neither, it has used up
  -- all its attempts.
  pub scroll_until_result :
      (limit : ℕ) (w w' : W) (r : ScrollResult)
      → scroll_until engine page limit w ≡ some (returned r, w')
      → (r.scroll_count ≤ engine.max_total)
        × ((r.reached_end_of_list && r.reached_limit) ≡ false)
        × (r.reached_end_of_list ≡ false
            → r.reached_limit ≡ false
            → r.scroll_count ≡ engine.max_total)
  unfolding scroll_until Returns
  scroll_until_result limit w w' r h =
      let s : Returns (scroll_until engine page limit w) =
        chain-Returns (some (page.card_count w)) _
          (λ n v. rounds-Returns limit engine.max_total 0 0 engine.base_pause n v (omega arith)) in
      let sound : IsSound r = subst Returns h s in (sound.bounded, sound.one_end, sound.neither)
