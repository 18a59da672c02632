-- ===== src/Discovery/Run/Found.antt =====
-- What a discovery run ends in.
use social_media_scraper.Base.{
  ℕ, ◌+◌, ◌≤◌, ◌<◌, ◌≡◌, refl, ◌⊎◌, inl, inr, Bool, true, Bool-cases, Option, none, some, List, [],
  ◌∷◌, length, count_if, min, Distinct, In, subst, sym, ap, arith,
}
use social_media_scraper.Exceptions.{
  Error, network, foreign, value_error, runtime_error, domain, scraper_timeout_error,
  discovery_error, Outcome, returned, raised, cancelled,
}
use social_media_scraper.Leads.{BusinessLead, deduplicate_leads}
use social_media_scraper.Leads.Unique.{lead_keys}
use social_media_scraper.Discovery.Scroll.{ScrollEngine, ScrollResult, Loop, chain, scroll_until}
use social_media_scraper.Discovery.Scroll.Result.{scroll_until_ends, scroll_until_result}
use social_media_scraper.Discovery.Cards.{Search, RawCard, collect_cards, extract_all, collect}
use social_media_scraper.Discovery.Cards.Readable.{is_readable}
use social_media_scraper.Discovery.Cards.Collected.{IsFromCard, collect_cards_lem}
use social_media_scraper.Discovery.Run.{
  run_one, DiscoveryContext, new_context, Browser, translate_search, DiscoveryResult, search_page,
  navigator_search, search_stage, scroll_stage, collect_cards_stage, deduplicate_stage,
  build_discovery_pipeline, discovered, scrolls, run_discovery,
}

-- A run that ends, and that ends well if it returns.
abbrev pub Ends : {A W : Type 0} → (A → Type 0) → Option (Outcome A × W) → Type 0
Ends P none = ⊥
Ends P (some (returned a, w)) = P a
Ends P (some (raised e, w)) = Unit
Ends P (some (cancelled, w)) = Unit

chain-Ends :
    {A B W : Type 0} (P : A → Type 0) (Q : B → Type 0) (m : Option (Outcome A × W))
    (k : A → Loop W B)
    → Ends P m
    → ((a : A) (w : W) → P a → Ends Q (k a w))
    → Ends Q (chain m k)
unfolding chain
chain-Ends P Q none k h f = h
chain-Ends P Q (some (returned a, w)) k h f = f a w h
chain-Ends P Q (some (raised e, w)) k h f = tt
chain-Ends P Q (some (cancelled, w)) k h f = tt

any_once : {A W : Type 0} (q : Outcome A × W) → Ends (λ a. Unit {0}) (some q)
any_once (returned a, w) = tt
any_once (raised e, w) = tt
any_once (cancelled, w) = tt

itself : {A W : Type 0} (q : Outcome A × W) → Ends (λ a. q.0 ≡ returned a) (some q)
itself (returned a, w) = refl
itself (raised e, w) = tt
itself (cancelled, w) = tt

module _ (s : Search) (engine : ScrollEngine) where
  -- A result of a search: `raws` is what the script returned in the page.
  pub record IsFound {W : Type 0} (browser : Browser W) (r : DiscoveryResult) : Type 0 where
    pub limited : length r.leads + r.metrics.duplicate_count ≤ s.limit
    pub distinct : Distinct (lead_keys r.leads)
    pub raws : List (Option RawCard)
    pub page : W
    pub evaluated : (browser.evaluate_cards page).0 ≡ returned raws
    pub counted :
        length r.leads + r.metrics.duplicate_count ≡ min s.limit (count_if is_readable raws)
    pub from_cards : (lead : BusinessLead) → In lead r.leads → IsFromCard s raws lead
    pub collected : r.metrics.cards_collected ≡ length r.leads
    pub scrolled : r.metrics.scroll_count ≤ engine.max_total

  module _ {W : Type 0} (browser : Browser W) where
    scrolled-Ends :
        (w : W)
        → 0 < engine.poll_interval
        → Ends
            (λ (r : ScrollResult). r.scroll_count ≤ engine.max_total)
            (scroll_until engine browser.scrolling s.limit w)
    scrolled-Ends w pos =
        let (q, e) = scroll_until_ends engine browser.scrolling s.limit w pos in
        subst (Ends (λ (r : ScrollResult). r.scroll_count ≤ engine.max_total)) (sym e) (at q e)
      where
        at :
            (q : Outcome ScrollResult × W)
            → scroll_until engine browser.scrolling s.limit w ≡ some q
            → Ends (λ (r : ScrollResult). r.scroll_count ≤ engine.max_total) (some q)
        at (returned r, w') e = (scroll_until_result engine browser.scrolling s.limit w w' r e).0
        at (raised x, w') e = tt
        at (cancelled, w') e = tt

    IsScrolled : DiscoveryContext → Type 0
    IsScrolled c = scrolls c.scroll_result ≤ engine.max_total

    IsCollected : DiscoveryContext → Type 0
    IsCollected c =
        (raws : List (Option RawCard)) × (page : W) × ((browser.evaluate_cards page).0
          ≡ returned raws)
        × (c.leads ≡ collect s (extract_all s browser.clock 0 raws))
        × IsScrolled c

    IsUnique : DiscoveryContext → Type 0
    IsUnique c = IsFound browser (discovered c)

    scroll_stage-Ends :
        (c : DiscoveryContext) (w : W)
        → 0 < engine.poll_interval
        → Ends IsScrolled (scroll_stage s engine browser c w)
    unfolding scroll_stage IsScrolled scrolls
    scroll_stage-Ends c w pos =
        chain-Ends _ IsScrolled (scroll_until engine browser.scrolling s.limit w) _
          (scrolled-Ends w pos) (λ r w' h. h)

    collect_cards_stage-Ends :
        (c : DiscoveryContext) (w : W)
        → IsScrolled c
        → Ends IsCollected (collect_cards_stage s engine browser c w)
    unfolding collect_cards_stage IsCollected IsScrolled
    collect_cards_stage-Ends c w h =
        chain-Ends (λ raws. (browser.evaluate_cards w).0 ≡ returned raws) IsCollected
          (some (browser.evaluate_cards w)) _ (itself (browser.evaluate_cards w))
          (λ raws w' e. (raws, w, e, refl, h))

    deduplicate_stage-Ends :
        (c : DiscoveryContext) (w : W)
        → IsCollected c
        → Ends IsUnique (deduplicate_stage s engine browser c w)
    unfolding deduplicate_stage IsCollected IsScrolled IsUnique discovered collect_cards
    deduplicate_stage-Ends c w (raws, page, evaluated, e, h) =
        let (limited, counted, distinct, from) = collect_cards_lem s browser.clock raws in
        subst
          (λ (ls : List BusinessLead). IsFound browser (
            discovered (record c {
              leads = (deduplicate_leads ls).0;
              duplicate_count = (deduplicate_leads ls).1;
            })))
          (sym e)
          (record {
            limited = limited;
            distinct = distinct;
            raws = raws;
            page = page;
            evaluated = evaluated;
            counted = counted;
            from_cards = from;
            collected = refl;
            scrolled = h;
          })

    search_stage-Ends :
        (c : DiscoveryContext) (w : W)
        → Ends (λ (d : DiscoveryContext). Unit {0}) (search_stage s engine browser c w)
    unfolding search_stage
    search_stage-Ends c w =
        chain-Ends (λ _. Unit {0}) (λ _. Unit {0}) (some (navigator_search s engine browser w)) _
          (any_once (navigator_search s engine browser w)) (λ _ w' _. tt)

    -- each stage hands to the next what that one needs
    stages-Ends :
        (w : W)
        → 0 < engine.poll_interval
        → Ends IsUnique (run_one (build_discovery_pipeline s engine browser) new_context w)
    unfolding run_one build_discovery_pipeline
    stages-Ends w pos =
        chain-Ends (λ _. Unit {0}) IsUnique (search_stage s engine browser new_context w) _
          (search_stage-Ends new_context w)
          (λ c v _.
            chain-Ends IsScrolled IsUnique (scroll_stage s engine browser c v) _
              (scroll_stage-Ends c v pos)
              (λ d u h.
                chain-Ends IsCollected IsUnique (collect_cards_stage s engine browser d u) _
                  (collect_cards_stage-Ends d u h)
                  (λ e t k.
                    chain-Ends IsUnique IsUnique (deduplicate_stage s engine browser e t)
                      (run_one []) (deduplicate_stage-Ends e t k) (λ f r g. g))))

-- With a poll interval that is not 0 a discovery run ends, on every page. What it returns is leads at
-- different places, which with the duplicates dropped are as many as the cards that the script
-- returned in the page and that can be read, but at most `limit`. Each is read from one of these
-- cards: it has the Maps URL of that card, its name
-- cleaned, its website in normal form, no profile, and the keyword and the location of the search.
-- The metrics give the number of leads, and at most `max_total_attempts` scrolls.
pub run_discovery-Ends :
    {W : Type 0} (s : Search) (engine : ScrollEngine) (browser : Browser W) (w : W)
    → 0 < engine.poll_interval
    → Ends (IsFound s engine browser) (run_discovery s engine browser w)
unfolding run_discovery IsUnique
run_discovery-Ends s engine browser w pos =
    chain-Ends (IsUnique s engine browser) (IsFound s engine browser)
      (run_one (build_discovery_pipeline s engine browser) new_context w) _
      (stages-Ends s engine browser w pos) (λ c w' h. h)

-- What the browser raises when time is up.
abbrev pub IsTimeout : (ℕ → Bool) → Error → Type 0
IsTimeout is_timeout e = (n : ℕ) × (e ≡ foreign n) × (is_timeout n ≡ true)

translated :
    (is_timeout : ℕ → Bool) (o : Outcome {0} Unit) (e : Error)
    → o ≡ raised e
    → (IsTimeout is_timeout e
        × (translate_search is_timeout o ≡ raised (domain scraper_timeout_error)))
      ⊎ ((¬ IsTimeout is_timeout e)
          × (translate_search is_timeout o ≡ raised (domain discovery_error)))
unfolding translate_search
translated t (returned u) e h = absurd (ground arith)
translated t cancelled e h = absurd (ground arith)
translated t (raised (foreign n)) e h = elim (Bool-cases (t n)) [
  | inl late ↦ inl ((n, ground arith, late), rw late refl)
  | inr early ↦ inr ((λ (m, f, g). ground arith), rw early refl)
]
translated t (raised (network x)) e h = inr ((λ (m, f, g). ground arith), refl)
translated t (raised (domain x)) e h = inr ((λ (m, f, g). ground arith), refl)
translated t (raised value_error) e h = inr ((λ (m, f, g). ground arith), refl)
translated t (raised runtime_error) e h = inr ((λ (m, f, g). ground arith), refl)

chain_raised :
    {A B W : Type 0} (m : Outcome A × W) (k : A → Loop W B) (e : Error)
    → m.0 ≡ raised e
    → chain (some m) k ≡ some (raised e, m.1)
unfolding chain
chain_raised (returned a, w) k e h = absurd (ground arith)
chain_raised (raised x, w) k e h = ap (λ (o : Outcome _). some (o, w)) (cc)
chain_raised (cancelled, w) k e h = absurd (ground arith)

module _ {W : Type 0} (s : Search) (engine : ScrollEngine) (browser : Browser W) where
  -- a search that raises ends the run
  run_raised :
      (w : W) (e : Error)
      → (navigator_search s engine browser w).0 ≡ raised e
      → run_discovery s engine browser w ≡ some (raised e, (navigator_search s engine browser w).1)
  unfolding run_discovery run_one build_discovery_pipeline search_stage chain
  run_raised w e h =
      ap
        (λ m.
          chain
            (chain m (
              run_one (
                scroll_stage s engine browser
                ∷ collect_cards_stage s engine browser
                ∷ deduplicate_stage s engine browser
                ∷ [])))
            (λ c w'. some (returned (discovered c), w')))
        (chain_raised (navigator_search s engine browser w) _ e h)

  -- If what a search does on the page raises, the discovery run ends there, in the world that the
  -- page was left in, so that nothing is scrolled or read: with ScraperTimeoutError if the
  -- exception is the browser's timeout, and with DiscoveryError if it is any other.
  pub search_failed :
      (w : W) (e : Error)
      → (search_page s browser w).0 ≡ raised e
      → (IsTimeout browser.is_timeout e
          × (run_discovery s engine browser w
              ≡ some (raised (domain scraper_timeout_error), (search_page s browser w).1)))
        ⊎ ((¬ IsTimeout browser.is_timeout e)
            × (run_discovery s engine browser w
                ≡ some (raised (domain discovery_error), (search_page s browser w).1)))
  unfolding navigator_search
  search_failed w e h = elim (translated browser.is_timeout (search_page s browser w).0 e h) [
    | inl (late, t) ↦ inl (late, run_raised w (domain scraper_timeout_error) t)
    | inr (other, t) ↦ inr (other, run_raised w (domain discovery_error) t)
  ]
