-- ===== src/Pipeline/Streaming.antt =====
-- app/pipeline/orchestrator.py: `_stream_enrichment_social_selection` as a step relation. A step
-- is what one coroutine does between two awaits that may suspend it, so a run is any interleaving
-- of the feeder, the two pools of workers and the body that joins them. Leads are named by their
-- position in `context.leads`. The workers of a pool are alike: a pool is the number of those that
-- wait for an item, the leads in the hands of the others, and the number of those that have
-- returned.
pub mod Totals
pub mod Pool
pub mod Invariant
pub mod KeptEnrich
pub mod Kept
pub mod Turns
pub mod Progress
pub mod Measure
pub mod Counted
pub mod Length
pub mod Exact
pub mod Staged
use social_media_scraper.Base.{
  ℕ, zero, suc, ◌+◌, ◌-◌, ◌*◌, ◌≤◌, ◌<◌, ◌≡◌, max, Bool, true, false, not, ◌&&◌, Option, none, some,
  List, [], ◌∷◌, ◌++◌, length, if◌then◌else◌, map, Text,
}
use social_media_scraper.Exceptions.{Outcome}
use social_media_scraper.Leads.{BusinessLead, SocialLead}
use social_media_scraper.Selection.Ranking.{ScoreSettings}
use social_media_scraper.Pipeline.Selecting.{
  Counts, needs_enrichment, needs_social, enriched, count_enrichment, finish_social,
}

-- An entry of a queue: a lead, or `_QUEUE_DONE`.
pub data Item : Type 0 where
  lead : ℕ → Item
  done : Item

-- Where the body stands: it awaits the feeder and the enrichment workers, it has so many
-- `_QUEUE_DONE`s left to put and then awaits the social workers, or it has gone on to the counts.
pub data Body : Type 0 where
  gathering : Body
  closing : ℕ → Body
  finished : Body

pub record Config : Type 0 where
  pub enrichment_workers : ℕ
  pub social_workers : ℕ
  pub settings : ScoreSettings
  pub leads : List BusinessLead

pub record State : Type 0 where
  -- what the feeder has left to put
  pub feed : List Item
  pub to_enrich : List Item
  pub enrich_idle : ℕ
  -- leads in `enrich_one`
  pub enriching : List ℕ
  -- leads that wait for room in `to_social`
  pub passing : List ℕ
  pub enrich_exited : ℕ
  pub to_social : List Item
  pub social_idle : ℕ
  -- leads in `discover_social_links_one`
  pub discovering : List ℕ
  pub social_exited : ℕ
  pub body : Body
  -- the leads that the social workers are through with, the last one first
  pub handled : List ℕ
  pub store : List BusinessLead
  pub counts : Counts
  pub cancel_event : Bool

unfoldable pub replicate : {A : Type 0} → ℕ → A → List A
replicate zero x = []
replicate (suc n) x = x ∷ replicate n x

-- The numbers from `n` on, one for each element.
unfoldable pub positions : {A : Type 0} → ℕ → List A → List ℕ
positions n [] = []
positions n (x ∷ xs) = n ∷ positions (n + 1) xs

-- The element at a position, changed; and the test of one.
unfoldable pub update : {A : Type 0} → ℕ → (A → A) → List A → List A
update n f [] = []
update zero f (x ∷ xs) = f x ∷ xs
update (suc n) f (x ∷ xs) = x ∷ update n f xs

unfoldable pub at_satisfies : {A : Type 0} → ℕ → (A → Bool) → List A → Bool
at_satisfies n p [] = false
at_satisfies zero p (x ∷ xs) = p x
at_satisfies (suc n) p (x ∷ xs) = at_satisfies n p xs

-- A count of steps over the lead at a position.
unfoldable pub count_at : {A B : Type 0} → ℕ → (A → B → B) → List A → B → B
count_at n f [] b = b
count_at zero f (x ∷ xs) b = f x b
count_at (suc n) f (x ∷ xs) b = count_at n f xs b

abbrev pub no_counts : Counts
no_counts = record {
  enrichment_completed = 0;
  enrichment_failed = 0;
  social_completed = 0;
  social_failed = 0;
  selection_before = 0;
  selection_after = 0;
}

module _ (c : Config) where
  -- `maxsize`
  unfoldable pub enrich_capacity : ℕ
  enrich_capacity = max (2 * c.enrichment_workers) 1

  unfoldable pub social_capacity : ℕ
  social_capacity = max (2 * c.social_workers) 1

  -- `id(lead) in enrichment_needed_ids`
  unfoldable pub enrichment_needed : ℕ → Bool
  unfolding needs_enrichment at_satisfies
  enrichment_needed i = at_satisfies i needs_enrichment c.leads

  -- The state once the tasks are created.
  unfoldable pub init : Bool → State
  unfolding replicate positions
  init is_set = record {
    feed = map lead (positions 0 c.leads) ++ replicate c.enrichment_workers done;
    to_enrich = [];
    enrich_idle = c.enrichment_workers;
    enriching = [];
    passing = [];
    enrich_exited = 0;
    to_social = [];
    social_idle = c.social_workers;
    discovering = [];
    social_exited = 0;
    body = gathering;
    handled = [];
    store = c.leads;
    counts = no_counts;
    cancel_event = is_set;
  }

  -- The social worker is through with a lead: `needed` and `found` as in `finish_social`, where
  -- `found` is what discovery does to the lead.
  unfoldable pub handle : ℕ → Bool → (BusinessLead → BusinessLead) → State → State
  unfolding finish_social update count_at
  handle i needed found s = record s {
    handled = i ∷ s.handled;
    store = update i (λ l. (finish_social c.settings needed (found l) s.counts).0) s.store;
    counts = count_at i (λ l b. (finish_social c.settings needed (found l) b).1) s.store s.counts;
  }

  -- One step. Discovery may have set fields of `lead.social` also when it raises.
  pub data Step (s : State) : State → Type 0 where
    feeder_put :
        (x : Item) (rest : List Item)
        → s.feed ≡ x ∷ rest
        → length s.to_enrich < enrich_capacity
        → Step s (record s { feed = rest; to_enrich = s.to_enrich ++ x ∷ [] })
    enrich_start :
        (i : ℕ) (rest : List Item)
        → s.to_enrich ≡ lead i ∷ rest
        → 0 < s.enrich_idle
        → (enrichment_needed i && not s.cancel_event) ≡ true
        → Step s (record s {
          to_enrich = rest;
          enrich_idle = s.enrich_idle - 1;
          enriching = i ∷ s.enriching;
        })
    enrich_skip :
        (i : ℕ) (rest : List Item)
        → s.to_enrich ≡ lead i ∷ rest
        → 0 < s.enrich_idle
        → (enrichment_needed i && not s.cancel_event) ≡ false
        → Step s (record s {
          to_enrich = rest;
          enrich_idle = s.enrich_idle - 1;
          passing = i ∷ s.passing;
        })
    enrich_end :
        (i : ℕ) (before after : List ℕ) (o : Outcome (Option Text))
        → s.enriching ≡ before ++ i ∷ after
        → Step s (record s {
          enriching = before ++ after;
          passing = i ∷ s.passing;
          store = update i (enriched o) s.store;
          counts = count_at i (λ l. count_enrichment (enriched o l)) s.store s.counts;
        })
    enrich_pass :
        (i : ℕ) (before after : List ℕ)
        → s.passing ≡ before ++ i ∷ after
        → length s.to_social < social_capacity
        → Step s (record s {
          passing = before ++ after;
          enrich_idle = s.enrich_idle + 1;
          to_social = s.to_social ++ lead i ∷ [];
        })
    enrich_exit :
        (rest : List Item)
        → s.to_enrich ≡ done ∷ rest
        → 0 < s.enrich_idle
        → Step s (record s {
          to_enrich = rest;
          enrich_idle = s.enrich_idle - 1;
          enrich_exited = s.enrich_exited + 1;
        })
    social_start :
        (i : ℕ) (rest : List Item)
        → s.to_social ≡ lead i ∷ rest
        → 0 < s.social_idle
        → (at_satisfies i needs_social s.store && not s.cancel_event) ≡ true
        → Step s (record s {
          to_social = rest;
          social_idle = s.social_idle - 1;
          discovering = i ∷ s.discovering;
        })
    social_skip :
        (i : ℕ) (rest : List Item)
        → s.to_social ≡ lead i ∷ rest
        → 0 < s.social_idle
        → (at_satisfies i needs_social s.store && not s.cancel_event) ≡ false
        → Step s (
            handle i (at_satisfies i needs_social s.store) (λ l. l) (record s { to_social = rest }))
    social_end :
        (i : ℕ) (before after : List ℕ) (found : SocialLead)
        → s.discovering ≡ before ++ i ∷ after
        → Step s (
            handle i true
              (λ l. record l { social = found })
              (record s { discovering = before ++ after; social_idle = s.social_idle + 1 }))
    social_exit :
        (rest : List Item)
        → s.to_social ≡ done ∷ rest
        → 0 < s.social_idle
        → Step s (record s {
          to_social = rest;
          social_idle = s.social_idle - 1;
          social_exited = s.social_exited + 1;
        })
    gathered :
        s.body ≡ gathering
        → s.feed ≡ []
        → s.enrich_exited ≡ c.enrichment_workers
        → Step s (record s { body = closing c.social_workers })
    close_put :
        (n : ℕ)
        → s.body ≡ closing (suc n)
        → length s.to_social < social_capacity
        → Step s (record s { body = closing n; to_social = s.to_social ++ done ∷ [] })
    joined :
        s.body ≡ closing zero
        → s.social_exited ≡ c.social_workers
        → Step s (record s { body = finished })

  -- A run from the start: steps, and requests of cancellation in between.
  pub data Reaches (is_set : Bool) : State → Type 0 where
    start : Reaches is_set (init is_set)
    step : (s t : State) → Reaches is_set s → Step s t → Reaches is_set t
    request_cancellation :
        (s : State) → Reaches is_set s → Reaches is_set (record s { cancel_event = true })
