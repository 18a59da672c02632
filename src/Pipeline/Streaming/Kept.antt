-- ===== src/Pipeline/Streaming/Kept.antt =====
-- Every step of the streaming part keeps the invariant.
use social_media_scraper.Base.{
  ℕ, zero, suc, ◌+◌, ◌-◌, ◌≡◌, ◌<◌, ap, ◌∙◌, subst, Bool, true, List, [], ◌∷◌, ◌++◌, length, arith,
}
use social_media_scraper.Leads.{BusinessLead}
use social_media_scraper.Pipeline.Selecting.{Counts}
use social_media_scraper.Pipeline.Streaming.{
  Item, lead, done, Config, State, Body, gathering, closing, finished, Step, Reaches, handle,
  feeder_put, enrich_start, enrich_skip, enrich_end, enrich_pass, enrich_exit, social_start,
  social_skip, social_end, social_exit, gathered, close_put, joined, start, step,
  request_cancellation,
}
use social_media_scraper.Pipeline.Streaming.Totals.{total, is_lead, is_this, total-snoc}
use social_media_scraper.Pipeline.Streaming.Pool.{
  IsPool, IsPool-take, IsPool-exit, IsPool-return, IsPool-add_done,
}
use social_media_scraper.Pipeline.Streaming.Pool.{IsPool-queue, IsPool-drop}
use social_media_scraper.Pipeline.Streaming.Invariant.{
  left_of, places, IsPast, IsValid, length-middle, total-hand, IsPast-social_exit,
}
use social_media_scraper.Pipeline.Streaming.KeptEnrich.{
  init-IsValid, put-IsValid, start-IsValid, skip-IsValid, end-IsValid, pass-IsValid, exit-IsValid,
}

module _ (c : Config) where
  social_start-IsValid :
      (s : State) (j : ℕ) (rest : List Item)
      → s.to_social ≡ lead j ∷ rest
      → 0 < s.social_idle
      → IsValid c s
      → IsValid c (record s {
        to_social = rest;
        social_idle = s.social_idle - 1;
        discovering = j ∷ s.discovering;
      })
  unfolding places is_lead is_this total
  social_start-IsValid s j rest e idle v = record {
    enrich = v.enrich;
    social = IsPool-take j rest (IsPool-queue e v.social) idle (omega arith);
    past = v.past;
    once = λ i. let o = v.once i in omega (arith, ap (total (is_lead i)) e);
  }

  social_skip-IsValid :
      (s : State) (j : ℕ) (rest : List Item)
      → s.to_social ≡ lead j ∷ rest
      → IsValid c s
      → IsValid c (record s { to_social = rest; handled = j ∷ s.handled })
  unfolding places is_lead is_this total
  social_skip-IsValid s j rest e v = record {
    enrich = v.enrich;
    social = IsPool-drop j rest (IsPool-queue e v.social);
    past = v.past;
    once = λ i. let o = v.once i in omega (arith, ap (total (is_lead i)) e);
  }

  social_end-IsValid :
      (s : State) (j : ℕ) (before after : List ℕ)
      → s.discovering ≡ before ++ j ∷ after
      → IsValid c s
      → IsValid c (record s {
        discovering = before ++ after;
        social_idle = s.social_idle + 1;
        handled = j ∷ s.handled;
      })
  unfolding places is_this total
  social_end-IsValid s j before after e v = record {
    enrich = v.enrich;
    social = IsPool-return s.to_social v.social (ap length e ∙ length-middle j before after);
    past = v.past;
    once = λ i. let o = v.once i in omega (arith, total-hand i j s.discovering before after e);
  }

  social_exit-IsValid :
      (s : State) (rest : List Item)
      → s.to_social ≡ done ∷ rest
      → 0 < s.social_idle
      → IsValid c s
      → IsValid c (record s {
        to_social = rest;
        social_idle = s.social_idle - 1;
        social_exited = s.social_exited + 1;
      })
  unfolding places is_lead total
  social_exit-IsValid s rest e idle v =
      let w = v.social.all_workers in
      record {
        enrich = v.enrich;
        social = IsPool-exit rest (IsPool-queue e v.social) idle;
        past =
            IsPast-social_exit c s.body s.feed s.enrich_exited s.social_exited v.past (omega arith);
        once = λ i. let o = v.once i in omega (arith, ap (total (is_lead i)) e);
      }

  gathered-IsValid :
      (s : State)
      → s.body ≡ gathering
      → s.feed ≡ []
      → s.enrich_exited ≡ c.enrichment_workers
      → IsValid c s
      → IsValid c (record s { body = closing c.social_workers })
  unfolding places IsPast left_of
  gathered-IsValid s b f e v = record {
    enrich = v.enrich;
    social =
        subst
          (λ k.
            IsPool c.social_workers s.to_social s.social_idle (length s.discovering) s.social_exited
              k)
          (ap (left_of c.social_workers) b) v.social;
    past = (f, e);
    once = v.once;
  }

  close_put-IsValid :
      (s : State) (k : ℕ)
      → s.body ≡ closing (suc k)
      → IsValid c s
      → IsValid c (record s { body = closing k; to_social = s.to_social ++ done ∷ [] })
  unfolding places IsPast left_of is_lead
  close_put-IsValid s k b v = record {
    enrich = v.enrich;
    social = IsPool-add_done s.to_social (
        subst
          (λ k.
            IsPool c.social_workers s.to_social s.social_idle (length s.discovering) s.social_exited
              k)
          (ap (left_of c.social_workers) b) v.social);
    past = subst (λ (b : Body). IsPast c b s.feed s.enrich_exited s.social_exited) b v.past;
    once = λ i. let o = v.once i in omega (arith, total-snoc (is_lead i) s.to_social done);
  }

  joined-IsValid :
      (s : State)
      → s.body ≡ closing zero
      → s.social_exited ≡ c.social_workers
      → IsValid c s
      → IsValid c (record s { body = finished })
  unfolding places IsPast left_of
  joined-IsValid s b e v = record {
    enrich = v.enrich;
    social =
        subst
          (λ k.
            IsPool c.social_workers s.to_social s.social_idle (length s.discovering) s.social_exited
              k)
          (ap (left_of c.social_workers) b) v.social;
    past =
        let (f, x) =
          subst (λ (b : Body). IsPast c b s.feed s.enrich_exited s.social_exited) b v.past in
        (f, x, e);
    once = v.once;
  }

  -- The invariant does not read the leads, their counts and the event.
  data-IsValid :
      (s : State) (store : List BusinessLead) (counts : Counts) (b : Bool)
      → IsValid c s
      → IsValid c (record s { store = store; counts = counts; cancel_event = b })
  unfolding places
  data-IsValid s store counts b v = record {
    enrich = v.enrich;
    social = v.social;
    past = v.past;
    once = v.once;
  }

  -- Every step of the streaming part keeps the invariant.
  pub Step-IsValid : (s t : State) → Step c s t → IsValid c s → IsValid c t
  unfolding handle
  Step-IsValid s _ (feeder_put x rest e room) v = put-IsValid c s x rest e v
  Step-IsValid s _ (enrich_start i rest e idle h) v = start-IsValid c s i rest e idle v
  Step-IsValid s _ (enrich_skip i rest e idle h) v = skip-IsValid c s i rest e idle v
  Step-IsValid s t (enrich_end i before after o e) v =
      data-IsValid (record s { enriching = before ++ after; passing = i ∷ s.passing }) t.store
        t.counts s.cancel_event (end-IsValid c s i before after e v)
  Step-IsValid s _ (enrich_pass i before after e room) v = pass-IsValid c s i before after e v
  Step-IsValid s _ (enrich_exit rest e idle) v = exit-IsValid c s rest e idle v
  Step-IsValid s _ (social_start i rest e idle h) v = social_start-IsValid s i rest e idle v
  Step-IsValid s t (social_skip i rest e idle h) v =
      data-IsValid (record s { to_social = rest; handled = i ∷ s.handled }) t.store t.counts
        s.cancel_event (social_skip-IsValid s i rest e v)
  Step-IsValid s t (social_end i before after found e) v =
      data-IsValid
        (record s {
          discovering = before ++ after;
          social_idle = s.social_idle + 1;
          handled = i ∷ s.handled;
        })
        t.store t.counts s.cancel_event (social_end-IsValid s i before after e v)
  Step-IsValid s _ (social_exit rest e idle) v = social_exit-IsValid s rest e idle v
  Step-IsValid s _ (gathered b f e) v = gathered-IsValid s b f e v
  Step-IsValid s _ (close_put k b room) v = close_put-IsValid s k b v
  Step-IsValid s _ (joined b e) v = joined-IsValid s b e v

  pub reached-IsValid : (b : Bool) (s : State) → Reaches c b s → IsValid c s
  reached-IsValid b _ start = init-IsValid c b
  reached-IsValid b _ (step s t r h) = Step-IsValid s t h (reached-IsValid b s r)
  reached-IsValid b _ (request_cancellation s r) =
      data-IsValid s s.store s.counts true (reached-IsValid b s r)
