-- ===== src/Pipeline/Streaming/KeptEnrich.antt =====
-- Every step of the streaming part keeps the invariant.
use social_media_scraper.Base.{
  ℕ, ◌+◌, ◌-◌, ◌≡◌, ◌<◌, refl, ap, ◌∙◌, sym, Bool, List, [], ◌∷◌, ◌++◌, length, map, arith,
}
use social_media_scraper.Pipeline.Streaming.{
  Item, lead, done, Config, State, init, replicate, positions,
}
use social_media_scraper.Pipeline.Streaming.Totals.{
  total, is_lead, is_this, is_done, is_any_lead, total-append, total-snoc, total-replicate_none,
  total-replicate_one, total-positions, total-positions_done,
}
use social_media_scraper.Pipeline.Streaming.Pool.{
  IsPool-take, IsPool-exit, IsPool-return, IsPool-add_lead,
}
use social_media_scraper.Pipeline.Streaming.Pool.{
  IsOrdered, IsOrdered-feed, IsPool-busy, IsPool-queue,
}
use social_media_scraper.Pipeline.Streaming.Invariant.{
  left_of, places, IsPast, IsValid, line_put, line_take, length-middle, total-line, total-hand,
  IsPast-put, past-left, IsPast-exit,
}

module _ (c : Config) where
  pub init-IsValid : (b : Bool) → IsValid c (init c b)
  unfolding init places IsPast IsOrdered left_of is_done is_any_lead is_lead is_this total
  init-IsValid b =
      let ls = map lead (positions 0 c.leads) in
      let ds = replicate c.enrichment_workers done in
      record {
        enrich = record {
          ordered = IsOrdered-feed (positions 0 c.leads) c.enrichment_workers;
          all_workers = omega arith;
          all_dones = omega (
            arith,
            total-append is_done ls ds,
            total-positions_done 0 c.leads,
            total-replicate_one is_done c.enrichment_workers done refl,
          );
          no_more = λ e. absurd (omega arith);
        };
        social = record {
          ordered = tt;
          all_workers = omega arith;
          all_dones = omega arith;
          no_more = λ e. absurd (omega arith);
        };
        past = tt;
        once = λ i. ground (
          arith,
          total-append (is_lead i) ls ds,
          total-positions i 0 c.leads,
          total-replicate_none (is_lead i) c.enrichment_workers done refl,
        );
      }

  pub put-IsValid :
      (s : State) (x : Item) (rest : List Item)
      → s.feed ≡ x ∷ rest
      → IsValid c s
      → IsValid c (record s { feed = rest; to_enrich = s.to_enrich ++ x ∷ [] })
  unfolding places
  put-IsValid s x rest e v =
      let line : (s.to_enrich ++ x ∷ []) ++ rest ≡ s.to_enrich ++ s.feed =
        line_put x rest s.feed s.to_enrich e in
      record {
        enrich = IsPool-queue (sym line) v.enrich;
        social = v.social;
        past = IsPast-put c s.body x s.feed rest s.enrich_exited s.social_exited e v.past;
        once = λ i. let o = v.once i in omega (arith, ap (total (is_lead i)) line);
      }

  pub start-IsValid :
      (s : State) (j : ℕ) (rest : List Item)
      → s.to_enrich ≡ lead j ∷ rest
      → 0 < s.enrich_idle
      → IsValid c s
      → IsValid c (record s {
        to_enrich = rest;
        enrich_idle = s.enrich_idle - 1;
        enriching = j ∷ s.enriching;
      })
  unfolding places is_lead is_this total
  start-IsValid s j rest e idle v = record {
    enrich =
        IsPool-take j (rest ++ s.feed)
          (IsPool-queue (line_take (lead j) rest s.feed s.to_enrich e) v.enrich) idle (omega arith);
    social = v.social;
    past = v.past;
    once = λ i.
        let o = v.once i in
        omega (arith, total-line (is_lead i) (lead j) rest s.feed s.to_enrich e);
  }

  pub skip-IsValid :
      (s : State) (j : ℕ) (rest : List Item)
      → s.to_enrich ≡ lead j ∷ rest
      → 0 < s.enrich_idle
      → IsValid c s
      → IsValid c
          (record s { to_enrich = rest; enrich_idle = s.enrich_idle - 1; passing = j ∷ s.passing })
  unfolding places is_lead is_this total
  skip-IsValid s j rest e idle v = record {
    enrich =
        IsPool-take j (rest ++ s.feed)
          (IsPool-queue (line_take (lead j) rest s.feed s.to_enrich e) v.enrich) idle (omega arith);
    social = v.social;
    past = v.past;
    once = λ i.
        let o = v.once i in
        omega (arith, total-line (is_lead i) (lead j) rest s.feed s.to_enrich e);
  }

  pub end-IsValid :
      (s : State) (j : ℕ) (before after : List ℕ)
      → s.enriching ≡ before ++ j ∷ after
      → IsValid c s
      → IsValid c (record s { enriching = before ++ after; passing = j ∷ s.passing })
  unfolding places is_this total
  end-IsValid s j before after e v = record {
    enrich =
        IsPool-busy (s.to_enrich ++ s.feed) v.enrich
          (omega (arith, ap length e, length-middle j before after));
    social = v.social;
    past = v.past;
    once = λ i. let o = v.once i in omega (arith, total-hand i j s.enriching before after e);
  }

  pub pass-IsValid :
      (s : State) (j : ℕ) (before after : List ℕ)
      → s.passing ≡ before ++ j ∷ after
      → IsValid c s
      → IsValid c (record s {
        passing = before ++ after;
        enrich_idle = s.enrich_idle + 1;
        to_social = s.to_social ++ lead j ∷ [];
      })
  unfolding places is_this is_lead total
  pass-IsValid s j before after e v =
      let len = ap length e ∙ length-middle j before after in
      let w = v.enrich.all_workers in
      let all_left =
        past-left c s.body s.feed s.enrich_exited s.social_exited v.past (omega arith) in
      record {
        enrich = IsPool-return (s.to_enrich ++ s.feed) v.enrich (omega arith);
        social = IsPool-add_lead j s.to_social all_left v.social;
        past = v.past;
        once = λ i.
            let o = v.once i in
            omega (
              arith,
              total-hand i j s.passing before after e,
              total-snoc (is_lead i) s.to_social (lead j),
            );
      }

  pub exit-IsValid :
      (s : State) (rest : List Item)
      → s.to_enrich ≡ done ∷ rest
      → 0 < s.enrich_idle
      → IsValid c s
      → IsValid c (record s {
        to_enrich = rest;
        enrich_idle = s.enrich_idle - 1;
        enrich_exited = s.enrich_exited + 1;
      })
  unfolding places is_lead
  exit-IsValid s rest e idle v =
      let w = v.enrich.all_workers in
      record {
        enrich =
            IsPool-exit (rest ++ s.feed)
              (IsPool-queue (line_take done rest s.feed s.to_enrich e) v.enrich) idle;
        social = v.social;
        past = IsPast-exit c s.body s.feed s.enrich_exited s.social_exited v.past (omega arith);
        once = λ i.
            let o = v.once i in
            omega (arith, total-line (is_lead i) done rest s.feed s.to_enrich e);
      }
