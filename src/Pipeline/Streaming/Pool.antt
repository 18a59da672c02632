-- ===== src/Pipeline/Streaming/Pool.antt =====
-- A pool of workers and the queue it reads: what is kept as leads and `_QUEUE_DONE`s go through.
use social_media_scraper.Base.{
  ℕ, zero, suc, ◌+◌, ◌-◌, ◌≡◌, ◌<◌, refl, subst, List, [], ◌∷◌, ◌++◌, map, arith,
}
use social_media_scraper.Pipeline.Streaming.{Item, lead, done, replicate}
use social_media_scraper.Pipeline.Streaming.Totals.{
  total, is_done, is_any_lead, total-snoc, total-replicate_none,
}

-- No lead stands behind a `_QUEUE_DONE`.
unfoldable pub IsOrdered : List Item → Type 0
IsOrdered [] = Unit
IsOrdered (lead i ∷ q) = IsOrdered q
IsOrdered (done ∷ q) = (total is_any_lead q ≡ 0) × IsOrdered q

IsOrdered-snoc_done : (q : List Item) → IsOrdered q → IsOrdered (q ++ done ∷ [])
unfolding IsOrdered total is_any_lead
IsOrdered-snoc_done [] o = (refl, tt)
IsOrdered-snoc_done (lead i ∷ q) o = IsOrdered-snoc_done q o
IsOrdered-snoc_done (done ∷ q) (none, o) =
    (omega (arith, total-snoc is_any_lead q done, none), IsOrdered-snoc_done q o)

IsOrdered-snoc_lead : (q : List Item) (i : ℕ) → total is_done q ≡ 0 → IsOrdered (q ++ lead i ∷ [])
unfolding IsOrdered total is_done
IsOrdered-snoc_lead [] i h = tt
IsOrdered-snoc_lead (lead j ∷ q) i h = IsOrdered-snoc_lead q i (omega arith)
IsOrdered-snoc_lead (done ∷ q) i h = absurd (omega arith)

IsOrdered-replicate : (n : ℕ) → IsOrdered (replicate n done)
unfolding IsOrdered replicate is_any_lead
IsOrdered-replicate zero = tt
IsOrdered-replicate (suc n) = (total-replicate_none is_any_lead n done refl, IsOrdered-replicate n)

pub IsOrdered-feed : (is : List ℕ) (n : ℕ) → IsOrdered (map lead is ++ replicate n done)
unfolding IsOrdered
IsOrdered-feed [] n = IsOrdered-replicate n
IsOrdered-feed (i ∷ is) n = IsOrdered-feed is n

-- `workers` workers, of which `idle` wait for an item of `queue`, `busy` have a lead and `exited`
-- have returned; `left` `_QUEUE_DONE`s are still to be put.
pub record IsPool (workers : ℕ) (queue : List Item) (idle busy exited left : ℕ) : Type 0 where
  pub ordered : IsOrdered queue
  pub all_workers : idle + busy + exited ≡ workers
  pub all_dones : total is_done queue + exited + left ≡ workers
  pub no_more : 0 < exited → total is_any_lead queue ≡ 0

module _ {n idle busy exited left : ℕ} where
  pub IsPool-queue :
      {q r : List Item}
      → q ≡ r
      → IsPool n q idle busy exited left
      → IsPool n r idle busy exited left
  IsPool-queue e p = subst (λ (q : List Item). IsPool n q idle busy exited left) e p

  pub IsPool-take :
      {now_busy : ℕ} (i : ℕ) (q : List Item)
      → IsPool n (lead i ∷ q) idle busy exited left
      → 0 < idle
      → now_busy ≡ busy + 1
      → IsPool n q (idle - 1) now_busy exited left
  unfolding IsOrdered total is_done is_any_lead
  IsPool-take i q p some_idle more = record {
    ordered = p.ordered;
    all_workers = let w = p.all_workers in omega arith;
    all_dones = let d = p.all_dones in omega arith;
    no_more = λ e. let m = p.no_more e in absurd (omega arith);
  }

  -- A worker that takes a lead and is through with it at once.
  pub IsPool-drop :
      (i : ℕ) (q : List Item)
      → IsPool n (lead i ∷ q) idle busy exited left
      → IsPool n q idle busy exited left
  unfolding IsOrdered total is_done is_any_lead
  IsPool-drop i q p = record {
    ordered = p.ordered;
    all_workers = p.all_workers;
    all_dones = let d = p.all_dones in omega arith;
    no_more = λ e. let m = p.no_more e in absurd (omega arith);
  }

  pub IsPool-exit :
      (q : List Item)
      → IsPool n (done ∷ q) idle busy exited left
      → 0 < idle
      → IsPool n q (idle - 1) busy (exited + 1) left
  unfolding IsOrdered total is_done is_any_lead
  IsPool-exit q p some_idle = record {
    ordered = p.ordered.1;
    all_workers = let w = p.all_workers in omega arith;
    all_dones = let d = p.all_dones in omega arith;
    no_more = λ e. p.ordered.0;
  }

  pub IsPool-return :
      {now_busy : ℕ} (q : List Item)
      → IsPool n q idle busy exited left
      → busy ≡ now_busy + 1
      → IsPool n q (idle + 1) now_busy exited left
  IsPool-return q p less = record {
    ordered = p.ordered;
    all_workers = let w = p.all_workers in omega arith;
    all_dones = p.all_dones;
    no_more = p.no_more;
  }

  -- A lead that changes hands.
  pub IsPool-busy :
      {now_busy : ℕ} (q : List Item)
      → IsPool n q idle busy exited left
      → now_busy ≡ busy
      → IsPool n q idle now_busy exited left
  IsPool-busy q p same = record {
    ordered = p.ordered;
    all_workers = let w = p.all_workers in omega arith;
    all_dones = p.all_dones;
    no_more = p.no_more;
  }

  pub IsPool-add_lead :
      (i : ℕ) (q : List Item)
      → left ≡ n
      → IsPool n q idle busy exited left
      → IsPool n (q ++ lead i ∷ []) idle busy exited left
  unfolding is_done
  IsPool-add_lead i q all_left p = record {
    ordered = let d = p.all_dones in IsOrdered-snoc_lead q i (omega arith);
    all_workers = p.all_workers;
    all_dones = let d = p.all_dones in omega (arith, total-snoc is_done q (lead i));
    no_more = λ e. let d = p.all_dones in absurd (omega arith);
  }

  pub IsPool-add_done :
      (q : List Item)
      → IsPool n q idle busy exited (suc left)
      → IsPool n (q ++ done ∷ []) idle busy exited left
  unfolding is_done is_any_lead
  IsPool-add_done q p = record {
    ordered = IsOrdered-snoc_done q p.ordered;
    all_workers = p.all_workers;
    all_dones = let d = p.all_dones in omega (arith, total-snoc is_done q done);
    no_more = λ e. let m = p.no_more e in omega (arith, total-snoc is_any_lead q done);
  }
