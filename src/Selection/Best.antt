-- ===== src/Selection/Best.antt =====
-- Deduplication keeps the best candidate of each key, and loses none of the others silently.
use social_media_scraper.Base.{
  ℕ, ◌+◌, ◌≤◌, ◌≡◌, refl, ◌∙◌, ◌⊎◌, inl, inr, true, false, Option, none, some, List, [], ◌∷◌, Text,
  text_eq, pair_eq, pair_beq, pair_beq_iff, get, get-put, values, get-values, values-put,
  length-append, In, In-append, In-append_left, length, ltb, arith, if◌then◌else◌, Option-cases,
  Bool-cases, =?_refl,
}
use social_media_scraper.Selection.Candidate.{Candidate, is_usable}
use social_media_scraper.Selection.Ranking.{ScoreSettings, rank_score}
use social_media_scraper.Selection.Dedup.{Loop, key, merge, visit, visit_all, start, deduplicate}
use social_media_scraper.Selection.Size.{visit_all-size}

module _ (s : ScoreSettings) where
  -- The dictionary holds, for the key of `c`, a candidate with that key that ranks no lower.
  pub record Covers (c : Candidate) (l : Loop) : Type 0 where
    pub best : Candidate
    pub found : get (key c) l.best_by_key ≡ some best
    pub same_key : key best ≡ key c
    pub ranks : rank_score s c ≤ rank_score s best

  -- Every entry stands under its own key.
  abbrev pub Keyed : Loop → Type 0
  Keyed l = (k : Text × Text) (b : Candidate) → get k l.best_by_key ≡ some b → key b ≡ k

  -- Of a candidate and the entry already there, the one that stays: the entry, on a tie.
  abbrev pub winner : Candidate → Option Candidate → Candidate
  winner c none = c
  winner c (some x) = if ltb (rank_score s x) (rank_score s c) then c else x

  get-merge :
      (c : Candidate) (l : Loop) (k : Text × Text) (o : Option Candidate)
      → get (key c) l.best_by_key ≡ o
      → get k (merge s c o l).best_by_key
        ≡ (if pair_beq (key c) k then some (winner c o) else get k l.best_by_key)
  unfolding merge
  get-merge c l k none e = get-put (key c) k c l.best_by_key
  get-merge c l k (some x) e = elim (Bool-cases (ltb (rank_score s x) (rank_score s c))) [
    | inl h ↦ rw h (get-put (key c) k c l.best_by_key)
    | inr h ↦ rw h (ground (arith, pair_beq_iff (key c) k))
  ]

  get-visit :
      (c : Candidate) (l : Loop) (k : Text × Text)
      → is_usable c ≡ true
      → get k (visit s c l).best_by_key ≡ (
          if pair_beq (key c) k
          then some (winner c (get (key c) l.best_by_key))
          else get k l.best_by_key)
  unfolding visit
  get-visit c l k u = rw u (get-merge c l k (get (key c) l.best_by_key) refl)

  best-visit_unusable :
      (c : Candidate) (l : Loop) → is_usable c ≡ false → (visit s c l).best_by_key ≡ l.best_by_key
  unfolding visit
  best-visit_unusable c l u = rw u refl

  winner-key :
      (c : Candidate) (l : Loop) → Keyed l → key (winner c (get (key c) l.best_by_key)) ≡ key c
  winner-key c l h = elim (Option-cases (get (key c) l.best_by_key)) [
    | inl e ↦ rw e refl
    | inr (x, e) ↦ rw e (ground (arith, h (key c) x))
  ]

  winner-ranks : (c : Candidate) (o : Option Candidate) → rank_score s c ≤ rank_score s (winner c o)
  winner-ranks c none = omega arith
  winner-ranks c (some x) = ground arith

  winner-keeps : (c : Candidate) (x : Candidate) → rank_score s x ≤ rank_score s (winner c (some x))
  winner-keeps c x = ground arith

  visit-Keyed : (c : Candidate) (l : Loop) → Keyed l → Keyed (visit s c l)
  visit-Keyed c l h k b = elim (Bool-cases (is_usable c)) [
    | inl u ↦
        rw (get-visit c l k u)
          (λ p. ground (arith, pair_beq_iff (key c) k, winner-key c l h, h k b))
    | inr u ↦ rw (best-visit_unusable c l u) (h k b)
  ]

  visit-Covers_self :
      (c : Candidate) (l : Loop) → Keyed l → is_usable c ≡ true → Covers c (visit s c l)
  visit-Covers_self c l h u = record {
    best = winner c (get (key c) l.best_by_key);
    found = rw (get-visit c l (key c) u, =?_refl (key c)) refl;
    same_key = winner-key c l h;
    ranks = winner-ranks c (get (key c) l.best_by_key);
  }

  visit-Covers : (c d : Candidate) (l : Loop) → Keyed l → Covers d l → Covers d (visit s c l)
  visit-Covers c d l h v = elim (Bool-cases (is_usable c)) [
    | inr u ↦ record {
      best = v.best;
      found = rw (best-visit_unusable c l u) v.found;
      same_key = v.same_key;
      ranks = v.ranks;
    }
    | inl u ↦ elim (Bool-cases (pair_beq (key c) (key d))) [
      | inl same ↦
          let e = (pair_beq_iff (key c) (key d)).0 same in
          record {
            best = winner c (get (key c) l.best_by_key);
            found = rw (get-visit c l (key d) u, same) refl;
            same_key = winner-key c l h ∙ e;
            ranks = rw (e, v.found) (omega (arith, v.ranks, winner-keeps c v.best));
          }
      | inr other ↦ record {
        best = v.best;
        found = rw (get-visit c l (key d) u, other) v.found;
        same_key = v.same_key;
        ranks = v.ranks;
      }
    ]
  ]

  visit_all-Covers :
      (cs : List Candidate) (d : Candidate) (l : Loop)
      → Keyed l
      → Covers d l
      → Covers d (visit_all s cs l)
  unfolding visit_all
  visit_all-Covers [] d l h v = v
  visit_all-Covers (c ∷ cs) d l h v =
      visit_all-Covers cs d (visit s c l) (visit-Keyed c l h) (visit-Covers c d l h v)

  visit_all-Covers_all :
      (cs : List Candidate) (d : Candidate) (l : Loop)
      → Keyed l
      → In d cs
      → is_usable d ≡ true
      → Covers d (visit_all s cs l)
  unfolding visit_all
  visit_all-Covers_all [] d l h m u = elim m [ ]
  visit_all-Covers_all (c ∷ cs) d l h (inl here) u =
      visit_all-Covers cs d (visit s c l) (visit-Keyed c l h) (rw here (visit-Covers_self d l h u))
  visit_all-Covers_all (c ∷ cs) d l h (inr there) u =
      visit_all-Covers_all cs d (visit s c l) (visit-Keyed c l h) there u

  -- Everything kept comes from the input.
  abbrev Kept : (Candidate → Type 0) → Loop → Type 0
  Kept P l =
      ((x : Candidate) → In x (values l.best_by_key) → P x × (is_usable x ≡ true))
      × ((x : Candidate) → In x l.unnormalizable → P x × (is_usable x ≡ false))

  merge-unnormalizable :
      (c : Candidate) (o : Option Candidate) (l : Loop)
      → (merge s c o l).unnormalizable ≡ l.unnormalizable
  unfolding merge
  merge-unnormalizable c none l = refl
  merge-unnormalizable c (some x) l = ground arith

  merge-values :
      (c x : Candidate) (o : Option Candidate) (l : Loop)
      → In x (values (merge s c o l).best_by_key)
      → (c ≡ x) ⊎ In x (values l.best_by_key)
  unfolding merge
  merge-values c x none l = values-put (key c) c x l.best_by_key
  merge-values c x (some y) l = elim (Bool-cases (ltb (rank_score s y) (rank_score s c))) [
    | inl h ↦ rw h (values-put (key c) c x l.best_by_key)
    | inr h ↦ rw h (λ m. inr m)
  ]

  visit-Kept :
      (P : Candidate → Type 0) (c : Candidate) (l : Loop) → P c → Kept P l → Kept P (visit s c l)
  unfolding visit
  visit-Kept P c l pc (hv, hu) = elim (Bool-cases (is_usable c)) [
    | inl u ↦ rw u (
      (λ x m. elim (merge-values c x (get (key c) l.best_by_key) l m) [
        | inl e ↦ let new : P c × (is_usable c ≡ true) = (pc, u) in rw e at new
        | inr old ↦ hv x old
      ]),
      (λ x m. hu x (rw merge-unnormalizable at m)),
    )
    | inr u ↦ rw u (
      hv,
      (λ x m. elim (In-append x l.unnormalizable (c ∷ []) m) [
        | inl old ↦ hu x old
        | inr (inl e) ↦ let new : P c × (is_usable c ≡ false) = (pc, u) in rw e at new
        | inr (inr none') ↦ absurd none'
      ]),
    )
  ]

  visit_all-Kept :
      (P : Candidate → Type 0) (cs : List Candidate) (l : Loop)
      → ((x : Candidate) → In x cs → P x)
      → Kept P l
      → Kept P (visit_all s cs l)
  unfolding visit_all
  visit_all-Kept P [] l all h = h
  visit_all-Kept P (c ∷ cs) l all h =
      visit_all-Kept P cs (visit s c l) (λ x m. all x (inr m))
        (visit-Kept P c l (all c (inl refl)) h)

  -- What `deduplicate` returns, from its input `cs`.
  pub record IsDeduplicated (cs result : List Candidate) (duplicates : ℕ) : Type 0 where
    -- every candidate that it keeps is one of the input
    pub from_input : (x : Candidate) → In x result → In x cs
    -- every usable one of the input has a representative with its key that ranks no lower
    pub covered :
        (d : Candidate)
        → In d cs
        → is_usable d ≡ true
        → (b : Candidate) × In b result
          × (is_usable b ≡ true)
          × (key b ≡ key d)
          × (rank_score s d ≤ rank_score s b)
    -- the count is the number of candidates dropped
    pub counted : length result + duplicates ≡ length cs

  Keyed-start : Keyed start
  unfolding get
  Keyed-start k b h = cc

  Kept-start : (P : Candidate → Type 0) → Kept P start
  Kept-start P = ((λ x m. absurd m), (λ x m. absurd m))

  pub deduplicate-IsDeduplicated :
      (cs : List Candidate) → IsDeduplicated cs (deduplicate s cs).0 (deduplicate s cs).1
  unfolding deduplicate
  deduplicate-IsDeduplicated cs =
      let l = visit_all s cs start in
      let (kv, ku) =
        visit_all-Kept (λ x. In x cs) cs start (λ x m. m) (Kept-start (λ x. In x cs)) in
      record {
        from_input = λ x m. elim (In-append x (values l.best_by_key) l.unnormalizable m) [
          | inl v ↦ (kv x v).0
          | inr u ↦ (ku x u).0
        ];
        covered = λ d m u.
            let v = visit_all-Covers_all cs d start Keyed-start m u in
            let here = get-values (key d) v.best l.best_by_key v.found in
            (
              v.best,
              In-append_left v.best (values l.best_by_key) l.unnormalizable here,
              (kv v.best here).1,
              v.same_key,
              v.ranks,
            );
        counted = omega (
          arith,
          visit_all-size s cs start,
          length-append (values l.best_by_key) l.unnormalizable,
        );
      }
