-- ===== src/Selection/Engine/Choice.antt =====
-- What `SelectionEngine.select` chooses for each platform, against the candidates it was given.
use social_media_scraper.Base.{
  ℕ, ◌≤◌, ◌≡◌, ◌≢◌, refl, ◌∙◌, ap, inl, inr, true, Option, none, some, List, [], ◌∷◌, Text, text_eq,
  text_beq_iff, ◌=?◌, select, In, In-select, select-In, arith, Option-cases,
}
use social_media_scraper.Text.{codes}
use social_media_scraper.Selection.Candidate.{Candidate, is_usable}
use social_media_scraper.Selection.Ranking.{ScoreSettings, rank_score}
use social_media_scraper.Selection.Sorting.{sorted-Descending, sorted-In, In-sorted, Descending}
use social_media_scraper.Selection.Dedup.{key, deduplicate}
use social_media_scraper.Selection.Best.{IsDeduplicated, deduplicate-IsDeduplicated}
use social_media_scraper.Selection.Engine.{first_url, rank, best_url, selection}

module _ (s : ScoreSettings) where
  -- `url` is the best choice for a platform among `cs`: with no usable candidate of the platform
  -- there is none, and otherwise it is the normalised URL of one that ranks as high as any.
  abbrev pub IsBest : Text → List Candidate → Option Text → Type 0
  IsBest platform cs none = (d : Candidate) → In d cs → is_usable d ≡ true → d.platform ≢ platform
  IsBest platform cs (some u) =
      (b : Candidate) × In b cs
      × (is_usable b ≡ true)
      × (b.platform ≡ platform)
      × (b.normalized_url ≡ some u)
      × ((d : Candidate)
          → In d cs
          → is_usable d ≡ true
          → d.platform ≡ platform
          → rank_score s d ≤ rank_score s b)

  head_max :
      (b d : Candidate) (bs : List Candidate)
      → Descending (rank_score s) (b ∷ bs)
      → In d (b ∷ bs)
      → rank_score s d ≤ rank_score s b
  head_max b d bs h (inl here) = rw here (omega arith)
  head_max b d (x ∷ bs) h (inr (inl here)) = rw here at h.0.0
  head_max b d (x ∷ bs) h (inr (inr there)) = head_max b d bs (h.0.1, h.1.1) (inr there)
  head_max b d [] h (inr there) = elim there [ ]

  usable_url : (b : Candidate) → is_usable b ≡ true → (u : Text) × (b.normalized_url ≡ some u)
  unfolding is_usable
  usable_url b h = elim (Option-cases b.normalized_url) [
    | inl e ↦ absurd (ground arith)
    | inr (u, e) ↦ (u, e)
  ]

  -- The first of a descending list of usable candidates of the platform.
  first_IsBest :
      (platform : Text) (ranked cs : List Candidate)
      → Descending (rank_score s) ranked
      → ((x : Candidate) → In x ranked → In x cs × (is_usable x ≡ true) × (x.platform ≡ platform))
      → ((d : Candidate)
          → In d cs
          → is_usable d ≡ true
          → d.platform ≡ platform
          → (b : Candidate) × In b ranked × (rank_score s d ≤ rank_score s b))
      → IsBest platform cs (first_url ranked)
  unfolding first_url
  first_IsBest platform [] cs desc ours covers =
      λ d m u p. let (b, here, _) = covers d m u p in elim here [ ]
  first_IsBest platform (b ∷ bs) cs desc ours covers =
      let (m, u, p) = ours b (inl refl) in
      let (url, e) = usable_url b u in
      rw e (
        b,
        m,
        u,
        p,
        e,
        λ d dm du dp.
            let (x, here, le) = covers d dm du dp in omega (arith, le, head_max b x bs desc here),
      )

  -- The candidates that are ranked for a platform, and what deduplication says of them.
  abbrev ours : Text → List Candidate → List Candidate
  ours platform deduped = select (λ c. c.platform =? platform) (select is_usable deduped)

  ours-In :
      (platform : Text) (x : Candidate) (deduped : List Candidate)
      → In x (ours platform deduped)
      → In x deduped × (is_usable x ≡ true) × (x.platform ≡ platform)
  ours-In platform x deduped m =
      let (m', p) =
        In-select (λ (c : Candidate). c.platform =? platform) x (select is_usable deduped) m in
      let (m'', u) = In-select is_usable x deduped m' in
      (m'', u, (text_beq_iff x.platform platform).0 p)

  In-ours :
      (platform : Text) (x : Candidate) (deduped : List Candidate)
      → In x deduped
      → is_usable x ≡ true
      → x.platform ≡ platform
      → In x (ours platform deduped)
  In-ours platform x deduped m u p =
      select-In (λ (c : Candidate). c.platform =? platform) x (select is_usable deduped)
        (select-In is_usable x deduped m u) ((text_beq_iff x.platform platform).1 p)

  ranked_covers :
      (platform : Text) (cs deduped : List Candidate) (n : ℕ)
      → IsDeduplicated s cs deduped n
      → (d : Candidate) → In d cs
      → is_usable d ≡ true
      → d.platform ≡ platform
      → (b : Candidate) × In b (rank s (ours platform deduped)) × (rank_score s d ≤ rank_score s b)
  unfolding best_url key
  ranked_covers platform cs deduped n h d m u p =
      let (b, bm, bu, same, le) = h.covered d m u in
      let bp : b.platform ≡ platform = ap (λ (k : Text × Text). k.0) same ∙ p in
      (
        b,
        In-sorted (rank_score s) b (ours platform deduped) (In-ours platform b deduped bm bu bp),
        le,
      )

  best_url-IsBest :
      (platform : Text) (cs deduped : List Candidate) (n : ℕ)
      → IsDeduplicated s cs deduped n
      → IsBest platform cs (best_url s platform deduped)
  unfolding best_url
  best_url-IsBest platform cs deduped n h =
      first_IsBest platform (rank s (ours platform deduped)) cs
        (sorted-Descending (rank_score s) (ours platform deduped))
        (λ x m.
          let (m', u, p) =
            ours-In platform x deduped (sorted-In (rank_score s) x (ours platform deduped) m) in
          (h.from_input x m', u, p))
        (ranked_covers platform cs deduped n h)

  -- For each platform, `select` returns the best choice among all the candidates it was given, and
  -- `None` exactly when no usable candidate has the platform.
  pub selection-IsBest :
      (cs : List Candidate)
      → IsBest (codes "instagram") cs (selection s cs).instagram_url
        × IsBest (codes "facebook") cs (selection s cs).facebook_url
  unfolding selection
  selection-IsBest cs =
      let h = deduplicate-IsDeduplicated s cs in
      (
        best_url-IsBest (codes "instagram") cs (deduplicate s cs).0 (deduplicate s cs).1 h,
        best_url-IsBest (codes "facebook") cs (deduplicate s cs).0 (deduplicate s cs).1 h,
      )
