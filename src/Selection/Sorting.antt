-- ===== src/Selection/Sorting.antt =====
-- Python's `sorted(items, key=key, reverse=True)`: descending by the key, and items with equal keys
-- in their given order.
use social_media_scraper.Base.{ℕ, ◌≤◌, ◌≡◌, ◌⊎◌, List, [], ◌∷◌, arith, leb, if◌then◌else◌, In, All}

module _ {A : Type 0} (key : A → ℕ) where
  insert : A → List A → List A
  insert x [] = x ∷ []
  insert x (y ∷ ys) = if leb (key y) (key x) then x ∷ y ∷ ys else y ∷ insert x ys

  unfoldable pub sorted : List A → List A
  unfolding insert
  sorted [] = []
  sorted (x ∷ xs) = insert x (sorted xs)

  -- `ranked[0]`, for a list that is not empty.
  abbrev pub Leads : A → List A → Type 0
  Leads h [] = ⊥
  Leads h (x ∷ xs) = x ≡ h

  abbrev pub Descending : List A → Type 0
  Descending [] = Unit
  Descending (x ∷ xs) = All (λ y. key y ≤ key x) xs × Descending xs

  All-insert :
      (n : ℕ) (x : A) (ys : List A)
      → key x ≤ n
      → All (λ y. key y ≤ n) ys
      → All (λ y. key y ≤ n) (insert x ys)
  unfolding insert
  All-insert n x [] h a = (h, tt)
  All-insert n x (y ∷ ys) h a = ground (arith, All-insert n x ys h a.1)

  All-weaken : (m n : ℕ) (ys : List A) → m ≤ n → All (λ y. key y ≤ m) ys → All (λ y. key y ≤ n) ys
  All-weaken m n [] h a = tt
  All-weaken m n (y ∷ ys) h a = (omega arith, All-weaken m n ys h a.1)

  insert-Descending : (x : A) (ys : List A) → Descending ys → Descending (insert x ys)
  unfolding insert
  insert-Descending x [] d = (tt, tt)
  insert-Descending x (y ∷ ys) d =
      ground
        (arith, All-insert (key y) x ys, insert-Descending x ys d.1, All-weaken (key y) (key x) ys)

  -- The result is in descending order of the keys.
  pub sorted-Descending : (xs : List A) → Descending (sorted xs)
  unfolding sorted
  sorted-Descending [] = tt
  sorted-Descending (x ∷ xs) = insert-Descending x (sorted xs) (sorted-Descending xs)

  insert-In : (a x : A) (ys : List A) → In a (insert x ys) → (x ≡ a) ⊎ In a ys
  unfolding insert
  insert-In a x [] m = m
  insert-In a x (y ∷ ys) m = ground (arith, insert-In a x ys)

  In-insert : (a x : A) (ys : List A) → (x ≡ a) ⊎ In a ys → In a (insert x ys)
  unfolding insert
  In-insert a x [] m = m
  In-insert a x (y ∷ ys) m = ground (arith, In-insert a x ys)

  pub sorted-In : (a : A) (xs : List A) → In a (sorted xs) → In a xs
  unfolding sorted
  sorted-In a [] m = m
  sorted-In a (x ∷ xs) m = ground (arith, insert-In a x (sorted xs) m, sorted-In a xs)

  pub In-sorted : (a : A) (xs : List A) → In a xs → In a (sorted xs)
  unfolding sorted
  In-sorted a [] m = m
  In-sorted a (x ∷ xs) m = In-insert a x (sorted xs) (ground (arith, In-sorted a xs))
