-- ===== src/Pipeline/Streaming/Totals.antt =====
-- Sums over the entries of a queue and over the leads in the hands of workers.
use social_media_scraper.Base.{
  ℕ, zero, suc, ◌+◌, ◌≡◌, refl, List, [], ◌∷◌, ◌++◌, length, map, arith, if◌then◌else◌, ◌==◌,
  ==_iff, leb, ltb,
}
use social_media_scraper.Pipeline.Streaming.{Item, lead, done, replicate, positions}

module _ {A : Type 0} where
  unfoldable pub total : (A → ℕ) → List A → ℕ
  total f [] = 0
  total f (x ∷ xs) = f x + total f xs

  pub total-nil : (f : A → ℕ) → total f [] ≡ 0
  unfolding total
  total-nil f = refl

  pub total-cons : (f : A → ℕ) (x : A) (xs : List A) → total f (x ∷ xs) ≡ f x + total f xs
  unfolding total
  total-cons f x xs = refl

  pub total-append : (f : A → ℕ) (xs ys : List A) → total f (xs ++ ys) ≡ total f xs + total f ys
  unfolding total
  total-append f [] ys = omega arith
  total-append f (x ∷ xs) ys = omega (arith, total-append f xs ys)

  pub total-snoc : (f : A → ℕ) (xs : List A) (y : A) → total f (xs ++ y ∷ []) ≡ total f xs + f y
  total-snoc f xs y = omega (arith, total-append f xs (y ∷ []), total-cons f y [], total-nil f)

  pub total-middle :
      (f : A → ℕ) (xs : List A) (y : A) (zs : List A)
      → total f (xs ++ y ∷ zs) ≡ f y + total f (xs ++ zs)
  total-middle f xs y zs =
      omega (arith, total-append f xs (y ∷ zs), total-cons f y zs, total-append f xs zs)

  pub total-replicate_none : (f : A → ℕ) (n : ℕ) (x : A) → f x ≡ 0 → total f (replicate n x) ≡ 0
  unfolding total replicate
  total-replicate_none f zero x e = refl
  total-replicate_none f (suc n) x e = omega (arith, total-replicate_none f n x e)

  pub total-replicate_one : (f : A → ℕ) (n : ℕ) (x : A) → f x ≡ 1 → total f (replicate n x) ≡ n
  unfolding total replicate
  total-replicate_one f zero x e = refl
  total-replicate_one f (suc n) x e = omega (arith, total-replicate_one f n x e)

-- 1 at one lead, 0 elsewhere
unfoldable pub is_lead : ℕ → Item → ℕ
is_lead i (lead j) = if j == i then 1 else 0
is_lead i done = 0

unfoldable pub is_this : ℕ → ℕ → ℕ
is_this i j = if j == i then 1 else 0

unfoldable pub is_done : Item → ℕ
is_done (lead j) = 0
is_done done = 1

unfoldable pub is_any_lead : Item → ℕ
is_any_lead (lead j) = 1
is_any_lead done = 0

unfoldable pub one : ℕ → ℕ
one j = 1

-- Of the leads `n` to `n + length xs`, each stands in the feed once.
pub total-positions :
    {A : Type 0} (i n : ℕ) (xs : List A)
    → total (is_lead i) (map lead (positions n xs))
      ≡ (if leb n i then (if ltb i (n + length xs) then 1 else 0) else 0)
unfolding total is_lead positions
total-positions i n [] = ground arith
total-positions i n (x ∷ xs) = ground (arith, total-positions i (n + 1) xs, ==_iff n i)

pub total-positions_done :
    {A : Type 0} (n : ℕ) (xs : List A) → total is_done (map lead (positions n xs)) ≡ 0
unfolding total is_done positions
total-positions_done n [] = refl
total-positions_done n (x ∷ xs) = omega (arith, total-positions_done (n + 1) xs)
