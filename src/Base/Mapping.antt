-- ===== src/Base/Mapping.antt =====
-- Equality tests as an interface, and Python's `dict` over keys that have one: entries in the
-- order of insertion, an update in place.
use mathlib.Core.Path.{◌≡◌, refl}
use mathlib.Core.Logic.{◌↔◌, ◌⊎◌, inl, inr}
use mathlib.Core.Bool.{Bool, true, false, ◌&&◌, ◌||◌}
use mathlib.Core.Option.{Option, none, some}
use mathlib.Core.List.{List, [], ◌∷◌}
use Prim.Native.Nat.{ℕ, ◌+◌}
use native.Mathlib.Omega.{arith}
use social_media_scraper.Base.Lists.{In, Distinct, length}
use social_media_scraper.Base.Tests.{if◌then◌else◌, Bool-cases, ◌==◌ as nat_beq, ==_iff}

pub record Eq {ℓ} (A : Type ℓ) : Type ℓ where
  pub beq : A → A → Bool
  pub beq_iff : (a b : A) → (beq a b ≡ true) ↔ (a ≡ b)

infix 50 ◌=?◌
abbrev pub ◌=?◌ {ℓ} : {A : Type ℓ} ⦃e : Eq A⦄ → A → A → Bool
◌=?◌ ⦃e⦄ = e.beq

pub =?_refl {ℓ} : {A : Type ℓ} ⦃e : Eq A⦄ (a : A) → (a =? a) ≡ true
=?_refl ⦃e⦄ a = (e.beq_iff a a).1 refl

instance abbrev pub nat_eq : Eq ℕ
nat_eq = record { beq = nat_beq; beq_iff = ==_iff }

list_beq {ℓ} : {A : Type ℓ} → (A → A → Bool) → List A → List A → Bool
list_beq eq [] [] = true
list_beq eq (x ∷ xs) (y ∷ ys) = eq x y && list_beq eq xs ys
list_beq eq _ _ = false

-- A text is the list of its code points.
abbrev pub Text : Type 0
Text = List ℕ

unfoldable pub text_beq : Text → Text → Bool
unfolding list_beq
text_beq = list_beq nat_beq

pub text_beq_iff : (a b : Text) → (text_beq a b ≡ true) ↔ (a ≡ b)
unfolding text_beq
text_beq_iff [] [] = (λ _. refl, λ _. refl)
text_beq_iff (x ∷ xs) (y ∷ ys) = ground (arith, text_beq_iff xs ys)
text_beq_iff [] (y ∷ ys) = ground arith
text_beq_iff (x ∷ xs) [] = ground arith

instance abbrev pub text_eq : Eq Text
text_eq = record { beq = text_beq; beq_iff = text_beq_iff }

unfoldable pub pair_beq {ℓ} : {A B : Type ℓ} ⦃e : Eq A⦄ ⦃f : Eq B⦄ → A × B → A × B → Bool
pair_beq (a, b) (c, d) = (a =? c) && (b =? d)

pub pair_beq_iff {ℓ} :
    {A B : Type ℓ} ⦃e : Eq A⦄ ⦃f : Eq B⦄ (p q : A × B) → (pair_beq p q ≡ true) ↔ (p ≡ q)
unfolding pair_beq
pair_beq_iff ⦃e⦄ ⦃f⦄ (a, b) (c, d) = ground (arith, e.beq_iff a c, f.beq_iff b d)

instance abbrev pub pair_eq {ℓ} : {A B : Type ℓ} ⦃e : Eq A⦄ ⦃f : Eq B⦄ → Eq (A × B)
pair_eq = record { beq = pair_beq; beq_iff = pair_beq_iff }

abbrev pub Dict {ℓ κ} : Type ℓ → Type κ → Type (ℓ ⊔ κ)
Dict K V = List (K × V)

module _ {ℓ} {K : Type ℓ} ⦃e : Eq K⦄ where
  -- `k in s`, for a set kept as the list of its members
  unfoldable pub contains : K → List K → Bool
  contains k [] = false
  contains k (j ∷ s) = (j =? k) || contains k s

module _ {ℓ κ} {K : Type ℓ} {V : Type κ} ⦃e : Eq K⦄ where
  -- `d.get(k)`
  unfoldable pub get : K → Dict K V → Option V
  get k [] = none
  get k ((j, v) ∷ d) = if j =? k then some v else get k d

  -- `d[k] = v`
  unfoldable pub put : K → V → Dict K V → Dict K V
  put k v [] = (k, v) ∷ []
  put k v ((j, w) ∷ d) = if j =? k then (j, v) ∷ d else (j, w) ∷ put k v d

  -- `d.pop(k, None)`
  unfoldable pub remove : K → Dict K V → Dict K V
  remove k [] = []
  remove k ((j, v) ∷ d) = if j =? k then remove k d else (j, v) ∷ remove k d

module _ {ℓ κ} {K : Type ℓ} {V : Type κ} where
  -- `list(d.values())`
  abbrev pub values : Dict K V → List V
  values [] = []
  values ((k, v) ∷ d) = v ∷ values d

  abbrev pub keys : Dict K V → List K
  keys [] = []
  keys ((k, v) ∷ d) = k ∷ keys d

module _ {ℓ κ} {K : Type ℓ} {V : Type κ} ⦃e : Eq K⦄ where
  pub get-put :
      (k j : K) (v : V) (d : Dict K V) → get j (put k v d) ≡ (if k =? j then some v else get j d)
  unfolding get put
  get-put k j v [] = refl
  get-put k j v ((i, w) ∷ d) =
      ground (arith, e.beq_iff k j, e.beq_iff i k, e.beq_iff i j, get-put k j v d)

  pub get-remove :
      (k j : K) (d : Dict K V) → get j (remove k d) ≡ (if k =? j then none else get j d)
  unfolding get remove
  get-remove k j [] = ground arith
  get-remove k j ((i, w) ∷ d) =
      ground (arith, e.beq_iff k j, e.beq_iff i k, e.beq_iff i j, get-remove k j d)

module _ {K V : Type 0} ⦃e : Eq K⦄ where
  pub values-put :
      (k : K) (v x : V) (d : Dict K V) → In x (values (put k v d)) → (v ≡ x) ⊎ In x (values d)
  unfolding put
  values-put k v x [] m = m
  values-put k v x ((j, w) ∷ d) m = ground (arith, values-put k v x d)

  pub get-values : (k : K) (v : V) (d : Dict K V) → get k d ≡ some v → In v (values d)
  unfolding get
  get-values k v [] h = cc
  get-values k v ((j, w) ∷ d) h = ground (arith, get-values k v d)

  -- Writing a key adds it at the end, or leaves the keys as they are.
  pub keys-put :
      (k j : K) (v : V) (d : Dict K V) → In j (keys (put k v d)) → (k ≡ j) ⊎ In j (keys d)
  unfolding put
  keys-put k j v [] m = m
  keys-put k j v ((i, w) ∷ d) m = ground (arith, keys-put k j v d)

  pub put-Distinct :
      (k : K) (v : V) (d : Dict K V) → Distinct (keys d) → Distinct (keys (put k v d))
  unfolding put
  put-Distinct k v [] h = ((λ m. m), tt)
  put-Distinct k v ((i, w) ∷ d) h = elim (Bool-cases (i =? k)) [
    | inl same ↦ rw same h
    | inr other ↦ rw other (
      (λ m. elim (keys-put k i v d m) [
        | inl e' ↦ absurd (ground (arith, e.beq_iff i k))
        | inr old ↦ h.0 old
      ]),
      put-Distinct k v d h.1,
    )
  ]

  pub length-put_new :
      (k : K) (v : V) (d : Dict K V)
      → get k d ≡ none
      → length (values (put k v d)) ≡ length (values d) + 1
  unfolding put get
  length-put_new k v [] h = omega arith
  length-put_new k v ((i, w) ∷ d) h = ground (arith, length-put_new k v d)

  pub length-put_old :
      (k : K) (v w : V) (d : Dict K V)
      → get k d ≡ some w
      → length (values (put k v d)) ≡ length (values d)
  unfolding put get
  length-put_old k v w [] h = cc
  length-put_old k v w ((i, u) ∷ d) h = ground (arith, length-put_old k v w d)
