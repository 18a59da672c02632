-- ===== src/Text/Strip.antt =====
-- `str.strip` applied twice, and the length of what it leaves.
use social_media_scraper.Base.{
  ℕ, ◌≡◌, ◌≤◌, refl, sym, ap, ◌∙◌, subst, Bool, false, ◌&&◌, Bool-cases, inl, inr, [], ◌∷◌, length,
  if◌then◌else◌, Text, arith,
}
use social_media_scraper.Text.{is_empty, is_space, drop_while, rstrip_by, strip}

length-drop_while : (p : ℕ → Bool) (s : Text) → length (drop_while p s) ≤ length s
unfolding drop_while
length-drop_while p [] = omega arith
length-drop_while p (c ∷ s) = ground (arith, length-drop_while p s)

length-rstrip_by : (p : ℕ → Bool) (s : Text) → length (rstrip_by p s) ≤ length s
unfolding rstrip_by
length-rstrip_by p [] = omega arith
length-rstrip_by p (c ∷ s) = ground (arith, length-rstrip_by p s)

pub length-strip : (s : Text) → length (strip s) ≤ length s
unfolding strip
length-strip s =
    omega (arith, length-drop_while is_space (rstrip_by is_space s), length-rstrip_by is_space s)

drop_while-drop_while : (p : ℕ → Bool) (s : Text) → drop_while p (drop_while p s) ≡ drop_while p s
unfolding drop_while
drop_while-drop_while p [] = refl
drop_while-drop_while p (c ∷ s) = elim (Bool-cases (p c)) [
  | inl h ↦ ground (arith, drop_while-drop_while p s)
  | inr h ↦ ground arith
]

rstrip_by-kept :
    (p : ℕ → Bool) (c : ℕ) (r : Text)
    → rstrip_by p r ≡ r
    → (is_empty r && p c) ≡ false
    → rstrip_by p (c ∷ r) ≡ c ∷ r
unfolding rstrip_by
rstrip_by-kept p c r e h =
    ap (λ (q : Text). if is_empty q && p c then [] else c ∷ q) e
    ∙ ap (λ (b : Bool). if b then [] else c ∷ r) h

rstrip_by-rstrip_by : (p : ℕ → Bool) (s : Text) → rstrip_by p (rstrip_by p s) ≡ rstrip_by p s
unfolding rstrip_by
rstrip_by-rstrip_by p [] = refl
rstrip_by-rstrip_by p (c ∷ s) =
    let r = rstrip_by p s in
    let same = λ (b : Bool). rstrip_by p (if b then [] else c ∷ r) ≡ (if b then [] else c ∷ r) in
    elim (Bool-cases (is_empty r && p c)) [
      | inl h ↦ subst same (sym h) refl
      | inr h ↦ subst same (sym h) (rstrip_by-kept p c r (rstrip_by-rstrip_by p s) h)
    ]

rest_of : Text → Text
rest_of [] = []
rest_of (c ∷ s) = s

rstrip_by-rest : (p : ℕ → Bool) (c : ℕ) (s : Text) → rstrip_by p (c ∷ s) ≡ c ∷ s → rstrip_by p s ≡ s
unfolding rstrip_by rest_of
rstrip_by-rest p c s e =
    let r = rstrip_by p s in
    let test = λ (b : Bool). if b then [] else c ∷ r in
    elim (Bool-cases (is_empty r && p c)) [
      | inl h ↦ let n : [] ≡ c ∷ s = sym (ap test h) ∙ e in absurd (ground arith)
      | inr h ↦ ap rest_of (sym (ap test h) ∙ e)
    ]

rstrip_by-drop_while :
    (p : ℕ → Bool) (s : Text) → rstrip_by p s ≡ s → rstrip_by p (drop_while p s) ≡ drop_while p s
unfolding drop_while
rstrip_by-drop_while p [] e = e
rstrip_by-drop_while p (c ∷ s) e =
    let dropped = drop_while p s in
    let same =
      λ (b : Bool). rstrip_by p (if b then dropped else c ∷ s) ≡ (if b then dropped else c ∷ s) in
    elim (Bool-cases (p c)) [
      | inl h ↦ subst same (sym h) (rstrip_by-drop_while p s (rstrip_by-rest p c s e))
      | inr h ↦ subst same (sym h) e
    ]

-- Stripping twice is stripping once.
pub strip-strip : (s : Text) → strip (strip s) ≡ strip s
unfolding strip
strip-strip s =
    ap (drop_while is_space)
      (rstrip_by-drop_while is_space (rstrip_by is_space s) (rstrip_by-rstrip_by is_space s))
    ∙ drop_while-drop_while is_space (rstrip_by is_space s)
