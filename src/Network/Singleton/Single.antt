-- ===== src/Network/Singleton/Single.antt =====
-- Which sessions of the process are open.
use social_media_scraper.Base.{
  ℕ, ◌+◌, ◌<◌, ◌≡◌, ◌≢◌, refl, ap, ◌∙◌, sym, subst, ◌⊎◌, inl, inr, Bool, true, false, Bool-cases,
  Option, none, some, List, [], ◌∷◌, ◌++◌, ◌==◌, ==_iff, if◌then◌else◌, arith,
}
use social_media_scraper.Exceptions.{runtime_error, returned, raised}
use social_media_scraper.Network.Singleton.{
  Session, new_session, Process, put_session, construct_at, construct, get_at, get_instance,
  without, startup, forget, has_to_close, begin_close, end_close, Step, get, new, start,
  shutdown_closed, shutdown, shutdown_ends, shutdown_fails, Reaches, begin, step,
}

-- the sessions that are being closed were created, and are closed
AllClosed : ℕ → (ℕ → Session) → List ℕ → Type 0
AllClosed n f [] = Unit
AllClosed n f (i ∷ is) = (i < n) × ((f i).closed ≡ true) × AllClosed n f is

AllClosed-middle :
    (n : ℕ) (f : ℕ → Session) (i : ℕ) (before after : List ℕ)
    → AllClosed n f (before ++ i ∷ after)
    → (i < n) × ((f i).closed ≡ true) × AllClosed n f (before ++ after)
unfolding AllClosed
AllClosed-middle n f i [] after v = v
AllClosed-middle n f i (j ∷ before) after (l, c, v) =
    let (m, d, w) = AllClosed-middle n f i before after v in (m, d, (l, c, w))

AllClosed-mono :
    (n m : ℕ) (f g : ℕ → Session) (is : List ℕ)
    → ((j : ℕ) → j < n → (f j).closed ≡ true → (j < m) × ((g j).closed ≡ true))
    → AllClosed n f is
    → AllClosed m g is
unfolding AllClosed
AllClosed-mono n m f g [] h v = tt
AllClosed-mono n m f g (i ∷ is) h (l, c, v) =
    let (k, d) = h i l c in (k, d, AllClosed-mono n m f g is h v)

-- A session that was created is closed, or is the one of the process.
record IsSingle (p : Process) : Type 0 where
  others : (i : ℕ) → i < p.created → ((p.session i).closed ≡ true) ⊎ (p.instance_ ≡ some i)
  closing : AllClosed p.created p.session p.closing

construct_at-IsSingle :
    (m : Option ℕ) (p : Process) → p.instance_ ≡ m → IsSingle p → IsSingle (construct_at m p).1
unfolding construct_at put_session
construct_at-IsSingle (some i) p e v = v
construct_at-IsSingle none p e v = record {
  others = λ i h. elim (Bool-cases (p.created == i)) [
    | inl q ↦ inr (ap some (ground (arith, ==_iff p.created i)))
    | inr q ↦ elim (v.others i (ground (arith, ==_iff p.created i))) [
      | inl c ↦ inl (ground arith)
      | inr c ↦ let n = sym e ∙ c in absurd (ground arith)
    ]
  ];
  closing =
      AllClosed-mono p.created (p.created + 1) p.session
        (λ j. if j == p.created then new_session else p.session j) p.closing
        (λ j l c. (omega arith, ground (arith, ==_iff j p.created))) v.closing;
}

get_at-IsSingle : (m : Option ℕ) (p : Process) → IsSingle p → IsSingle (get_at m p).1
unfolding get_at construct
get_at-IsSingle (some i) p v = v
get_at-IsSingle none p v = construct_at-IsSingle p.instance_ p refl v

closed-still :
    (i : ℕ) (s : Session) (p : Process)
    → ((p.session i).closed ≡ true → s.closed ≡ true)
    → (j : ℕ) → (p.session j).closed ≡ true
    → (if j == i then s else p.session j).closed ≡ true
closed-still i s p h j c =
    let goal_at = λ (b : Bool). (if b then s else p.session j).closed ≡ true in
    elim (Bool-cases (j == i)) [
      | inl q ↦
          let same : j ≡ i = ground (arith, ==_iff j i) in
          subst goal_at (sym q) (h (subst (λ (k : ℕ). (p.session k).closed ≡ true) same c))
      | inr q ↦ subst goal_at (sym q) c
    ]

put_session-at : (i : ℕ) (s : Session) (p : Process) → (put_session i s p).session i ≡ s
unfolding put_session
put_session-at i s p = ground (arith, ==_iff i i)

-- a change of a session that leaves it closed if it was
put-IsSingle :
    (i : ℕ) (s : Session) (p : Process)
    → ((p.session i).closed ≡ true → s.closed ≡ true)
    → IsSingle p
    → IsSingle (put_session i s p)
unfolding put_session
put-IsSingle i s p h v = record {
  others = λ j l. elim (v.others j l) [ inr c ↦ inr c | inl c ↦ inl (closed-still i s p h j c) ];
  closing =
      AllClosed-mono p.created p.created p.session (λ j. if j == i then s else p.session j)
        p.closing (λ j l c. (l, closed-still i s p h j c)) v.closing;
}

without-other : (i j : ℕ) (m : Option ℕ) → m ≡ some j → i ≢ j → without i m ≡ some j
unfolding without
without-other i j none e n = absurd (ground arith)
without-other i j (some k) e n = let same : k ≡ j = ground arith in ground (arith, ==_iff k i)

forget-IsSingle :
    (i : ℕ) (p : Process) → (p.session i).closed ≡ true → IsSingle p → IsSingle (forget i p)
unfolding forget
forget-IsSingle i p c v = record {
  others = λ j l. elim (v.others j l) [
    | inl d ↦ inl d
    | inr d ↦ elim (Bool-cases (j == i)) [
      | inl q ↦ inl (subst (λ (k : ℕ). (p.session k).closed ≡ true) (ground (arith, ==_iff j i)) c)
      | inr q ↦ inr (without-other i j p.instance_ d (λ e. ground (arith, ==_iff j i)))
    ]
  ];
  closing = v.closing;
}

not_to_close : (s : Session) → has_to_close s ≡ false → s.closed ≡ true
unfolding has_to_close
not_to_close s h = ground arith

close-IsSingle :
    (p : Process) (left : List ℕ)
    → AllClosed p.created p.session left
    → IsSingle p
    → IsSingle (record p { closing = left })
close-IsSingle p left c v = record { others = v.others; closing = c }

begin-IsSingle : (i : ℕ) (p : Process) → i < p.created → IsSingle p → IsSingle (begin_close i p)
unfolding begin_close put_session AllClosed
begin-IsSingle i p l v =
    let s = record (p.session i) { closed = true } in
    let w = put-IsSingle i s p (λ c. refl) v in
    close-IsSingle (put_session i s p) (i ∷ p.closing)
      (l, ap (λ (x : Session). x.closed) (put_session-at i s p), w.closing) w

end-IsSingle :
    (i : ℕ) (before after : List ℕ) (p : Process)
    → p.closing ≡ before ++ i ∷ after
    → IsSingle p
    → IsSingle (end_close i (before ++ after) p)
unfolding end_close
end-IsSingle i before after p e v =
    let (l, c, w) =
      AllClosed-middle p.created p.session i before after
        (subst (λ (is : List ℕ). AllClosed p.created p.session is) e v.closing) in
    let q = record p { closing = before ++ after } in
    let s = record (p.session i) { started = false } in
    forget-IsSingle i (put_session i s q)
      (ap (λ (x : Session). x.closed) (put_session-at i s q) ∙ c)
      (put-IsSingle i s q (λ d. d) (close-IsSingle p (before ++ after) w v))

Step-IsSingle : (p q : Process) → Step p q → IsSingle p → IsSingle q
unfolding get_instance construct startup
Step-IsSingle p _ get v = get_at-IsSingle p.instance_ p v
Step-IsSingle p _ new v = construct_at-IsSingle p.instance_ p refl v
Step-IsSingle p _ (start i l) v =
    put-IsSingle i (record (p.session i) { started = true }) p (λ c. c) v
Step-IsSingle p _ (shutdown_closed i l h) v = forget-IsSingle i p (not_to_close (p.session i) h) v
Step-IsSingle p _ (shutdown i l h) v = begin-IsSingle i p l v
Step-IsSingle p _ (shutdown_ends i before after e) v = end-IsSingle i before after p e v
Step-IsSingle p _ (shutdown_fails i before after e) v =
    close-IsSingle p (before ++ after)
      ((AllClosed-middle p.created p.session i before after
        (subst (λ (is : List ℕ). AllClosed p.created p.session is) e v.closing)).2)
      v

reached-IsSingle : (p : Process) → Reaches p → IsSingle p
unfolding AllClosed
reached-IsSingle _ begin = record { others = λ i l. absurd (omega arith); closing = tt }
reached-IsSingle _ (step p q r h) = Step-IsSingle p q h (reached-IsSingle p r)

-- Whatever coroutines create, get, start and shut down sessions in whatever order, also while a
-- client closes or fails to: a session whose client is open is the one that get_instance returns,
-- so that at most one client is open.
pub open-instance :
    (p : Process) (i : ℕ)
    → Reaches p
    → i < p.created
    → (p.session i).closed ≡ false
    → (get_instance p ≡ (returned i, p)) × ((construct p).0 ≡ raised runtime_error)
unfolding get_instance get_at construct construct_at
open-instance p i r l o = elim ((reached-IsSingle p r).others i l) [
  | inl c ↦ absurd (ground arith)
  | inr e ↦ (ap (λ (m : Option ℕ). get_at m p) e, ap (λ (m : Option ℕ). (construct_at m p).0) e)
]
