-- ===== src/Cache/History.antt =====
-- `MemoryCache` over a whole history of calls, and its contract over the same history.
use social_media_scraper.Base.{
  ℕ, ◌+◌, ◌≤◌, ◌≡◌, refl, ap, ◌∙◌, Option, none, some, List, [], ◌∷◌, Text, text_eq, get as lookup,
  arith,
}
use social_media_scraper.Cache.{
  CacheEntry, MemoryCache, read_entry, init, get, set, delete, clear, ttl_of,
}
use social_media_scraper.Cache.Refinement.{
  View, view, alive, bind, unbind, set_lem, delete_lem, get_lem,
}

-- A call of the cache; `later` lets time pass.
pub data Call (V : Type 0) : Type 0 where
  get_call : Text → Call V
  set_call : Text → V → Option ℕ → Call V
  delete_call : Text → Call V
  clear_call : Call V
  later : ℕ → Call V

module _ {V : Type 0} where
  -- What the `get`s of a history return, from a time on.
  unfoldable pub run : ℕ → List (Call V) → MemoryCache V → List (Option V)
  run now [] c = []
  run now (get_call key ∷ h) c = let (found, c') = get now key c in found ∷ run now h c'
  run now (set_call key value ttl ∷ h) c = run now h (set now key value ttl c)
  run now (delete_call key ∷ h) c = run now h (delete key c)
  run now (clear_call ∷ h) c = run now h (clear c)
  run now (later n ∷ h) c = run (now + n) h c

  -- The contract: no store, and a `get` that changes nothing.
  unfoldable pub contract : ℕ → ℕ → List (Call V) → View V → List (Option V)
  unfolding bind unbind
  contract ttl now [] f = []
  contract ttl now (get_call key ∷ h) f = f now key ∷ contract ttl now h f
  contract ttl now (set_call key value none ∷ h) f = contract ttl now h (bind now ttl key value f)
  contract ttl now (set_call key value (some own) ∷ h) f =
      contract ttl now h (bind now own key value f)
  contract ttl now (delete_call key ∷ h) f = contract ttl now h (unbind key f)
  contract ttl now (clear_call ∷ h) f = contract ttl now h (λ t k. none)
  contract ttl now (later n ∷ h) f = contract ttl (now + n) h f

  -- The cache holds what the contract says, from now on.
  record Agrees (ttl now : ℕ) (c : MemoryCache V) (f : View V) : Type 0 where
    default_ttl : c.default_ttl ≡ ttl
    at : (t : ℕ) (k : Text) → now ≤ t → view c t k ≡ f t k

  bind-agrees :
      (start ttl now : ℕ) (key : Text) (x : V) (f g : View V)
      → ((t : ℕ) (k : Text) → now ≤ t → f t k ≡ g t k)
      → (t : ℕ) (k : Text) → now ≤ t
      → bind start ttl key x f t k ≡ bind start ttl key x g t k
  unfolding bind
  bind-agrees start ttl now key x f g e t k le = rw (e t k le)

  unbind-agrees :
      (now : ℕ) (key : Text) (f g : View V)
      → ((t : ℕ) (k : Text) → now ≤ t → f t k ≡ g t k)
      → (t : ℕ) (k : Text) → now ≤ t
      → unbind key f t k ≡ unbind key g t k
  unfolding unbind
  unbind-agrees now key f g e t k le = rw (e t k le)

  set-Agrees :
      (ttl now own : ℕ) (key : Text) (x : V) (given : Option ℕ) (c : MemoryCache V) (f : View V)
      → ttl_of c given ≡ own
      → Agrees ttl now c f
      → Agrees ttl now (set now key x given c) (bind now own key x f)
  unfolding set
  set-Agrees ttl now own key x given c f h a = record {
    default_ttl = a.default_ttl;
    at = λ t k le.
        ap (λ (v : View V). v t k) (set_lem now key x given c)
        ∙ ap (λ n. bind now n key x (view c) t k) h
        ∙ bind-agrees now own now key x (view c) f a.at t k le;
  }

  read_entry-ttl :
      (now : ℕ) (key : Text) (c : MemoryCache V) (o : Option (CacheEntry V))
      → (read_entry now key c o).1.default_ttl ≡ c.default_ttl
  unfolding read_entry
  read_entry-ttl now key c none = refl
  read_entry-ttl now key c (some e) = ground arith

  get-Agrees :
      (ttl now : ℕ) (key : Text) (c : MemoryCache V) (f : View V)
      → Agrees ttl now c f
      → Agrees ttl now (get now key c).1 f
  unfolding get
  get-Agrees ttl now key c f a = record {
    default_ttl = read_entry-ttl now key c (lookup key c.store) ∙ a.default_ttl;
    at = λ t k le. (get_lem now key c).1 t k le ∙ a.at t k le;
  }

  run-Agrees :
      (ttl now : ℕ) (h : List (Call V)) (c : MemoryCache V) (f : View V)
      → Agrees ttl now c f
      → run now h c ≡ contract ttl now h f
  unfolding run contract delete clear ttl_of view alive lookup
  run-Agrees ttl now [] c f a = refl
  run-Agrees ttl now (get_call key ∷ h) c f a =
      let now_found = (get_lem now key c).0 ∙ a.at now key (omega arith) in
      let rest = run-Agrees ttl now h (get now key c).1 f (get-Agrees ttl now key c f a) in cc
  run-Agrees ttl now (set_call key x none ∷ h) c f a =
      run-Agrees ttl now h (set now key x none c) (bind now ttl key x f)
        (set-Agrees ttl now ttl key x none c f a.default_ttl a)
  run-Agrees ttl now (set_call key x (some own) ∷ h) c f a =
      run-Agrees ttl now h (set now key x (some own) c) (bind now own key x f)
        (set-Agrees ttl now own key x (some own) c f refl a)
  run-Agrees ttl now (delete_call key ∷ h) c f a =
      run-Agrees ttl now h (delete key c) (unbind key f) (record {
        default_ttl = a.default_ttl;
        at = λ t k le.
            ap (λ (v : View V). v t k) (delete_lem key c)
            ∙ unbind-agrees now key (view c) f a.at t k le;
      })
  run-Agrees ttl now (clear_call ∷ h) c f a =
      run-Agrees ttl now h (clear c) (λ t k. none)
        (record { default_ttl = a.default_ttl; at = λ t k le. refl })
  run-Agrees ttl now (later n ∷ h) c f a =
      run-Agrees ttl (now + n) h c f
        (record { default_ttl = a.default_ttl; at = λ t k le. a.at t k (omega arith) })

  -- Over every history of calls from a new cache, each `get` returns what the contract says: the
  -- value last set under the key, until its ttl ends or the key is deleted or the cache cleared.
  pub run-contract :
      (ttl now : ℕ) (h : List (Call V)) → run now h (init ttl) ≡ contract ttl now h (λ t k. none)
  unfolding init view alive lookup
  run-contract ttl now h =
      run-Agrees ttl now h (init ttl) (λ t k. none)
        (record { default_ttl = refl; at = λ t k le. refl })
