-- ===== src/Cache/Refinement.antt =====
-- `MemoryCache` against its contract: a map whose bindings end at a time. Expired entries that no
-- `get` has removed yet are not seen through the contract.
use social_media_scraper.Base.{
  ℕ, ◌+◌, ◌≤◌, ◌≡◌, refl, sym, ap, ◌∙◌, fun_ext, Bool, true, false, Option, none, some, ltb,
  if◌then◌else◌, Bool-cases, ltb→lt, text_beq_iff, inl, inr, Text, text_eq, ◌=?◌, get as lookup,
  remove, get-put, get-remove, arith,
}
use social_media_scraper.Cache.{CacheEntry, MemoryCache, get, set, delete, ttl_of, read_entry}

-- The contract's state: what a key is bound to at a time.
abbrev pub View : Type 0 → Type 0
View V = ℕ → Text → Option V

module _ {V : Type 0} where
  unfoldable pub alive : ℕ → Option (CacheEntry V) → Option V
  alive now none = none
  alive now (some entry) = if ltb entry.expires_at now then none else some entry.value

  -- What a cache holds at a time, by its entries.
  unfoldable pub view : MemoryCache V → View V
  unfolding alive
  view c now key = alive now (lookup key c.store)

  -- The contract's binding, to the end of `ttl`, of one key.
  unfoldable pub bind : ℕ → ℕ → Text → V → View V → View V
  bind start ttl key value f now k =
      if key =? k then (if ltb (start + ttl) now then none else some value) else f now k

  unfoldable pub unbind : Text → View V → View V
  unbind key f now k = if key =? k then none else f now k

  alive-if :
      (now : ℕ) (b : Bool) (e : CacheEntry V) (o : Option (CacheEntry V))
      → alive now (if b then some e else o)
        ≡ (if b then (if ltb e.expires_at now then none else some e.value) else alive now o)
  unfolding alive
  alive-if now true e o = refl
  alive-if now false e o = refl

  alive-if_none :
      (now : ℕ) (b : Bool) (o : Option (CacheEntry V))
      → alive now (if b then none else o) ≡ (if b then none else alive now o)
  unfolding alive
  alive-if_none now true o = refl
  alive-if_none now false o = refl

  -- `set` binds its key from now on to the end of its ttl, the default one if none is given, and
  -- changes no other key.
  pub set_lem :
      (start : ℕ) (key : Text) (value : V) (ttl : Option ℕ) (c : MemoryCache V)
      → view (set start key value ttl c) ≡ bind start (ttl_of c ttl) key value (view c)
  unfolding view set bind
  set_lem start key value ttl c = fun_ext λ now. fun_ext λ k.
      let entry : CacheEntry V = record { value = value; expires_at = start + ttl_of c ttl } in
      ap (alive now) (get-put key k entry c.store)
      ∙ alive-if now (key =? k) entry (lookup k c.store)

  pub delete_lem : (key : Text) (c : MemoryCache V) → view (delete key c) ≡ unbind key (view c)
  unfolding view delete unbind
  delete_lem key c = fun_ext λ now. fun_ext λ k.
      ap (alive now) (get-remove key k c.store) ∙ alive-if_none now (key =? k) (lookup k c.store)

  read_entry-result :
      (now : ℕ) (key : Text) (c : MemoryCache V) (o : Option (CacheEntry V))
      → (read_entry now key c o).0 ≡ alive now o
  unfolding read_entry alive
  read_entry-result now key c none = refl
  read_entry-result now key c (some e) = ground arith

  alive-expired :
      (now later : ℕ) (e : CacheEntry V)
      → ltb e.expires_at now ≡ true
      → now ≤ later
      → alive later (some e) ≡ none
  unfolding alive
  alive-expired now later e old le = ground (arith, ltb→lt e.expires_at now old)

  -- Dropping an expired entry is not seen later.
  drop_expired :
      (now later : ℕ) (key k : Text) (c : MemoryCache V) (e : CacheEntry V)
      → lookup key c.store ≡ some e
      → ltb e.expires_at now ≡ true
      → now ≤ later
      → alive later (lookup k (remove key c.store)) ≡ alive later (lookup k c.store)
  drop_expired now later key k c e h old le =
      ap (alive later) (get-remove key k c.store)
      ∙ alive-if_none later (key =? k) (lookup k c.store)
      ∙ elim (Bool-cases (key =? k)) [
        | inl same ↦
            let found =
              ap (λ (j : Text). lookup j c.store) (sym ((text_beq_iff key k).0 same)) ∙ h in
            rw (same, found, alive-expired now later e old le)
        | inr other ↦ rw other
      ]

  read_entry-keeps :
      (now later : ℕ) (key k : Text) (c : MemoryCache V) (o : Option (CacheEntry V))
      → lookup key c.store ≡ o
      → now ≤ later
      → view (read_entry now key c o).1 later k ≡ view c later k
  unfolding view read_entry
  read_entry-keeps now later key k c none h le = refl
  read_entry-keeps now later key k c (some e) h le = elim (Bool-cases (ltb e.expires_at now)) [
    | inl old ↦
        ap
          (λ (b : Bool).
            let r : Option V × MemoryCache V =
              if b then (none, record c { store = remove key c.store }) else (some e.value, c) in
            view r.1 later k)
          old
        ∙ drop_expired now later key k c e h old le
    | inr live ↦ rw live
  ]

  -- `get` returns what the cache holds at that time, and changes nothing that any later read of
  -- any key could see, though it may remove an entry.
  pub get_lem :
      (now : ℕ) (key : Text) (c : MemoryCache V)
      → ((get now key c).0 ≡ view c now key)
        × ((later : ℕ) (k : Text) → now ≤ later → view (get now key c).1 later k ≡ view c later k)
  unfolding get view
  get_lem now key c = (
    read_entry-result now key c (lookup key c.store),
    λ later k le. read_entry-keeps now later key k c (lookup key c.store) refl le,
  )
