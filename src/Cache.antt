-- ===== src/Cache.antt =====
-- app/cache/memory_cache.py: `MemoryCache`, on a clock that is read as an argument. The lock
-- that its methods hold lets them run one after another: each method is one function.
pub mod Refinement
pub mod History
use social_media_scraper.Base.{
  ℕ, ◌+◌, Option, none, some, List, [], length, ltb, if◌then◌else◌, Text, text_eq, Dict,
  get as lookup, put, remove, or_default,
}

-- `_CacheEntry`
pub record CacheEntry (V : Type 0) : Type 0 where
  pub value : V
  pub expires_at : ℕ

pub record MemoryCache (V : Type 0) : Type 0 where
  pub default_ttl : ℕ
  pub store : Dict Text (CacheEntry V)

-- `__init__`
unfoldable pub init : {V : Type 0} → ℕ → MemoryCache V
init default_ttl_seconds = record { default_ttl = default_ttl_seconds; store = [] }

module _ {V : Type 0} where
  unfoldable pub read_entry :
      ℕ → Text → MemoryCache V → Option (CacheEntry V) → Option V × MemoryCache V
  read_entry now key c none = (none, c)
  read_entry now key c (some entry) =
      if ltb entry.expires_at now
      then (none, record c { store = remove key c.store })
      else (some entry.value, c)

  -- `get`
  unfoldable pub get : ℕ → Text → MemoryCache V → Option V × MemoryCache V
  unfolding read_entry
  get now key c = read_entry now key c (lookup key c.store)

  unfoldable pub ttl_of : MemoryCache V → Option ℕ → ℕ
  ttl_of c none = c.default_ttl
  ttl_of c (some ttl) = ttl

  -- `set`
  unfoldable pub set : ℕ → Text → V → Option ℕ → MemoryCache V → MemoryCache V
  unfolding ttl_of
  set now key value ttl_seconds c = record c {
    store = put key (record { value = value; expires_at = now + ttl_of c ttl_seconds }) c.store;
  }

  -- `delete`
  unfoldable pub delete : Text → MemoryCache V → MemoryCache V
  delete key c = record c { store = remove key c.store }

  -- `clear`
  unfoldable pub clear : MemoryCache V → MemoryCache V
  clear c = record c { store = [] }

  -- `size`
  unfoldable pub size : MemoryCache V → ℕ
  size c = length c.store
