-- ===== src/Engine/Cache/Changed.antt =====
-- What the operations of crates/engine/src/cache.rs on one key leave of the contents.
use kv.Prelude.{
  ℕ, ◌-◌, ◌≡◌, refl, ap, sym, ◌∙◌, Bool, false, Option, none, some, Option_elim, ◌⊎◌, inl, inr,
  if_elim, if◌then◌else◌, Bytes, bytes_eq, bytes_eq_iff, bytes_eq_refl, is_some_and, leb,
  eq_of_bytes_eq, Bool-cases, arith,
}
use kv.Prelude.ByteMap
use kv.Prelude.ByteMap.{ByteMap, get-insert, get-remove}
use kv.Prelude.ByteMap.Order.{insert-IsSorted, remove-IsSorted}
use kv.Prelude.ByteMap.Sum.{sum-insert, sum-remove}
use kv.Engine.Cache.{MemCache, CacheEntry, get, is_expired}
use kv.Engine.Cache.Valid.{Holds, IsValid, Content, content}
use kv.Engine.Cache.Remove.{remove, remove-IsValid, get-remove_lem}

-- A valid cache, in which every key has no entry, or its content: `new` at `key`, and else what it
-- had.
abbrev pub Changed : MemCache → Bytes → Option Content → MemCache → Type 0
Changed c key new c' =
    IsValid c'
    × ((k : Bytes)
        → (content c'.entries k ≡ none)
          ⊎ (content c'.entries k ≡ (if bytes_eq k key then new else content c.entries k)))

module _ (c : MemCache) (h : IsValid c) (key : Bytes) where
  pub remove-Changed : Changed c key none (remove c key)
  remove-Changed = (remove-IsValid c h key, λ k. inr (ground (arith, get-remove_lem c k key)))

  -- A lookup finds what the cache holds.
  abbrev pub Looked : ℕ → MemCache × Option Content → Type 0
  Looked now (c', none) = Changed c key (content c.entries key) c' × (content c'.entries key ≡ none)
  Looked now (c', some found) =
      Changed c key (content c.entries key) c'
      × (content c.entries key ≡ some found)
      × (is_some_and found.1 (λ ms. leb ms now) ≡ false)

  is_expired_lem :
      (now : ℕ) (o : Option ℕ)
      → (elim o as (λ _. Bool) [ none ↦ false | some ms ↦ leb ms now ])
        ≡ is_some_and o (λ ms. leb ms now)
  is_expired_lem now none = refl
  is_expired_lem now (some ms) = refl

  expired-IsValid :
      (e : CacheEntry)
      → ByteMap.get key c.entries ≡ some e
      → Holds (ByteMap.remove key c.entries) (c.current_bytes - e.size) c.small c.main
  expired-IsValid e found = record {
    sorted = remove-IsSorted key c.entries h.sorted;
    counted =
        ground
          (arith, found, h.counted, sum-remove (λ (x : CacheEntry). x.size) key c.entries h.sorted);
    covered = λ k x. ground (arith, h.covered k, get-remove k key c.entries);
  }

  hit-IsValid :
      (e : CacheEntry)
      → ByteMap.get key c.entries ≡ some e
      → Holds (ByteMap.insert key (record e { freq = 1 }) c.entries) c.current_bytes c.small c.main
  hit-IsValid e found = record {
    sorted = insert-IsSorted key (record e { freq = 1 }) c.entries h.sorted;
    counted = ground (
      arith,
      found,
      h.counted,
      sum-insert (λ (x : CacheEntry). x.size) key (record e { freq = 1 }) c.entries h.sorted,
    );
    covered = λ k x. ground (
      arith,
      h.covered k,
      get-insert k key (record e { freq = 1 }) c.entries,
      bytes_eq_iff k key,
      found,
    );
  }

  content_same :
      (k : Bytes)
      → content c.entries k
        ≡ (if bytes_eq k key then content c.entries key else content c.entries k)
  content_same k = elim (Bool-cases (bytes_eq k key)) [
    | inl same ↦ rw same (ap (content c.entries) (eq_of_bytes_eq k key same))
    | inr other ↦ rw other refl
  ]

  expired-content :
      (k : Bytes)
      → (content (ByteMap.remove key c.entries) k ≡ none)
        ⊎ (content (ByteMap.remove key c.entries) k
            ≡ (if bytes_eq k key then content c.entries key else content c.entries k))
  expired-content k = elim (Bool-cases (bytes_eq k key)) [
    | inl same ↦ inl (ground (arith, get-remove k key c.entries, same))
    | inr other ↦ inr (ground (arith, get-remove k key c.entries, other))
  ]

  hit-content :
      (e : CacheEntry)
      → ByteMap.get key c.entries ≡ some e
      → (k : Bytes)
      → content (ByteMap.insert key (record e { freq = 1 }) c.entries) k
        ≡ (if bytes_eq k key then content c.entries key else content c.entries k)
  hit-content e found k = ground (arith, get-insert k key (record e { freq = 1 }) c.entries, found)

  pub get-Looked : (now : ℕ) → Looked now (get c key now)
  unfolding get
  get-Looked now =
      Option_elim (Looked now) (ByteMap.get key c.entries) _ _
        (λ absent. ((h, λ k. inr (content_same k)), ground (arith, absent)))
        λ e found.
          if_elim (Looked now) (is_expired e now) _ _
            (λ _. (
              (expired-IsValid e found, expired-content),
              ground (arith, get-remove key key c.entries, bytes_eq_refl key),
            ))
            (λ fresh. (
              (hit-IsValid e found, λ k. inr (hit-content e found k)),
              ground (arith, found),
              sym (is_expired_lem now e.expires_at_ms) ∙ fresh,
            ))
