-- ===== src/Engine/Cache/Remove.antt =====
-- remove, remove_by_prefix and sweep_expired of crates/engine/src/cache.rs.
use kv.Prelude.{
  ℕ, suc, ◌+◌, ◌-◌, ◌/◌, ◌≡◌, refl, Bool, true, List, [], ◌∷◌, Option, none, some, Option_elim, ltb,
  ◌==◌, if◌then◌else◌, if_elim, length, Bytes, bytes_eq, bytes_eq_iff, eq_of_bytes_eq, ap, sym,
  subst, ◌∙◌, inl, inr, Bool-cases, starts_with, arith,
}
use kv.Prelude.ByteMap
use kv.Prelude.ByteMap.{ByteMap, get-insert, get-remove}
use kv.Prelude.ByteMap.Order.{Below, IsSorted, remove-IsSorted, get-Below}
use kv.Prelude.ByteMap.Sum.{sum_of, sum-remove}
use kv.Engine.Cache.{MemCache, CacheEntry, is_expired}
use kv.Engine.Cache.Valid.{Holds, IsValid, in_slots, bytes_of}

-- `retain` on a queue: the slots whose key has an entry.
unfoldable pub retain_slots : ByteMap CacheEntry → List Bytes → List Bytes
retain_slots entries [] = []
retain_slots entries (k ∷ slots) =
    let rest = retain_slots entries slots in
    if ByteMap.contains_key k entries then k ∷ rest else rest

unfoldable pub compact_queues : MemCache → MemCache
unfolding retain_slots
compact_queues c = record c {
  small = retain_slots c.entries c.small;
  main = retain_slots c.entries c.main;
  stale_slots = 0;
}

-- The count of stale slots, and a compaction when they are more than half of the slots.
unfoldable pub count_stale : MemCache → ℕ → MemCache
unfolding compact_queues
count_stale c n =
    let c1 : MemCache = record c { stale_slots = c.stale_slots + n } in
    if ltb ((length c.small + length c.main) / 2) c1.stale_slots then compact_queues c1 else c1

unfoldable pub remove : MemCache → Bytes → MemCache
unfolding count_stale
remove c key = elim (ByteMap.get key c.entries) [
  | none ↦ c
  | some e ↦
      count_stale
        (record c {
          entries = ByteMap.remove key c.entries;
          current_bytes = c.current_bytes - e.size;
        })
        1
]

-- What a pass over the entries leaves, the bytes that it frees and the number of entries.
unfoldable pub sift : (Bytes → CacheEntry → Bool) → ByteMap CacheEntry → ByteMap CacheEntry × ℕ × ℕ
sift gone [] = ([], 0, 0)
sift gone ((k, e) ∷ m) =
    let (rest, freed, n) = sift gone m in
    if gone k e then (rest, freed + e.size, suc n) else ((k, e) ∷ rest, freed, n)

unfoldable pub remove_by_prefix : MemCache → Bytes → MemCache
unfolding sift count_stale
remove_by_prefix c prefix =
    let (entries, freed, n) = sift (λ k e. starts_with k prefix) c.entries in
    if n == 0
    then c
    else count_stale (record c { entries = entries; current_bytes = c.current_bytes - freed }) n

-- The cache, and the number of entries that were expired.
unfoldable pub sweep_expired : MemCache → ℕ → MemCache × ℕ
unfolding sift count_stale
sweep_expired c now_ms =
    let (entries, freed, n) = sift (λ k e. is_expired e now_ms) c.entries in
    if n == 0 then (c, 0) else (
      count_stale (record c { entries = entries; current_bytes = c.current_bytes - freed }) n,
      n,
    )

retain_slots-kept :
    (entries : ByteMap CacheEntry) (k : Bytes) (slots : List Bytes)
    → ByteMap.contains_key k entries ≡ true
    → in_slots k (retain_slots entries slots) ≡ in_slots k slots
unfolding retain_slots in_slots
retain_slots-kept entries k [] h = refl
retain_slots-kept entries k (j ∷ slots) h =
    ground (arith, retain_slots-kept entries k slots h, bytes_eq_iff k j)

compact_queues-IsValid : (c : MemCache) → IsValid c → IsValid (compact_queues c)
unfolding compact_queues
compact_queues-IsValid c h = record {
  sorted = h.sorted;
  counted = h.counted;
  covered = λ k e. ground (
    arith,
    h.covered k e,
    retain_slots-kept c.entries k c.small e,
    retain_slots-kept c.entries k c.main e,
  );
}

count_stale-IsValid : (c : MemCache) (n : ℕ) → IsValid c → IsValid (count_stale c n)
unfolding count_stale
count_stale-IsValid c n h =
    if_elim IsValid (ltb ((length c.small + length c.main) / 2) (c.stale_slots + n)) _ _
      (λ _. compact_queues-IsValid (record c { stale_slots = c.stale_slots + n }) h) (λ _. h)

-- remove keeps a valid cache valid, whether or not it holds the key.
pub remove-IsValid : (c : MemCache) → IsValid c → (key : Bytes) → IsValid (remove c key)
unfolding remove
remove-IsValid c h key =
    Option_elim IsValid (ByteMap.get key c.entries) _ _ (λ _. h)
      λ e found. count_stale-IsValid _ 1 (record {
        sorted = remove-IsSorted key c.entries h.sorted;
        counted = ground (
          arith,
          found,
          h.counted,
          sum-remove (λ (x : CacheEntry). x.size) key c.entries h.sorted,
        );
        covered = λ k x. ground (arith, h.covered k, get-remove k key c.entries);
      })

count_stale-entries : (c : MemCache) (n : ℕ) → (count_stale c n).entries ≡ c.entries
unfolding count_stale compact_queues
count_stale-entries c n =
    if_elim (λ (d : MemCache). d.entries ≡ c.entries)
      (ltb ((length c.small + length c.main) / 2) (c.stale_slots + n)) _ _ (λ _. refl) (λ _. refl)

module _ (gone : Bytes → CacheEntry → Bool) where
  sift-Below : (k : Bytes) (m : ByteMap CacheEntry) → Below k m → Below k (sift gone m).0
  unfolding sift
  sift-Below k [] b = tt
  sift-Below k ((j, e) ∷ m) b =
      if_elim (λ (r : ByteMap CacheEntry × ℕ × ℕ). Below k r.0) (gone j e) _ _
        (λ _. sift-Below k m b.1) (λ _. (b.0, sift-Below k m b.1))

  sift-IsSorted : (m : ByteMap CacheEntry) → IsSorted m → IsSorted (sift gone m).0
  unfolding sift
  sift-IsSorted [] s = tt
  sift-IsSorted ((j, e) ∷ m) s =
      if_elim (λ (r : ByteMap CacheEntry × ℕ × ℕ). IsSorted r.0) (gone j e) _ _
        (λ _. sift-IsSorted m s.1) (λ _. (sift-Below j m s.0, sift-IsSorted m s.1))

  -- The bytes that a pass frees are those that leave the map.
  sum-sift : (m : ByteMap CacheEntry) → bytes_of (sift gone m).0 + (sift gone m).1 ≡ bytes_of m
  unfolding sift sum_of
  sum-sift [] = refl
  sum-sift ((j, e) ∷ m) =
      if_elim (λ (r : ByteMap CacheEntry × ℕ × ℕ). bytes_of r.0 + r.1 ≡ e.size + bytes_of m)
        (gone j e) _ _ (λ _. omega (arith, sum-sift m)) (λ _. omega (arith, sum-sift m))

  -- The entries that stay are those of the map that are not gone.
  get-sift :
      (k : Bytes) (m : ByteMap CacheEntry)
      → IsSorted m
      → ByteMap.get k (sift gone m).0 ≡ (elim (ByteMap.get k m) as (λ _. Option CacheEntry) [
        | none ↦ none
        | some e ↦ if gone k e then none else some e
      ])
  unfolding sift ByteMap.get
  get-sift k [] s = refl
  get-sift k ((j, e) ∷ m) s = elim (Bool-cases (bytes_eq k j)) [
    | inl same ↦ ground (
      arith,
      same,
      eq_of_bytes_eq k j same,
      get-sift k m s.1,
      get-Below k m (subst (λ x. Below x m) (sym (eq_of_bytes_eq k j same)) s.0),
      ap (λ (b : Bytes). gone b e) (eq_of_bytes_eq k j same),
    )
    | inr other ↦ ground (arith, other, get-sift k m s.1)
  ]

  sift-IsValid :
      (c : MemCache)
      → IsValid c
      → let (entries, freed, n) = sift gone c.entries in
        Holds entries (c.current_bytes - freed) c.small c.main
  sift-IsValid c h = record {
    sorted = sift-IsSorted c.entries h.sorted;
    counted = omega (arith, h.counted, sum-sift c.entries);
    covered = λ k x. h.covered k (still k x);
  }
    where
      still :
          (k : Bytes)
          → ByteMap.contains_key k (sift gone c.entries).0 ≡ true
          → ByteMap.contains_key k c.entries ≡ true
      still k x = ground (arith, get-sift k c.entries h.sorted, x)

-- remove takes the entry of its key out of the cache and leaves every other entry as it was, also
-- when it compacts the queues.
pub get-remove_lem :
    (c : MemCache) (k key : Bytes)
    → ByteMap.get k (remove c key).entries
      ≡ (if bytes_eq k key then none else ByteMap.get k c.entries)
unfolding remove
get-remove_lem c k key =
    Option_elim
      (λ (d : MemCache).
        ByteMap.get k d.entries ≡ (if bytes_eq k key then none else ByteMap.get k c.entries))
      (ByteMap.get key c.entries) _ _ (λ absent. ground (arith, absent, bytes_eq_iff k key))
      (λ e found. ap (ByteMap.get k) (count_stale-entries _ 1) ∙ get-remove k key c.entries)

-- remove_by_prefix keeps a valid cache valid: the bytes that it takes off the counter are those of
-- the entries that leave.
pub remove_by_prefix-IsValid :
    (c : MemCache) → IsValid c → (prefix : Bytes) → IsValid (remove_by_prefix c prefix)
unfolding remove_by_prefix
remove_by_prefix-IsValid c h prefix =
    let (entries, freed, n) = sift (λ k e. starts_with k prefix) c.entries in
    if_elim IsValid (n == 0) c
      (count_stale (record c { entries = entries; current_bytes = c.current_bytes - freed }) n)
      (λ _. h) (λ _. count_stale-IsValid _ n (sift-IsValid (λ k e. starts_with k prefix) c h))

-- sweep_expired keeps a valid cache valid.
pub sweep_expired-IsValid :
    (c : MemCache) → IsValid c → (now_ms : ℕ) → IsValid (sweep_expired c now_ms).0
unfolding sweep_expired
sweep_expired-IsValid c h now_ms =
    let (entries, freed, n) = sift (λ k e. is_expired e now_ms) c.entries in
    if_elim (λ (r : MemCache × ℕ). IsValid r.0) (n == 0) (c, 0)
      (count_stale (record c { entries = entries; current_bytes = c.current_bytes - freed }) n, n)
      (λ _. h) (λ _. count_stale-IsValid _ n (sift-IsValid (λ k e. is_expired e now_ms) c h))

-- A pass that finds nothing leaves the entries.
sift-none :
    (gone : Bytes → CacheEntry → Bool) (m : ByteMap CacheEntry)
    → (let (entries, freed, n) = sift gone m in n) ≡ 0
    → (sift gone m).0 ≡ m
unfolding sift
sift-none gone [] h = refl
sift-none gone ((k, e) ∷ m) h = ground (arith, sift-none gone m)

-- What remove_by_prefix leaves of a key.
pub get-remove_by_prefix :
    (c : MemCache) (k prefix : Bytes)
    → IsSorted c.entries
    → ByteMap.get k (remove_by_prefix c prefix).entries
      ≡ (if starts_with k prefix then none else ByteMap.get k c.entries)
unfolding remove_by_prefix
get-remove_by_prefix c k prefix s =
    let gone = λ (k : Bytes) (e : CacheEntry). starts_with k prefix in
    let (entries, freed, n) = sift gone c.entries in
    let left : ByteMap.get k entries
        ≡ (if starts_with k prefix then none else ByteMap.get k c.entries) =
      ground (arith, get-sift gone k c.entries s) in
    if_elim
      (λ (c' : MemCache).
        ByteMap.get k c'.entries ≡ (if starts_with k prefix then none else ByteMap.get k c.entries))
      (n == 0) c
      (count_stale (record c { entries = entries; current_bytes = c.current_bytes - freed }) n)
      (λ same. ap (ByteMap.get k) (sym (sift-none gone c.entries (ground (arith, same)))) ∙ left)
      (λ _. ap (ByteMap.get k) (count_stale-entries _ n) ∙ left)
