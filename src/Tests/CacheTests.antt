-- ===== src/Tests/CacheTests.antt =====
-- The cache: crates/engine/src/cache.rs.
use kv.Prelude.{◌≡◌, refl, true, [], ◌∷◌, none, some, arith, Bytes, if◌then◌else◌, bytes_eq}
use kv.Prelude.ByteMap
use kv.Prelude.ByteMap.Sum.{sum_of}
use kv.Engine.Cache
use kv.Engine.Cache.{MemCache, CacheEntry}
use kv.Engine.Cache.Valid.{IsValid, in_slots}
use kv.Engine.Cache.Insert.{Inserted, insert-Inserted}
use kv.Engine.Cache.Remove.{
  remove, remove-IsValid, remove_by_prefix, remove_by_prefix-IsValid, sweep_expired,
  sweep_expired-IsValid, get-remove_lem,
}
use kv.Tests.{key, value}

-- A cache with one entry of three bytes, which expires at 9, and room for four bytes.
abbrev cache1 : MemCache
cache1 = record (Cache.new 4) {
  entries = (key, Cache.entry_of key value (some 9) none 0 1) ∷ [];
  small = key ∷ [];
  current_bytes = 3;
}

only_key : (k : Bytes) → ByteMap.contains_key k cache1.entries ≡ true → bytes_eq k key ≡ true
unfolding ByteMap.get
only_key k h = ground (arith, h)

cache1-IsValid : IsValid cache1
unfolding sum_of in_slots
cache1-IsValid = record {
  sorted = (tt, tt);
  counted = refl;
  covered = λ k h. ground (arith, only_key k h);
}

insert-Inserted_example :
    Inserted cache1
      (97 ∷ [])
      (98 ∷ 99 ∷ [], none, none, 2)
      (Cache.insert cache1 (97 ∷ []) (98 ∷ 99 ∷ []) none none 0 2)
insert-Inserted_example =
    insert-Inserted cache1 cache1-IsValid (97 ∷ []) (98 ∷ 99 ∷ []) none none 0 2

remove-IsValid_example : IsValid (remove cache1 key)
remove-IsValid_example = remove-IsValid cache1 cache1-IsValid key

remove_by_prefix-IsValid_example : IsValid (remove_by_prefix cache1 key)
remove_by_prefix-IsValid_example = remove_by_prefix-IsValid cache1 cache1-IsValid key

sweep_expired-IsValid_example : IsValid (sweep_expired cache1 9).0
sweep_expired-IsValid_example = sweep_expired-IsValid cache1 cache1-IsValid 9

get-remove_lem_example :
    ByteMap.get key (remove cache1 key).entries
    ≡ (if bytes_eq key key then none else ByteMap.get key cache1.entries)
get-remove_lem_example = get-remove_lem cache1 key key
