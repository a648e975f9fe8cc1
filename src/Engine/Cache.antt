-- ===== src/Engine/Cache.antt =====
-- crates/engine/src/cache.rs: the S3-FIFO cache. Its sizes are sums of lengths in memory, which a
-- usize holds; `saturating_sub` is the subtraction of ℕ.
pub mod Evict
pub mod Limit
pub mod Insert
pub mod Valid
pub mod Remove
pub mod Changed
use kv.Prelude.{
  ℕ, zero, suc, ◌+◌, ◌-◌, ◌/◌, Bool, true, false, not, List, [], ◌∷◌, ◌++◌, Option, none, some, ltb,
  leb, is_some, if◌then◌else◌, length, Bytes, starts_with,
}
use Prim.Native.Nat.{max}
use kv.Prelude.ByteMap
use kv.Prelude.ByteMap.{ByteMap}
use kv.Prelude.ByteMap.Sum.{sum_of}

pub record CacheEntry : Type 0 where
  pub value : Bytes
  pub expires_at_ms : Option ℕ
  pub metadata : Option Bytes
  pub freq : ℕ
  pub size : ℕ
  pub revision : ℕ

-- `small` and `main` hold the keys of the slots; `ghost` is a set.
pub record MemCache : Type 0 where
  pub entries : ByteMap CacheEntry
  pub small : List Bytes
  pub main : List Bytes
  pub ghost : ByteMap (Unit {0})
  pub ghost_queue : List Bytes
  pub ghost_max : ℕ
  pub current_bytes : ℕ
  pub max_bytes : ℕ
  pub stale_slots : ℕ

abbrev pub new : ℕ → MemCache
new max_bytes = record {
  entries = [];
  small = [];
  main = [];
  ghost = [];
  ghost_queue = [];
  ghost_max = max (max_bytes / 640) 64;
  current_bytes = 0;
  max_bytes = max_bytes;
  stale_slots = 0;
}

abbrev pub is_expired : CacheEntry → ℕ → Bool
is_expired e now_ms = elim e.expires_at_ms [ none ↦ false | some ms ↦ leb ms now_ms ]

-- The cache after the lookup, and the value, expiry, metadata and revision.
unfoldable pub get : MemCache → Bytes → ℕ → MemCache × Option (Bytes × Option ℕ × Option Bytes × ℕ)
get c key now_ms = elim (ByteMap.get key c.entries) [
  | none ↦ (c, none)
  | some e ↦
      if is_expired e now_ms
      then (
        record c {
          entries = ByteMap.remove key c.entries;
          current_bytes = c.current_bytes - e.size;
        },
        none,
      )
      else (
        record c { entries = ByteMap.insert key (record e { freq = 1 }) c.entries },
        some (e.value, e.expires_at_ms, e.metadata, e.revision),
      )
]

-- The loop of `ghost_insert` that makes room.
unfoldable pub drain_ghost : ℕ → ByteMap (Unit {0}) → List Bytes → ByteMap (Unit {0}) × List Bytes
drain_ghost ghost_max ghost [] = (ghost, [])
drain_ghost ghost_max ghost (old ∷ queue) =
    let rest = drain_ghost ghost_max (ByteMap.remove old ghost) queue in
    if leb ghost_max (length ghost) then rest else (ghost, old ∷ queue)

unfoldable pub ghost_insert : MemCache → Bytes → MemCache
unfolding drain_ghost
ghost_insert c key =
    let (ghost, queue) = drain_ghost c.ghost_max c.ghost c.ghost_queue in
    if ByteMap.contains_key key ghost
    then record c { ghost = ghost; ghost_queue = queue }
    else record c { ghost = ByteMap.insert key tt ghost; ghost_queue = queue ++ key ∷ [] }

unfoldable pub ghost_remove : MemCache → Bytes → MemCache
ghost_remove c key = record c { ghost = ByteMap.remove key c.ghost }

-- A slot that leads to its entry: the entry goes.
abbrev pub drop_entry : MemCache → Bytes → CacheEntry → MemCache
drop_entry c key e = record c {
  entries = ByteMap.remove key c.entries;
  current_bytes = c.current_bytes - e.size;
}

-- `entry.freq.set(0)`, and the slot at the back of Main
abbrev pub to_main : MemCache → Bytes → CacheEntry → MemCache
to_main c key e = record c {
  entries = ByteMap.insert key (record e { freq = 0 }) c.entries;
  main = c.main ++ key ∷ [];
}

-- Phase 1 of `evict_one`: the slots of Small from the front, until one is evicted.
unfoldable pub evict_small : List Bytes → MemCache → MemCache × Bool
unfolding ghost_insert
evict_small [] c = (record c { small = [] }, false)
evict_small (key ∷ slots) c = elim (ByteMap.get key c.entries) [
  | none ↦ evict_small slots c
  | some e ↦
      let promoted = evict_small slots (to_main c key e) in
      if ltb 0 e.freq
      then promoted
      else (record (ghost_insert (drop_entry c key e) key) { small = slots }, true)
]

-- Phase 2: the slots of Main; an entry that was accessed goes to the back once more. `none` stands
-- for a loop that is out of fuel.
unfoldable pub evict_main : ℕ → MemCache → List Bytes → Option (MemCache × Bool)
evict_main zero c slots = none
evict_main (suc fuel) c [] = some (record c { main = [] }, false)
evict_main (suc fuel) c (key ∷ slots) = elim (ByteMap.get key c.entries) [
  | none ↦ evict_main fuel c slots
  | some e ↦
      let again =
        evict_main fuel
          (record c { entries = ByteMap.insert key (record e { freq = 0 }) c.entries })
          (slots ++ key ∷ []) in
      if ltb 0 e.freq then again else some (record (drop_entry c key e) { main = slots }, true)
]

-- The entries that were accessed: each can go to the back of Main once.
abbrev pub heat : CacheEntry → ℕ
heat e = if ltb 0 e.freq then 1 else 0

abbrev pub hot : ByteMap CacheEntry → ℕ
hot m = sum_of heat m

abbrev pub main_fuel : MemCache → ℕ
main_fuel c = suc (hot c.entries + length c.main)

unfoldable pub evict_one : MemCache → Option (MemCache × Bool)
unfolding evict_small evict_main
evict_one c =
    let (c1, evicted) = evict_small c.small c in
    if evicted then some (c1, true) else evict_main (main_fuel c1) c1 c1.main

-- `none` if the loop is out of fuel.
unfoldable pub evict_loop : ℕ → MemCache → Option MemCache
unfolding evict_one
evict_loop zero c = if ltb c.max_bytes c.current_bytes then none else some c
evict_loop (suc fuel) c =
    if ltb c.max_bytes c.current_bytes
    then elim (evict_one c) [
      | none ↦ none
      | some (c1, false) ↦ some c1
      | some (c1, true) ↦ evict_loop fuel c1
    ]
    else some c

-- One turn for each entry.
unfoldable pub evict_to_limit : MemCache → Option MemCache
unfolding evict_loop
evict_to_limit c = evict_loop (length c.entries) c

abbrev pub entry_size : Bytes → Bytes → ℕ → ℕ
entry_size key value meta_size = max (length key + length value + meta_size) 1

-- The update of an entry that is present, which counts as an access.
abbrev pub updated : MemCache → Bytes → CacheEntry → CacheEntry → MemCache
updated c key old e = record c {
  entries = ByteMap.insert key (record e { freq = 1 }) c.entries;
  current_bytes = c.current_bytes - old.size + e.size;
}

abbrev pub entry_of : Bytes → Bytes → Option ℕ → Option Bytes → ℕ → ℕ → CacheEntry
entry_of key value expires_at_ms metadata meta_size revision = record {
  value = value;
  expires_at_ms = expires_at_ms;
  metadata = metadata;
  freq = 0;
  size = entry_size key value meta_size;
  revision = revision;
}

unfoldable pub try_update :
    MemCache → Bytes → Bytes → Option ℕ → Option Bytes → ℕ → ℕ → Option (MemCache × Bool)
unfolding evict_to_limit
try_update c key value expires_at_ms metadata meta_size revision =
    elim (ByteMap.get key c.entries) [
      | none ↦ some (c, false)
      | some old ↦
          elim (evict_to_limit
            (updated c key old (entry_of key value expires_at_ms metadata meta_size revision))) [
              | none ↦ none
              | some c1 ↦ some (c1, true)
            ]
    ]

-- A new entry: its slot goes to Main if the ghost set holds the key, and to Small if not.
unfoldable pub added : MemCache → Bytes → CacheEntry → MemCache
unfolding ghost_remove
added c key e =
    let c1 : MemCache = record c {
      entries = ByteMap.insert key e c.entries;
      current_bytes = c.current_bytes + e.size;
    } in
    if ByteMap.contains_key key c.ghost
    then record (ghost_remove c1 key) { main = c1.main ++ key ∷ [] }
    else record c1 { small = c1.small ++ key ∷ [] }

unfoldable pub insert : MemCache → Bytes → Bytes → Option ℕ → Option Bytes → ℕ → ℕ → Option MemCache
unfolding evict_to_limit added
insert c key value expires_at_ms metadata meta_size revision =
    let e = entry_of key value expires_at_ms metadata meta_size revision in
    elim (ByteMap.get key c.entries) [
      | some old ↦ evict_to_limit (updated c key old e)
      | none ↦ evict_to_limit (added c key e)
    ]
