-- ===== src/Engine/Cache/Evict.antt =====
-- Eviction: crates/engine/src/cache.rs, evict_one and evict_to_limit.
use kv.Prelude.{
  ℕ, suc, ◌≡◌, refl, ◌∙◌, Bool, true, false, List, [], ◌∷◌, some, Option_elim, ltb, if◌then◌else◌,
  if_elim, length, Bytes, arith,
}
use kv.Prelude.ByteMap
use kv.Prelude.ByteMap.{ByteMap, get-insert, get-remove}
use kv.Prelude.ByteMap.Order.{IsSorted, length-insert, length-remove}
use kv.Engine.Cache.{
  MemCache, CacheEntry, drop_entry, to_main, ghost_insert, drain_ghost, evict_small,
}
use kv.Engine.Cache.Valid.{Within, Within-refl, Within-trans, Within-remove, Within-cool}
use kv.Engine.Cache.Valid.{Holds, IsValid, skip-Holds, drop-Holds, promote-Holds}

-- One eviction, or none: what it leaves of the cache `c`.
pub record Evicted (c c' : MemCache) (evicted : Bool) : Type 0 where
  pub valid : IsValid c'
  pub fewer : (if evicted then suc (length c'.entries) else length c'.entries) ≡ length c.entries
  pub same_max : c'.max_bytes ≡ c.max_bytes
  pub within : Within c'.entries c.entries

ghost_insert-keeps :
    (c : MemCache) (key : Bytes) (P : ByteMap CacheEntry → ℕ → List Bytes → ℕ → Type 0)
    → P c.entries c.current_bytes c.main c.max_bytes
    → let g = ghost_insert c key in P g.entries g.current_bytes g.main g.max_bytes
unfolding ghost_insert
ghost_insert-keeps c key P p =
    let (ghost, queue) = drain_ghost c.ghost_max c.ghost c.ghost_queue in
    if_elim (λ (g : MemCache). P g.entries g.current_bytes g.main g.max_bytes)
      (ByteMap.contains_key key ghost) _ _ (λ _. p) (λ _. p)

abbrev pub Phase1 : MemCache → MemCache × Bool → Type 0
Phase1 c (c', evicted) = Evicted c c' evicted × (evicted ≡ false → c'.small ≡ [])

promoted :
    (key : Bytes) (c : MemCache) (e : CacheEntry) (r : MemCache × Bool)
    → IsSorted c.entries
    → ByteMap.get key c.entries ≡ some e
    → Phase1 (to_main c key e) r
    → Phase1 c r
promoted key c e r s found (w, stuck) = (
  record {
    valid = w.valid;
    fewer = w.fewer ∙ ground (arith, found, length-insert key (record e { freq = 0 }) c.entries s);
    same_max = w.same_max;
    within = Within-trans _ _ c.entries w.within (Within-cool key c.entries e found);
  },
  stuck,
)

cold :
    (key : Bytes) (slots : List Bytes) (c : MemCache) (e : CacheEntry)
    → Holds c.entries c.current_bytes (key ∷ slots) c.main
    → ByteMap.get key c.entries ≡ some e
    → Phase1 c (record (ghost_insert (drop_entry c key e) key) { small = slots }, true)
cold key slots c e h found =
    let (holds, fewer, same, within) =
      ghost_insert-keeps (drop_entry c key e) key
        (λ m b main max.
          Holds m b slots main
          × (suc (length m) ≡ length c.entries)
          × (max ≡ c.max_bytes)
          × Within m c.entries)
        (
          drop-Holds c.entries c.current_bytes key slots c.main h e found,
          ground (arith, found, length-remove key c.entries h.sorted),
          refl,
          Within-remove key c.entries,
        ) in
    (record { valid = holds; fewer = fewer; same_max = same; within = within }, λ bad. cc)

pub evict_small-Evicted :
    (slots : List Bytes) (c : MemCache)
    → Holds c.entries c.current_bytes slots c.main
    → Phase1 c (evict_small slots c)
unfolding evict_small
evict_small-Evicted [] c h =
    (record { valid = h; fewer = refl; same_max = refl; within = Within-refl c.entries }, λ _. refl)
evict_small-Evicted (key ∷ slots) c h =
    Option_elim (Phase1 c) (ByteMap.get key c.entries) _ _
      (λ absent.
        evict_small-Evicted slots c
          (skip-Holds c.entries c.current_bytes key slots c.main h absent))
      λ e found.
        if_elim (Phase1 c) (ltb 0 e.freq) _ _
          (λ _. promoted key c e _ h.sorted found (
            evict_small-Evicted slots (to_main c key e)
              (promote-Holds c.entries c.current_bytes key slots c.main h e found)))
          (λ _. cold key slots c e h found)
