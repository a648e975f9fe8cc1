-- ===== src/Engine/Cache/Limit.antt =====
-- The loops of the eviction end, and leave at most `max_bytes`: crates/engine/src/cache.rs.
use kv.Prelude.{
  ℕ, zero, suc, ◌+◌, ◌<◌, ◌≡◌, refl, ◌∙◌, Bool, true, false, List, [], ◌∷◌, ◌++◌, Option, none,
  some, Option_elim, ltb, if_elim, length, length-append, Bytes, arith,
}
use kv.Prelude.ByteMap
use kv.Prelude.ByteMap.{ByteMap, get-insert, get-remove}
use kv.Prelude.ByteMap.Order.{length-insert, length-remove}
use kv.Prelude.ByteMap.Sum.{sum-insert}
use kv.Engine.Cache.{MemCache, CacheEntry, evict_main, hot}
use kv.Engine.Cache.Valid.{Within-refl, Within-trans, Within-remove, Within-cool}
use kv.Engine.Cache.Valid.{
  Holds, skip-Holds, drop-Holds, swap-Holds, merge-Holds, nothing-Holds, promote-Holds,
}
use kv.Engine.Cache.{heat}
use kv.Engine.Cache.Evict.{Evicted}

-- The loop returned, and it evicted an entry unless there is none.
abbrev pub Returned : MemCache → Option (MemCache × Bool) → Type 0
Returned c none = ⊥
Returned c (some (c', evicted)) = Evicted c c' evicted × (evicted ≡ false → c'.entries ≡ [])

module _ (key : Bytes) (slots : List Bytes) (c : MemCache) (e : CacheEntry)
    (found : ByteMap.get key c.entries ≡ some e)
    (h : Holds c.entries c.current_bytes (key ∷ slots) []) where
  abbrev cooled : MemCache
  cooled = record c { entries = ByteMap.insert key (record e { freq = 0 }) c.entries }

  cooler : ltb 0 e.freq ≡ true → suc (hot cooled.entries) ≡ hot c.entries
  cooler warm =
      ground (arith, warm, found, sum-insert heat key (record e { freq = 0 }) c.entries h.sorted)

  again-Returned : (o : Option (MemCache × Bool)) → Returned cooled o → Returned c o
  again-Returned none r = r
  again-Returned (some (c', b)) (w, empty) = (
    record {
      valid = w.valid;
      fewer =
          w.fewer
          ∙ ground (arith, found, length-insert key (record e { freq = 0 }) c.entries h.sorted);
      same_max = w.same_max;
      within = Within-trans _ _ c.entries w.within (Within-cool key c.entries e found);
    },
    empty,
  )

pub evict_main-Returned :
    (fuel : ℕ) (c : MemCache) (slots : List Bytes)
    → c.small ≡ []
    → Holds c.entries c.current_bytes slots []
    → hot c.entries + length slots < fuel
    → Returned c (evict_main fuel c slots)
unfolding evict_main
evict_main-Returned zero c slots s h f = elim f [ ]
evict_main-Returned (suc fuel) c [] s h f = (
  record { valid = rw s h; fewer = refl; same_max = refl; within = Within-refl c.entries },
  λ _. nothing-Holds c.entries c.current_bytes h,
)
evict_main-Returned (suc fuel) c (key ∷ slots) s h f =
    Option_elim (Returned c) (ByteMap.get key c.entries) _ _
      (λ absent.
        evict_main-Returned fuel c slots s
          (skip-Holds c.entries c.current_bytes key slots [] h absent) (omega arith))
      λ e found.
        if_elim (Returned c) (ltb 0 e.freq) _ _
          (λ warm. again-Returned key slots c e found h _ (
            evict_main-Returned fuel (cooled key slots c e found h) (slots ++ key ∷ []) s
              (merge-Holds (cooled key slots c e found h).entries c.current_bytes slots (key ∷ [])
                (promote-Holds c.entries c.current_bytes key slots [] h e found))
              (omega (arith, cooler key slots c e found h warm, length-append slots (key ∷ [])))))
          (λ _. (
            record {
              valid = rw s (
                  swap-Holds _ _ slots []
                    (drop-Holds c.entries c.current_bytes key slots [] h e found));
              fewer = ground (arith, found, length-remove key c.entries h.sorted);
              same_max = refl;
              within = Within-remove key c.entries;
            },
            λ bad. cc,
          ))
