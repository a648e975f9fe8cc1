-- ===== src/Engine/Cache/Insert.antt =====
-- What insert and try_update of crates/engine/src/cache.rs leave.
use kv.Prelude.{
  ℕ, zero, suc, ◌≤◌, ◌≡◌, refl, ap, ◌∙◌, subst, Bool, true, false, [], ◌∷◌, Option, none, some,
  Option_elim, ltb, if_elim, length, Bytes, bytes_eq_iff, arith, tests,
}
use kv.Prelude.ByteMap
use kv.Prelude.ByteMap.{ByteMap, get-insert, get-remove}
use kv.Prelude.ByteMap.Order.{insert-IsSorted}
use kv.Prelude.ByteMap.Sum.{sum_of, share, sum-insert, sum-remove}
use kv.Engine.Cache.{
  MemCache, CacheEntry, evict_small, evict_main, evict_one, evict_loop, evict_to_limit, main_fuel,
}
use kv.Prelude.{◌⊎◌, inl, inr, if◌then◌else◌, bytes_eq}
use kv.Engine.Cache.Valid.{Within, Within-refl, Within-trans, Content, content_of, content}
use kv.Engine.Cache.Valid.{IsValid, in_slots, in_slots-append, swap-Holds, bytes_of}
use kv.Engine.Cache.Evict.{Evicted, evict_small-Evicted}
use kv.Engine.Cache.{try_update, updated, entry_of, added, insert, ghost_remove}
use kv.Engine.Cache.Limit.{Returned, evict_main-Returned}

through :
    (c c1 : MemCache)
    → Evicted c c1 false
    → (o : Option (MemCache × Bool)) → Returned c1 o
    → Returned c o
through c c1 w none r = r
through c c1 w (some (c2, b)) (r, empty) = (
  record {
    valid = r.valid;
    fewer = r.fewer ∙ w.fewer;
    same_max = r.same_max ∙ w.same_max;
    within = Within-trans _ _ c.entries r.within w.within;
  },
  empty,
)

-- Both phases: the loops end, and an entry goes if there is one.
evict_one-Returned : (c : MemCache) → IsValid c → Returned c (evict_one c)
unfolding evict_one
evict_one-Returned c h =
    let (c1, evicted) = evict_small c.small c in
    let (w, stuck) = evict_small-Evicted c.small c h in
    if_elim (Returned c) evicted (some (c1, true)) (evict_main (main_fuel c1) c1 c1.main)
      (λ t. (subst (Evicted c c1) t w, λ bad. cc))
      (λ f. through c c1 (subst (Evicted c c1) f w) _ (
        evict_main-Returned (main_fuel c1) c1 c1.main (stuck f)
          (swap-Holds c1.entries c1.current_bytes [] c1.main (rw⁻¹ (stuck f) w.valid))
          (omega arith)))

-- The cache is valid, it holds at most `max_bytes`, and nothing has another content than before.
abbrev pub Bounded : MemCache → Option MemCache → Type 0
Bounded c none = ⊥
Bounded c (some c') =
    IsValid c'
    × (c'.current_bytes ≤ c'.max_bytes)
    × (c'.max_bytes ≡ c.max_bytes)
    × Within c'.entries c.entries

no_bytes : (c : MemCache) → IsValid c → c.entries ≡ [] → c.current_bytes ≡ 0
unfolding sum_of
no_bytes c h e = h.counted ∙ ap bytes_of e

no_entries : (m : ByteMap CacheEntry) → length m ≤ 0 → m ≡ []
no_entries [] h = refl
no_entries (e ∷ m) h = ground arith

go_on :
    (c c' : MemCache) (o : Option MemCache)
    → c'.max_bytes ≡ c.max_bytes
    → Within c'.entries c.entries
    → Bounded c' o
    → Bounded c o
go_on c c' none e i b = b
go_on c c' (some d) e i (v, small, same, within) =
    (v, small, same ∙ e, Within-trans d.entries c'.entries c.entries within i)

-- The turn of the loop after one eviction.
turn :
    (c : MemCache) (rest : MemCache → Option MemCache) (o : Option (MemCache × Bool))
    → Returned c o
    → ((c1 : MemCache)
        → IsValid c1
        → suc (length c1.entries) ≡ length c.entries
        → Bounded c1 (rest c1))
    → Bounded c (elim o as (λ _. Option MemCache) [
      | none ↦ none
      | some (c1, false) ↦ some c1
      | some (c1, true) ↦ rest c1
    ])
turn c rest none r k = r
turn c rest (some (c1, false)) (w, empty) k =
    (w.valid, omega (arith, no_bytes c1 w.valid (empty refl)), w.same_max, w.within)
turn c rest (some (c1, true)) (w, empty) k =
    go_on c c1 (rest c1) w.same_max w.within (k c1 w.valid w.fewer)

evict_loop-Bounded :
    (fuel : ℕ) (c : MemCache) → IsValid c → length c.entries ≤ fuel → Bounded c (evict_loop fuel c)
unfolding evict_loop
evict_loop-Bounded zero c h few =
    if_elim (Bounded c) (ltb c.max_bytes c.current_bytes) none (some c)
      (λ over. omega (tests, over, no_bytes c h (no_entries c.entries few)))
      (λ fits. (h, omega (tests, fits), refl, Within-refl c.entries))
evict_loop-Bounded (suc fuel) c h few =
    if_elim (Bounded c) (ltb c.max_bytes c.current_bytes) _ (some c)
      (λ over.
        turn c (evict_loop fuel) (evict_one c) (evict_one-Returned c h)
          λ c1 h1 e. evict_loop-Bounded fuel c1 h1 (omega (arith, e)))
      (λ fits. (h, omega (tests, fits), refl, Within-refl c.entries))

evict_to_limit-Bounded : (c : MemCache) → IsValid c → Bounded c (evict_to_limit c)
unfolding evict_to_limit
evict_to_limit-Bounded c h = evict_loop-Bounded (length c.entries) c h (omega arith)

module _ (c : MemCache) (h : IsValid c) (key : Bytes) (e : CacheEntry) where
  share_of :
      (old : CacheEntry)
      → ByteMap.get key c.entries ≡ some old
      → share (λ (x : CacheEntry). x.size) key c.entries ≡ old.size
  share_of old found = ground (arith, found)

  updated-IsValid :
      (old : CacheEntry) → ByteMap.get key c.entries ≡ some old → IsValid (updated c key old e)
  updated-IsValid old found = record {
    sorted = insert-IsSorted key (record e { freq = 1 }) c.entries h.sorted;
    counted = omega (
      arith,
      h.counted,
      share_of old found,
      sum-insert (λ (x : CacheEntry). x.size) key (record e { freq = 1 }) c.entries h.sorted,
      sum-remove (λ (x : CacheEntry). x.size) key c.entries h.sorted,
    );
    covered = λ k x. ground (
      arith,
      h.covered k,
      get-insert k key (record e { freq = 1 }) c.entries,
      bytes_eq_iff k key,
      found,
    );
  }

  added-IsValid : ByteMap.get key c.entries ≡ none → IsValid (added c key e)
  unfolding added ghost_remove in_slots
  added-IsValid absent =
      if_elim IsValid (ByteMap.contains_key key c.ghost) _ _
        (λ _. record {
          sorted = insert-IsSorted key e c.entries h.sorted;
          counted = ground (
            arith,
            absent,
            h.counted,
            sum-insert (λ (x : CacheEntry). x.size) key e c.entries h.sorted,
          );
          covered = λ k x. ground (
            arith,
            h.covered k,
            get-insert k key e c.entries,
            bytes_eq_iff k key,
            in_slots-append k c.main (key ∷ []),
          );
        })
        (λ _. record {
          sorted = insert-IsSorted key e c.entries h.sorted;
          counted = ground (
            arith,
            absent,
            h.counted,
            sum-insert (λ (x : CacheEntry). x.size) key e c.entries h.sorted,
          );
          covered = λ k x. ground (
            arith,
            h.covered k,
            get-insert k key e c.entries,
            bytes_eq_iff k key,
            in_slots-append k c.small (key ∷ []),
          );
        })

added-max : (c : MemCache) (key : Bytes) (e : CacheEntry) → (added c key e).max_bytes ≡ c.max_bytes
unfolding added ghost_remove
added-max c key e =
    if_elim (λ (d : MemCache). d.max_bytes ≡ c.max_bytes) (ByteMap.contains_key key c.ghost) _ _
      (λ _. refl) (λ _. refl)

content-insert :
    (m : ByteMap CacheEntry) (key k : Bytes) (e : CacheEntry)
    → content (ByteMap.insert key e m) k
      ≡ (if bytes_eq k key then some (content_of e) else content m k)
content-insert m key k e = ground (arith, get-insert k key e m)

content-added :
    (c : MemCache) (key k : Bytes) (e : CacheEntry)
    → content (added c key e).entries k
      ≡ (if bytes_eq k key then some (content_of e) else content c.entries k)
unfolding added ghost_remove
content-added c key k e =
    if_elim
      (λ (d : MemCache).
        content d.entries k ≡ (if bytes_eq k key then some (content_of e) else content c.entries k))
      (ByteMap.contains_key key c.ghost) _ _ (λ _. content-insert c.entries key k e)
      (λ _. content-insert c.entries key k e)

-- What an insertion of `new` at `key` leaves: a valid cache of at most `max_bytes`, in which every
-- key has no entry, or the content inserted last.
abbrev pub Inserted : MemCache → Bytes → Content → Option MemCache → Type 0
Inserted c key new none = ⊥
Inserted c key new (some c') =
    IsValid c'
    × (c'.current_bytes ≤ c'.max_bytes)
    × (c'.max_bytes ≡ c.max_bytes)
    × ((k : Bytes)
        → (content c'.entries k ≡ none)
          ⊎ (content c'.entries k ≡ (if bytes_eq k key then some new else content c.entries k)))

finished :
    (c c1 : MemCache) (key : Bytes) (new : Content) (o : Option MemCache)
    → c1.max_bytes ≡ c.max_bytes
    → ((k : Bytes)
        → content c1.entries k ≡ (if bytes_eq k key then some new else content c.entries k))
    → Bounded c1 o
    → Inserted c key new o
finished c c1 key new none same now b = b
finished c c1 key new (some c') same now (v, small, same', within) = (
  v,
  small,
  same' ∙ same,
  λ k. elim (within k) [ inl gone ↦ inl gone | inr kept ↦ inr (kept ∙ now k) ],
)

-- insert into a valid cache ends within the fuel that its entries and slots bound, and leaves a
-- valid cache of at most max_bytes, in which the inserted key has no entry or the inserted value,
-- expiry, metadata and revision, and every other key no entry or those that it had; valid is that
-- the byte counter is the sum of the sizes and every entry has a slot in a queue.
pub insert-Inserted :
    (c : MemCache)
    → IsValid c
    → (key value : Bytes) (expires_at_ms : Option ℕ) (metadata : Option Bytes)
      (meta_size revision : ℕ)
    → Inserted c key
        (value, expires_at_ms, metadata, revision)
        (insert c key value expires_at_ms metadata meta_size revision)
unfolding insert
insert-Inserted c h key value x m n r =
    let e = entry_of key value x m n r in
    Option_elim (Inserted c key (value, x, m, r)) (ByteMap.get key c.entries) _ _
      (λ absent.
        finished c (added c key e) key (value, x, m, r) (evict_to_limit (added c key e))
          (added-max c key e) (λ k. content-added c key k e)
          (evict_to_limit-Bounded (added c key e) (added-IsValid c h key e absent)))
      (λ old found.
        finished c (updated c key old e) key (value, x, m, r) (evict_to_limit (updated c key old e))
          refl (λ k. content-insert c.entries key k (record e { freq = 1 }))
          (evict_to_limit-Bounded (updated c key old e) (updated-IsValid c h key e old found)))

-- What try_update leaves: a new content for a key that the cache holds, and else nothing changes.
abbrev pub Updated : MemCache → Bytes → Content → Option (MemCache × Bool) → Type 0
Updated c key new none = ⊥
Updated c key new (some (c', true)) = Inserted c key new (some c')
Updated c key new (some (c', false)) = (c' ≡ c) × (ByteMap.get key c.entries ≡ none)

Updated-of :
    (c : MemCache) (key : Bytes) (new : Content) (o : Option MemCache)
    → Inserted c key new o
    → Updated c key new
        (elim o as (λ _. Option (MemCache × Bool)) [ none ↦ none | some c1 ↦ some (c1, true) ])
Updated-of c key new none i = i
Updated-of c key new (some c') i = i

pub try_update-Updated :
    (c : MemCache)
    → IsValid c
    → (key value : Bytes) (expires_at_ms : Option ℕ) (metadata : Option Bytes)
      (meta_size revision : ℕ)
    → Updated c key
        (value, expires_at_ms, metadata, revision)
        (try_update c key value expires_at_ms metadata meta_size revision)
unfolding try_update
try_update-Updated c h key value x m n r =
    let e = entry_of key value x m n r in
    Option_elim (Updated c key (value, x, m, r)) (ByteMap.get key c.entries) _ _
      (λ absent. (refl, absent))
      (λ old found.
        Updated-of c key (value, x, m, r) (evict_to_limit (updated c key old e))
          (finished c (updated c key old e) key (value, x, m, r)
            (evict_to_limit (updated c key old e)) refl
            (λ k. content-insert c.entries key k (record e { freq = 1 }))
            (evict_to_limit-Bounded (updated c key old e) (updated-IsValid c h key e old found))))
