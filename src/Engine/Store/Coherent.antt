-- ===== src/Engine/Store/Coherent.antt =====
-- The agreement of the cache with the indexes of the namespaces, in crates/engine/src/store.rs, and
-- what the steps of its operations do to it.
pub mod Steps
pub mod Reads
pub mod Expiry
pub mod Writes
pub mod Incr
pub mod Deletes
pub mod Del
pub mod Operations
pub mod Cas
pub mod Flush
pub mod Results
pub mod Sound
use kv.Prelude.{
  ℕ, ◌≡◌, refl, ap, sym, ◌∙◌, subst, Bool, true, false, [], ◌∷◌, Option, none, some, inl, inr,
  if◌then◌else◌, Bytes, bytes_eq, bytes_eq_iff, bytes_eq_refl, eq_of_bytes_eq, Bool-cases, ok, err,
  arith,
}
use kv.Engine.Error.{Result}
use kv.Engine.Index
use kv.Engine.Index.{NsIndex}
use kv.Engine.Cache
use kv.Engine.Cache.Remove
use kv.Engine.Cache.{MemCache}
use kv.Engine.Cache.Valid.{IsValid, Content, content}
use kv.Engine.Cache.Changed.{Changed, get-Looked, remove-Changed, Looked}
use kv.Engine.Cache.Insert.{Inserted, insert-Inserted, Updated, try_update-Updated}
use kv.Engine.Log.State.{NamespaceLog}
use kv.Engine.Log.Write.{WriteCondition}
use kv.Engine.Log.Revisions.{revision_of}
use kv.Engine.Log.Placed.{
  Elsewhere, Has, Placed, PlacedIf, put_full-Placed, put_full_cond-PlacedIf, Dropped, DroppedIf,
  tombstone_key-Dropped, tombstone_cond-DroppedIf, Expires, ttl_update_key-Expires,
}
use kv.Engine.Log.Delete.{tombstone_cond}
use kv.Engine.Store.{
  Shard, Ctx, Exec, WatchEvent, on_log, or_same, updated_or, with_log, found_in_cache, cache_get,
  cache_remove, cache_insert, upsert_cache, notify, has_expired,
}
use kv.Engine.Store.Names.{is_valid_ns_name, cache_key, cache_key_inj}
use kv.Engine.Store.Reads.{tombstone, ttl_update}
use kv.Engine.Store.Writes.{put, put_cond}
use kv.Engine.Store.Ensures.{Post, Ensures}

-- What the cache may hold for a key: nothing, or a content whose revision and expiry are those that
-- the index of the namespace has for the key. A namespace that is not open has nothing in the cache.
abbrev pub Cached : Option NamespaceLog → Bytes → Option Content → Type 0
Cached log k none = Unit
Cached none k (some c) = ⊥
Cached (some log) k (some (value, expires, metadata, rev)) = Has log.index k (some rev) expires

abbrev pub CachedAt : (Bytes → Option NamespaceLog) → MemCache → Bytes → Bytes → Type 0
CachedAt logs c n k = Cached (logs n) k (content c.entries (cache_key n k))

Cached-same :
    (log log' : NamespaceLog) (k : Bytes) (c : Option Content)
    → revision_of log'.index k ≡ revision_of log.index k
    → Index.ttl_of log'.index k ≡ Index.ttl_of log.index k
    → Cached (some log) k c
    → Cached (some log') k c
Cached-same log log' k none r x h = tt
Cached-same log log' k (some (v, y, m, rev)) r x h = (r ∙ h.0, x ∙ h.1)

module _ (ns key value : Bytes) (expires : Option ℕ) (metadata : Option Bytes) (len rev : ℕ) where
  updated_or-log :
      (s : Shard) (o : Option (MemCache × Bool))
      → (updated_or ns s (cache_insert ns key value expires metadata len rev) o).0.log ≡ s.log
  unfolding cache_insert
  updated_or-log s none = refl
  updated_or-log s (some (c, true)) = refl
  updated_or-log s (some (c, false)) = refl

  pub upsert_cache-log :
      (s : Shard) → (upsert_cache ns key value expires metadata len rev s).0.log ≡ s.log
  unfolding upsert_cache
  upsert_cache-log s = updated_or-log s _

-- The namespaces beside `ns` are those of `others`.
module _ (others : Bytes → Option NamespaceLog) (ns : Bytes) where
  abbrev pub logs : NamespaceLog → Bytes → Option NamespaceLog
  logs log n = if bytes_eq n ns then some log else others n

  -- The cache is valid, and agrees with every namespace.
  abbrev pub Coherent : Shard → Type 0
  Coherent s =
      IsValid s.cache
      × ((n k : Bytes) → is_valid_ns_name n ≡ true → CachedAt (logs s.log) s.cache n k)

  -- The same, but for the keys of the cache that are not `Safe`.
  abbrev pub AllBut : (Bytes → Type 0) → Shard → Type 0
  AllBut Safe s =
      IsValid s.cache
      × ((n k : Bytes)
          → is_valid_ns_name n ≡ true
          → Safe (cache_key n k)
          → CachedAt (logs s.log) s.cache n k)

  -- The same, but for `key` of `ns`.
  abbrev pub Except : Bytes → Shard → Type 0
  Except key = AllBut (λ ck. bytes_eq ck (cache_key ns key) ≡ false)

  pub Coherent→Except : (key : Bytes) (s : Shard) → Coherent s → Except key s
  Coherent→Except key s (v, h) = (v, λ n k name other. h n k name)

  module _ (key : Bytes) (s : Shard) where
    -- The log changes at `key` alone, which is not safe.
    pub log-AllBut :
        (Safe : Bytes → Type 0)
        → ((ck : Bytes) → Safe ck → bytes_eq ck (cache_key ns key) ≡ false)
        → (log' : NamespaceLog) → Elsewhere key s.log.index log'.index
        → AllBut Safe s
        → AllBut Safe (record s { log = log' })
    log-AllBut Safe apart log' same (v, h) = (
      v,
      λ n k name safe. elim (Bool-cases (bytes_eq n ns)) [
        | inl this ↦
            let other : bytes_eq k key ≡ false = ground (
              arith,
              bytes_eq_iff k key,
              eq_of_bytes_eq n ns this,
              apart (cache_key n k) safe,
              bytes_eq_iff (cache_key n k) (cache_key ns key),
            ) in
            rw this (
              Cached-same s.log log' k (content s.cache.entries (cache_key n k)) (same k other).0
                (same k other).1 (rw this at (h n k name safe)))
        | inr that ↦ rw that (rw that at (h n k name safe))
      ],
    )

    pub log-Except :
        (log' : NamespaceLog)
        → Elsewhere key s.log.index log'.index
        → Except key s
        → Except key (record s { log = log' })
    log-Except = log-AllBut (λ ck. bytes_eq ck (cache_key ns key) ≡ false) (λ ck e. e)

    -- A key that leaves the cache is safe.
    pub cache-AllBut :
        (Safe Safe' : Bytes → Type 0)
        → ((ck : Bytes) → Safe' ck → bytes_eq ck (cache_key ns key) ≡ false → Safe ck)
        → (c' : MemCache) → Changed s.cache (cache_key ns key) none c'
        → AllBut Safe s
        → AllBut Safe' (record s { cache = c' })
    cache-AllBut Safe Safe' safer c' (v', now) (v, h) = (
      v',
      λ n k name safe'. elim (now (cache_key n k)) [
        | inl gone ↦ subst (Cached (logs s.log n) k) (sym gone) tt
        | inr is ↦ elim (Bool-cases (bytes_eq (cache_key n k) (cache_key ns key))) [
          | inl same ↦
              let gone : content c'.entries (cache_key n k) ≡ none = is ∙ rw same refl in
              subst (Cached (logs s.log n) k) (sym gone) tt
          | inr other ↦
              subst (Cached (logs s.log n) k) (sym (is ∙ rw other refl))
                (h n k name (safer (cache_key n k) safe' other))
        ]
      ],
    )

    -- The cache changes at `key` alone, to what the index has.
    pub cache-Coherent :
        is_valid_ns_name ns ≡ true
        → (new : Option Content) (c' : MemCache) → Changed s.cache (cache_key ns key) new c'
        → Cached (some s.log) key new
        → Except key s
        → Coherent (record s { cache = c' })
    cache-Coherent named new c' (v', now) fits (v, h) = (
      v',
      λ n k name. elim (now (cache_key n k)) [
        | inl gone ↦ subst (Cached (logs s.log n) k) (sym gone) tt
        | inr is ↦ elim (Bool-cases (bytes_eq (cache_key n k) (cache_key ns key))) [
          | inl same ↦
              let (en, ek) = cache_key_inj n ns k key name named (eq_of_bytes_eq _ _ same) in
              let here : logs s.log n ≡ some s.log =
                ap (logs s.log) en ∙ rw (bytes_eq_refl ns) refl in
              subst (Cached (logs s.log n) k) (sym (is ∙ rw same refl)) (
                subst (λ (l : Option NamespaceLog). Cached l k new) (sym here)
                  (subst (λ j. Cached (some s.log) j new) (sym ek) fits))
          | inr other ↦
              subst (Cached (logs s.log n) k) (sym (is ∙ rw other refl)) (h n k name other)
        ]
      ],
    )

  module _ (named : is_valid_ns_name ns ≡ true) (key : Bytes) where
    here-Cached :
        (s : Shard)
        → Coherent s
        → Cached (some s.log) key (content s.cache.entries (cache_key ns key))
    here-Cached s (v, h) =
        let here : logs s.log ns ≡ some s.log = rw (bytes_eq_refl ns) refl in
        subst
          (λ (l : Option NamespaceLog). Cached l key (content s.cache.entries (cache_key ns key)))
          here (h ns key named)

    -- A lookup keeps the agreement; what it finds is what the index has, and if it finds nothing,
    -- nothing is left to find.
    abbrev pub Found : ℕ → Option Content → Shard → Type 0
    Found now none s = Coherent s × (content s.cache.entries (cache_key ns key) ≡ none)
    Found now (some c) s =
        Coherent s × Cached (some s.log) key (some c) × (has_expired c.1 now ≡ false)

    looked_up :
        (s : Shard)
        → Coherent s
        → (c' : MemCache)
        → Changed s.cache (cache_key ns key) (content s.cache.entries (cache_key ns key)) c'
        → Coherent (record s { cache = c' })
    looked_up s h c' l =
        cache-Coherent key s named (content s.cache.entries (cache_key ns key)) c' l
          (here-Cached s h) (Coherent→Except key s h)

    looked :
        (now : ℕ) (s : Shard) (h : Coherent s) (r : MemCache × Option Content)
        → Looked s.cache h.0 (cache_key ns key) now r
        → Post (Except key) (Found now) (found_in_cache ns s r)
    looked now s h (c', none) l = (looked_up s h c' l.0, l.1)
    looked now s h (c', some found) l =
        (looked_up s h c' l.0, subst (Cached (some s.log) key) l.1 (here-Cached s h), l.2)

    -- A key that the cache does not hold cannot be out of step.
    pub absent-Coherent :
        (s : Shard) → Except key s → content s.cache.entries (cache_key ns key) ≡ none → Coherent s
    absent-Coherent s h absent =
        cache-Coherent key s named none s.cache
          (
            h.0,
            λ k. elim (Bool-cases (bytes_eq k (cache_key ns key))) [
              | inl same ↦ inl (ap (content s.cache.entries) (eq_of_bytes_eq k _ same) ∙ absent)
              | inr other ↦ inr (rw other refl)
            ],
          )
          tt h

    pub cache_get-Found :
        (now : ℕ) → Ensures (Except key) Coherent (cache_get ns key now) (Found now)
    unfolding cache_get
    cache_get-Found now = record {
      at = λ s h.
          looked now s h (Cache.get s.cache (cache_key ns key) now)
            (get-Looked s.cache h.0 (cache_key ns key) now);
    }

    pub cache_remove-Coherent :
        Ensures (Except key) (Except key) (cache_remove ns key) (λ _. Coherent)
    unfolding cache_remove
    cache_remove-Coherent = record {
      at = λ s h.
          cache-Coherent key s named none (Remove.remove s.cache (cache_key ns key))
            (remove-Changed s.cache h.0 (cache_key ns key)) tt h;
    }

    -- The index has a revision and an expiry for the key.
    abbrev pub Indexed : Option ℕ → ℕ → Shard → Type 0
    Indexed expires rev s = Except key s × Has s.log.index key (some rev) expires

    module _ (value : Bytes) (expires : Option ℕ) (metadata : Option Bytes) (len rev : ℕ) where
      inserted :
          (s : Shard)
          → Indexed expires rev s
          → (o : Option MemCache)
          → Inserted s.cache (cache_key ns key) (value, expires, metadata, rev) o
          → Coherent (record s { cache = or_same s.cache o })
      inserted s h none i = absurd i
      inserted s h (some c') (v, small, max, now) =
          cache-Coherent key s named (some (value, expires, metadata, rev)) c' (v, now) h.1 h.0

      pub cache_insert-Coherent :
          Ensures
            (Except key)
            (Indexed expires rev)
            (cache_insert ns key value expires metadata len rev)
            (λ _. Coherent)
      unfolding cache_insert
      cache_insert-Coherent = record {
        at = λ s h.
            inserted s h _
              (insert-Inserted s.cache h.0.0 (cache_key ns key) value expires metadata len rev);
      }

      upserted :
          (s : Shard)
          → Indexed expires rev s
          → (o : Option (MemCache × Bool))
          → Updated s.cache (cache_key ns key) (value, expires, metadata, rev) o
          → Post
              (Except key)
              (λ _. Coherent)
              (updated_or ns s (cache_insert ns key value expires metadata len rev) o)
      upserted s h none i = absurd i
      upserted s h (some (c, true)) i = inserted s h (some c) i
      upserted s h (some (c, false)) i =
          subst
            (λ c'.
              Post (Except key) (λ _. Coherent)
                (cache_insert ns key value expires metadata len rev (record s { cache = c' })))
            (sym i.0) (cache_insert-Coherent.at s h)

      pub upsert_cache-Coherent :
          Ensures
            (Except key)
            (Indexed expires rev)
            (upsert_cache ns key value expires metadata len rev)
            (λ _. Coherent)
      unfolding upsert_cache
      upsert_cache-Coherent = record {
        at = λ s h.
            upserted s h _
              (try_update-Updated s.cache h.0.0 (cache_key ns key) value expires metadata len rev);
      }

    pub notify-Coherent :
        (event : WatchEvent) → Ensures (Except key) Coherent (notify ns key event) (λ _. Coherent)
    unfolding notify
    notify-Coherent event = record { at = λ s h. h }
