-- ===== src/Engine/Store/ReadBack.antt =====
-- A set followed by a get, in crates/engine/src/store.rs: through the cache, or through the log when
-- the cache has not kept the value.
use kv.Prelude.{
  ℕ, ◌+◌, ◌≡◌, ◌≢◌, refl, sym, ap, subst, ◌∙◌, Bool, true, false, [], ◌∷◌, Option, none, some, ◌⊎◌,
  inl, inr, Bytes, ok, err, ok_or, length, arith, bytes_eq, bytes_eq_refl,
}
use kv.Prelude
use kv.Engine.Error.{Result, io}
use kv.Engine.Record.{fits_u32}
use kv.Engine.File.Append.{IsWritable}
use kv.Engine.Index
use kv.Engine.Index.{IndexEntry}
use kv.Engine.Cache
use kv.Engine.Cache.{MemCache}
use kv.Engine.Cache.Valid.{IsValid, Content, content}
use kv.Engine.Cache.Changed.{Looked, get-Looked}
use kv.Engine.Cache.Insert.{Inserted, insert-Inserted, Updated, try_update-Updated}
use kv.Engine.Log.State.{NamespaceLog, next_tstamp}
use kv.Engine.Log.Write.{separates, put_full}
use kv.Engine.Log.Crash.Puts.{HasRoom}
use kv.Engine.Log.Read.{read_value}
use kv.Engine.Log.ReadBack.{put_full-Reads}
use kv.Engine.Log.Placed.{Has, Placed, put_full-Placed}
use kv.Engine.Store.{
  Entry, SetOptions, Ctx, Shard, ◌>>=◌, on_log, with_log, or_same, updated_or, found_in_cache,
  cache_get, cache_insert, upsert_cache, notify, metadata_from_bytes, meta_bytes, has_expired,
  entry_from, Json,
}
use kv.Engine.Store.Names.{cache_key}
use kv.Engine.Store.Reads.{Hit, read_entry, get_indexed, get_looked_up, get}
use kv.Engine.Store.Writes.{put, publish, set_expiry, set_key}
use kv.Engine.Store.Ensures.{Post, Ensures, Ensures-bind}

-- JSON reads this metadata back as it prints it.
abbrev pub IsReadBack : Json → Option Bytes → Type 0
IsReadBack j none = Unit
IsReadBack j (some v) = j.from_slice (j.to_vec v) ≡ some v

-- Metadata that JSON reads back is read back from a record.
metadata_from_bytes-meta_bytes :
    (j : Json) (m : Option Bytes) → IsReadBack j m → metadata_from_bytes j (meta_bytes j m) ≡ ok m
metadata_from_bytes-meta_bytes j none h = refl
metadata_from_bytes-meta_bytes j (some v) h = printed (j.to_vec v) (j.to_vec_ne v) h
  where
    printed : (b : Bytes) → b ≢ [] → j.from_slice b ≡ some v → metadata_from_bytes j b ≡ ok (some v)
    printed [] ne e = absurd (ne refl)
    printed (c ∷ b) ne e = rw (metadata_from_bytes, e) refl

-- A method that cannot fail.
abbrev Never : Shard → Type 0
Never s = ⊥

module _ (x : Ctx) (ns key value : Bytes) (metadata : Option Bytes) (expires : Option ℕ)
    (rev : ℕ) where
  abbrev meta : Bytes
  meta = meta_bytes x.json metadata

  abbrev new : Content
  new = (value, expires, metadata, rev)

  -- The index has the write, and the log gives its value.
  abbrev InLog : Shard → Type 0
  InLog s =
      IsValid s.cache
      × Has s.log.index key (some rev) expires
      × ((Prelude.◌>>=◌ (ok_or (Index.get s.log.index key) io) (read_value x.deps s.log))
          ≡ ok (value, meta))

  -- The cache has no other content for the key.
  abbrev InBoth : Shard → Type 0
  InBoth s =
      InLog s
      × ((content s.cache.entries (cache_key ns key) ≡ none)
          ⊎ (content s.cache.entries (cache_key ns key) ≡ some new))

  inserted :
      (s : Shard)
      → InLog s
      → (o : Option MemCache) → Inserted s.cache (cache_key ns key) new o
      → InBoth (record s { cache = or_same s.cache o })
  inserted s h none i = absurd i
  inserted s h (some c') (v, small, max, now) = (
    (v, h.1, h.2),
    elim (now (cache_key ns key)) [
      | inl gone ↦ inl gone
      | inr is ↦ inr (is ∙ rw (bytes_eq_refl (cache_key ns key)) refl)
    ],
  )

  upserted :
      (s : Shard)
      → InLog s
      → (o : Option (MemCache × Bool)) → Updated s.cache (cache_key ns key) new o
      → Post Never
          (λ _. InBoth)
          (updated_or ns s (cache_insert ns key value expires metadata (length meta) rev) o)
  unfolding cache_insert
  upserted s h none i = absurd i
  upserted s h (some (c, true)) i = inserted s h (some c) i
  upserted s h (some (c, false)) i =
      subst
        (λ c'. InBoth (record s {
          cache =
              or_same c'
                (Cache.insert c' (cache_key ns key) value expires metadata (length meta) rev);
        }))
        (sym i.0)
        (inserted s h _
          (insert-Inserted s.cache h.0 (cache_key ns key) value expires metadata (length meta) rev))

  publish-InBoth :
      Ensures Never InLog (publish x ns key value expires metadata (length meta) rev) (λ _. InBoth)
  unfolding publish upsert_cache notify
  publish-InBoth =
      Ensures-bind (λ _. InBoth) (λ _. InBoth)
        (upsert_cache ns key value expires metadata (length meta) rev) _
        (record {
          at = λ s h. upserted s h _ (
              try_update-Updated s.cache h.0 (cache_key ns key) value expires metadata (length meta)
                rev);
        })
        (λ _. record { at = λ s h. h })

  -- A write of the log that the index has and that is read.
  logged :
      (s : Shard)
      → IsValid s.cache
      → (r : NamespaceLog × Result ℕ) → r.1 ≡ ok rev
      → Placed x.deps (x.log_env 0) s.log key expires r
      → (Prelude.◌>>=◌ (ok_or (Index.get r.0.index key) io) (read_value x.deps r.0))
        ≡ ok (value, meta)
      → Post Never (λ a s'. (a ≡ rev) × InLog s') (with_log s r)
  logged s v (log', ok a) e p q =
      let same : a ≡ rev = cc in
      (same, (v, subst (λ a. Has log'.index key (some a) expires) same p.1, q))
  logged s v (log', err e') e p q = cc

  module _ (later later_instant : ℕ) (fresh : has_expired expires later ≡ false)
      (read_back : IsReadBack x.json metadata) where
    abbrev reader : Ctx
    reader = record x { now = later; now_instant = later_instant }

    abbrev Gives : Option Entry → Shard → Type 0
    Gives r s = r ≡ some (entry_from reader new)

    -- What the lookup in the cache finds.
    abbrev Got : Option Hit → Shard → Type 0
    Got (some c) s = c ≡ new
    Got none s = InLog s

    looked :
        (s : Shard) (h : InBoth s) (r : MemCache × Option Content)
        → Looked s.cache h.0.0 (cache_key ns key) later r
        → Post Never Got (found_in_cache ns s r)
    looked s h (c', some found) l = elim h.1 [ inl gone ↦ cc | inr is ↦ cc ]
    looked s h (c', none) l = (l.0.0, h.0.1, h.0.2)

    indexed :
        (s : Shard) (e : IndexEntry) (y : Option ℕ)
        → some e.tstamp_ms ≡ some rev
        → y ≡ expires
        → read_value x.deps s.log e ≡ ok (value, meta)
        → Post Never Gives (get_indexed reader ns key (some e, y) s)
    unfolding read_entry cache_insert ◌>>=◌
    indexed s e y is_rev is_expires reads =
        subst (λ y. Post Never Gives (get_indexed reader ns key (some e, y) s)) (sym is_expires)
          (rw (fresh, reads, metadata_from_bytes-meta_bytes x.json metadata read_back)
            (ap (λ (r : ℕ). some (entry_from reader (value, expires, metadata, r))) cc))

    absent_or :
        (s : Shard) (i : Option IndexEntry)
        → (elim i as (λ _. Option ℕ) [ none ↦ none | some e ↦ some e.tstamp_ms ]) ≡ some rev
        → Index.ttl_of s.log.index key ≡ expires
        → (Prelude.◌>>=◌ (ok_or i io) (read_value x.deps s.log)) ≡ ok (value, meta)
        → Post Never Gives (get_indexed reader ns key (i, Index.ttl_of s.log.index key) s)
    absent_or s none a b c = cc
    absent_or s (some e) a b c = indexed s e (Index.ttl_of s.log.index key) a b c

    looked_up : (c : Option Hit) → Ensures Never (Got c) (get_looked_up reader ns key c) Gives
    unfolding ◌>>=◌
    looked_up (some c) = record { at = λ s h. ap (λ (c : Hit). some (entry_from reader c)) h }
    looked_up none = record {
      at = λ s (v, (is_rev, is_expires), reads).
          absent_or (record s { misses = s.misses + 1 }) (Index.get s.log.index key) is_rev
            is_expires reads;
    }

    get-Gives : Ensures Never InBoth (get reader ns key) Gives
    unfolding get cache_get
    get-Gives =
        Ensures-bind Got Gives (cache_get ns key later) _
          (record {
            at = λ s h.
                looked s h (Cache.get s.cache (cache_key ns key) later)
                  (get-Looked s.cache h.0.0 (cache_key ns key) later);
          })
          looked_up

module _ (x : Ctx) (ns key value : Bytes) (opts : SetOptions) (expires : Option ℕ)
    (later later_instant : ℕ) (s : Shard) where
  abbrev rev : ℕ
  rev = next_tstamp s.log.last_tstamp (x.log_env 0).now

  given :
      (a : Option Entry) (r : Shard × Result (Option Entry))
      → Post Never (λ b _. b ≡ a) r
      → r.1 ≡ ok a
  given a (t, ok b) h = ap (λ c. ok c) h
  given a (t, err e) h = absurd h

  abbrev Both : Shard → Type 0
  Both = InBoth x ns key value opts.metadata expires rev

  abbrev Logged : Option ℕ → ℕ → Shard → Type 0
  Logged e r t = (e ≡ expires) × (r ≡ rev) × InLog x ns key value opts.metadata expires rev t

  published_it :
      (e : Option ℕ) (r : ℕ)
      → Ensures Never
          (Logged e r)
          (publish x ns key value e opts.metadata (length (meta_bytes x.json opts.metadata)) r)
          (λ _. Both)
  published_it e r = record {
    at = λ t h. rw (h.0, h.1) ((publish-InBoth x ns key value opts.metadata expires rev).at t h.2);
  }

  keeping :
      (r : Shard × Result ℕ)
      → Post Never (λ a t. (a ≡ rev) × InLog x ns key value opts.metadata expires rev t) r
      → Post Never (Logged expires) r
  keeping (t, ok a) h = (refl, h.0, h.1)
  keeping (t, err e) h = h

  -- A set followed by a get of the key succeeds, and gives the value and the metadata that were
  -- set, the expiry that the options stand for and the revision of the write, whether the cache
  -- has kept the value or the log is read. Conditions: the time to live of the options is valid
  -- and has not run out at the time of the get, the library of JSON reads the metadata back as it
  -- prints it, the cache is valid, the log is not frozen, the value is below the threshold of
  -- separation, the handle of the active file is healthy and stands at its end, the revision and
  -- the expiry fit a u64, the file has room, so that no rotation is due, the record fits a u32,
  -- and the write reaches the disk.
  pub set-get :
      set_expiry x ns key opts s ≡ (s, ok expires)
      → has_expired expires later ≡ false
      → IsReadBack x.json opts.metadata
      → IsValid s.cache
      → s.log.is_frozen ≡ false
      → separates s.log value ≡ false
      → IsWritable s.log.active
      → HasRoom s.log (x.log_env 0).now key value (meta_bytes x.json opts.metadata) expires
      → fits_u32 key value (meta_bytes x.json opts.metadata) ≡ true
      → (x.log_env 0).append ≡ none
      → let reader : Ctx = record x { now = later; now_instant = later_instant } in
        ((set_key x ns key value opts >>= λ _. get reader ns key) s).1
        ≡ ok (some (entry_from reader (value, expires, opts.metadata, rev)))
  unfolding set_key on_log ◌>>=◌
  set-get takes fresh read_back valid live plain w room size whole_write =
      let reader : Ctx = record x { now = later; now_instant = later_instant } in
      let meta = meta_bytes x.json opts.metadata in
      let wrote =
        put_full-Reads x.deps (x.log_env 0) s.log key value meta expires live plain w room size
          whole_write in
      let written : Ensures Never (λ t. t ≡ s) (set_key x ns key value opts) (λ _. Both) =
        Ensures-bind (λ e t. (e ≡ expires) × (t ≡ s)) (λ _. Both) (set_expiry x ns key opts) _
          (record { at = λ t h. rw (h, takes) (refl, refl) })
          λ e.
            Ensures-bind (Logged e) (λ _. Both) (put x ns 0 key value meta e) _
              (record {
                at = λ t h.
                    rw (h.0, h.1)
                      (keeping
                        (with_log s (put_full x.deps (x.log_env 0) s.log key value meta expires))
                        (logged x ns key value opts.metadata expires rev s valid _ wrote.0
                          (put_full-Placed x.deps (x.log_env 0) s.log key value meta expires)
                          wrote.1));
              })
              (published_it e) in
      given (some (entry_from reader (value, expires, opts.metadata, rev)))
        ((set_key x ns key value opts >>= λ _. get reader ns key) s)
        ((Ensures-bind (λ _. Both)
            (Gives x ns key value opts.metadata expires rev later later_instant fresh read_back)
            (set_key x ns key value opts) (λ _. get reader ns key) written
            (λ _.
              get-Gives x ns key value opts.metadata expires rev later later_instant fresh
                read_back)).at
          s refl)
