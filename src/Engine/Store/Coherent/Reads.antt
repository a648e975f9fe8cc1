-- ===== src/Engine/Store/Coherent/Reads.antt =====
-- The reads of crates/engine/src/store.rs keep the cache in agreement, and answer with the index.
use kv.Prelude.{
  ℕ, ◌+◌, arith, ◌≡◌, refl, sym, ap, true, false, Option, none, some, Bytes, ok, err, length,
}
use kv.Engine.Error.{Result}
use kv.Engine.Index.{IndexEntry}
use kv.Engine.Log.State.{NamespaceLog}
use kv.Engine.Log.Write.{live_rev}
use kv.Engine.Log.Read.{read_value}
use kv.Engine.Log.Revisions.{revision_of}
use kv.Engine.Log.Placed.{Has}
use kv.Engine.Store.{
  Entry, Ctx, Shard, pure, lift, continue, ◌>>=◌, index_of, cache_get, cache_remove, cache_insert,
  metadata_from_bytes, has_expired,
}
use kv.Engine.Store.Names.{is_valid_ns_name}
use kv.Engine.Store.Reads.{
  tombstone, read_entry, delete_expired, get_present, get_indexed, get_looked_up, get, Hit,
}
use kv.Engine.Store.Ensures.{Post, Ensures, Ensures-pure, Ensures-if, Ensures-bind, Ensures-frame}
use kv.Engine.Store.Coherent.{
  Coherent, Except, Found, Indexed, Coherent→Except, cache_get-Found, cache_insert-Coherent,
}
use kv.Engine.Store.Coherent.Steps.{Gone, tombstone-Gone, Says, Has-Says, removed}

abbrev pub revision_in : Option Entry → Option ℕ
revision_in none = none
revision_in (some e) = some e.revision

module _ (others : Bytes → Option NamespaceLog) (x : Ctx) (ns : Bytes)
    (named : is_valid_ns_name ns ≡ true) (key : Bytes) where
  abbrev F : Shard → Type 0
  F = Except others ns key

  abbrev C : Shard → Type 0
  C = Coherent others ns

  -- The cache agrees, and the index has the revision of the entry, which is live, or lacks the key if
  -- there is none.
  abbrev pub Answers : Option Entry → Shard → Type 0
  Answers o s = C s × Says others x ns named key (revision_in o) s.log

  pub read-F :
      (P : Shard → Type 0)
      → ((s : Shard) → P s → F s)
      → (entry : IndexEntry) → Ensures F P (read_entry x ns entry) (λ _. P)
  unfolding read_entry ◌>>=◌
  read-F P keep entry = record { at = λ s p. read_at s p (read_value x.deps s.log entry) }
    where
      meta_at :
          (s : Shard)
          → P s
          → (v m : Bytes) → (r : Result (Option Bytes))
          → Post {A = Bytes × Option Bytes × ℕ} F
              (λ _. P)
              (continue (s, r) (λ metadata. pure (v, metadata, length m)))
      meta_at s p v m (ok metadata) = p
      meta_at s p v m (err e) = keep s p

      read_at :
          (s : Shard)
          → P s
          → (r : Result (Bytes × Bytes))
          → Post {A = Bytes × Option Bytes × ℕ} F
              (λ _. P)
              (continue
                (s, r)
                (λ (v, m).
                  lift (metadata_from_bytes x.json m) >>= λ metadata. pure (v, metadata, length m)))
      read_at s p (ok (v, m)) = meta_at s p v m (metadata_from_bytes x.json m)
      read_at s p (err e) = keep s p

  removed-Answers :
      Ensures F (Gone others x ns named key) (cache_remove ns key >>= λ _. pure none) Answers
  removed-Answers =
      Ensures-bind (λ _ s. C s × Says others x ns named key none s.log) Answers
        (cache_remove ns key) _ (removed others x ns named key (Says others x ns named key none))
        (λ _. Ensures-pure Answers none (λ s h. h))

  pub delete_expired-Answers : Ensures F C (delete_expired x ns key) Answers
  delete_expired-Answers =
      Ensures-bind (λ _. Gone others x ns named key) Answers (tombstone x ns 0 key) _
        (tombstone-Gone others x ns named key 0) (λ _. removed-Answers)

  -- The index entry and the expiry that a lookup saw.
  abbrev pub Seen : Option IndexEntry × Option ℕ → Shard → Type 0
  Seen e s = C s × (e ≡ index_of s key)

  pub seen-F : (e : Option IndexEntry × Option ℕ) (s : Shard) → Seen e s → F s
  seen-F e s h = Coherent→Except others ns key s h.0

  pub Seen-Has :
      (entry : IndexEntry) (expires : Option ℕ) (s : Shard)
      → Seen (some entry, expires) s
      → Has s.log.index key (some entry.tstamp_ms) expires
  Seen-Has entry expires s (h, e) = (
    sym (
        ap
          (λ (r : Option IndexEntry × Option ℕ). elim r.0 as (λ _. Option ℕ) [
            | none ↦ none
            | some i ↦ some i.tstamp_ms
          ])
          e),
    sym (ap (λ (r : Option IndexEntry × Option ℕ). r.1) e),
  )

  pub absent-Rev :
      (expires : Option ℕ) (s : Shard)
      → Seen (none, expires) s
      → Says others x ns named key none s.log
  unfolding live_rev
  absent-Rev expires s (h, e) = (gone e, ground (arith, gone e))
    where
      gone : (e : (none, expires) ≡ index_of s key) → revision_of s.log.index key ≡ none
      gone e = sym (
          ap
            (λ (r : Option IndexEntry × Option ℕ). elim r.0 as (λ _. Option ℕ) [
              | none ↦ none
              | some i ↦ some i.tstamp_ms
            ])
            e)

  Seen-Indexed :
      (entry : IndexEntry) (expires : Option ℕ) (s : Shard)
      → Seen (some entry, expires) s
      → Indexed others ns named key expires entry.tstamp_ms s
  Seen-Indexed entry expires s (h, e) =
      (Coherent→Except others ns key s h, Seen-Has entry expires s (h, e))

  -- The insertion of what the index has for the key.
  inserted-Answers :
      (value : Bytes) (expires : Option ℕ) (metadata : Option Bytes) (len rev : ℕ)
      → Ensures F
          (λ s.
            Indexed others ns named key expires rev s × Says others x ns named key (some rev) s.log)
          (cache_insert ns key value expires metadata len rev)
          (λ _ s. C s × Says others x ns named key (some rev) s.log)
  unfolding cache_insert
  inserted-Answers value expires metadata len rev =
      Ensures-frame F (Indexed others ns named key expires rev) (λ s. s.log)
        (Says others x ns named key (some rev)) (cache_insert ns key value expires metadata len rev)
        (λ _. C) (λ s. refl)
        (cache_insert-Coherent others ns named key value expires metadata len rev)

  pub present-Answers :
      (entry : IndexEntry) (expires : Option ℕ)
      → has_expired expires x.now ≡ false
      → Ensures F (Seen (some entry, expires)) (get_present x ns key entry expires) Answers
  present-Answers entry expires fresh =
      Ensures-bind (λ _. Seen (some entry, expires)) Answers (read_entry x ns entry) _
        (read-F (Seen (some entry, expires)) (seen-F (some entry, expires)) entry)
        λ (value, metadata, len).
          Ensures-bind (λ _ s. C s × Says others x ns named key (some entry.tstamp_ms) s.log)
            Answers (cache_insert ns key value expires metadata len entry.tstamp_ms) _
            (record {
              at = λ s h. (inserted-Answers value expires metadata len entry.tstamp_ms).at s (
                Seen-Indexed entry expires s h,
                Has-Says others x ns named key s.log (some entry.tstamp_ms) expires
                    (Seen-Has entry expires s h) fresh,
              );
            })
            (λ _. Ensures-pure Answers _ (λ s h. h))

  indexed-Answers :
      (e : Option IndexEntry × Option ℕ) → Ensures F (Seen e) (get_indexed x ns key e) Answers
  indexed-Answers (none, expires) = Ensures-pure Answers none (λ s h. (h.0, absent-Rev expires s h))
  indexed-Answers (some entry, expires) =
      Ensures-if Answers (has_expired expires x.now) _ _
        (λ _. record { at = λ s h. delete_expired-Answers.at s h.0 })
        (present-Answers entry expires)

  looked_up-Answers :
      (c : Option Hit)
      → Ensures F (Found others ns named key x.now c) (get_looked_up x ns key c) Answers
  unfolding ◌>>=◌
  looked_up-Answers (some (v, y, m, rev)) = record {
    at = λ s h. (h.0, Has-Says others x ns named key s.log (some rev) y h.1 h.2);
  }
  looked_up-Answers none = record {
    at = λ s h.
        (indexed-Answers (index_of s key)).at (record s { misses = s.misses + 1 }) (h.0, refl);
  }

  pub get-Answers : Ensures F C (get x ns key) Answers
  unfolding get
  get-Answers =
      Ensures-bind (Found others ns named key x.now) Answers (cache_get ns key x.now) _
        (cache_get-Found others ns named key x.now) looked_up-Answers
