-- ===== src/Engine/Store/Coherent/Expiry.antt =====
-- get_inline, getex, ttl_raw, expire, persist and the deletions of crates/engine/src/store.rs keep
-- the cache in agreement.
use kv.Prelude.{ℕ, ◌≡◌, refl, true, false, Option, none, some, Bytes}
use kv.Engine.Index.{IndexEntry}
use kv.Engine.Cache.Valid.{content}
use kv.Engine.Log.State.{NamespaceLog}
use kv.Engine.Store.{
  Entry, Ctx, Shard, pure, lift, ◌>>=◌, index_of, on_log, cache_get, cache_remove, has_expired,
  GetExOp, set_ttl, persist, validate_ttl,
}
use kv.Engine.Store.Names.{is_valid_ns_name, cache_key}
use kv.Engine.Store.Reads.{
  tombstone, ttl_update, read_entry, inline_present, inline_indexed, inline_looked_up, get_inline,
  get, getex_indexed, getex_looked_up, getex_update, getex_found, getex, Hit,
}
use kv.Engine.Store.Ensures.{
  Ensures, Ensures-pure, Ensures-lift, Ensures-if, Ensures-bind, Ensures-frame, Ensures-weaken,
}
use kv.Engine.Store.Coherent.{
  Coherent, Except, Found, Coherent→Except, cache_get-Found, absent-Coherent,
}
use kv.Engine.Store.Coherent.Steps.{Gone, tombstone-Gone, removed, Rev, Has-Says, ttl_update-Except}
use kv.Engine.Store.Coherent.Reads.{
  Answers, revision_in, Seen, seen-F, read-F, absent-Rev, Seen-Has, delete_expired-Answers,
  get-Answers, present-Answers,
}

module _ (others : Bytes → Option NamespaceLog) (x : Ctx) (ns : Bytes)
    (named : is_valid_ns_name ns ≡ true) (key : Bytes) where
  abbrev F : Shard → Type 0
  F = Except others ns key

  abbrev C : Shard → Type 0
  C = Coherent others ns

  abbrev A : Option Entry → Shard → Type 0
  A = Answers others x ns named key

  inline_present-Answers :
      (entry : IndexEntry) (expires : Option ℕ)
      → has_expired expires x.now ≡ false
      → Ensures F
          (Seen others x ns named key (some entry, expires))
          (inline_present x ns key entry expires)
          A
  inline_present-Answers entry expires fresh =
      Ensures-bind (λ _. Seen others x ns named key (some entry, expires)) A (read_entry x ns entry)
        _
        (read-F others x ns named key _ (seen-F others x ns named key (some entry, expires)) entry)
        λ (value, metadata, len). Ensures-pure A _ (λ s h. (
          h.0,
          Has-Says others x ns named key s.log (some entry.tstamp_ms) expires
              (Seen-Has others x ns named key entry expires s h) fresh,
        ))

  inline_indexed-Answers :
      (e : Option IndexEntry × Option ℕ)
      → Ensures F (Seen others x ns named key e) (inline_indexed x ns key e) A
  inline_indexed-Answers (none, expires) =
      Ensures-pure A none (λ s h. (h.0, absent-Rev others x ns named key expires s h))
  inline_indexed-Answers (some entry, expires) =
      Ensures-if A (has_expired expires x.now) _ _
        (λ _. record { at = λ s h. (delete_expired-Answers others x ns named key).at s h.0 })
        (inline_present-Answers entry expires)

  inline_looked_up-Answers :
      (c : Option Hit)
      → Ensures F (Found others ns named key x.now c) (inline_looked_up x ns key c) A
  unfolding ◌>>=◌
  inline_looked_up-Answers (some (v, y, m, rev)) = record {
    at = λ s h. (h.0, Has-Says others x ns named key s.log (some rev) y h.1 h.2);
  }
  inline_looked_up-Answers none = record {
    at = λ s h. (inline_indexed-Answers (index_of s key)).at s (h.0, refl);
  }

  pub get_inline-Answers : Ensures F C (get_inline x ns key) A
  unfolding get_inline
  get_inline-Answers =
      Ensures-bind (Found others ns named key x.now) A (cache_get ns key x.now) _
        (cache_get-Found others ns named key x.now) inline_looked_up-Answers

  -- A key that is found expired and is not in the cache.
  abbrev Absent : Shard → Type 0
  Absent s = content s.cache.entries (cache_key ns key) ≡ none

  tombstoned :
      Ensures F
        (λ s. C s × Absent s)
        (tombstone x ns 0 key)
        (λ _ s. Gone others x ns named key s × Absent s)
  unfolding on_log
  tombstoned =
      Ensures-frame F C (λ s. s.cache) (λ c. content c.entries (cache_key ns key) ≡ none)
        (tombstone x ns 0 key) (λ _. Gone others x ns named key) (λ s. refl)
        (tombstone-Gone others x ns named key 0)

  gone-Answers : Ensures F (λ s. C s × Absent s) (tombstone x ns 0 key >>= λ _. pure none) A
  gone-Answers =
      Ensures-bind (λ _ s. Gone others x ns named key s × Absent s) A (tombstone x ns 0 key) _
        tombstoned
        (λ _. Ensures-pure A none (λ s h. (absent-Coherent others ns named key s h.0.0 h.1, h.0.1)))

  getex_looked_up-Answers :
      (c : Option Hit)
      → Ensures F (Found others ns named key x.now c) (getex_looked_up x ns key c) A
  unfolding ◌>>=◌
  getex_looked_up-Answers (some (v, y, m, rev)) = record {
    at = λ s h. (h.0, Has-Says others x ns named key s.log (some rev) y h.1 h.2);
  }
  getex_looked_up-Answers none = record {
    at = λ s h. (indexed (index_of s key)).at s (h.0, refl, h.1);
  }
    where
      indexed :
          (e : Option IndexEntry × Option ℕ)
          → Ensures F (λ s. C s × (e ≡ index_of s key) × Absent s) (getex_indexed x ns key e) A
      indexed (none, expires) =
          Ensures-pure A none (λ s h. (h.0, absent-Rev others x ns named key expires s (h.0, h.1)))
      indexed (some entry, expires) =
          Ensures-if A (has_expired expires x.now) _ _
            (λ _. record { at = λ s h. gone-Answers.at s (h.0, h.2) })
            (λ fresh. record {
              at = λ s h.
                  (present-Answers others x ns named key entry expires fresh).at s (h.0, h.1);
            })

  -- A change of expiry and the removal from the cache keep the revision.
  abbrev R : Option ℕ → Shard → Type 0
  R r s = C s × Rev others x ns named key r s.log

  update-R :
      (expires r : Option ℕ)
      → Ensures F (R r) (ttl_update x ns 1 key expires >>= λ _. cache_remove ns key) (λ _. R r)
  update-R expires r =
      Ensures-bind (λ _ s. F s × Rev others x ns named key r s.log) (λ _. R r)
        (ttl_update x ns 1 key expires) _ (ttl_update-Except others x ns named key 1 expires r)
        (λ _. removed others x ns named key (Rev others x ns named key r))

  getex_update-R :
      (op : GetExOp) (r : Option ℕ) → Ensures F (R r) (getex_update x ns key op) (λ _. R r)
  getex_update-R (set_ttl d) r =
      Ensures-bind (λ _ s. R r s × _) (λ _. R r) (lift (validate_ttl d x.now)) _
        (Ensures-lift (validate_ttl d x.now) (λ s h. Coherent→Except others ns key s h.0))
        λ new_ms. record { at = λ s h. (update-R (some new_ms) r).at s h.0 }
  getex_update-R persist r = update-R none r

  -- An entry whose expiry has been changed: the index has its revision.
  abbrev A' : Option Entry → Shard → Type 0
  A' o = R (revision_in o)

  getex_found-Answers :
      (op : GetExOp) (o : Option Entry) → Ensures F (A o) (getex_found x ns key op o) A'
  getex_found-Answers op none = Ensures-pure A' none (λ s h. (h.0, h.1.0))
  getex_found-Answers op (some e) =
      Ensures-bind (λ _. R (some e.revision)) A' (getex_update x ns key op) _
        (record { at = λ s h. (getex_update-R op (some e.revision)).at s (h.0, h.1.0) })
        (λ _. Ensures-pure A' (some e) (λ s h. h))

  pub getex-Answers : (op : Option GetExOp) → Ensures F C (getex x ns key op) A'
  unfolding getex
  getex-Answers none =
      Ensures-weaken F C (get x ns key) A A' (λ _ s h. (h.0, h.1.0))
        (get-Answers others x ns named key)
  getex-Answers (some op) =
      Ensures-bind (Found others ns named key x.now) A' (cache_get ns key x.now) _
        (cache_get-Found others ns named key x.now)
        λ c.
          Ensures-bind A A' (getex_looked_up x ns key c) _ (getex_looked_up-Answers c)
            (getex_found-Answers op)
