-- ===== src/Engine/Store/Coherent/Writes.antt =====
-- The writes of crates/engine/src/store.rs keep the cache in agreement.
use kv.Prelude.{ℕ, ◌≡◌, Bool, true, [], Option, none, some, if◌then◌else◌, Bytes, ok, err, length}
use kv.Engine.Error.{Result}
use kv.Engine.Log.State.{NamespaceLog}
use kv.Engine.Log.Write.{WriteCondition, key_absent, key_present, revision}
use kv.Engine.Store.{
  SetOptions, set, Ctx, Shard, lift, ◌>>=◌, upsert_cache, meta_bytes, expiry_of_ttl,
}
use kv.Engine.Store.Names.{is_valid_ns_name}
use kv.Engine.Store.Reads.{get_inline}
use kv.Engine.Store.Writes.{
  put, put_cond, publish, set_expiry, set_key, published, was_written, set_conditional, setrev,
  getset,
}
use kv.Engine.Store.Ensures.{
  Post, Ensures, Ensures-pure, Ensures-gets, Ensures-lift, Ensures-if, Ensures-bind, Ensures-frame,
  Ensures-weaken,
}
use kv.Engine.Store.Coherent.{
  Coherent, Except, Indexed, Coherent→Except, upsert_cache-Coherent, upsert_cache-log,
}
use kv.Engine.Store.Coherent.Steps.{put-Indexed, put_cond-IndexedIf, IndexedIf, Rev, notified}
use kv.Engine.Store.Coherent.Reads.{Answers}
use kv.Engine.Store.Coherent.Expiry.{get_inline-Answers}

module _ (others : Bytes → Option NamespaceLog) (x : Ctx) (ns : Bytes)
    (named : is_valid_ns_name ns ≡ true) (key : Bytes) where
  abbrev F : Shard → Type 0
  F = Except others ns key

  abbrev C : Shard → Type 0
  C = Coherent others ns

  -- After a write: the cache agrees, and the index has the revision that the write returned.
  abbrev pub Published : ℕ → Shard → Type 0
  Published rev s = C s × Rev others x ns named key (some rev) s.log

  module _ (value : Bytes) (expires : Option ℕ) (metadata : Option Bytes) (len rev : ℕ) where
    upserted-Published :
        Ensures F
          (λ s.
            Indexed others ns named key expires rev s × Rev others x ns named key (some rev) s.log)
          (upsert_cache ns key value expires metadata len rev)
          (λ _. Published rev)
    upserted-Published =
        Ensures-frame F (Indexed others ns named key expires rev) (λ s. s.log)
          (Rev others x ns named key (some rev))
          (upsert_cache ns key value expires metadata len rev) (λ _. C)
          (λ s. upsert_cache-log ns key value expires metadata len rev s)
          (upsert_cache-Coherent others ns named key value expires metadata len rev)

    pub publish-Published :
        Ensures F
          (Indexed others ns named key expires rev)
          (publish x ns key value expires metadata len rev)
          (λ _. Published rev)
    unfolding publish
    publish-Published =
        Ensures-bind (λ _. Published rev) (λ _. Published rev)
          (upsert_cache ns key value expires metadata len rev) _
          (record { at = λ s h. upserted-Published.at s (h, h.1.0) })
          (λ _.
            notified others x ns named key (Rev others x ns named key (some rev))
              (set key value metadata expires rev))

  set_expiry-C : (opts : SetOptions) → Ensures F C (set_expiry x ns key opts) (λ _. C)
  unfolding set_expiry
  set_expiry-C opts =
      Ensures-if (λ _. C) opts.keep_ttl _ _ (λ _. Ensures-gets (λ _. C) _ (λ s h. h))
        (λ _. record { at = λ s h. expiry_at s h (expiry_of_ttl opts.ttl x.now) })
    where
      expiry_at : (s : Shard) → C s → (r : Result (Option ℕ)) → Post F (λ _. C) (lift r s)
      expiry_at s h (ok e) = h
      expiry_at s h (err e) = Coherent→Except others ns key s h

  -- set
  pub set_key-Coherent :
      (value : Bytes) (opts : SetOptions) → Ensures F C (set_key x ns key value opts) (λ _. C)
  unfolding set_key
  set_key-Coherent value opts =
      Ensures-bind (λ _. C) (λ _. C) (set_expiry x ns key opts) _ (set_expiry-C opts)
        λ expires.
          Ensures-bind (Indexed others ns named key expires) (λ _. C)
            (put x ns 0 key value (meta_bytes x.json opts.metadata) expires) _
            (put-Indexed others x ns named key value (meta_bytes x.json opts.metadata) expires 0)
            λ rev.
              Ensures-weaken F _ _ (λ _. Published rev) (λ _. C) (λ _ s h. h.0)
                (publish-Published value expires opts.metadata
                  (length (meta_bytes x.json opts.metadata)) rev)

  -- The end of a conditional write, which was made with the revision or not.
  abbrev pub PublishedIf : Option ℕ → Shard → Type 0
  PublishedIf none = C
  PublishedIf (some rev) = Published rev

  pub PublishedIf→C : (r : Option ℕ) (s : Shard) → PublishedIf r s → C s
  PublishedIf→C none s h = h
  PublishedIf→C (some rev) s h = h.0

  published-If :
      (value : Bytes) (expires : Option ℕ) (metadata : Option Bytes) (r : Option ℕ)
      → Ensures F
          (IndexedIf others x ns named key value (meta_bytes x.json metadata) expires r)
          (published x ns key value expires metadata r)
          PublishedIf
  published-If value expires metadata none = Ensures-pure PublishedIf none (λ s h. h)
  published-If value expires metadata (some rev) =
      Ensures-bind (λ _. Published rev) PublishedIf
        (publish x ns key value expires metadata (length (meta_bytes x.json metadata)) rev) _
        (publish-Published value expires metadata (length (meta_bytes x.json metadata)) rev)
        (λ _. Ensures-pure PublishedIf (some rev) (λ s h. h))

  -- A conditional write, from its expiry on.
  write_if :
      (value : Bytes) (expires : Option ℕ) (metadata : Option Bytes) (cond : WriteCondition)
      → Ensures F C
          (put_cond x ns 0 key value (meta_bytes x.json metadata) expires cond >>= λ r.
            published x ns key value expires metadata r)
          PublishedIf
  write_if value expires metadata cond =
      Ensures-bind (IndexedIf others x ns named key value (meta_bytes x.json metadata) expires)
        PublishedIf (put_cond x ns 0 key value (meta_bytes x.json metadata) expires cond) _
        (put_cond-IndexedIf others x ns named key value (meta_bytes x.json metadata) expires 0 cond)
        (published-If value expires metadata)

  pub set_conditional-Coherent :
      (value : Bytes) (opts : SetOptions) (require_live : Bool)
      → Ensures F C (set_conditional x ns key value opts require_live) (λ _. C)
  unfolding set_conditional
  set_conditional-Coherent value opts require_live =
      Ensures-bind (λ _. C) (λ _. C) (set_expiry x ns key opts) _ (set_expiry-C opts)
        λ expires.
          Ensures-bind
            (IndexedIf others x ns named key value (meta_bytes x.json opts.metadata) expires)
            (λ _. C)
            (put_cond x ns 0 key value (meta_bytes x.json opts.metadata) expires
              (if require_live then key_present else key_absent))
            _
            (put_cond-IndexedIf others x ns named key value (meta_bytes x.json opts.metadata)
              expires 0 (if require_live then key_present else key_absent))
            λ r.
              Ensures-bind PublishedIf (λ _. C) (published x ns key value expires opts.metadata r) _
                (published-If value expires opts.metadata r)
                (λ r'. Ensures-pure (λ _. C) (was_written x ns r') (λ s h. PublishedIf→C r' s h))

  pub setrev-PublishedIf :
      (value : Bytes) (opts : SetOptions) (expected_rev : ℕ)
      → Ensures F C (setrev x ns key value opts expected_rev) PublishedIf
  unfolding setrev
  setrev-PublishedIf value opts expected_rev =
      Ensures-bind (λ _. C) PublishedIf (lift (expiry_of_ttl opts.ttl x.now)) _
        (Ensures-weaken F C _ (λ e s. C s × (expiry_of_ttl opts.ttl x.now ≡ ok e)) (λ _. C)
          (λ _ s h. h.0)
          (Ensures-lift (expiry_of_ttl opts.ttl x.now) (Coherent→Except others ns key)))
        (λ expires. write_if value expires opts.metadata (revision expected_rev))

  pub getset-Coherent : (value : Bytes) → Ensures F C (getset x ns key value) (λ _. C)
  unfolding getset
  getset-Coherent value =
      Ensures-bind (λ _. C) (λ _. C) (get_inline x ns key) _
        (Ensures-weaken F C _ (Answers others x ns named key) (λ _. C) (λ _ s h. h.0)
          (get_inline-Answers others x ns named key))
        λ old.
          Ensures-bind (Indexed others ns named key none) (λ _. C) (put x ns 1 key value [] none) _
            (put-Indexed others x ns named key value [] none 1)
            λ rev.
              Ensures-bind (λ _. Published rev) (λ _. C) (publish x ns key value none none 0 rev) _
                (publish-Published value none none 0 rev)
                (λ _. Ensures-pure (λ _. C) old (λ s h. h.0))
