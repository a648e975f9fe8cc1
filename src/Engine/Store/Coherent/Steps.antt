-- ===== src/Engine/Store/Coherent/Steps.antt =====
-- What the calls of the log in crates/engine/src/store.rs do to the agreement with the cache.
use kv.Prelude.{
  ℕ, ◌≡◌, refl, sym, ap, subst, Bool, leb, false, ◌∙◌, true, Option, none, some, Bytes, ok, err,
}
use kv.Engine.Error.{Result}
use kv.Engine.Log.State.{NamespaceLog}
use kv.Engine.Log.Write.{WriteCondition, check, live_rev}
use kv.Engine.Log.Delete.{tombstone_cond}
use kv.Engine.Log.Revisions.{revision_of}
use kv.Engine.Log.Placed.{
  Elsewhere, Has, Placed, PlacedIf, put_full-Placed, put_full_cond-PlacedIf, Dropped, DroppedIf,
  tombstone_key-Dropped, tombstone_cond-DroppedIf, Expires, ttl_update_key-Expires,
}
use kv.Engine.Index
use kv.Engine.Store.{Shard, Ctx, WatchEvent, on_log, with_log, has_expired, cache_remove, notify}
use kv.Engine.Store.Names.{is_valid_ns_name}
use kv.Engine.Store.Reads.{tombstone, ttl_update}
use kv.Engine.Store.Writes.{put, put_cond}
use kv.Engine.Store.Ensures.{Post, Ensures, Ensures-frame}
use kv.Engine.Store.Coherent.{
  Coherent, Except, Indexed, log-Except, Coherent→Except, cache_remove-Coherent, notify-Coherent,
}

module _ (others : Bytes → Option NamespaceLog) (x : Ctx) (ns : Bytes)
    (named : is_valid_ns_name ns ≡ true) (key : Bytes) where
  abbrev F : Shard → Type 0
  F = Except others ns key

  abbrev C : Shard → Type 0
  C = Coherent others ns

  moved :
      (s : Shard) (log' : NamespaceLog)
      → C s
      → Elsewhere key s.log.index log'.index
      → F (record s { log = log' })
  moved s log' h e = log-Except others ns key s log' e (Coherent→Except others ns key s h)

  module _ (value meta : Bytes) (expires : Option ℕ) where
    wrote :
        (s : Shard) (i : ℕ)
        → C s
        → (r : NamespaceLog × Result ℕ) → Placed x.deps (x.log_env i) s.log key expires r
        → Post F (Indexed others ns named key expires) (with_log s r)
    wrote s i h (log', ok rev) p = (moved s log' h p.0, p.1)
    wrote s i h (log', err e) p = moved s log' h p

    pub put-Indexed :
        (i : ℕ)
        → Ensures F C (put x ns i key value meta expires) (Indexed others ns named key expires)
    unfolding on_log
    put-Indexed i = record {
      at = λ s h. wrote s i h _ (put_full-Placed x.deps (x.log_env i) s.log key value meta expires);
    }

    -- A conditional write that is not made leaves the agreement.
    abbrev pub IndexedIf : Option ℕ → Shard → Type 0
    IndexedIf none = C
    IndexedIf (some rev) = Indexed others ns named key expires rev

    wrote_if :
        (s : Shard) (i : ℕ) (cond : WriteCondition)
        → C s
        → (r : NamespaceLog × Result (Option ℕ))
        → PlacedIf x.deps (x.log_env i) s.log key value meta expires cond x.now r
        → Post F IndexedIf (with_log s r)
    wrote_if s i cond h (log', ok none) p = subst (λ l. C (record s { log = l })) (sym p.0) h
    wrote_if s i cond h (log', ok (some rev)) p = (moved s log' h p.0.0, p.0.1)
    wrote_if s i cond h (log', err e) p = moved s log' h p

    pub put_cond-IndexedIf :
        (i : ℕ) (cond : WriteCondition)
        → Ensures F C (put_cond x ns i key value meta expires cond) IndexedIf
    unfolding on_log
    put_cond-IndexedIf i cond = record {
      at = λ s h.
          wrote_if s i cond h _
            (put_full_cond-PlacedIf x.deps (x.log_env i) s.log key value meta expires cond x.now);
    }

    -- A conditional write whose condition holds is made.
    abbrev pub Made : Option ℕ → Shard → Type 0
    Made none s = ⊥
    Made (some rev) s = Indexed others ns named key expires rev s

    abbrev pub Holds : WriteCondition → NamespaceLog → Type 0
    Holds cond log = check cond (live_rev log.index key x.now) ≡ true

    made :
        (s : Shard) (i : ℕ) (cond : WriteCondition)
        → C s
        → Holds cond s.log
        → (r : NamespaceLog × Result (Option ℕ))
        → PlacedIf x.deps (x.log_env i) s.log key value meta expires cond x.now r
        → Post F Made (with_log s r)
    made s i cond h holds (log', ok none) p = cc
    made s i cond h holds (log', ok (some rev)) p = (moved s log' h p.0.0, p.0.1)
    made s i cond h holds (log', err e) p = moved s log' h p

    pub put_cond-Made :
        (i : ℕ) (cond : WriteCondition)
        → Ensures F (λ s. C s × Holds cond s.log) (put_cond x ns i key value meta expires cond) Made
    unfolding on_log
    put_cond-Made i cond = record {
      at = λ s h.
          made s i cond h.0 h.1 _
            (put_full_cond-PlacedIf x.deps (x.log_env i) s.log key value meta expires cond x.now);
    }

  -- The revision of the key in the index, which is live.
  abbrev pub Says : Option ℕ → NamespaceLog → Type 0
  Says r log = (revision_of log.index key ≡ r) × (live_rev log.index key x.now ≡ r)

  is_expired_lem :
      (log : NamespaceLog)
      → Index.is_expired log.index key x.now ≡ has_expired (Index.ttl_of log.index key) x.now
  unfolding Index.is_expired
  is_expired_lem log = either (Index.ttl_of log.index key)
    where
      either :
          (o : Option ℕ)
          → (elim o as (λ _. Bool) [ some ms ↦ leb ms x.now | none ↦ false ]) ≡ has_expired o x.now
      either none = refl
      either (some ms) = refl

  pub Has-Says :
      (log : NamespaceLog) (r expires : Option ℕ)
      → Has log.index key r expires
      → has_expired expires x.now ≡ false
      → Says r log
  unfolding live_rev
  Has-Says log r expires (e, y) fresh =
      (e, rw (is_expired_lem log ∙ ap (λ o. has_expired o x.now) y ∙ fresh) e)

  -- The key has left the index.
  abbrev pub Gone : Shard → Type 0
  Gone s = F s × Says none s.log

  dropped :
      (s : Shard) (i : ℕ)
      → C s
      → (r : NamespaceLog × Result (Option ℕ)) → Dropped x.deps (x.log_env i) s.log key r
      → Post F (λ _. Gone) (with_log s r)
  dropped s i h (log', ok r) p = (moved s log' h p.0, Has-Says log' none none p.1 refl)
  dropped s i h (log', err e) p = moved s log' h p

  pub tombstone-Gone : (i : ℕ) → Ensures F C (tombstone x ns i key) (λ _. Gone)
  unfolding on_log
  tombstone-Gone i = record {
    at = λ s h. dropped s i h _ (tombstone_key-Dropped x.deps (x.log_env i) s.log key);
  }

  abbrev pub ExceptIf : Option ℕ → Shard → Type 0
  ExceptIf none = C
  ExceptIf (some rev) = F

  dropped_if :
      (s : Shard) (i : ℕ)
      → C s
      → (r : NamespaceLog × Result (Option ℕ)) → DroppedIf x.deps (x.log_env i) s.log key r
      → Post F ExceptIf (with_log s r)
  dropped_if s i h (log', ok none) p = subst (λ l. C (record s { log = l })) (sym p) h
  dropped_if s i h (log', ok (some r)) p = moved s log' h p.0
  dropped_if s i h (log', err e) p = moved s log' h p

  pub tombstone_cond-ExceptIf :
      (rev : ℕ)
      → Ensures F C (on_log (λ log. tombstone_cond x.deps (x.log_env 0) log key rev x.now)) ExceptIf
  unfolding on_log
  tombstone_cond-ExceptIf rev = record {
    at = λ s h.
        dropped_if s 0 h _ (tombstone_cond-DroppedIf x.deps (x.log_env 0) s.log key rev x.now);
  }

  -- The index has that revision for the key.
  abbrev pub Rev : Option ℕ → NamespaceLog → Type 0
  Rev r log = revision_of log.index key ≡ r

  expired :
      (s : Shard) (i : ℕ) (expires r : Option ℕ)
      → C s
      → Rev r s.log
      → (o : NamespaceLog × Result ℕ) → Expires x.deps (x.log_env i) s.log key expires o
      → Post F (λ _ s'. F s' × Rev r s'.log) (with_log s o)
  expired s i expires r h e (log', ok _) p = (moved s log' h p.0, p.1.0 ∙ e)
  expired s i expires r h e (log', err _) p = moved s log' h (λ k other.
      subst
        (λ (j : Index.NsIndex).
          (revision_of j k ≡ revision_of s.log.index k)
          × (Index.ttl_of j k ≡ Index.ttl_of s.log.index k))
        (sym p) (refl, refl))

  pub ttl_update-Except :
      (i : ℕ) (expires r : Option ℕ)
      → Ensures F
          (λ s. C s × Rev r s.log)
          (ttl_update x ns i key expires)
          (λ _ s. F s × Rev r s.log)
  unfolding on_log
  ttl_update-Except i expires r = record {
    at = λ s h.
        expired s i expires r h.0 h.1 _
          (ttl_update_key-Expires x.deps (x.log_env i) s.log key expires);
  }

  -- What the steps on the cache and the watchers leave of the log.
  module _ (R : NamespaceLog → Type 0) where
    pub removed : Ensures F (λ s. F s × R s.log) (cache_remove ns key) (λ _ s. C s × R s.log)
    unfolding cache_remove
    removed =
        Ensures-frame F F (λ s. s.log) R (cache_remove ns key) (λ _. C) (λ s. refl)
          (cache_remove-Coherent others ns named key)

    pub notified :
        (event : WatchEvent)
        → Ensures F (λ s. C s × R s.log) (notify ns key event) (λ _ s. C s × R s.log)
    unfolding notify
    notified event =
        Ensures-frame F C (λ s. s.log) R (notify ns key event) (λ _. C) (λ s. refl)
          (notify-Coherent others ns named key event)
