-- ===== src/Engine/Store/Coherent/Operations.antt =====
-- Every operation of a ShardStore of crates/engine/src/store.rs keeps the cache in agreement with the
-- indexes of all namespaces.
use kv.Prelude.{ℕ, ◌≡◌, true, false, Option, Bytes}
use kv.Engine.Log.State.{NamespaceLog}
use kv.Engine.Store.{Shard, Ctx, Exec}
use kv.Engine.Store.Names.{is_valid_ns_name}
use kv.Engine.Store.Reads
use kv.Engine.Store.Reads.{ttl_raw, in_seconds}
use kv.Engine.Store.Shards.{
  Operation, get, getex, ttl, pttl, exists, db_size, set, setnx, setxx, setrev, getset, incr, del,
  delrev, getdel, expire, persist, flush_db, done, perform,
}
use kv.Engine.Store.Ensures.{
  Ensures, Ensures-pure, Ensures-bind, Ensures-weaken, Anything, Ensures-Anything,
}
use kv.Engine.Store.Coherent.{Coherent, Except}
use kv.Engine.Store.Coherent.Reads.{get-Answers}
use kv.Engine.Store.Coherent.Expiry.{getex-Answers}
use kv.Engine.Store.Coherent.Writes.{
  set_key-Coherent, set_conditional-Coherent, setrev-PublishedIf, PublishedIf→C, getset-Coherent,
}
use kv.Engine.Store.Coherent.Deletes.{
  expire-Coherent, persist-Coherent, ttl_raw-Coherent, delrev-Coherent, getdel-Coherent,
}
use kv.Engine.Store.Coherent.Del.{del_keys-Coherent}
use kv.Engine.Store.Coherent.Incr.{incr-Coherent}
use kv.Engine.Store.Coherent.Flush.{flush_db-Coherent}

module _ (others : Bytes → Option NamespaceLog) (x : Ctx) (ns : Bytes)
    (named : is_valid_ns_name ns ≡ true) where
  abbrev C : Shard → Type 0
  C = Coherent others ns

  -- A method that keeps the agreement, with its result put aside.
  kept :
      {A : Type 0} (F : Shard → Type 0) (m : Exec A) (Q : A → Shard → Type 0)
      → ((a : A) (s : Shard) → Q a s → C s)
      → Ensures F C m Q
      → Ensures Anything C (done m) (λ _. C)
  kept F m Q agrees h =
      Ensures-bind (λ _. C) (λ _. C) m _
        (Ensures-Anything F C m (λ _. C) (Ensures-weaken F C m Q (λ _. C) agrees h))
        (λ _. Ensures-pure (λ _. C) tt (λ s c. c))

  ttl-C : (key : Bytes) → Ensures (Except others ns key) C (Reads.ttl x ns key) (λ _. C)
  unfolding Reads.ttl
  ttl-C key =
      Ensures-bind (λ _. C) (λ _. C) (ttl_raw x ns key) _ (ttl_raw-Coherent others x ns named key)
        (λ r. Ensures-pure (λ _. C) (in_seconds x ns r) (λ s h. h))

  pttl-C : (key : Bytes) → Ensures (Except others ns key) C (Reads.pttl x ns key) (λ _. C)
  unfolding Reads.pttl
  pttl-C key = ttl_raw-Coherent others x ns named key

  pub perform-Coherent : (op : Operation) → Ensures Anything C (perform x ns op) (λ _. C)
  unfolding perform Reads.exists Reads.db_size
  perform-Coherent (get key) = kept _ _ _ (λ _ s h. h.0) (get-Answers others x ns named key)
  perform-Coherent (getex key op) =
      kept _ _ _ (λ _ s h. h.0) (getex-Answers others x ns named key op)
  perform-Coherent (ttl key) = kept (Except others ns key) _ (λ _. C) (λ _ s h. h) (ttl-C key)
  perform-Coherent (pttl key) = kept (Except others ns key) _ (λ _. C) (λ _ s h. h) (pttl-C key)
  perform-Coherent (exists keys) =
      kept {A = ℕ} C (Reads.exists x ns keys) (λ _. C) (λ _ s h. h) (record { at = λ s h. h })
  perform-Coherent db_size =
      kept {A = ℕ} C (Reads.db_size x ns) (λ _. C) (λ _ s h. h) (record { at = λ s h. h })
  perform-Coherent (set key value opts) =
      kept _ _ _ (λ _ s h. h) (set_key-Coherent others x ns named key value opts)
  perform-Coherent (setnx key value opts) =
      kept _ _ _ (λ _ s h. h) (set_conditional-Coherent others x ns named key value opts false)
  perform-Coherent (setxx key value opts) =
      kept _ _ _ (λ _ s h. h) (set_conditional-Coherent others x ns named key value opts true)
  perform-Coherent (setrev key value opts rev) =
      kept _ _ _ (PublishedIf→C others x ns named key)
        (setrev-PublishedIf others x ns named key value opts rev)
  perform-Coherent (getset key value) =
      kept _ _ _ (λ _ s h. h) (getset-Coherent others x ns named key value)
  perform-Coherent (incr xs key delta) =
      kept _ _ _ (λ _ s h. h) (incr-Coherent others xs ns named key delta)
  perform-Coherent (del keys) = kept _ _ _ (λ _ s h. h) (del_keys-Coherent others x ns named keys)
  perform-Coherent (delrev key rev) =
      kept _ _ _ (λ _ s h. h) (delrev-Coherent others x ns named key rev)
  perform-Coherent (getdel key) = kept _ _ _ (λ _ s h. h) (getdel-Coherent others x ns named key)
  perform-Coherent (expire key d) =
      kept _ _ _ (λ _ s h. h) (expire-Coherent others x ns named key d)
  perform-Coherent (persist key) = kept _ _ _ (λ _ s h. h) (persist-Coherent others x ns named key)
  perform-Coherent (flush_db env) = kept _ _ _ (λ _ s h. h) (flush_db-Coherent others x ns env)
