-- ===== src/Engine/Store/Coherent/Del.antt =====
-- del of crates/engine/src/store.rs keeps the cache in agreement for any keys, also when it fails.
use kv.Prelude.{
  ℕ, suc, ◌≡◌, Bool, true, false, List, [], ◌∷◌, Option, none, some, Bytes, bytes_eq, ok, err, map,
}
use kv.Engine.Error.{Result}
use kv.Engine.Index
use kv.Engine.Cache.Remove
use kv.Engine.Cache.Changed.{remove-Changed}
use kv.Engine.Log.State.{NamespaceLog}
use kv.Engine.Log.Placed.{Dropped, tombstone_key-Dropped}
use kv.Engine.Store.{Ctx, Shard, lift, ◌>>=◌, on_log, with_log, cache_remove, notify}
use kv.Engine.Store.Names.{is_valid_ns_name, cache_key}
use kv.Engine.Store.Reads.{tombstone}
use kv.Engine.Store.Deletes.{tombstone_all, remove_all, count_one, count_deleted, del_keys}
use kv.Engine.Store.Ensures.{Post, Ensures, Ensures-pure, Ensures-bind}
use kv.Engine.Store.Coherent.{Coherent, AllBut, log-AllBut, cache-AllBut}

module _ (others : Bytes → Option NamespaceLog) (x : Ctx) (ns : Bytes)
    (named : is_valid_ns_name ns ≡ true) where
  -- The keys of the cache that are those of none of `keys`.
  abbrev Clear : List Bytes → Bytes → Type 0
  Clear [] ck = Unit
  Clear (key ∷ keys) ck = (bytes_eq ck (cache_key ns key) ≡ false) × Clear keys ck

  dropped :
      (all : List Bytes) (key : Bytes) (i : ℕ)
      → ((ck : Bytes) → Clear all ck → bytes_eq ck (cache_key ns key) ≡ false)
      → (s : Shard) → AllBut others ns (Clear all) s
      → (r : NamespaceLog × Result (Option ℕ)) → Dropped x.deps (x.log_env i) s.log key r
      → AllBut others ns (Clear all) (with_log s r).0
  dropped all key i apart s h (log', ok r) p =
      log-AllBut others ns key s (Clear all) apart log' p.0 h
  dropped all key i apart s h (log', err e) p =
      log-AllBut others ns key s (Clear all) apart log' p h

  tombstone_all-AllBut :
      (all keys : List Bytes) (i : ℕ)
      → ((ck : Bytes) → Clear all ck → Clear keys ck)
      → (s : Shard) → AllBut others ns (Clear all) s
      → AllBut others ns (Clear all) (tombstone_all x ns i keys s).0
  unfolding tombstone_all
  tombstone_all-AllBut all [] i within s h = h
  tombstone_all-AllBut all (key ∷ keys) i within s h =
      tombstone_all-AllBut all keys (suc i) (λ ck c. (within ck c).1) (tombstone x ns i key s).0
        (unfold on_log in
          dropped all key i (λ ck c. (within ck c).0) s h _
            (tombstone_key-Dropped x.deps (x.log_env i) s.log key))

  removed :
      (key : Bytes) (keys : List Bytes)
      → Ensures
          (Coherent others ns)
          (AllBut others ns (Clear (key ∷ keys)))
          (cache_remove ns key)
          (λ _. AllBut others ns (Clear keys))
  unfolding cache_remove
  removed key keys = record {
    at = λ s h.
        cache-AllBut others ns key s (Clear (key ∷ keys)) (Clear keys) (λ ck c other. (other, c))
          (Remove.remove s.cache (cache_key ns key)) (remove-Changed s.cache h.0 (cache_key ns key))
          h;
  }

  remove_all-Coherent :
      (keys : List Bytes)
      → Ensures
          (Coherent others ns)
          (AllBut others ns (Clear keys))
          (remove_all x ns keys)
          (λ _. Coherent others ns)
  unfolding remove_all
  remove_all-Coherent [] =
      Ensures-pure (λ _. Coherent others ns) tt (λ s h. (h.0, λ n k name. h.1 n k name tt))
  remove_all-Coherent (key ∷ keys) =
      Ensures-bind (λ _. AllBut others ns (Clear keys)) (λ _. Coherent others ns)
        (cache_remove ns key) _ (removed key keys) (λ _. remove_all-Coherent keys)

  counted_one :
      (key : Bytes) (expired : Bool) (r : Option ℕ) (count : ℕ)
      → Ensures
          (Coherent others ns)
          (Coherent others ns)
          (count_one x ns key expired r count)
          (λ _. Coherent others ns)
  unfolding notify ◌>>=◌
  counted_one key expired none count = record { at = λ s h. h }
  counted_one key true (some rev) count = record { at = λ s h. h }
  counted_one key false (some rev) count = record { at = λ s h. h }

  count_deleted-Coherent :
      (keys : List (Bytes × Bool)) (rs : List (Result (Option ℕ))) (count : ℕ)
      → Ensures
          (Coherent others ns)
          (Coherent others ns)
          (count_deleted x ns keys rs count)
          (λ _. Coherent others ns)
  unfolding count_deleted
  count_deleted-Coherent [] rs count = Ensures-pure (λ _. Coherent others ns) count (λ s h. h)
  count_deleted-Coherent (k ∷ keys) [] count =
      Ensures-pure (λ _. Coherent others ns) count (λ s h. h)
  count_deleted-Coherent ((key, expired) ∷ keys) (r ∷ rs) count =
      Ensures-bind (λ _. Coherent others ns) (λ _. Coherent others ns) (lift r) _
        (record { at = lifted r })
        λ tomb.
          Ensures-bind (λ _. Coherent others ns) (λ _. Coherent others ns)
            (count_one x ns key expired tomb count) _ (counted_one key expired tomb count)
            (count_deleted-Coherent keys rs)
    where
      lifted :
          (r : Result (Option ℕ)) (s : Shard)
          → Coherent others ns s
          → Post (Coherent others ns) (λ _. Coherent others ns) (lift r s)
      lifted (ok a) s h = h
      lifted (err e) s h = h

  pub del_keys-Coherent :
      (keys : List Bytes)
      → Ensures
          (Coherent others ns)
          (Coherent others ns)
          (del_keys x ns keys)
          (λ _. Coherent others ns)
  unfolding del_keys
  del_keys-Coherent keys = record {
    at = λ s h.
        let (s1, rs) = tombstone_all x ns 0 keys s in
        let expired = map (λ k. (k, Index.is_expired s.log.index k x.now)) keys in
        (Ensures-bind (λ _. Coherent others ns) (λ _. Coherent others ns) (remove_all x ns keys) _
            (remove_all-Coherent keys) (λ _. count_deleted-Coherent expired rs 0)).at
          s1 (tombstone_all-AllBut keys keys 0 (λ ck c. c) s (h.0, λ n k name _. h.1 n k name));
  }
