-- ===== src/Engine/Store/Coherent/Incr.antt =====
-- incr of crates/engine/src/store.rs keeps the cache in agreement.
use kv.Prelude.{ℕ, zero, suc, ◌≡◌, true, [], Option, none, some, Bytes, ok, err, ok_or}
use kv.Engine.Error.{Result, invalid_input}
use kv.Engine.Index.{IndexEntry}
use kv.Engine.Log.State.{NamespaceLog}
use kv.Engine.Log.Read.{read_value}
use kv.Engine.Store.{Ctx, Shard, Exec, lift, ◌>>=◌, index_of, cache_get, cache_remove, has_expired}
use kv.Engine.Store.Names.{is_valid_ns_name}
use kv.Engine.Store.Integer.{checked_add, to_string}
use kv.Proto.Integer.{ℤ}
use kv.Engine.Store.Reads.{Hit, tombstone}
use kv.Engine.Store.Writes.{
  put_cond, publish, incr_indexed, incr_looked_up, incr_read, int_of, incr_written, incr_round,
  incr_loop, incr, next_round,
}
use kv.Engine.Store.Ensures.{
  Post, Ensures, Ensures-pure, Ensures-lift, Ensures-if, Ensures-bind, Ensures-weaken,
}
use kv.Engine.Store.Coherent.{Coherent, Except, Found, Coherent→Except, cache_get-Found}
use kv.Engine.Store.Coherent.Steps.{
  Gone, tombstone-Gone, put_cond-IndexedIf, IndexedIf, Rev, removed,
}
use kv.Engine.Store.Coherent.Writes.{Published, publish-Published}

module _ (others : Bytes → Option NamespaceLog) (x : Ctx) (ns : Bytes)
    (named : is_valid_ns_name ns ≡ true) (key : Bytes) where
  abbrev F : Shard → Type 0
  F = Except others ns key

  abbrev C : Shard → Type 0
  C = Coherent others ns

  incr_indexed-C :
      (e : Option IndexEntry × Option ℕ) → Ensures F C (incr_indexed x ns key e) (λ _. C)
  incr_indexed-C (none, expires) = Ensures-pure (λ _. C) _ (λ s h. h)
  incr_indexed-C (some e, expires) =
      Ensures-if (λ _. C) (has_expired expires x.now) _ _
        (λ _.
          Ensures-bind (λ _ s. F s × Rev others x ns named key none s.log) (λ _. C)
            (tombstone x ns 0 key) _
            (Ensures-weaken F C _ (λ _. Gone others x ns named key)
              (λ _ s. F s × Rev others x ns named key none s.log) (λ _ s h. (h.0, h.1.0))
              (tombstone-Gone others x ns named key 0))
            λ _.
              Ensures-bind (λ _ s. C s × Rev others x ns named key none s.log) (λ _. C)
                (cache_remove ns key) _
                (removed others x ns named key (Rev others x ns named key none))
                (λ _. Ensures-pure (λ _. C) _ (λ s h. h.0)))
        (λ _.
          Ensures-bind (λ _. C) (λ _. C) (λ s. lift (read_value x.deps s.log e) s) _
            (record { at = λ s h. read_at s h (read_value x.deps s.log e) })
            (λ (value, meta). Ensures-pure (λ _. C) _ (λ s h. h)))
    where
      read_at : (s : Shard) → C s → (r : Result (Bytes × Bytes)) → Post F (λ _. C) (lift r s)
      read_at s h (ok v) = h
      read_at s h (err e) = Coherent→Except others ns key s h

  incr_looked_up-C :
      (c : Option Hit)
      → Ensures F (Found others ns named key x.now c) (incr_looked_up x ns key c) (λ _. C)
  unfolding ◌>>=◌
  incr_looked_up-C (some (v, y, m, rev)) = record { at = λ s h. h.0 }
  incr_looked_up-C none = record { at = λ s h. (incr_indexed-C (index_of s key)).at s h.0 }

  lifted : {A : Type 0} (r : Result A) → Ensures F C (lift r) (λ _. C)
  lifted r =
      Ensures-weaken F C (lift r) (λ a s. C s × (r ≡ ok a)) (λ _. C) (λ _ s h. h.0)
        (Ensures-lift r (Coherent→Except others ns key))

  incr_round-C : (delta : ℤ) → Ensures F C (incr_round x ns key delta) (λ _. C)
  unfolding incr_round incr_read
  incr_round-C delta =
      Ensures-bind (λ _. C) (λ _. C) (incr_read x ns key) _
        (Ensures-bind (Found others ns named key x.now) (λ _. C) (cache_get ns key x.now) _
          (cache_get-Found others ns named key x.now) incr_looked_up-C)
        λ (current, expires, cond).
          Ensures-bind (λ _. C) (λ _. C) (lift (ok_or (int_of x ns current) invalid_input)) _
            (lifted _)
            λ n.
              Ensures-bind (λ _. C) (λ _. C) (lift (ok_or (checked_add n delta) invalid_input)) _
                (lifted _)
                λ new_val.
                  Ensures-bind (IndexedIf others x ns named key (to_string new_val) [] expires)
                    (λ _. C) (put_cond x ns 1 key (to_string new_val) [] expires cond) _
                    (put_cond-IndexedIf others x ns named key (to_string new_val) [] expires 1 cond)
                    (written new_val expires)
    where
      written :
          (new_val : ℤ) (expires r : Option ℕ)
          → Ensures F
              (IndexedIf others x ns named key (to_string new_val) [] expires r)
              (incr_written x ns key new_val expires r)
              (λ _. C)
      written new_val expires none = Ensures-pure (λ _. C) none (λ s h. h)
      written new_val expires (some rev) =
          Ensures-bind (λ _. Published others x ns named key rev) (λ _. C)
            (publish x ns key (to_string new_val) expires none 0 rev) _
            (publish-Published others x ns named key (to_string new_val) expires none 0 rev)
            (λ _. Ensures-pure (λ _. C) (some new_val) (λ s h. h.0))

module _ (others : Bytes → Option NamespaceLog) (xs : ℕ → Ctx) (ns : Bytes)
    (named : is_valid_ns_name ns ≡ true) (key : Bytes) (delta : ℤ) where
  next-Coherent :
      (again : Exec ℤ)
      → Ensures (Except others ns key) (Coherent others ns) again (λ _. Coherent others ns)
      → (r : Option ℤ)
      → Ensures
          (Except others ns key)
          (Coherent others ns)
          (next_round xs ns r again)
          (λ _. Coherent others ns)
  next-Coherent again h none = h
  next-Coherent again h (some n) = Ensures-pure (λ _. Coherent others ns) n (λ s c. c)

  incr_loop-Coherent :
      (left : ℕ)
      → Ensures
          (Except others ns key)
          (Coherent others ns)
          (incr_loop xs ns left key delta)
          (λ _. Coherent others ns)
  unfolding incr_loop
  incr_loop-Coherent zero = record { at = Coherent→Except others ns key }
  incr_loop-Coherent (suc left) =
      Ensures-bind (λ _. Coherent others ns) (λ _. Coherent others ns)
        (incr_round (xs left) ns key delta) _ (incr_round-C others (xs left) ns named key delta)
        (next-Coherent (incr_loop xs ns left key delta) (incr_loop-Coherent left))

  pub incr-Coherent :
      Ensures
        (Except others ns key)
        (Coherent others ns)
        (incr xs ns key delta)
        (λ _. Coherent others ns)
  unfolding incr
  incr-Coherent = incr_loop-Coherent 64
