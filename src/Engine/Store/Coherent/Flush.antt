-- ===== src/Engine/Store/Coherent/Flush.antt =====
-- `flush_db` of crates/engine/src/store.rs keeps the cache in agreement.
use kv.Prelude.{
  ℕ, ◌≡◌, refl, ap, sym, subst, ◌∙◌, Bool, true, false, List, [], ◌∷◌, ◌++◌, Option, none, some,
  inl, inr, if◌then◌else◌, Bool-cases, Bytes, bytes_eq, eq_of_bytes_eq, starts_with, ok, err, arith,
}
use kv.Engine.Error.{Result}
use kv.Engine.Cache.Valid.{IsValid, Content, content}
use kv.Engine.Cache.Remove.{remove_by_prefix, remove_by_prefix-IsValid, get-remove_by_prefix}
use kv.Engine.Log.State.{NamespaceLog}
use kv.Engine.Log.Flush.{FlushEnv, flush}
use kv.Engine.Store.{Shard, Ctx, del, gets, ◌>>=◌, on_log, with_log, notify}
use kv.Engine.Store.Names.{is_valid_ns_name, cache_key}
use kv.Engine.Store.Flush.{live_in, notify_deleted, drop_cached, clear_values, flush_db}
use kv.Engine.Store.Ensures.{
  Post, Ensures, Ensures-pure, Ensures-gets, Ensures-bind, Ensures-weaken,
}
use kv.Engine.Store.Coherent.{Cached, CachedAt, Coherent}

pub Cached-none :
    (log : Option NamespaceLog) (k : Bytes) (c : Option Content) → Cached none k c → Cached log k c
Cached-none log k none h = tt
Cached-none log k (some c) h = absurd h

starts_with-append : (a b : Bytes) → starts_with (a ++ b) a ≡ true
unfolding starts_with
starts_with-append [] b = refl
starts_with-append (c ∷ a) b = ground (arith, starts_with-append a b)

starts_with-cache_key : (ns k : Bytes) → starts_with (cache_key ns k) (ns ++ 0 ∷ []) ≡ true
unfolding starts_with cache_key
starts_with-cache_key [] k = ground arith
starts_with-cache_key (c ∷ ns) k = ground (arith, starts_with-cache_key ns k)

module _ (others : Bytes → Option NamespaceLog) (x : Ctx) (ns : Bytes) where
  abbrev C : Shard → Type 0
  C = Coherent others ns

  -- The cache has nothing of the namespace, whatever its log, and agrees with the others.
  abbrev Emptied : Shard → Type 0
  Emptied s =
      IsValid s.cache
      × ((n k : Bytes)
          → is_valid_ns_name n ≡ true
          → CachedAt (λ j. if bytes_eq j ns then none else others j) s.cache n k)

  Emptied→Coherent : (s : Shard) → Emptied s → C s
  Emptied→Coherent s (v, h) = (
    v,
    λ n k name. elim (Bool-cases (bytes_eq n ns)) [
      | inl this ↦ rw this (
          Cached-none (some s.log) k (content s.cache.entries (cache_key n k))
            (rw this at (h n k name)))
      | inr that ↦ rw that (rw that at (h n k name))
    ],
  )

  -- What is left in the cache of a key.
  content-dropped :
      (s : Shard) (ck : Bytes)
      → IsValid s.cache
      → content (remove_by_prefix s.cache (ns ++ 0 ∷ [])).entries ck
        ≡ (if starts_with ck (ns ++ 0 ∷ []) then none else content s.cache.entries ck)
  content-dropped s ck v = ground (arith, get-remove_by_prefix s.cache ck (ns ++ 0 ∷ []) v.sorted)

  Cached-if :
      (log : Option NamespaceLog) (k : Bytes) (c : Option Content) (b : Bool)
      → Cached log k c
      → Cached log k (if b then none else c)
  Cached-if log k c true h = tt
  Cached-if log k c false h = h

  drop_cached-Emptied : Ensures C C (drop_cached x ns) (λ _. Emptied)
  unfolding drop_cached
  drop_cached-Emptied = record {
    at = λ s (v, h). (
      remove_by_prefix-IsValid s.cache v (ns ++ 0 ∷ []),
      λ n k name. elim (Bool-cases (bytes_eq n ns)) [
        | inl this ↦
            let prefixed : starts_with (cache_key n k) (ns ++ 0 ∷ []) ≡ true =
              ap (λ m. starts_with (cache_key m k) (ns ++ 0 ∷ [])) (eq_of_bytes_eq n ns this)
              ∙ starts_with-cache_key ns k in
            let gone : content (remove_by_prefix s.cache (ns ++ 0 ∷ [])).entries (cache_key n k)
                ≡ none =
              content-dropped s (cache_key n k) v ∙ rw prefixed refl in
            subst (Cached (if bytes_eq n ns then none else others n) k) (sym gone) tt
        | inr that ↦ rw that (
            subst (Cached (others n) k) (sym (content-dropped s (cache_key n k) v)) (
              Cached-if (others n) k (content s.cache.entries (cache_key n k))
                (starts_with (cache_key n k) (ns ++ 0 ∷ [])) (rw that at (h n k name))))
      ],
    );
  }

  notify_deleted-Emptied :
      (rev : ℕ) (keys : List Bytes)
      → Ensures C Emptied (notify_deleted x ns rev keys) (λ _. Emptied)
  unfolding notify_deleted notify
  notify_deleted-Emptied rev [] = Ensures-pure (λ _. Emptied) tt (λ s h. h)
  notify_deleted-Emptied rev (key ∷ keys) =
      Ensures-bind (λ _. Emptied) (λ _. Emptied) (notify ns key (del key rev)) _
        (record { at = λ s h. h }) (λ _. notify_deleted-Emptied rev keys)

  flushed :
      (s : Shard) → Emptied s → (r : NamespaceLog × Result ℕ) → Post C (λ _. Emptied) (with_log s r)
  flushed s h (log', ok rev) = h
  flushed s h (log', err e) = Emptied→Coherent (record s { log = log' }) h

  flush-Emptied : (env : FlushEnv) → Ensures C Emptied (on_log (flush env)) (λ _. Emptied)
  unfolding on_log
  flush-Emptied env = record { at = λ s h. flushed s h (flush env s.log) }

  clear_values-Emptied : Ensures C Emptied (clear_values x ns) (λ _. Emptied)
  unfolding clear_values
  clear_values-Emptied = record { at = λ s h. h }

  pub flush_db-Coherent : (env : FlushEnv) → Ensures C C (flush_db x ns env) (λ _. C)
  unfolding flush_db
  flush_db-Coherent env =
      Ensures-bind (λ _. Emptied) (λ _. C) (drop_cached x ns)
        (λ _. gets (λ s. live_in s.log.index x.now s.log.index.map) >>= λ live_keys.
          on_log (flush env) >>= λ rev.
          clear_values x ns >>= λ _. notify_deleted x ns rev live_keys)
        drop_cached-Emptied
        λ _.
          Ensures-bind (λ _. Emptied) (λ _. C)
            (gets (λ s. live_in s.log.index x.now s.log.index.map)) _
            (Ensures-gets (λ _. Emptied) _ (λ s h. h))
            λ live_keys.
              Ensures-bind (λ _. Emptied) (λ _. C) (on_log (flush env)) _ (flush-Emptied env)
                λ rev.
                  Ensures-bind (λ _. Emptied) (λ _. C) (clear_values x ns)
                    (λ _. notify_deleted x ns rev live_keys) clear_values-Emptied
                    λ _.
                      Ensures-weaken C Emptied (notify_deleted x ns rev live_keys) (λ _. Emptied)
                        (λ _. C) (λ _. Emptied→Coherent) (notify_deleted-Emptied rev live_keys)
