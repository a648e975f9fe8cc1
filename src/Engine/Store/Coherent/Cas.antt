-- ===== src/Engine/Store/Coherent/Cas.antt =====
-- Compare-and-set in crates/engine/src/store.rs: a conditional write that is given the revision that
-- the index has for the key is made.
use kv.Prelude.{ℕ, ◌≡◌, refl, true, [], Option, none, some, Bytes, ok, err, ok_or, length, arith}
use kv.Engine.Error.{Result, invalid_input}
use kv.Engine.Index.{IndexEntry}
use kv.Engine.Log.State.{NamespaceLog}
use kv.Engine.Log.Write.{WriteCondition, key_absent, revision, check, live_rev}
use kv.Engine.Log.Read.{read_value}
use kv.Engine.Log.Revisions.{revision_of}
use kv.Engine.Store.{
  Entry, SetOptions, Ctx, Shard, Exec, lift, continue, ◌>>=◌, index_of, cache_get, cache_remove,
  meta_bytes, expiry_of_ttl, has_expired,
}
use kv.Engine.Store.Names.{is_valid_ns_name}
use kv.Engine.Store.Integer.{checked_add, to_string}
use kv.Proto.Integer.{ℤ}
use kv.Engine.Store.Reads.{Hit, tombstone, get}
use kv.Engine.Store.Writes.{
  put_cond, publish, published, setrev, Read, incr_indexed, incr_looked_up, incr_read, int_of,
  incr_written, incr_round, incr_loop, incr, next_round,
}
use kv.Engine.Store.Ensures.{
  Post, Ensures, Ensures-pure, Ensures-lift, Ensures-if, Ensures-bind, Ensures-weaken, Ensures-ok,
}
use kv.Engine.Store.Coherent.{Coherent, Except, Found, Coherent→Except, cache_get-Found}
use kv.Engine.Store.Coherent.Steps.{
  Gone, tombstone-Gone, put_cond-Made, Made, Says, Has-Says, removed,
}
use kv.Engine.Store.Coherent.Reads.{get-Answers, Seen, Seen-Has, absent-Rev}
use kv.Engine.Store.Coherent.Writes.{Published, publish-Published}

module _ (others : Bytes → Option NamespaceLog) (x : Ctx) (ns : Bytes)
    (named : is_valid_ns_name ns ≡ true) (key : Bytes) where
  abbrev F : Shard → Type 0
  F = Except others ns key

  abbrev C : Shard → Type 0
  C = Coherent others ns

  -- A write that was made: it returned a revision, which the index has for the key.
  abbrev pub Written : Option ℕ → Shard → Type 0
  Written none s = ⊥
  Written (some rev) s = C s × (revision_of s.log.index key ≡ some rev)

  published-Written :
      (value : Bytes) (expires : Option ℕ) (metadata : Option Bytes) (r : Option ℕ)
      → Ensures F
          (Made others x ns named key value (meta_bytes x.json metadata) expires r)
          (published x ns key value expires metadata r)
          Written
  published-Written value expires metadata none = record { at = λ s h. absurd h }
  published-Written value expires metadata (some rev) =
      Ensures-bind (λ _. Published others x ns named key rev) Written
        (publish x ns key value expires metadata (length (meta_bytes x.json metadata)) rev) _
        (publish-Published others x ns named key value expires metadata
          (length (meta_bytes x.json metadata)) rev)
        (λ _. Ensures-pure Written (some rev) (λ s h. h))

  -- The live revision is the one given.
  revision-Holds :
      (rev : ℕ) (log : NamespaceLog)
      → live_rev log.index key x.now ≡ some rev
      → check (revision rev) (live_rev log.index key x.now) ≡ true
  unfolding check
  revision-Holds rev log e = rw e (ground arith)

  absent-Holds :
      (log : NamespaceLog)
      → live_rev log.index key x.now ≡ none
      → check key_absent (live_rev log.index key x.now) ≡ true
  unfolding check
  absent-Holds log e = rw e refl

  setrev-Written :
      (value : Bytes) (opts : SetOptions) (rev : ℕ)
      → Ensures F
          (λ s. C s × Says others x ns named key (some rev) s.log)
          (setrev x ns key value opts rev)
          Written
  unfolding setrev
  setrev-Written value opts rev =
      Ensures-bind (λ _ s. C s × Says others x ns named key (some rev) s.log) Written
        (lift (expiry_of_ttl opts.ttl x.now)) _
        (Ensures-weaken F (λ s. C s × Says others x ns named key (some rev) s.log) _
          (λ e s.
            (C s × Says others x ns named key (some rev) s.log)
            × (expiry_of_ttl opts.ttl x.now ≡ ok e))
          (λ _ s. C s × Says others x ns named key (some rev) s.log) (λ _ s h. h.0)
          (Ensures-lift (expiry_of_ttl opts.ttl x.now)
            (λ s h. Coherent→Except others ns key s h.0)))
        λ expires.
          Ensures-bind (Made others x ns named key value (meta_bytes x.json opts.metadata) expires)
            Written
            (put_cond x ns 0 key value (meta_bytes x.json opts.metadata) expires (revision rev)) _
            (record {
              at = λ s h.
                  (put_cond-Made others x ns named key value (meta_bytes x.json opts.metadata)
                      expires 0 (revision rev)).at
                    s (h.0, revision-Holds rev s.log h.1.1);
            })
            (published-Written value expires opts.metadata)

  -- A setrev that is given the revision of an entry that get returned is never refused: if it
  -- succeeds it returns a revision, the index has that revision for the key, and the cache agrees
  -- with the indexes. Conditions: the cache agreed with the indexes before the get, the name of
  -- the namespace is valid, and both read the same clock with no operation between them.
  pub get-setrev :
      (e : Entry) (value : Bytes) (opts : SetOptions) (s s1 s2 : Shard) (r : Option ℕ)
      → Coherent others ns s
      → get x ns key s ≡ (s1, ok (some e))
      → setrev x ns key value opts e.revision s1 ≡ (s2, ok r)
      → Written r s2
  get-setrev e value opts s s1 s2 r h got set_to =
      Ensures-ok (setrev-Written value opts e.revision)
        (Ensures-ok (get-Answers others x ns named key) h got) set_to

  -- The condition that the read of incr gives to its write holds.
  abbrev ReadHolds : Read x ns → Shard → Type 0
  ReadHolds (current, expires, cond) s = C s × (check cond (live_rev s.log.index key x.now) ≡ true)

  none_there :
      (s : Shard)
      → C s × Says others x ns named key none s.log
      → ReadHolds (none, none, key_absent) s
  none_there s h = (h.0, absent-Holds s.log h.1.1)

  incr_indexed-Holds :
      (e : Option IndexEntry × Option ℕ)
      → Ensures F (Seen others x ns named key e) (incr_indexed x ns key e) ReadHolds
  incr_indexed-Holds (none, expires) =
      Ensures-pure ReadHolds _
        (λ s h. none_there s (h.0, absent-Rev others x ns named key expires s h))
  incr_indexed-Holds (some e, expires) =
      Ensures-if ReadHolds (has_expired expires x.now) _ _
        (λ _.
          Ensures-bind (λ _. Gone others x ns named key) ReadHolds (tombstone x ns 0 key) _
            (record { at = λ s h. (tombstone-Gone others x ns named key 0).at s h.0 })
            λ _.
              Ensures-bind (λ _ s. C s × Says others x ns named key none s.log) ReadHolds
                (cache_remove ns key) _
                (removed others x ns named key (Says others x ns named key none))
                (λ _. Ensures-pure ReadHolds _ none_there))
        (λ fresh.
          Ensures-bind (λ _. Seen others x ns named key (some e, expires)) ReadHolds
            (λ s. lift (read_value x.deps s.log e) s) _
            (record { at = λ s h. read_at s h (read_value x.deps s.log e) })
            (λ (value, meta). Ensures-pure ReadHolds _ (λ s h. (
              h.0,
              revision-Holds e.tstamp_ms s.log
                  (Has-Says others x ns named key s.log (some e.tstamp_ms) expires
                    (Seen-Has others x ns named key e expires s h) fresh).1,
            ))))
    where
      read_at :
          (s : Shard)
          → Seen others x ns named key (some e, expires) s
          → (r : Result (Bytes × Bytes))
          → Post F (λ _. Seen others x ns named key (some e, expires)) (lift r s)
      read_at s h (ok v) = h
      read_at s h (err e') = Coherent→Except others ns key s h.0

  incr_looked_up-Holds :
      (c : Option Hit)
      → Ensures F (Found others ns named key x.now c) (incr_looked_up x ns key c) ReadHolds
  unfolding ◌>>=◌
  incr_looked_up-Holds (some (v, y, m, rev)) = record {
    at = λ s h. (
      h.0,
      revision-Holds rev s.log (Has-Says others x ns named key s.log (some rev) y h.1 h.2).1,
    );
  }
  incr_looked_up-Holds none = record {
    at = λ s h. (incr_indexed-Holds (index_of s key)).at s (h.0, refl);
  }

  -- The number that a round returned was written; a race is not lost.
  abbrev pub Increased : Option ℤ → Shard → Type 0
  Increased none s = ⊥
  Increased (some n) s = C s

  module _ (cond : WriteCondition) where
    abbrev Ready : Shard → Type 0
    Ready s = C s × (check cond (live_rev s.log.index key x.now) ≡ true)

    lifted : {A : Type 0} (r : Result A) → Ensures F Ready (lift r) (λ _. Ready)
    lifted r =
        Ensures-weaken F Ready (lift r) (λ a s. Ready s × (r ≡ ok a)) (λ _. Ready) (λ _ s h. h.0)
          (Ensures-lift r (λ s h. Coherent→Except others ns key s h.0))

    written :
        (new_val : ℤ) (expires r : Option ℕ)
        → Ensures F
            (Made others x ns named key (to_string new_val) [] expires r)
            (incr_written x ns key new_val expires r)
            Increased
    written new_val expires none = record { at = λ s h. absurd h }
    written new_val expires (some rev) =
        Ensures-bind (λ _. Published others x ns named key rev) Increased
          (publish x ns key (to_string new_val) expires none 0 rev) _
          (publish-Published others x ns named key (to_string new_val) expires none 0 rev)
          (λ _. Ensures-pure Increased (some new_val) (λ s h. h.0))

  pub incr_round-Increased : (delta : ℤ) → Ensures F C (incr_round x ns key delta) Increased
  unfolding incr_round incr_read
  incr_round-Increased delta =
      Ensures-bind ReadHolds Increased (incr_read x ns key) _
        (Ensures-bind (Found others ns named key x.now) ReadHolds (cache_get ns key x.now) _
          (cache_get-Found others ns named key x.now) incr_looked_up-Holds)
        λ (current, expires, cond).
          Ensures-bind (λ _. Ready cond) Increased
            (lift (ok_or (int_of x ns current) invalid_input)) _ (lifted cond _)
            λ n.
              Ensures-bind (λ _. Ready cond) Increased
                (lift (ok_or (checked_add n delta) invalid_input)) _ (lifted cond _)
                λ new_val.
                  Ensures-bind (Made others x ns named key (to_string new_val) [] expires) Increased
                    (put_cond x ns 1 key (to_string new_val) [] expires cond) _
                    (put_cond-Made others x ns named key (to_string new_val) [] expires 1 cond)
                    (written cond new_val expires)

-- What one round gives is what the loop gives.
abbrev pub Ends : Shard × Result (Option ℤ) → Shard × Result ℤ → Type 0
Ends (s, ok (some n)) r = r ≡ (s, ok n)
Ends (s, ok none) r = ⊥
Ends (s, err e) r = r ≡ (s, err e)

module _ (others : Bytes → Option NamespaceLog) (xs : ℕ → Ctx) (ns : Bytes)
    (named : is_valid_ns_name ns ≡ true) (key : Bytes) (delta : ℤ) where
  round-Ends :
      (again : Exec ℤ) (r : Shard × Result (Option ℤ))
      → Post (Except others ns key) (Increased others (xs 63) ns named key) r
      → Ends r (continue r (λ o. next_round xs ns o again))
  round-Ends again (s, ok (some n)) h = refl
  round-Ends again (s, ok none) h = h
  round-Ends again (s, err e) h = refl

  -- Incr ends in its first round: it returns the number of that round, or its error, and never
  -- comes to a second one. Conditions: the cache agrees with the indexes, the name of the
  -- namespace is valid, and no other operation runs between the read of the round and its write.
  pub incr-Ends :
      (s : Shard)
      → Coherent others ns s
      → Ends (incr_round (xs 63) ns key delta s) (incr xs ns key delta s)
  unfolding incr incr_loop ◌>>=◌
  incr-Ends s h =
      round-Ends (incr_loop xs ns 63 key delta) (incr_round (xs 63) ns key delta s)
        ((incr_round-Increased others (xs 63) ns named key delta).at s h)
