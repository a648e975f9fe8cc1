-- ===== src/Engine/Store/Scan/Pages.antt =====
-- A client of `scan` in crates/engine/src/store.rs that follows the cursors sees every key that is
-- live and passes the pattern.
use kv.Prelude.{
  ℕ, zero, suc, ◌≡◌, ◌<◌, refl, ap, ◌∙◌, Bool, true, List, [], ◌∷◌, ◌++◌, Option, none, some,
  length, Bytes, bytes_eq, bytes_lt, arith, All, if_elim,
}
use kv.Prelude.ByteMap.{ByteMap}
use kv.Prelude.ByteMap.Order.{IsSorted}
use kv.Engine.Index
use kv.Engine.Index.{NsIndex, IndexEntry, yields}
use kv.Engine.Index.Scan.{remaining, scan_all, scan_all-remaining, follow}
use kv.Engine.Index.Scan.Keys.{live_keys, above, after}
use kv.Engine.Store.Glob.{glob_match}
use kv.Engine.Store.Glob.Spec.{Matches, glob_match-Matches}
use kv.Engine.Store.Scan.{resume_after, answers, passes, page_of, scan, more, scan_pages}

-- Every key of a list satisfies a predicate that every kept key does.
module _ (P : Bytes → Type 0) where
  All-live_keys :
      (keep : Bytes → Bool) (m : ByteMap IndexEntry)
      → ((k : Bytes) → keep k ≡ true → P k)
      → All P (live_keys keep m)
  unfolding live_keys
  All-live_keys keep [] h = tt
  All-live_keys keep ((k, e) ∷ m) h =
      if_elim (All P) (keep k) (k ∷ live_keys keep m) (live_keys keep m)
        (λ kept. (h k kept, All-live_keys keep m h)) (λ _. All-live_keys keep m h)

  All-above : (c : Bytes) (ks : List Bytes) → All P ks → All P (above c ks)
  unfolding above
  All-above c [] h = tt
  All-above c (k ∷ ks) h =
      if_elim (All P) (bytes_lt c k) (k ∷ above c ks) (above c ks) (λ _. (h.0, All-above c ks h.1))
        (λ _. All-above c ks h.1)

  All-after : (c : Option Bytes) (ks : List Bytes) → All P ks → All P (after c ks)
  All-after none ks h = h
  All-after (some c) ks h = All-above c ks h

-- What a pattern says of a key that is listed.
abbrev pub Described : Option Bytes → Bytes → Type 0
Described none k = Unit
Described (some p) k = Matches p k

passes-Described :
    (pattern : Option Bytes) (k : Bytes) → passes pattern k ≡ true → Described pattern k
passes-Described none k h = tt
passes-Described (some p) k h = glob_match-Matches p k (answered (glob_match p k) h)
  where
    answered : (o : Option Bool) → answers o ≡ true → o ≡ some true
    answered (some b) h = ap some h
    answered none h = cc

yields-filter :
    (idx : NsIndex) (now : ℕ) (filter : Bytes → Bool) (k : Bytes)
    → yields idx now filter k ≡ true
    → filter k ≡ true
unfolding yields
yields-filter idx now filter k h = ground arith

module _ (idx : NsIndex) (pattern : Option Bytes) (count now : ℕ) where
  followed :
      (o : List Bytes × Option Bytes) (rest : Option Bytes → List Bytes)
      (again : Bytes → List Bytes)
      → ((k : Bytes) → again (1 ∷ k) ≡ rest (some k))
      → more (page_of o) again ≡ follow o (λ k. rest (some k))
  unfolding bytes_eq
  followed (keys, none) rest again h = refl
  followed (keys, some k) rest again h = ap (λ (l : List Bytes). keys ++ l) (h k)

  scan_pages-scan_all :
      (fuel : ℕ) (cursor : Bytes)
      → scan_pages fuel idx cursor pattern count now
        ≡ scan_all fuel idx (resume_after cursor) count now (passes pattern)
  unfolding scan_pages scan_all scan resume_after bytes_eq
  scan_pages-scan_all zero cursor = refl
  scan_pages-scan_all (suc fuel) cursor =
      followed (Index.scan idx (resume_after cursor) count now (passes pattern))
        (λ c. scan_all fuel idx c count now (passes pattern))
        (λ c. scan_pages fuel idx c pattern count now) (λ k. scan_pages-scan_all fuel (1 ∷ k))

  -- A client that asks scan for pages of any size, from any cursor, and follows the cursors until
  -- it gets `0` collects exactly the live keys behind its first cursor that the pattern accepts,
  -- once each and in order, and stops; every key that it collects is described by the pattern.
  -- Conditions: the map of the index is in order and does not change between the pages, and the
  -- fuel of the client exceeds the number of those keys.
  pub scan_pages-remaining :
      (fuel : ℕ) (cursor : Bytes)
      → IsSorted idx.map
      → length (remaining idx (resume_after cursor) now (passes pattern)) < fuel
      → (scan_pages fuel idx cursor pattern count now
          ≡ remaining idx (resume_after cursor) now (passes pattern))
        × All (Described pattern) (scan_pages fuel idx cursor pattern count now)
  scan_pages-remaining fuel cursor s h =
      let keys = remaining idx (resume_after cursor) now (passes pattern) in
      let same : scan_pages fuel idx cursor pattern count now ≡ keys =
        scan_pages-scan_all fuel cursor
        ∙ scan_all-remaining fuel idx (resume_after cursor) count now (passes pattern) s h in
      (
        same,
        rw same (
            All-after (Described pattern) (resume_after cursor) _ (
              All-live_keys (Described pattern) (yields idx now (passes pattern)) idx.map
                (λ k y. passes-Described pattern k (yields-filter idx now (passes pattern) k y)))),
      )
