-- ===== src/Engine/Cache/Valid.antt =====
-- The invariant of the cache, and that the eviction keeps it: crates/engine/src/cache.rs.
use kv.Prelude.{
  ℕ, ◌-◌, ◌≡◌, refl, ap, ◌∙◌, Bool, true, false, ◌||◌, List, [], ◌∷◌, ◌++◌, Option, none, some, ◌⊎◌,
  inl, inr, Bool-cases, Bytes, bytes_eq, bytes_eq_iff, bytes_eq_refl, eq_of_bytes_eq, arith,
}
use kv.Prelude.ByteMap
use kv.Prelude.ByteMap.{ByteMap, get-insert, get-remove}
use kv.Prelude.ByteMap.Order.{IsSorted, insert-IsSorted, remove-IsSorted}
use kv.Prelude.ByteMap.Sum.{sum_of, sum-insert, sum-remove}
use kv.Engine.Cache.{MemCache, CacheEntry}

-- A slot for the key.
unfoldable pub in_slots : Bytes → List Bytes → Bool
in_slots k [] = false
in_slots k (j ∷ slots) = bytes_eq k j || in_slots k slots

pub in_slots-append :
    (k : Bytes) (a b : List Bytes) → in_slots k (a ++ b) ≡ (in_slots k a || in_slots k b)
unfolding in_slots
in_slots-append k [] b = refl
in_slots-append k (j ∷ a) b = ground (arith, in_slots-append k a b)

abbrev pub bytes_of : ByteMap CacheEntry → ℕ
bytes_of m = sum_of (λ (e : CacheEntry). e.size) m

-- The map is in order, the counter is the sum of the sizes, and every entry has a slot in one of
-- the queues, here `small` and `main`.
pub record Holds (entries : ByteMap CacheEntry) (current_bytes : ℕ) (small main : List Bytes)
    : Type 0 where
  pub sorted : IsSorted entries
  pub counted : current_bytes ≡ bytes_of entries
  pub covered :
      (k : Bytes)
      → ByteMap.contains_key k entries ≡ true
      → (in_slots k small || in_slots k main) ≡ true

abbrev pub IsValid : MemCache → Type 0
IsValid c = Holds c.entries c.current_bytes c.small c.main

module _ (entries : ByteMap CacheEntry) (current : ℕ) (key : Bytes) (slots main : List Bytes)
    (h : Holds entries current (key ∷ slots) main) where
  pub skip-Holds : ByteMap.get key entries ≡ none → Holds entries current slots main
  unfolding in_slots
  skip-Holds absent = record {
    sorted = h.sorted;
    counted = h.counted;
    covered = λ k e. ground (arith, h.covered k e, bytes_eq_iff k key, absent);
  }

  pub drop-Holds :
      (e : CacheEntry)
      → ByteMap.get key entries ≡ some e
      → Holds (ByteMap.remove key entries) (current - e.size) slots main
  unfolding in_slots
  drop-Holds e found = record {
    sorted = remove-IsSorted key entries h.sorted;
    counted =
        ground
          (arith, found, h.counted, sum-remove (λ (x : CacheEntry). x.size) key entries h.sorted);
    covered = λ k e'. ground (arith, h.covered k, get-remove k key entries);
  }

  pub promote-Holds :
      (e : CacheEntry)
      → ByteMap.get key entries ≡ some e
      → Holds (ByteMap.insert key (record e { freq = 0 }) entries) current slots (main ++ key ∷ [])
  unfolding in_slots
  promote-Holds e found = record {
    sorted = insert-IsSorted key (record e { freq = 0 }) entries h.sorted;
    counted = ground (
      arith,
      found,
      h.counted,
      sum-insert (λ (x : CacheEntry). x.size) key (record e { freq = 0 }) entries h.sorted,
    );
    covered = λ k e'. ground (
      arith,
      h.covered k,
      get-insert k key (record e { freq = 0 }) entries,
      in_slots-append k main (key ∷ []),
      bytes_eq_iff k key,
      found,
    );
  }

module _ (entries : ByteMap CacheEntry) (current : ℕ) (a b : List Bytes) where
  pub swap-Holds : Holds entries current a b → Holds entries current b a
  swap-Holds h = record {
    sorted = h.sorted;
    counted = h.counted;
    covered = λ k e. ground (arith, h.covered k e);
  }

  pub merge-Holds : Holds entries current a b → Holds entries current (a ++ b) []
  unfolding in_slots
  merge-Holds h = record {
    sorted = h.sorted;
    counted = h.counted;
    covered = λ k e. ground (arith, h.covered k e, in_slots-append k a b);
  }

-- A cache without slots is empty.
pub nothing-Holds :
    (entries : ByteMap CacheEntry) (current : ℕ) → Holds entries current [] [] → entries ≡ []
unfolding in_slots ByteMap.get
nothing-Holds [] current h = refl
nothing-Holds ((k, e) ∷ m) current h = ground (arith, h.covered k, bytes_eq_refl k)

-- What the cache returns for a key: the value, expiry time, metadata and revision of its entry.
abbrev pub Content : Type 0
Content = Bytes × Option ℕ × Option Bytes × ℕ

abbrev pub content_of : CacheEntry → Content
content_of e = (e.value, e.expires_at_ms, e.metadata, e.revision)

abbrev pub content : ByteMap CacheEntry → Bytes → Option Content
content m k = elim (ByteMap.get k m) as (λ _. Option Content) [
  | none ↦ none
  | some e ↦ some (content_of e)
]

-- Nothing has another content than before; entries may be gone.
abbrev pub Within : ByteMap CacheEntry → ByteMap CacheEntry → Type 0
Within m' m = (k : Bytes) → (content m' k ≡ none) ⊎ (content m' k ≡ content m k)

pub Within-refl : (m : ByteMap CacheEntry) → Within m m
Within-refl m k = inr refl

pub Within-trans : (a b c : ByteMap CacheEntry) → Within a b → Within b c → Within a c
Within-trans a b c h g k = elim (h k) [
  | inl gone ↦ inl gone
  | inr same ↦ elim (g k) [ inl gone ↦ inl (same ∙ gone) | inr same' ↦ inr (same ∙ same') ]
]

pub Within-remove : (key : Bytes) (m : ByteMap CacheEntry) → Within (ByteMap.remove key m) m
Within-remove key m k = elim (Bool-cases (bytes_eq k key)) [
  | inl same ↦ inl (ground (arith, get-remove k key m, same))
  | inr other ↦ inr (ground (arith, get-remove k key m, other))
]

pub Within-cool :
    (key : Bytes) (m : ByteMap CacheEntry) (e : CacheEntry)
    → ByteMap.get key m ≡ some e
    → Within (ByteMap.insert key (record e { freq = 0 }) m) m
Within-cool key m e found k = elim (Bool-cases (bytes_eq k key)) [
  | inl same ↦ inr (
      ground (
        arith,
        get-insert k key (record e { freq = 0 }) m,
        same,
        found,
        ap (λ j. ByteMap.get j m) (eq_of_bytes_eq k key same),
      ))
  | inr other ↦ inr (ground (arith, get-insert k key (record e { freq = 0 }) m, other))
]
