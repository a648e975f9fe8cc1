-- ===== src/Engine/Index/Scan/Keys.antt =====
-- Ascending lists of keys, cut at a cursor.
use kv.Prelude.{
  ℕ, zero, suc, ◌≤◌, ◌≡◌, refl, inl, inr, Bool, true, List, [], ◌∷◌, Option, none, some, arith,
  if◌then◌else◌, length, take, drop, Bytes, bytes_lt, bytes_lt_irrefl, bytes_lt_trans,
  bytes_lt_asymm, Bool-cases,
}
use kv.Prelude.ByteMap.{ByteMap}
use kv.Prelude.ByteMap.Order.{IsSorted, Below}
use kv.Engine.Index.{IndexEntry, range_after, last}

-- The keys of the map that a scan is to yield, in order.
unfoldable pub live_keys : (Bytes → Bool) → ByteMap IndexEntry → List Bytes
live_keys keep [] = []
live_keys keep ((k, e) ∷ m) = let rest = live_keys keep m in if keep k then k ∷ rest else rest

unfoldable pub above : Bytes → List Bytes → List Bytes
above c [] = []
above c (k ∷ ks) = let rest = above c ks in if bytes_lt c k then k ∷ rest else rest

abbrev pub after : Option Bytes → List Bytes → List Bytes
after none ks = ks
after (some c) ks = above c ks

abbrev pub AllAbove : Bytes → List Bytes → Type 0
AllAbove c [] = Unit
AllAbove c (k ∷ ks) = (bytes_lt c k ≡ true) × AllAbove c ks

abbrev pub Ascending : List Bytes → Type 0
Ascending [] = Unit
Ascending (k ∷ ks) = AllAbove k ks × Ascending ks

pub live_keys-range_after :
    (keep : Bytes → Bool) (c : Option Bytes) (m : ByteMap IndexEntry)
    → live_keys keep (range_after c m) ≡ after c (live_keys keep m)
unfolding live_keys above range_after
live_keys-range_after keep none m = refl
live_keys-range_after keep (some c) [] = refl
live_keys-range_after keep (some c) ((k, e) ∷ m) =
    ground (arith, live_keys-range_after keep (some c) m)

AllAbove-live_keys :
    (keep : Bytes → Bool) (c : Bytes) (m : ByteMap IndexEntry)
    → Below c m
    → AllAbove c (live_keys keep m)
unfolding live_keys
AllAbove-live_keys keep c [] b = tt
AllAbove-live_keys keep c ((k, e) ∷ m) b = elim (Bool-cases (keep k)) [
  | inl y ↦ rw y (b.0, AllAbove-live_keys keep c m b.1)
  | inr n ↦ rw n (AllAbove-live_keys keep c m b.1)
]

pub live_keys-Ascending :
    (keep : Bytes → Bool) (m : ByteMap IndexEntry) → IsSorted m → Ascending (live_keys keep m)
unfolding live_keys
live_keys-Ascending keep [] s = tt
live_keys-Ascending keep ((k, e) ∷ m) s = elim (Bool-cases (keep k)) [
  | inl y ↦ rw y (AllAbove-live_keys keep k m s.0, live_keys-Ascending keep m s.1)
  | inr n ↦ rw n (live_keys-Ascending keep m s.1)
]

AllAbove-above : (c : Bytes) (ks : List Bytes) → AllAbove c (above c ks)
unfolding above
AllAbove-above c [] = tt
AllAbove-above c (k ∷ ks) = elim (Bool-cases (bytes_lt c k)) [
  | inl y ↦ rw y (y, AllAbove-above c ks)
  | inr n ↦ rw n (AllAbove-above c ks)
]

AllAbove-above_of : (x c : Bytes) (ks : List Bytes) → AllAbove x ks → AllAbove x (above c ks)
unfolding above
AllAbove-above_of x c [] a = tt
AllAbove-above_of x c (k ∷ ks) a = elim (Bool-cases (bytes_lt c k)) [
  | inl y ↦ rw y (a.0, AllAbove-above_of x c ks a.1)
  | inr n ↦ rw n (AllAbove-above_of x c ks a.1)
]

pub after-Ascending : (c : Option Bytes) (ks : List Bytes) → Ascending ks → Ascending (after c ks)
unfolding above
after-Ascending none ks s = s
after-Ascending (some c) [] s = tt
after-Ascending (some c) (k ∷ ks) s = elim (Bool-cases (bytes_lt c k)) [
  | inl y ↦ rw y (AllAbove-above_of k c ks s.0, after-Ascending (some c) ks s.1)
  | inr n ↦ rw n (after-Ascending (some c) ks s.1)
]

above-above :
    (c k : Bytes) (ks : List Bytes) → bytes_lt c k ≡ true → above k (above c ks) ≡ above k ks
unfolding above
above-above c k [] h = refl
above-above c k (j ∷ ks) h = ground (arith, above-above c k ks h, bytes_lt_trans c k j)

above_all : (c : Bytes) (ks : List Bytes) → AllAbove c ks → above c ks ≡ ks
unfolding above
above_all c [] a = refl
above_all c (k ∷ ks) a = rw a.0 (rw (above_all c ks a.1) refl)

-- The last of the first keys is above what all of them are above.
last-AllAbove :
    (x k : Bytes) (n : ℕ) (ks : List Bytes)
    → AllAbove x ks
    → last (take n ks) ≡ some k
    → bytes_lt x k ≡ true
unfolding last
last-AllAbove x k zero ks a h = cc
last-AllAbove x k (suc n) [] a h = cc
last-AllAbove x k (suc zero) (y ∷ ks) a h = ground (arith, a.0)
last-AllAbove x k (suc (suc n)) (y ∷ []) a h = ground (arith, a.0)
last-AllAbove x k (suc (suc n)) (y ∷ z ∷ ks) a h = last-AllAbove x k (suc n) (z ∷ ks) a.1 h

-- Above the last key of a page stand the keys that follow the page.
pub above-last :
    (k : Bytes) (n : ℕ) (ks : List Bytes)
    → Ascending ks
    → last (take n ks) ≡ some k
    → above k ks ≡ drop n ks
unfolding above last
above-last k zero ks s h = cc
above-last k (suc n) [] s h = cc
above-last k (suc zero) (x ∷ xs) s h = ground (arith, bytes_lt_irrefl k, above_all x xs s.0)
above-last k (suc (suc n)) (x ∷ []) s h = ground (arith, bytes_lt_irrefl k)
above-last k (suc (suc n)) (x ∷ y ∷ ys) s h =
    rw (bytes_lt_asymm x k (last-AllAbove x k (suc n) (y ∷ ys) s.0 h))
      (above-last k (suc n) (y ∷ ys) s.1 h)

-- The next page starts where this one ends, whatever cursor this one started from.
pub after-last :
    (c : Option Bytes) (k : Bytes) (n : ℕ) (ks : List Bytes)
    → Ascending ks
    → last (take n (after c ks)) ≡ some k
    → above k ks ≡ drop n (after c ks)
after-last none k n ks s h = above-last k n ks s h
after-last (some c) k n ks s h =
    rw (← above-above c k ks (last-AllAbove c k n (above c ks) (AllAbove-above c ks) h))
      (above-last k n (above c ks) (after-Ascending (some c) ks s) h)

-- A page with a key has a last one.
pub last-some : (ks : List Bytes) → 1 ≤ length ks → (j : Bytes) × (last ks ≡ some j)
unfolding last
last-some [] h = absurd (omega arith)
last-some (k ∷ []) h = (k, refl)
last-some (k ∷ j ∷ ks) h = last-some (j ∷ ks) (omega arith)
