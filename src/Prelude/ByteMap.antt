-- ===== src/Prelude/ByteMap.antt =====
-- Rust's `BTreeMap` and `FxHashMap` with byte-string keys: an association list in the order of its
-- keys. The program never depends on the order in which a hash map is walked.
pub mod Order
pub mod Sum
use mathlib.Core.Path.{◌≡◌}
use mathlib.Core.Bool.{Bool, true, false}
use mathlib.Core.List.{List, [], ◌∷◌, map}
use mathlib.Core.Option.{Option, none, some}
use native.Mathlib.Omega.{arith}
use kv.Prelude.Tests.{if◌then◌else◌, is_some}
use kv.Prelude.ByteStrings.{Bytes, bytes_eq, bytes_eq_iff, bytes_lt}

abbrev pub ByteMap {ℓ} : Type ℓ → Type ℓ
ByteMap V = List (Bytes × V)

module _ {ℓ} {V : Type ℓ} where
  unfoldable pub get : Bytes → ByteMap V → Option V
  get k [] = none
  get k ((j, v) ∷ m) = if bytes_eq k j then some v else get k m

  unfoldable pub insert : Bytes → V → ByteMap V → ByteMap V
  insert k v [] = (k, v) ∷ []
  insert k v ((j, w) ∷ m) =
      if bytes_eq k j
      then (k, v) ∷ m
      else if bytes_lt k j
      then (k, v) ∷ ((j, w) ∷ m)
      else (j, w) ∷ insert k v m

  unfoldable pub remove : Bytes → ByteMap V → ByteMap V
  remove k [] = []
  remove k ((j, w) ∷ m) = let rest = remove k m in if bytes_eq k j then rest else (j, w) ∷ rest

  -- `Some` sets the key, `None` takes it out.
  unfoldable pub put : Bytes → Option V → ByteMap V → ByteMap V
  unfolding insert remove
  put k none m = remove k m
  put k (some v) m = insert k v m

  abbrev pub contains_key : Bytes → ByteMap V → Bool
  contains_key k m = is_some (get k m)

  abbrev pub keys : ByteMap V → List Bytes
  keys = map (λ e. e.0)

  pub get-insert :
      (j k : Bytes) (v : V) (m : ByteMap V)
      → get j (insert k v m) ≡ (if bytes_eq j k then some v else get j m)
  unfolding get insert
  get-insert j k v [] = ground arith
  get-insert j k v ((i, w) ∷ m) =
      ground (arith, get-insert j k v m, bytes_eq_iff j k, bytes_eq_iff k i, bytes_eq_iff j i)

  pub get-remove :
      (j k : Bytes) (m : ByteMap V) → get j (remove k m) ≡ (if bytes_eq j k then none else get j m)
  unfolding get remove
  get-remove j k [] = ground arith
  get-remove j k ((i, w) ∷ m) =
      ground (arith, get-remove j k m, bytes_eq_iff j k, bytes_eq_iff k i, bytes_eq_iff j i)

  pub get-put :
      (j k : Bytes) (o : Option V) (m : ByteMap V)
      → get j (put k o m) ≡ (if bytes_eq j k then o else get j m)
  unfolding put
  get-put j k none m = get-remove j k m
  get-put j k (some v) m = get-insert j k v m

module _ {ℓ} {V : Type ℓ} where
  pub remove_absent : (k : Bytes) (m : ByteMap V) → get k m ≡ none → remove k m ≡ m
  unfolding get remove
  remove_absent k [] h = ground arith
  remove_absent k ((j, w) ∷ m) h = ground (arith, remove_absent k m)

pub ruleset map_laws = (get-insert, get-remove, get-put)
