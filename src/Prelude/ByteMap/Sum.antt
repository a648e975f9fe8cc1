-- ===== src/Prelude/ByteMap/Sum.antt =====
-- Sums over the values of a map.
use Prim.Native.Nat.{ℕ, ◌+◌}
use mathlib.Core.Path.{◌≡◌, refl, sym, subst}
use mathlib.Core.Logic.{inl, inr}
use mathlib.Core.List.{[], ◌∷◌}
use mathlib.Core.Option.{none, some}
use native.Mathlib.Omega.{arith}
use kv.Prelude.Tests.{Bool-cases}
use kv.Prelude.ByteStrings.{Bytes, bytes_eq, bytes_lt, eq_of_bytes_eq}
use kv.Prelude.ByteMap.{ByteMap, get, insert, remove}
use kv.Prelude.ByteMap.Order.{Below, Below-trans, IsSorted, get-Below, remove-Below}

module _ {ℓ} {V : Type ℓ} (w : V → ℕ) where
  unfoldable pub sum_of : ByteMap V → ℕ
  sum_of [] = 0
  sum_of ((k, v) ∷ m) = w v + sum_of m

  -- The share of one key.
  abbrev pub share : Bytes → ByteMap V → ℕ
  share k m = elim (get k m) [ none ↦ 0 | some v ↦ w v ]

  pub sum-insert :
      (k : Bytes) (v : V) (m : ByteMap V)
      → IsSorted m
      → sum_of (insert k v m) + share k m ≡ sum_of m + w v
  unfolding sum_of insert get
  sum-insert k v [] s = ground arith
  sum-insert k v ((i, u) ∷ m) s = elim (Bool-cases (bytes_eq k i)) [
    | inl e ↦ ground (arith, e)
    | inr n ↦ elim (Bool-cases (bytes_lt k i)) [
      | inl l ↦ ground (arith, n, l, get-Below k m (Below-trans k i m l s.0))
      | inr g ↦ ground (arith, n, g, sum-insert k v m s.1)
    ]
  ]

  pub sum-remove :
      (k : Bytes) (m : ByteMap V) → IsSorted m → sum_of (remove k m) + share k m ≡ sum_of m
  unfolding sum_of remove get
  sum-remove k [] s = refl
  sum-remove k ((i, u) ∷ m) s = elim (Bool-cases (bytes_eq k i)) [
    | inl e ↦
        ground
          (arith, e, remove-Below k m (subst (λ x. Below x m) (sym (eq_of_bytes_eq k i e)) s.0))
    | inr n ↦ ground (arith, n, sum-remove k m s.1)
  ]
