-- ===== src/Prelude/ByteMap/Order.antt =====
-- The order of the keys: what the operations keep, and how they change the number of entries.
use Prim.Native.Nat.{suc}
use mathlib.Core.Path.{◌≡◌, refl, sym, subst}
use mathlib.Core.Bool.{true}
use mathlib.Core.Logic.{inl, inr}
use mathlib.Core.List.{[], ◌∷◌}
use mathlib.Core.Option.{Option, none, some}
use native.Mathlib.Omega.{arith}
use kv.Prelude.Lists.{length}
use kv.Prelude.Tests.{if◌then◌else◌, is_some, Bool-cases}
use kv.Prelude.ByteStrings.{
  Bytes, bytes_eq, bytes_eq_iff, bytes_lt, bytes_lt_irrefl, bytes_lt_trans, bytes_lt_total,
  eq_of_bytes_eq,
}
use kv.Prelude.ByteMap.{ByteMap, get, insert, remove, put}

module _ {ℓ} {V : Type ℓ} where
  -- Every key of the map is above `k`.
  abbrev pub Below : Bytes → ByteMap V → Type ℓ
  Below k [] = Unit
  Below k ((j, v) ∷ m) = (bytes_lt k j ≡ true) × Below k m

  abbrev pub IsSorted : ByteMap V → Type ℓ
  IsSorted [] = Unit
  IsSorted ((k, v) ∷ m) = Below k m × IsSorted m

  pub Below-trans : (k j : Bytes) (m : ByteMap V) → bytes_lt k j ≡ true → Below j m → Below k m
  Below-trans k j [] h b = tt
  Below-trans k j ((i, v) ∷ m) h b = (bytes_lt_trans k j i h b.0, Below-trans k j m h b.1)

  pub get-Below : (k : Bytes) (m : ByteMap V) → Below k m → get k m ≡ none
  unfolding get
  get-Below k [] b = refl
  get-Below k ((i, v) ∷ m) b =
      ground (arith, get-Below k m b.1, bytes_eq_iff k i, bytes_lt_irrefl k, b.0)

  pub remove-Below : (k : Bytes) (m : ByteMap V) → Below k m → remove k m ≡ m
  unfolding remove
  remove-Below k [] b = refl
  remove-Below k ((i, v) ∷ m) b =
      ground (arith, remove-Below k m b.1, bytes_eq_iff k i, bytes_lt_irrefl k, b.0)

  Below-insert :
      (j k : Bytes) (v : V) (m : ByteMap V)
      → bytes_lt j k ≡ true
      → Below j m
      → Below j (insert k v m)
  unfolding insert
  Below-insert j k v [] h b = (h, tt)
  Below-insert j k v ((i, w) ∷ m) h b = elim (Bool-cases (bytes_eq k i)) [
    | inl e ↦ rw e (h, b.1)
    | inr e ↦ elim (Bool-cases (bytes_lt k i)) [
      | inl l ↦ rw (e, l) (h, b)
      | inr l ↦ rw (e, l) (b.0, Below-insert j k v m h b.1)
    ]
  ]

  pub insert-IsSorted : (k : Bytes) (v : V) (m : ByteMap V) → IsSorted m → IsSorted (insert k v m)
  unfolding insert
  insert-IsSorted k v [] s = (tt, tt)
  insert-IsSorted k v ((i, w) ∷ m) s = elim (Bool-cases (bytes_eq k i)) [
    | inl e ↦ rw e (subst (λ x. Below x m) (sym (eq_of_bytes_eq k i e)) s.0, s.1)
    | inr e ↦ elim (Bool-cases (bytes_lt k i)) [
      | inl l ↦ rw (e, l) ((l, Below-trans k i m l s.0), s)
      | inr l ↦
          rw (e, l) (Below-insert i k v m (bytes_lt_total k i l e) s.0, insert-IsSorted k v m s.1)
    ]
  ]

  Below-remove : (j k : Bytes) (m : ByteMap V) → Below j m → Below j (remove k m)
  unfolding remove
  Below-remove j k [] b = tt
  Below-remove j k ((i, w) ∷ m) b = elim (Bool-cases (bytes_eq k i)) [
    | inl e ↦ rw e (Below-remove j k m b.1)
    | inr e ↦ rw e (b.0, Below-remove j k m b.1)
  ]

  pub remove-IsSorted : (k : Bytes) (m : ByteMap V) → IsSorted m → IsSorted (remove k m)
  unfolding remove
  remove-IsSorted k [] s = tt
  remove-IsSorted k ((i, w) ∷ m) s = elim (Bool-cases (bytes_eq k i)) [
    | inl e ↦ rw e (remove-IsSorted k m s.1)
    | inr e ↦ rw e (Below-remove i k m s.0, remove-IsSorted k m s.1)
  ]

  pub put-IsSorted : (k : Bytes) (o : Option V) (m : ByteMap V) → IsSorted m → IsSorted (put k o m)
  unfolding put
  put-IsSorted k none m s = remove-IsSorted k m s
  put-IsSorted k (some v) m s = insert-IsSorted k v m s

  -- A new key is one entry more, a known one is none.
  pub length-insert :
      (k : Bytes) (v : V) (m : ByteMap V)
      → IsSorted m
      → length (insert k v m) ≡ (if is_some (get k m) then length m else suc (length m))
  unfolding insert get
  length-insert k v [] s = refl
  length-insert k v ((i, w) ∷ m) s = elim (Bool-cases (bytes_eq k i)) [
    | inl e ↦ rw e refl
    | inr e ↦ elim (Bool-cases (bytes_lt k i)) [
      | inl l ↦ rw (e, l, get-Below k m (Below-trans k i m l s.0)) refl
      | inr l ↦ rw (e, l, length-insert k v m s.1) (ground arith)
    ]
  ]

  pub length-remove :
      (k : Bytes) (m : ByteMap V)
      → IsSorted m
      → length m ≡ (if is_some (get k m) then suc (length (remove k m)) else length (remove k m))
  unfolding remove get
  length-remove k [] s = refl
  length-remove k ((i, w) ∷ m) s = elim (Bool-cases (bytes_eq k i)) [
    | inl e ↦
        rw e (rw (remove-Below k m (subst (λ x. Below x m) (sym (eq_of_bytes_eq k i e)) s.0)) refl)
    | inr e ↦ rw e (ground (arith, length-remove k m s.1))
  ]
